-- ===== src/Uecc/ModArith/Inverse/Loop.antt =====
-- The loop of `uECC_vli_modInv` (uECC.c lines 682-725) and the function itself.
use ligo.Prelude.{
  ℕ, zero, suc, ◌+◌, ◌-◌, ◌*◌, ◌%◌, ◌^◌, ◌≤◌, ◌<◌, ◌≡◌, inl, inr, refl, List, [], ◌∷◌, arith,
  length, true, Bool-cases, ◌∙◌, sym, Option, some, set,
}
use ligo.Prelude.Int.{ℤ, pos, negsuc}
use ligo.Prelude.Pow.{pow_add}
use native.Mathlib.Nat.{pow-suc, mod-eq_of_lt}
use ligo.Uecc.Word.{IsWords, val}
use ligo.Uecc.Vli.{cmp_unsafe, clear, is_zero}
use ligo.Uecc.Vli.Carry.{span, val-lt-span}
use ligo.Uecc.Vli.Compare.{IsOrder, cmp_unsafe-IsOrder, is_zero_iff}
use ligo.Uecc.ModArith.{is_same, InvState, mod_inv_step, mod_inv_loop, mod_inv}
use ligo.Uecc.ModArith.Congruence.{Congruent, Congruent-mod}
use ligo.Uecc.ModArith.Inverse.Round.{Divides, IsInv, IsRound, mod_inv_step-IsRound}

-- The loop from `s` returns a reduced `u`, and `u * input` is congruent to a common divisor of
-- `a` and `b`.
pub record Finds (mod' : List ℕ) (input a b : ℕ) (out : Option (List ℕ)) : Type 0 where
  pub result : List ℕ
  pub returns : out ≡ some result
  pub divisor : ℕ
  pub left : Divides divisor a
  pub right : Divides divisor b
  pub same_length : length result ≡ length mod'
  pub words : IsWords result
  pub reduced : val result < val mod'
  pub congruent : Congruent (val mod') (val result * input) divisor

same_eq : (r : ℤ) (a b : ℕ) → IsOrder r a b → is_same r ≡ true → a ≡ b
same_eq (pos zero) a b h e = h
same_eq (pos (suc n)) a b h e = absurd (cc)
same_eq (negsuc n) a b h e = absurd (cc)

halved_bits : (i x y : ℕ) → x < 2 ^ i → 0 < x → 2 * y ≤ x → (0 < i) × (y < 2 ^ (i - 1))
halved_bits zero x y h p le = absurd (omega arith)
halved_bits (suc i) x y h p le =
    let less : suc i - 1 ≡ i = omega arith in (omega arith, rw less (omega (arith, pow-suc 2 i)))

module _ (mod' : List ℕ) (input : ℕ) (mw : IsWords mod') (nonempty : 0 < length mod')
    (odd : val mod' % 2 ≡ 1) where
  stops :
      (s : InvState)
      → IsInv mod' input s
      → val s.a ≡ val s.b
      → Finds mod' input (val s.a) (val s.b) (some s.u)
  stops s h e = record {
    result = s.u;
    returns = refl;
    divisor = val s.a;
    left = record { quotient = 1; product = omega arith };
    right = record { quotient = 1; product = omega (arith, e) };
    same_length = h.left.cofactor.same_length;
    words = h.left.cofactor.words;
    reduced = h.left.reduced;
    congruent = h.left.congruent;
  }

  Finds-round :
      {s t : InvState} {out : Option (List ℕ)}
      → IsRound mod' input s t
      → Finds mod' input (val t.a) (val t.b) out
      → Finds mod' input (val s.a) (val s.b) out
  Finds-round r f = record {
    result = f.result;
    returns = f.returns;
    divisor = f.divisor;
    same_length = f.same_length;
    words = f.words;
    reduced = f.reduced;
    congruent = f.congruent;
    left = r.left f.divisor f.left f.right;
    right = r.right f.divisor f.left f.right;
  }

  -- `i` and `j` bound the bits of the two numbers.
  mod_inv_loop-Finds :
      (fuel i j : ℕ) (s : InvState)
      → IsInv mod' input s
      → val s.a < 2 ^ i
      → val s.b < 2 ^ j
      → i + j < fuel
      → Finds mod' input (val s.a) (val s.b) (mod_inv_loop fuel s mod')
  unfolding mod_inv_loop
  mod_inv_loop-Finds zero i j s h p q lt = absurd (omega arith)
  mod_inv_loop-Finds (suc fuel) i j s h p q lt =
      let order =
        cmp_unsafe-IsOrder s.a s.b (h.left.number.same_length ∙ sym h.right.number.same_length)
          h.left.number.words h.right.number.words in
      elim (Bool-cases (is_same (cmp_unsafe s.a s.b))) [
        | inl same ↦ rw same (stops s h (same_eq (cmp_unsafe s.a s.b) _ _ order same))
        | inr other ↦
            let r = mod_inv_step-IsRound mod' input mw nonempty odd s h other in
            let t = mod_inv_step (cmp_unsafe s.a s.b) s mod' in
            rw other (elim r.shrinks [
              | inl (small, kept) ↦
                  let bits = halved_bits i _ _ p h.left.positive small in
                  Finds-round r (
                    mod_inv_loop-Finds fuel (i - 1) j t r.inv bits.1 (rw kept q)
                      (omega (arith, bits.0)))
              | inr (small, kept) ↦
                  let bits = halved_bits j _ _ q h.right.positive small in
                  Finds-round r (
                    mod_inv_loop-Finds fuel i (j - 1) t r.inv (rw kept p) bits.1
                      (omega (arith, bits.0)))
            ])
      ]

pub span-pow : (xs : List ℕ) → span xs ≡ 2 ^ (64 * length xs)
span-pow [] = refl
span-pow (x ∷ xs) =
    let next : 64 * suc (length xs) ≡ 64 + 64 * length xs = omega arith in
    rw (next, pow_add 2 64 (64 * length xs), span-pow xs) refl

-- Zeros, and the number 1.
pub clear_lem : (n : ℕ) → (length (clear n) ≡ n) × IsWords (clear n) × (val (clear n) ≡ 0)
unfolding clear
clear_lem zero = omega arith
clear_lem (suc n) =
    let rest = clear_lem n in (omega (arith, rest.0), (omega arith, rest.1), omega (arith, rest.2))

one_lem :
    (n : ℕ)
    → 0 < n
    → (length (set (clear n) 0 1) ≡ n) × IsWords (set (clear n) 0 1) × (val (set (clear n) 0 1) ≡ 1)
unfolding clear
one_lem zero p = absurd (omega arith)
one_lem (suc n) p =
    let rest = clear_lem n in (omega (arith, rest.0), (omega arith, rest.1), omega (arith, rest.2))

-- For a nonzero input and an odd modulus above 1 of the same nonzero length, `uECC_vli_modInv`
-- ends with a reduced result whose product with the input is congruent to a common divisor of
-- the input and the modulus.
pub mod_inv-Finds :
    (input mod' : List ℕ)
    → length input ≡ length mod'
    → 0 < length mod'
    → IsWords input
    → IsWords mod'
    → 0 < val input
    → val mod' % 2 ≡ 1
    → 1 < val mod'
    → Finds mod' (val input) (val input) (val mod') (mod_inv input mod')
unfolding mod_inv
mod_inv-Finds input mod' same p iw mw nz odd big =
    let n = length input in
    let one = one_lem n (rw same p) in
    let zeros = clear_lem n in
    elim (Bool-cases (is_zero input)) [
      | inl z ↦ absurd (omega (arith, (is_zero_iff input).0 z))
      | inr nonzero ↦ rw nonzero (
          mod_inv_loop-Finds mod' (val input) mw p odd (suc (2 * (64 * n))) (64 * n) (64 * n) _
            (record {
              left = record {
                number = record { same_length = same; words = iw };
                cofactor = record { same_length = one.0 ∙ same; words = one.1 };
                positive = nz;
                reduced = rw one.2 big;
                congruent = record {
                  left_multiple = 0;
                  right_multiple = 0;
                  balance = rw one.2 (omega arith);
                };
              };
              right = record {
                number = record { same_length = refl; words = mw };
                cofactor = record { same_length = zeros.0 ∙ same; words = zeros.1 };
                positive = omega arith;
                reduced = rw zeros.2 (omega arith);
                congruent = record {
                  left_multiple = 1;
                  right_multiple = 0;
                  balance = rw zeros.2 (omega arith);
                };
              };
            })
            (rw (← span-pow input) (val-lt-span input iw))
            (rw (same, ← span-pow mod') (val-lt-span mod' mw)) (omega arith))
    ]

-- For a nonzero input that is coprime to an odd modulus above 1 of the same nonzero length,
-- `uECC_vli_modInv` ends with a result of the same length, below the modulus, whose product with
-- the input is 1 modulo the modulus.
pub mod_inv-inverse :
    (input mod' : List ℕ)
    → length input ≡ length mod'
    → 0 < length mod'
    → IsWords input
    → IsWords mod'
    → 0 < val input
    → val mod' % 2 ≡ 1
    → 1 < val mod'
    → ((g : ℕ) → Divides g (val input) → Divides g (val mod') → g ≡ 1)
    → (result : List ℕ) × (mod_inv input mod' ≡ some result)
      × (length result ≡ length mod')
      × IsWords result
      × (val result < val mod')
      × (val result * val input % val mod' ≡ 1)
mod_inv-inverse input mod' same p iw mw nz odd big coprime =
    let f = mod_inv-Finds input mod' same p iw mw nz odd big in
    let unit : f.divisor ≡ 1 = coprime f.divisor f.left f.right in
    (
      f.result,
      f.returns,
      f.same_length,
      f.words,
      f.reduced,
      Congruent-mod (val mod') _ 1 (rw unit at f.congruent) ∙ mod-eq_of_lt big,
    )
