-- ===== src/Uecc/Reduce/Rounds.antt =====
-- The loop of `uECC_vli_mmod` (uECC.c lines 579-593): a round takes the multiple of the modulus off
-- the number if it fits, and halves the multiple.
use ligo.Prelude.{
  ℕ, zero, suc, ◌+◌, ◌*◌, ◌/◌, ◌^◌, ◌≤◌, ◌<◌, ◌≡◌, refl, sym, ap, ◌∙◌, arith, List, bit_xor, ◌==◌,
}
use ligo.Prelude.{false, length, if◌then◌else◌}
use native.Mathlib.Nat.{pow-suc}
use native.Mathlib.Decide.{ℕ_discrete}
use ligo.Uecc.Word.{IsWords, val, of_bool}
use ligo.Uecc.Vli.{sub}
use ligo.Uecc.Vli.Carry.{span, sub-IsDifference, sub_borrow}
use ligo.Uecc.Reduce.{MmodState, current, mmod_step, mmod_loop}
use ligo.Uecc.Reduce.Multiple.{halve_multiple-IsHalved}

-- What holds before `rounds` more rounds, for a modulus `m` of `n` words and the number that the
-- loop started with.
pub record IsReducing (n m start rounds : ℕ) (s : MmodState) : Type 0 where
  pub index : s.index ≤ 1
  pub same_length : length (current s) ≡ n + n
  pub words : IsWords (current s)
  pub multiple_length : length s.mod_multiple ≡ n + n
  pub multiple_words : IsWords s.mod_multiple
  pub bound : val (current s) < m * 2 ^ rounds
  pub quotient : ℕ
  pub congruent : start ≡ val (current s) + m * quotient
  pub multiple : 0 < rounds → 2 * val s.mod_multiple ≡ m * 2 ^ rounds

-- `index = !(index ^ borrow)` selects the difference if there was no borrow, and else the number
-- before it.
selected :
    (index borrow : ℕ) (tmp product diff : List ℕ)
    → index ≤ 1
    → borrow ≤ 1
    → (if of_bool (bit_xor index borrow == 0) == 0
        then (if index == 0 then tmp else diff)
        else if index == 0
        then diff
        else product)
      ≡ (if borrow == 0 then diff else if index == 0 then tmp else product)
selected zero zero tmp product diff p q = refl
selected zero (suc zero) tmp product diff p q = refl
selected zero (suc (suc b)) tmp product diff p q = absurd (omega arith)
selected (suc zero) zero tmp product diff p q = refl
selected (suc zero) (suc zero) tmp product diff p q = refl
selected (suc zero) (suc (suc b)) tmp product diff p q = absurd (omega arith)
selected (suc (suc i)) borrow tmp product diff p q = absurd (omega arith)

of_bool_le : (i b : ℕ) → of_bool (bit_xor i b == 0) ≤ 1
of_bool_le i b = ground arith

-- The number after a round.
record IsTaken (n m start rounds : ℕ) (out : List ℕ) : Type 0 where
  same_length : length out ≡ n + n
  words : IsWords out
  bound : val out < m * 2 ^ rounds
  quotient : ℕ
  congruent : start ≡ val out + m * quotient

module _ (n m start rounds : ℕ) (s : MmodState) (h : IsReducing n m start (suc rounds) s) where
  abbrev x : List ℕ
  x = current s

  abbrev y : List ℕ
  y = s.mod_multiple

  same_lengths : length x ≡ length y
  same_lengths = h.same_length ∙ sym h.multiple_length

  double : m * 2 ^ suc rounds ≡ 2 * (m * 2 ^ rounds)
  double = rw (pow-suc 2 rounds) (omega arith)

  multiple_lem : val y ≡ m * 2 ^ rounds
  multiple_lem = omega (arith, h.multiple (omega arith), double)

  taken : IsTaken n m start rounds (if (sub x y).1 == 0 then (sub x y).0 else x)
  taken =
      let d = sub-IsDifference x y same_lengths h.words h.multiple_words in
      let b = sub_borrow x y same_lengths h.words h.multiple_words in
      elim (ℕ_discrete (sub x y).1 0) [
        | yes none_borrowed ↦
            let total : val (sub x y).0 + val y ≡ val x =
              omega (arith, d.total, ap (λ (t : ℕ). span x * t) none_borrowed) in
            rw none_borrowed (record {
              same_length = d.same_length ∙ h.same_length;
              words = d.words;
              bound = omega (arith, total, multiple_lem, h.bound, double);
              quotient = h.quotient + 2 ^ rounds;
              congruent = omega (arith, total, multiple_lem, h.congruent);
            })
        | no borrowed ↦
            let one : ((sub x y).1 == 0) ≡ false = ground arith in
            rw one (record {
              same_length = h.same_length;
              words = h.words;
              bound = omega (arith, b.1 borrowed, multiple_lem);
              quotient = h.quotient;
              congruent = h.congruent;
            })
      ]

  halves : (k : ℕ) → 0 < k → 2 * (m * 2 ^ k / 2) ≡ m * 2 ^ k
  halves zero p = absurd (omega arith)
  halves (suc k) p = rw (pow-suc 2 k) (omega arith)

  mmod_step-IsReducing : 0 < n → IsReducing n m start rounds (mmod_step n s)
  unfolding mmod_step
  mmod_step-IsReducing pos =
      let d = sub-IsDifference x y same_lengths h.words h.multiple_words in
      let k = halve_multiple-IsHalved n y pos h.multiple_length h.multiple_words in
      let t = taken in
      let chosen = selected s.index (sub x y).1 s.tmp s.product (sub x y).0 h.index d.last_bit in
      record {
        index = of_bool_le s.index (sub x y).1;
        same_length = rw chosen t.same_length;
        words = rw chosen t.words;
        multiple_length = k.same_length;
        multiple_words = k.words;
        bound = rw chosen t.bound;
        quotient = t.quotient;
        congruent = rw chosen t.congruent;
        multiple = λ p. rw (k.half, multiple_lem) (halves rounds p);
      }

-- All rounds leave a number below the modulus.
pub mmod_loop-IsReducing :
    (n m start rounds : ℕ) (s : MmodState)
    → 0 < n
    → IsReducing n m start rounds s
    → IsReducing n m start 0 (mmod_loop rounds n s)
unfolding mmod_loop
mmod_loop-IsReducing n m start zero s pos h = h
mmod_loop-IsReducing n m start (suc rounds) s pos h =
    mmod_loop-IsReducing n m start rounds (mmod_step n s) pos
      (mmod_step-IsReducing n m start rounds s h pos)
