-- ===== src/Uecc/Reduce/Remainder.antt =====
-- `uECC_vli_mmod`, `uECC_vli_modMult` and `uECC_vli_modSquare` (uECC.c lines 553-632) compute
-- remainders.
use ligo.Prelude.{
  ℕ, zero, suc, ◌+◌, ◌-◌, ◌*◌, ◌%◌, ◌^◌, ◌≤◌, ◌<◌, ◌≡◌, refl, sym, ap, ◌∙◌, arith, List, [], ◌∷◌,
}
use ligo.Prelude.{length, length-take, take}
use native.Mathlib.Nat.{pow-suc, pow-zero, mod-eq_of_lt, add-mul-mod_self_left, mul-le-mul_right}
use ligo.Prelude.Pow.{pow_add}
use ligo.Uecc.Word.{word_mod, IsWords, val}
use ligo.Uecc.Vli.Carry.{val-lt-span}
use ligo.Uecc.ModArith.Inverse.Loop.{span-pow}
use ligo.Uecc.Mult.{mult, square}
use ligo.Uecc.Mult.Product.{mult-IsProduct, val-lt}
use ligo.Uecc.Mult.Square.{square-IsProduct}
use ligo.Uecc.Reduce.{current, mmod_shift, shifted_mod, mmod_loop, mmod, mod_mult, mod_square}
use ligo.Uecc.Reduce.Multiple.{IsWords-take}
use ligo.Uecc.Reduce.Shifted.{mmod_shift-IsAligned, shifted_mod-IsMultiple}
use ligo.Uecc.Reduce.Rounds.{IsReducing, mmod_loop-IsReducing}

-- A VLI of the modulus' length that is the remainder of `v`.
pub record IsRemainder (mod' : List ℕ) (v : ℕ) (out : List ℕ) : Type 0 where
  pub same_length : length out ≡ length mod'
  pub words : IsWords out
  pub remainder : val out ≡ v % val mod'

-- A number below the span of its first `n` words is in them.
val-take : (n : ℕ) (xs : List ℕ) → val xs < word_mod ^ n → n ≤ length xs → val (take n xs) ≡ val xs
val-take zero xs h p = omega (arith, pow-zero word_mod)
val-take (suc n) [] h p = refl
val-take (suc n) (x ∷ xs) h p =
    let less : x + word_mod * val xs < word_mod * word_mod ^ n =
      omega (arith, pow-suc word_mod n) in
    omega (arith, val-take n xs (omega arith) (omega arith))

remainder_lem : (v r m q : ℕ) → v ≡ r + m * q → r < m → r ≡ v % m
remainder_lem v r m q e h =
    sym (ap (λ (t : ℕ). t % m) e ∙ (add-mul-mod_self_left r m q ∙ mod-eq_of_lt h))

module _ (mod' : List ℕ) (w : IsWords mod') (pos : 0 < length mod')
    (top : 2 ^ (64 * (length mod' - 1)) ≤ val mod') where
  abbrev n : ℕ
  n = length mod'

  abbrev m : ℕ
  m = val mod'

  -- A number of 2 n words is below twice the first multiple.
  product-lt :
      (product : List ℕ)
      → length product ≡ n + n
      → IsWords product
      → val product < m * 2 ^ suc (mmod_shift mod')
  product-lt product e pw =
      let a = mmod_shift-IsAligned mod' w pos top in
      let whole : 64 * length product ≡ 64 * n + 64 * n = omega (arith, e) in
      let exponent : suc (mmod_shift mod') ≡ suc a.bits + 64 * n = omega (arith, a.shift_eq) in
      let below : val product < 2 ^ (64 * n) * 2 ^ (64 * n) =
        rw (← pow_add 2 (64 * n) (64 * n), ← whole, ← span-pow product) (val-lt-span product pw) in
      let reach : 2 ^ (64 * n) * 2 ^ (64 * n) ≤ m * 2 ^ suc a.bits * 2 ^ (64 * n) =
        mul-le-mul_right (2 ^ (64 * n)) a.filled in
      rw (exponent, pow_add 2 (suc a.bits) (64 * n)) (omega (arith, below, reach))

  start-IsReducing :
      (tmp product : List ℕ)
      → length product ≡ n + n
      → IsWords product
      → IsReducing n m
          (val product)
          (suc (mmod_shift mod'))
          (record { tmp = tmp; product = product; index = 1; mod_multiple = shifted_mod mod' })
  start-IsReducing tmp product e pw =
      let s = shifted_mod-IsMultiple mod' w pos top in
      record {
        index = omega arith;
        same_length = e;
        words = pw;
        multiple_length = s.same_length;
        multiple_words = s.words;
        bound = product-lt product e pw;
        quotient = 0;
        congruent = omega arith;
        multiple = λ p. rw (s.multiple, pow-suc 2 (mmod_shift mod')) (omega arith);
      }

-- For a modulus of n > 0 words whose highest word is not 0 and a product of 2 n words,
-- `uECC_vli_mmod` returns the n words of the remainder, whatever its buffer `tmp` held.
pub mmod-IsRemainder :
    (tmp product mod' : List ℕ)
    → IsWords mod'
    → 0 < length mod'
    → 2 ^ (64 * (length mod' - 1)) ≤ val mod'
    → length product ≡ length mod' + length mod'
    → IsWords product
    → IsRemainder mod' (val product) (mmod tmp product mod')
unfolding mmod
mmod-IsRemainder tmp product mod' w pos top e pw =
    let n = length mod' in
    let h =
      mmod_loop-IsReducing n (val mod') (val product) (suc (mmod_shift mod')) _ pos
        (start-IsReducing mod' w pos top tmp product e pw) in
    let out = current (
      mmod_loop (suc (mmod_shift mod')) n
        (record { tmp = tmp; product = product; index = 1; mod_multiple = shifted_mod mod' })) in
    let reduced : val out < val mod' =
      omega (arith, h.bound, ap (λ (t : ℕ). val mod' * t) (pow-zero 2)) in
    let fits : val out < word_mod ^ n = omega (arith, reduced, val-lt mod' w) in
    record {
      same_length = omega (arith, length-take n out, h.same_length);
      words = IsWords-take n out h.words;
      remainder =
          val-take n out fits (omega (arith, h.same_length))
          ∙ remainder_lem (val product) (val out) (val mod') h.quotient h.congruent reduced;
    }

-- For operands and a modulus of one length, of 1 to 63 words, where the modulus' highest word is
-- not 0, `uECC_vli_modMult` returns the remainder of the product.
pub mod_mult-IsRemainder :
    (tmp left right mod' : List ℕ)
    → length left ≡ length right
    → length left ≡ length mod'
    → 0 < length mod'
    → length mod' ≤ 63
    → IsWords left
    → IsWords right
    → IsWords mod'
    → 2 ^ (64 * (length mod' - 1)) ≤ val mod'
    → IsRemainder mod' (val left * val right) (mod_mult tmp left right mod')
unfolding mod_mult
mod_mult-IsRemainder tmp left right mod' same same_mod pos small lw rws mw top =
    let p = mult-IsProduct left right same (omega arith) (omega arith) lw rws in
    rw (← p.product) (
      mmod-IsRemainder tmp (mult left right) mod' mw pos top (omega (arith, p.same_length)) p.words)

-- For an operand and a modulus of one length, of 1 to 63 words, where the modulus' highest word is
-- not 0, `uECC_vli_modSquare` returns the remainder of the square.
pub mod_square-IsRemainder :
    (tmp left mod' : List ℕ)
    → length left ≡ length mod'
    → 0 < length mod'
    → length mod' ≤ 63
    → IsWords left
    → IsWords mod'
    → 2 ^ (64 * (length mod' - 1)) ≤ val mod'
    → IsRemainder mod' (val left * val left) (mod_square tmp left mod')
unfolding mod_square
mod_square-IsRemainder tmp left mod' same pos small lw mw top =
    let p = square-IsProduct left (omega arith) (omega arith) lw in
    rw (← p.product)
      (mmod-IsRemainder tmp (square left) mod' mw pos top (omega (arith, p.same_length)) p.words)
