-- ===== src/Uecc/Vli/Bit.antt =====
-- `uECC_vli_testBit` (uECC.c lines 214-218) reads a binary digit.
use ligo.Prelude.{
  ℕ, zero, suc, ◌+◌, ◌-◌, ◌*◌, ◌/◌, ◌%◌, ◌^◌, ◌<◌, ◌≤◌, ◌≡◌, refl, sym, ap, ◌∙◌, arith, bit_and,
  List, [], ◌∷◌, ◌==◌, get_or,
}
use ligo.Prelude.Bits.{bit_and_mask, bit_and_shifted, bit_and-one}
use ligo.Prelude.Pow.{pow_add, pow_mul, pow-pos}
use native.Mathlib.Nat.{
  pow-zero, pow-suc, pow-succ', zero-div, div-div-eq-div-mul, add-mul-div_left, mod-eq_of_lt,
  pow-le-pow_right,
}
use ligo.Uecc.Word.{word_mod, IsWords, val}
use ligo.Uecc.Vli.{test_bit}

-- The digit `i` of the number `v`.
abbrev pub digit : ℕ → ℕ → ℕ
digit v i = v / 2 ^ i % 2

-- Dropping one more digit.
pub halved_lem : (v i : ℕ) → v / 2 ^ i ≡ v / 2 ^ suc i + v / 2 ^ suc i + digit v i
halved_lem v i =
    let half : v / 2 ^ i / 2 ≡ v / 2 ^ suc i =
      div-div-eq-div-mul v (2 ^ i) 2 ∙ ap (λ (t : ℕ). v / t) (sym (pow-suc 2 i)) in
    omega (arith, half)

pub word-val :
    (vli : List ℕ) (d : ℕ) → IsWords vli → get_or vli d 0 ≡ val vli / word_mod ^ d % word_mod
word-val [] d w = rw (zero-div (word_mod ^ d)) refl
word-val (x ∷ vli) zero w = rw (pow-zero word_mod) (omega (arith, w.0))
word-val (x ∷ vli) (suc d) w =
    let shifted : (x + word_mod * val vli) / word_mod ≡ val vli = omega (arith, w.0) in
    rw
      (
        pow-succ' word_mod d,
        ← div-div-eq-div-mul (x + word_mod * val vli) word_mod (word_mod ^ d),
        shifted,
      )
      (word-val vli d w.1)

-- What is added above a digit does not change it.
pub digit_over : (r t b j : ℕ) → j < b → digit (r + 2 ^ b * t) j ≡ digit r j
digit_over r t b j h =
    let split : 2 ^ b ≡ 2 ^ j * (2 * 2 ^ (b - 1 - j)) =
      ap (λ (e : ℕ). 2 ^ e) exponent
      ∙ pow_add 2 j (suc (b - 1 - j))
      ∙ ap (λ (e : ℕ). 2 ^ j * e) (pow-succ' 2 (b - 1 - j)) in
    let parts : r + 2 ^ b * t ≡ r + 2 ^ j * (2 * 2 ^ (b - 1 - j) * t) =
      omega (arith, ap (λ (e : ℕ). e * t) split) in
    let quotient : (r + 2 ^ b * t) / 2 ^ j ≡ r / 2 ^ j + 2 * 2 ^ (b - 1 - j) * t =
      ap (λ (e : ℕ). e / 2 ^ j) parts
      ∙ add-mul-div_left r (2 * 2 ^ (b - 1 - j) * t) (pow-pos 2 j (omega arith)) in
    omega (arith, quotient)
  where
    exponent : b ≡ j + suc (b - 1 - j)
    exponent = omega arith

-- A digit of a word is one of the number.
digit-word : (u k : ℕ) → k < 64 → digit (u % word_mod) k ≡ digit u k
digit-word u k h =
    let parts : u % word_mod + 2 ^ 64 * (u / word_mod) ≡ u = omega arith in
    sym (digit_over (u % word_mod) (u / word_mod) 64 k h) ∙ ap (λ (t : ℕ). digit t k) parts

-- The word with the one digit.
mask_lem : (i : ℕ) → 2 ^ bit_and i 0x3f % word_mod ≡ 1 * 2 ^ (i % 64)
mask_lem i =
    let e = bit_and_mask 6 i in
    let reach : 2 ^ (i % 64) ≤ 2 ^ 63 = pow-le-pow_right (omega arith) {j = 63} (omega arith) in
    let below : 2 ^ (i % 64) < word_mod = omega (arith, reach) in
    rw e (mod-eq_of_lt below ∙ omega arith)

pub test_bit-digit :
    (vli : List ℕ) (i : ℕ) → IsWords vli → test_bit vli i ≡ digit (val vli) i * 2 ^ (i % 64)
unfolding test_bit
test_bit-digit vli i w =
    let place : 2 ^ i ≡ word_mod ^ (i / 64) * 2 ^ (i % 64) =
      ap (λ (t : ℕ). 2 ^ t) exponent
      ∙ pow_add 2 (64 * (i / 64)) (i % 64)
      ∙ ap (λ (t : ℕ). t * 2 ^ (i % 64)) (pow_mul 2 64 (i / 64)) in
    rw
      (
        mask_lem i,
        bit_and_shifted (i % 64) (get_or vli (i / 2 ^ 6) 0) 1,
        bit_and-one (get_or vli (i / 2 ^ 6) 0 / 2 ^ (i % 64)),
      )
      (ap (λ (t : ℕ). t * 2 ^ (i % 64))
        (ap (λ (t : ℕ). t / 2 ^ (i % 64) % 2) (word-val vli (i / 64) w)
          ∙ digit-word (val vli / word_mod ^ (i / 64)) (i % 64) (omega arith)
          ∙ ap (λ (t : ℕ). t % 2)
              (div-div-eq-div-mul (val vli) (word_mod ^ (i / 64)) (2 ^ (i % 64))
                ∙ ap (λ (t : ℕ). val vli / t) (sym place))))
  where
    exponent : i ≡ 64 * (i / 64) + i % 64
    exponent = omega arith

-- `uECC_vli_testBit` is zero exactly where the digit is.
pub test_bit-zero :
    (vli : List ℕ) (i : ℕ) → IsWords vli → (test_bit vli i == 0) ≡ (digit (val vli) i == 0)
test_bit-zero vli i w = rw (test_bit-digit vli i w) (by_digit (digit (val vli) i) (omega arith))
  where
    place : 0 < 2 ^ (i % 64)
    place = pow-pos 2 (i % 64) (omega arith)

    by_digit : (d : ℕ) → d < 2 → (d * 2 ^ (i % 64) == 0) ≡ (d == 0)
    by_digit zero h = ground arith
    by_digit (suc zero) h = ground (arith, place)
    by_digit (suc (suc d)) h = absurd (omega arith)
