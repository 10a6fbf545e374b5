-- ===== src/Uecc/Vli/Count.antt =====
-- `vli_numDigits` and `uECC_vli_numBits` (uECC.c lines 222-249) measure the number.
use ligo.Prelude.{
  ℕ, zero, suc, ◌+◌, ◌-◌, ◌*◌, ◌/◌, ◌^◌, ◌≤◌, ◌<◌, ◌≡◌, refl, List, [], ◌∷◌, arith, length, ◌==◌,
  if◌then◌else◌, ◌≢◌, Bool-cases, false, inl, inr,
}
use ligo.Prelude.Pow.{pow_add}
use native.Mathlib.Nat.{pow-suc}
use ligo.Uecc.Word.{word_mod, IsWords, val}
use ligo.Uecc.Vli.{num_digits, bits_loop, num_bits_at, num_bits}

-- The number `v` takes exactly `b` binary digits.
abbrev pub IsLength : ℕ → ℕ → Type 0
IsLength zero v = v ≡ 0
IsLength (suc b) v = (2 ^ b ≤ v) × (v < 2 ^ suc b)

num_digits-cons :
    (n x : ℕ) (vli : List ℕ)
    → num_digits (suc n) (x ∷ vli)
      ≡ (if num_digits n vli == 0 then (if x == 0 then 0 else 1) else suc (num_digits n vli))
unfolding num_digits
num_digits-cons zero x vli = refl
num_digits-cons (suc n) x vli = ground (arith, num_digits-cons n x vli)

-- The count starts at `i`.
bits_loop-suc : (f i digit : ℕ) → bits_loop f (suc i) digit ≡ suc (bits_loop f i digit)
unfolding bits_loop
bits_loop-suc zero i digit = refl
bits_loop-suc (suc f) i digit = ground (arith, bits_loop-suc f (suc i) (digit / 2))

IsLength-half : (b v : ℕ) → IsLength b (v / 2) → v ≢ 0 → IsLength (suc b) v
IsLength-half zero v h nz = omega arith
IsLength-half (suc b) v h nz = omega (arith, pow-suc 2 b, pow-suc 2 (suc b))

-- Fuel for as many bits as a word has is enough.
bits_loop-IsLength : (f digit : ℕ) → digit < 2 ^ f → IsLength (bits_loop f 0 digit) digit
unfolding bits_loop
bits_loop-IsLength zero digit h = omega arith
bits_loop-IsLength (suc f) digit h = elim (Bool-cases (digit == 0)) [
  | inl done ↦ rw done (ground arith)
  | inr more ↦
      rw (more, bits_loop-suc f 0 (digit / 2))
        (IsLength-half _ digit (bits_loop-IsLength f (digit / 2) (omega (arith, pow-suc 2 f)))
          (ground arith))
]

num_digits-le : (n : ℕ) (vli : List ℕ) → num_digits n vli ≤ n
unfolding num_digits
num_digits-le zero vli = omega arith
num_digits-le (suc n) vli = ground (arith, num_digits-le n vli)

num_digits_zero : (vli : List ℕ) → num_digits (length vli) vli ≡ 0 → val vli ≡ 0
num_digits_zero [] e = refl
num_digits_zero (x ∷ vli) e =
    ground (arith, num_digits-cons (length vli) x vli, num_digits_zero vli)

zero_num_digits : (vli : List ℕ) → val vli ≡ 0 → num_digits (length vli) vli ≡ 0
unfolding num_digits
zero_num_digits [] e = refl
zero_num_digits (x ∷ vli) e =
    let lowest : x ≡ 0 = omega arith in
    rw (num_digits-cons (length vli) x vli, zero_num_digits vli (omega arith), lowest)

num_bits_at-one : (x : ℕ) (vli : List ℕ) → num_bits_at 1 (x ∷ vli) ≡ bits_loop 64 0 x
unfolding num_bits_at
num_bits_at-one x vli = omega arith

num_bits_at-suc :
    (d x : ℕ) (vli : List ℕ) → num_bits_at (suc (suc d)) (x ∷ vli) ≡ 64 + num_bits_at (suc d) vli
unfolding num_bits_at
num_bits_at-suc d x vli =
    let above : suc (suc d) - 1 ≡ suc d = omega arith in
    let below : suc d - 1 ≡ d = omega arith in rw (above, below) (ground arith)

IsLength-cons :
    (b x v : ℕ) → x < word_mod → v ≢ 0 → IsLength b v → IsLength (64 + b) (x + word_mod * v)
IsLength-cons zero x v h nz k = absurd (nz k)
IsLength-cons (suc b) x v h nz k =
    let next : 64 + suc b ≡ suc (64 + b) = omega arith in
    rw next (omega (arith, pow_add 2 64 b, pow-suc 2 (64 + b), pow-suc 2 b, k))

-- By the number of words in use.
num_bits_at-IsLength :
    (d x : ℕ) (vli : List ℕ)
    → x < word_mod
    → IsWords vli
    → num_digits (length vli) vli ≡ d
    → IsLength (num_bits_at d vli) (val vli)
    → IsLength (num_bits (x ∷ vli)) (x + word_mod * val vli)
unfolding num_bits
num_bits_at-IsLength zero x vli h w e k =
    let total : x + word_mod * val vli ≡ x = omega (arith, num_digits_zero vli e) in
    elim (Bool-cases (x == 0)) [
      | inl none_in_use ↦
          rw (num_digits-cons (length vli) x vli, e, none_in_use, total)
            (unfold num_bits_at in ground arith)
      | inr one_in_use ↦
          rw (num_digits-cons (length vli) x vli, e, one_in_use, total, num_bits_at-one x vli)
            (bits_loop-IsLength 64 x h)
    ]
num_bits_at-IsLength (suc d) x vli h w e k =
    let in_use : val vli ≢ 0 = λ z. absurd (omega (arith, zero_num_digits vli z)) in
    let above : (suc d == 0) ≡ false = ground arith in
    rw (num_digits-cons (length vli) x vli, e, above, num_bits_at-suc d x vli)
      (IsLength-cons _ x (val vli) h in_use k)

-- `uECC_vli_numBits` returns the number of binary digits of a VLI: 0 for the number 0, and
-- otherwise b with 2^(b-1) ≤ value < 2^b.
pub num_bits-IsLength : (vli : List ℕ) → IsWords vli → IsLength (num_bits vli) (val vli)
unfolding num_bits
num_bits-IsLength [] h = unfold num_bits_at num_digits in refl
num_bits-IsLength (x ∷ vli) h =
    num_bits_at-IsLength _ x vli h.0 h.1 refl (num_bits-IsLength vli h.1)
