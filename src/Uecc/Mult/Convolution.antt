-- ===== src/Uecc/Mult/Convolution.antt =====
-- The product of two VLIs is the sum of its columns: column `k` holds the products of words whose
-- indices add up to `k`.
use ligo.Prelude.{ℕ, zero, suc, ◌+◌, ◌*◌, ◌^◌, ◌≤◌, ◌<◌, ◌≡◌, refl, arith, List, [], ◌∷◌}
use ligo.Prelude.{length, get_or}
use native.Mathlib.Nat.{pow-suc, pow-zero}
use ligo.Uecc.Word.{word_mod, val}

-- The number with digits `f k`, `f (k + 1)`, … in base 2^64, by Horner's rule.
abbrev pub digits_val : (ℕ → ℕ) → ℕ → ℕ → ℕ
digits_val f zero k = 0
digits_val f (suc n) k = f k + word_mod * digits_val f n (suc k)

digits_val-shift : (f : ℕ → ℕ) (n k : ℕ) → digits_val f n (suc k) ≡ digits_val (λ j. f (suc j)) n k
digits_val-shift f zero k = refl
digits_val-shift f (suc n) k = rw (digits_val-shift f n (suc k)) refl

pub digits_val-congr :
    (f g : ℕ → ℕ) (n k : ℕ)
    → ((j : ℕ) → k ≤ j → j < k + n → f j ≡ g j)
    → digits_val f n k ≡ digits_val g n k
digits_val-congr f g zero k h = refl
digits_val-congr f g (suc n) k h =
    rw
      (
        h k (omega arith) (omega arith),
        digits_val-congr f g n (suc k) (λ j p q. h j (omega arith) (omega arith)),
      )
      refl

pub digits_val-split :
    (f : ℕ → ℕ) (m n k : ℕ)
    → digits_val f (m + n) k ≡ digits_val f m k + word_mod ^ m * digits_val f n (k + m)
digits_val-split f zero n k =
    let e : 0 + n ≡ n = omega arith in
    let e' : k + 0 ≡ k = omega arith in rw (e, e', pow-zero word_mod) (omega arith)
digits_val-split f (suc m) n k =
    let e : suc m + n ≡ suc (m + n) = omega arith in
    let e' : suc k + m ≡ k + suc m = omega arith in
    rw (e, digits_val-split f m n (suc k), e', pow-suc word_mod m) (omega arith)

digits_val-zero : (n k : ℕ) → digits_val (λ j. 0) n k ≡ 0
digits_val-zero zero k = refl
digits_val-zero (suc n) k = omega (arith, digits_val-zero n (suc k))

-- Column `k` of the product.
abbrev pub convolution : List ℕ → List ℕ → ℕ → ℕ
convolution [] right k = 0
convolution (x ∷ left) right zero = x * get_or right 0 0
convolution (x ∷ left) right (suc k) = x * get_or right (suc k) 0 + convolution left right k

digits_val-words :
    (xs : List ℕ) (n : ℕ) → length xs ≤ n → digits_val (λ k. get_or xs k 0) n 0 ≡ val xs
digits_val-words [] n h = digits_val-zero n 0
digits_val-words (x ∷ xs) zero h = absurd (omega arith)
digits_val-words (x ∷ xs) (suc n) h =
    rw (digits_val-shift (λ k. get_or (x ∷ xs) k 0) n 0, digits_val-words xs n (omega arith)) refl

digits_val-linear :
    (x : ℕ) (f g : ℕ → ℕ) (n k : ℕ)
    → digits_val (λ j. x * f j + g j) n k ≡ x * digits_val f n k + digits_val g n k
digits_val-linear x f g zero k = omega arith
digits_val-linear x f g (suc n) k = rw (digits_val-linear x f g n (suc k)) (omega arith)

-- As many columns as words, less one, make up the product.
pub convolution-product :
    (left right : List ℕ) (n : ℕ)
    → length left + length right ≤ suc n
    → digits_val (convolution left right) n 0 ≡ val left * val right
convolution-product [] right n h = rw (digits_val-zero n 0) (omega arith)
convolution-product (x ∷ left) (y ∷ right) zero h = absurd (omega arith)
convolution-product (x ∷ left) [] zero h = omega arith
convolution-product (x ∷ left) right (suc n) h =
    let words = digits_val-words right (suc n) (omega arith) in
    let shifted = digits_val-shift (λ k. get_or right k 0) n 0 in
    rw
      (
        digits_val-shift (convolution (x ∷ left) right) n 0,
        digits_val-linear x (λ k. get_or right (suc k) 0) (convolution left right) n 0,
        convolution-product left right n (omega arith),
        ← words,
        shifted,
      )
      (omega arith)
