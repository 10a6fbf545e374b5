-- ===== src/Uecc/Mult/Product.antt =====
-- `uECC_vli_mult` (uECC.c lines 401-432) computes the product.
use ligo.Prelude.{
  ℕ, zero, suc, ◌+◌, ◌-◌, ◌*◌, ◌^◌, ◌≤◌, ◌<◌, ◌≡◌, refl, sym, ap, ◌∙◌, arith, List, [], ◌∷◌, ◌++◌,
}
use ligo.Prelude.{length, length-append}
use native.Mathlib.Nat.{
  pow-suc, pow-zero, lt_of_mul-lt-mul_left, mul-le-mul_left, mul-lt-mul_of_pos_right,
}
use ligo.Prelude.Pow.{pow_add}
use ligo.Uecc.Word.{word_mod, IsWords, val}
use ligo.Uecc.Mult.{Acc3, mult}
use ligo.Uecc.Mult.Accumulator.{acc_val}
use ligo.Uecc.Mult.Sums.{low_sum-convolution, high_sum-convolution}
use ligo.Uecc.Mult.Convolution.{
  digits_val, digits_val-congr, digits_val-split, convolution, convolution-product,
}
use ligo.Uecc.Mult.Columns.{
  AreColumns, low_sum, high_sum, low_columns-AreColumns, high_columns-AreColumns,
}

pub val-append : (xs ys : List ℕ) → val (xs ++ ys) ≡ val xs + word_mod ^ length xs * val ys
val-append [] ys = rw (pow-zero word_mod) (omega arith)
val-append (x ∷ xs) ys = rw (val-append xs ys, pow-suc word_mod (length xs)) (omega arith)

pub IsWords-append : (xs ys : List ℕ) → IsWords xs → IsWords ys → IsWords (xs ++ ys)
IsWords-append [] ys p q = q
IsWords-append (x ∷ xs) ys p q = (p.0, IsWords-append xs ys p.1 q)

pub val-lt : (xs : List ℕ) → IsWords xs → val xs < word_mod ^ length xs
val-lt [] h = rw (pow-zero word_mod) (omega arith)
val-lt (x ∷ xs) h = rw (pow-suc word_mod (length xs)) (omega (arith, val-lt xs h.1))

-- What `uECC_vli_mult` promises of its result.
pub record IsProduct (left right out : List ℕ) : Type 0 where
  pub same_length : length out ≡ 2 * length left
  pub words : IsWords out
  pub product : val out ≡ val left * val right

top_word :
    (low high : List ℕ) (c : ℕ)
    → val (low ++ high ++ c ∷ [])
      ≡ val low + word_mod ^ length low * (val high + word_mod ^ length high * c)
top_word low high c =
    rw
      (
        val-append (low ++ high) (c ∷ []),
        val-append low high,
        length-append low high,
        pow_add word_mod (length low) (length high),
      )
      (omega arith)

-- The totals of both loops, put together.
totals :
    (p q low high carry last low_sums high_sums total : ℕ)
    → low + p * carry ≡ low_sums
    → high + q * last ≡ carry + high_sums
    → total ≡ low_sums + p * high_sums
    → low + p * (high + q * last) ≡ total
totals p q low high carry last low_sums high_sums total e f g =
    omega (arith, ap (λ (t : ℕ). p * t) f)

-- The product has no room for more than a word above the other columns.
last-lt :
    (p q low high last total : ℕ)
    → p ≡ word_mod * q
    → low + p * (high + q * last) ≡ total
    → total < p * p
    → last < word_mod
last-lt p q low high last total e f h =
    lt_of_mul-lt-mul_left q (lt_of_mul-lt-mul_left p (omega (arith, ap (λ (t : ℕ). p * t) e)))

pub product-lt_square : (a b p : ℕ) → a < p → b < p → a * b < p * p
product-lt_square a b p h k =
    let le : b ≤ p = omega arith in
    let pos : 0 < p = omega arith in
    omega (arith, mul-le-mul_left a le, mul-lt-mul_of_pos_right h pos)

module _ (left right : List ℕ) (same : length left ≡ length right) (p : 0 < length left)
    (lw : IsWords left) (rws : IsWords right) where
  abbrev n : ℕ
  n = length left

  module _ (r : Acc3) (low high : List ℕ × Acc3) (z : acc_val r ≡ 0)
      (l : AreColumns left right lw rws (low_sum left right lw rws) n 0 r low)
      (h : AreColumns left right lw rws (high_sum left right lw rws n) (n - 1) n low.1 high) where
    columns-total :
        val low.0 + word_mod ^ n * (val high.0 + word_mod ^ (n - 1) * acc_val high.1)
        ≡ val left * val right
    columns-total =
        let low_sums =
          digits_val-congr (low_sum left right lw rws) (convolution left right) n 0
            (λ j q t. low_sum-convolution left right j) in
        let high_sums =
          digits_val-congr (high_sum left right lw rws n) (convolution left right) (n - 1) n
            (λ j q t. high_sum-convolution left right n j refl (sym same) q t) in
        let from_zero : 0 + n ≡ n = omega arith in
        let split = digits_val-split (convolution left right) n (n - 1) 0 in
        totals (word_mod ^ n) (word_mod ^ (n - 1)) (val low.0) (val high.0) (acc_val low.1)
          (acc_val high.1) (digits_val (convolution left right) n 0)
          (digits_val (convolution left right) (n - 1) n) (val left * val right)
          (omega (arith, l.total, z, low_sums)) (omega (arith, h.total, high_sums))
          (sym (convolution-product left right (n + (n - 1)) (omega arith))
            ∙ split
            ∙ rw from_zero refl)

    last_word : acc_val high.1 < word_mod
    last_word =
        let next : word_mod ^ n ≡ word_mod * word_mod ^ (n - 1) = power n p in
        last-lt (word_mod ^ n) (word_mod ^ (n - 1)) (val low.0) (val high.0) (acc_val high.1)
          (val left * val right) next columns-total
          (product-lt_square _ _ _ (val-lt left lw) (rw same (val-lt right rws)))
      where
        power : (n : ℕ) → 0 < n → word_mod ^ n ≡ word_mod * word_mod ^ (n - 1)
        power zero q = absurd (omega arith)
        power (suc n) q =
            let e : suc n - 1 ≡ n = omega arith in rw (e, pow-suc word_mod n) (omega arith)

    out-IsProduct : IsProduct left right (low.0 ++ high.0 ++ high.1.r0 ∷ [])
    out-IsProduct =
        let last : high.1.r0 ≡ acc_val high.1 = omega (arith, last_word, h.top) in
        record {
          same_length = omega (
            arith,
            length-append (low.0 ++ high.0) (high.1.r0 ∷ []),
            length-append low.0 high.0,
            l.same_length,
            h.same_length,
          );
          words =
              IsWords-append (low.0 ++ high.0) _ (IsWords-append low.0 high.0 l.words h.words)
                (h.acc.0, tt);
          product =
              top_word low.0 high.0 high.1.r0
              ∙ (rw (l.same_length, h.same_length)
                    (ap
                      (λ (c : ℕ). val low.0 + word_mod ^ n * (val high.0 + word_mod ^ (n - 1) * c))
                      last)
                  ∙ columns-total);
        }

-- For nonempty operands of one length, of at most 63 words, `uECC_vli_mult` returns twice as many
-- words, whose number is the product.
pub mult-IsProduct :
    (left right : List ℕ)
    → length left ≡ length right
    → 0 < length left
    → length left ≤ 63
    → IsWords left
    → IsWords right
    → IsProduct left right (mult left right)
unfolding mult
mult-IsProduct left right same p small lw rws =
    let n = length left in
    let r : Acc3 = record { r0 = 0; r1 = 0; r2 = 0 } in
    let l =
      low_columns-AreColumns left right lw rws n 0 r (omega arith, omega arith, omega arith) refl
        (omega arith) in
    out-IsProduct left right same p lw rws r _ _ refl l
      (high_columns-AreColumns left right lw rws (n - 1) n n _ l.acc l.top (omega arith))
