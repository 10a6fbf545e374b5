-- ===== src/Uecc/Mult/Square.antt =====
-- `uECC_vli_square` (uECC.c lines 484-511): the products of two different words are added twice,
-- so half of each column is enough.
use ligo.Prelude.{
  ℕ, zero, suc, ◌+◌, ◌-◌, ◌*◌, ◌^◌, ◌≤◌, ◌<◌, ◌≡◌, refl, sym, ap, ◌∙◌, arith, List, [], ◌∷◌, ◌++◌,
}
use ligo.Prelude.{length, length-append, get_or, ltb, leb, if◌then◌else◌, ◌&&◌, true, false}
use ligo.Prelude.Pow.{pow_add}
use native.Mathlib.Nat.{pow-suc, lt_of_mul-lt-mul_left}
use native.Mathlib.Decide.{dec_lt}
use ligo.Uecc.Word.{word_mod, IsWords, val}
use ligo.Uecc.Mult.{Acc3, muladd, mul2add, square_column, square_columns, square}
use ligo.Uecc.Mult.Accumulator.{acc_val, IsAcc, muladd-acc_val, mul2add-acc_val}
use ligo.Uecc.Mult.Convolution.{convolution, convolution-product}
use ligo.Uecc.Mult.Columns.{
  get_or-lt, products, IsColumn, shift_acc_lem, AreColumns, no_columns, one_column,
}
use ligo.Uecc.Mult.Sums.{low_sum-convolution, high_sum-convolution, products_split}
use ligo.Uecc.Mult.Product.{IsProduct, val-append, IsWords-append, val-lt, product-lt_square}

-- A column without its two ends.
products_ends :
    (rounds i k : ℕ) (left : List ℕ)
    → suc (suc rounds) + (i + i) ≡ suc k
    → products (suc (suc rounds)) i k left left
      ≡ 2 * (get_or left i 0 * get_or left (k - i) 0) + products rounds (suc i) k left left
products_ends rounds i k left e =
    let last : suc i + rounds ≡ k - i = omega arith in
    let back : k - (k - i) ≡ i = omega arith in
    let a = get_or left i 0 in
    let b = get_or left (k - i) 0 in
    let inner : products (rounds + 1) (suc i) k left left
        ≡ products rounds (suc i) k left left + b * a =
      rw (products_split rounds 1 (suc i) k left left, last, back) (omega arith) in
    omega (arith, inner, ap (λ (t : ℕ). products t (suc i) k left left) count)
  where
    count : suc rounds ≡ rounds + 1
    count = omega arith

module _ (left : List ℕ) (lw : IsWords left) where
  square_column_done : (fuel i k : ℕ) (r : Acc3) → k < i + i → square_column fuel i k left r ≡ r
  unfolding square_column
  square_column_done zero i k r h = refl
  square_column_done (suc fuel) i k r h =
      let stop : (leb i k && leb i (k - i)) ≡ false = ground arith in rw stop refl

  square_column-IsColumn :
      (fuel rounds i k : ℕ) (r : Acc3)
      → rounds + (i + i) ≡ suc k
      → rounds < fuel + fuel
      → IsAcc r
      → r.r2 + rounds < word_mod
      → IsColumn left left lw lw rounds
          (products rounds i k left left)
          r
          (square_column fuel i k left r)
  unfolding square_column
  square_column-IsColumn zero rounds i k r e enough w room = absurd (omega arith)
  square_column-IsColumn (suc fuel) zero i k r e enough w room =
      let stop : (leb i k && leb i (k - i)) ≡ false = ground arith in
      rw stop (record { total = omega arith; words = w; top = omega arith })
  square_column-IsColumn (suc fuel) (suc zero) i k r e enough w room =
      let a = get_or left i 0 in
      let b = get_or left (k - i) 0 in
      let go : (leb i k && leb i (k - i)) ≡ true = ground arith in
      let same : ltb i (k - i) ≡ false = ground arith in
      let once =
        muladd-acc_val a b r (get_or-lt left i lw) (get_or-lt left (k - i) lw) w (omega arith) in
      rw (go, same, square_column_done fuel (suc i) k (muladd a b r) (omega arith))
        (record { total = omega (arith, once.0); words = once.1; top = once.2 })
  square_column-IsColumn (suc fuel) (suc (suc rounds)) i k r e enough w room =
      let a = get_or left i 0 in
      let b = get_or left (k - i) 0 in
      let go : (leb i k && leb i (k - i)) ≡ true = ground arith in
      let different : ltb i (k - i) ≡ true = ground arith in
      let two =
        mul2add-acc_val a b r (get_or-lt left i lw) (get_or-lt left (k - i) lw) w (omega arith) in
      let rest =
        square_column-IsColumn fuel rounds (suc i) k (mul2add a b r) (omega arith) (omega arith)
          two.1 (omega (arith, two.2)) in
      rw (go, different)
        (record {
          total = omega (arith, rest.total, two.0, products_ends rounds i k left e);
          words = rest.words;
          top = omega (arith, rest.top, two.2);
        })

  abbrev n : ℕ
  n = length left

  abbrev min : ℕ → ℕ
  min k = if ltb k n then 0 else suc k - n

  -- The products from the first index on are the whole column.
  min_lem :
      (k : ℕ)
      → k < n + (n - 1)
      → (suc k - (min k + min k) + (min k + min k) ≡ suc k)
        × (products (suc k - (min k + min k)) (min k) k left left ≡ convolution left left k)
  min_lem k h = elim (dec_lt k n) [
    | yes low ↦
        let from_zero : min k ≡ 0 = ground arith in
        let all : suc k - (0 + 0) ≡ suc k = omega arith in
        rw (from_zero, all) (omega arith, low_sum-convolution left left k)
    | no high ↦
        let later : min k ≡ suc k - n = ground arith in
        let rounds : suc k - ((suc k - n) + (suc k - n)) ≡ n - (suc k - n) = omega arith in
        rw (later, rounds)
          (omega arith, high_sum-convolution left left n k refl refl (omega arith) h)
  ]

  square_columns-AreColumns :
      (rounds k : ℕ) (r : Acc3)
      → IsAcc r
      → r.r2 ≡ 0
      → k + rounds ≤ n + (n - 1)
      → n ≤ 63
      → AreColumns left left lw lw
          (convolution left left)
          rounds
          k
          r
          (square_columns rounds k n left r)
  unfolding square_columns
  square_columns-AreColumns zero k r w z h small =
      no_columns left left lw lw (convolution left left) k r w z
  square_columns-AreColumns (suc rounds) k r w z h small =
      let m = min_lem k (omega arith) in
      let c =
        square_column-IsColumn (suc k) (suc k - (min k + min k)) (min k) k r m.0 (omega arith) w
          (omega arith) in
      let s = shift_acc_lem left left lw lw _ c.words in
      one_column left left lw lw (convolution left left) (suc k - (min k + min k)) rounds k r _ _
        (rw (← m.1) c) (square_columns-AreColumns rounds (suc k) _ s.1 s.2 (omega arith) small)

  -- The square has no room for more than a word above the other columns.
  out-IsProduct :
      (r : Acc3) (out : List ℕ × Acc3)
      → 0 < n
      → acc_val r ≡ 0
      → AreColumns left left lw lw (convolution left left) (n * 2 - 1) 0 r out
      → IsProduct left left (out.0 ++ out.1.r0 ∷ [])
  out-IsProduct r out p z c =
      let q = word_mod ^ (n * 2 - 1) in
      let total : val out.0 + q * acc_val out.1 ≡ val left * val left =
        omega (arith, c.total, z, convolution-product left left (n * 2 - 1) (omega arith)) in
      let bound : val left * val left < word_mod ^ n * word_mod ^ n =
        product-lt_square _ _ _ (val-lt left lw) (val-lt left lw) in
      let room : word_mod ^ n * word_mod ^ n ≡ q * word_mod = power in
      let last : acc_val out.1 < word_mod = lt_of_mul-lt-mul_left q (omega arith) in
      let top : out.1.r0 ≡ acc_val out.1 = omega (arith, last, c.top) in
      record {
        same_length = omega (arith, length-append out.0 (out.1.r0 ∷ []), c.same_length);
        words = IsWords-append out.0 _ c.words (c.acc.0, tt);
        product =
            val-append out.0 (out.1.r0 ∷ [])
            ∙ (rw c.same_length (ap (λ (t : ℕ). val out.0 + q * t) (omega (arith, top))) ∙ total);
      }
    where
      power : word_mod ^ n * word_mod ^ n ≡ word_mod ^ (n * 2 - 1) * word_mod
      power =
          let e : n + n ≡ suc (n * 2 - 1) = omega arith in
          sym (pow_add word_mod n n)
          ∙ (ap (λ (t : ℕ). word_mod ^ t) e ∙ pow-suc word_mod (n * 2 - 1))

-- For a nonempty operand of at most 63 words, `uECC_vli_square` returns twice as many words, whose
-- number is the operand's square.
pub square-IsProduct :
    (left : List ℕ)
    → 0 < length left
    → length left ≤ 63
    → IsWords left
    → IsProduct left left (square left)
unfolding square
square-IsProduct left p small lw =
    let r : Acc3 = record { r0 = 0; r1 = 0; r2 = 0 } in
    out-IsProduct left lw r _ p refl (
      square_columns-AreColumns left lw (length left * 2 - 1) 0 r
        (omega arith, omega arith, omega arith) refl (omega arith) small)
