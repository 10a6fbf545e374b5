-- ===== src/Uecc/Mult/Sums.antt =====
-- The sums that the column loops of uECC.c add up are those of the product's columns.
use ligo.Prelude.{ℕ, zero, suc, ◌+◌, ◌-◌, ◌≤◌, ◌<◌, ◌≡◌, refl, sym, ap, ◌∙◌, arith, List, [], ◌∷◌}
use ligo.Prelude.{length, get_or}
use ligo.Uecc.Mult.Convolution.{convolution}
use ligo.Uecc.Mult.Columns.{products}

get_or_beyond : (xs : List ℕ) (i : ℕ) → length xs ≤ i → get_or xs i 0 ≡ 0
get_or_beyond [] i h = refl
get_or_beyond (x ∷ xs) zero h = absurd (omega arith)
get_or_beyond (x ∷ xs) (suc i) h = get_or_beyond xs i (omega arith)

products_beyond_left :
    (n i k : ℕ) (left right : List ℕ) → length left ≤ i → products n i k left right ≡ 0
products_beyond_left zero i k left right h = refl
products_beyond_left (suc n) i k left right h =
    rw (get_or_beyond left i h, products_beyond_left n (suc i) k left right (omega arith))
      (omega arith)

products_beyond_right :
    (n i k : ℕ) (left right : List ℕ)
    → length right + (i + n) ≤ suc k
    → products n i k left right ≡ 0
products_beyond_right zero i k left right h = refl
products_beyond_right (suc n) i k left right h =
    rw
      (
        get_or_beyond right (k - i) (omega arith),
        products_beyond_right n (suc i) k left right (omega arith),
      )
      (omega arith)

pub products_split :
    (a b i k : ℕ) (left right : List ℕ)
    → products (a + b) i k left right ≡ products a i k left right + products b (i + a) k left right
products_split zero b i k left right =
    let e : 0 + b ≡ b = omega arith in let e' : i + 0 ≡ i = omega arith in rw (e, e') (omega arith)
products_split (suc a) b i k left right =
    let e : suc a + b ≡ suc (a + b) = omega arith in
    let e' : suc i + a ≡ i + suc a = omega arith in
    rw (e, products_split a b (suc i) k left right, e') (omega arith)

products_tail :
    (n i k x : ℕ) (left right : List ℕ)
    → products n (suc i) (suc k) (x ∷ left) right ≡ products n i k left right
products_tail zero i k x left right = refl
products_tail (suc n) i k x left right =
    let e : suc k - suc i ≡ k - i = omega arith in
    rw (e, products_tail n (suc i) k x left right) refl

pub low_sum-convolution :
    (left right : List ℕ) (k : ℕ) → products (suc k) 0 k left right ≡ convolution left right k
low_sum-convolution [] right k = products_beyond_left (suc k) 0 k [] right (omega arith)
low_sum-convolution (x ∷ left) right zero = omega arith
low_sum-convolution (x ∷ left) right (suc k) =
    let e : suc k - 0 ≡ suc k = omega arith in
    rw (e, products_tail (suc k) 0 k x left right, low_sum-convolution left right k) refl

-- The second loop leaves out the products that have an index out of bounds.
pub high_sum-convolution :
    (left right : List ℕ) (n k : ℕ)
    → length left ≡ n
    → length right ≡ n
    → n ≤ k
    → k < n + (n - 1)
    → products (n - (suc k - n)) (suc k - n) k left right ≡ convolution left right k
high_sum-convolution left right n k l r lo hi =
    let first = suc k - n in
    let all : suc k ≡ first + ((n - first) + first) = omega arith in
    let from_zero : 0 + first ≡ first = omega arith in
    let behind : first + (n - first) ≡ n = omega arith in
    sym (
      sym (low_sum-convolution left right k)
      ∙ ap (λ (t : ℕ). products t 0 k left right) all
      ∙ products_split first ((n - first) + first) 0 k left right
      ∙ rw
          (
            products_beyond_right first 0 k left right (omega arith),
            from_zero,
            products_split (n - first) first first k left right,
            behind,
            products_beyond_left first n k left right (omega arith),
          )
          (omega arith))
