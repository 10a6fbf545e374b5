-- ===== src/Uecc/Vli/Carry.antt =====
-- The carry chains of `uECC_vli_add` and `uECC_vli_sub` (uECC.c lines 319-355).
use ligo.Prelude.{ℕ, ◌+◌, ◌*◌, ◌≤◌, ◌<◌, ◌≡◌, ◌≢◌, refl, ap, List, [], ◌∷◌, arith, length}
use ligo.Uecc.Word.{word_mod, IsWords, val}
use ligo.Uecc.Vli.{add_word, add_loop, add, sub_word, sub_loop, sub}

-- The weight of the word above the highest.
abbrev pub span : List ℕ → ℕ
span [] = 1
span (x ∷ xs) = word_mod * span xs

add_word_sum :
    (x y c : ℕ)
    → x < word_mod
    → y < word_mod
    → c ≤ 1
    → ((add_word x y c).0 + word_mod * (add_word x y c).1 ≡ x + y + c)
      × ((add_word x y c).0 < word_mod)
      × ((add_word x y c).1 ≤ 1)
unfolding add_word
add_word_sum x y c p q r = ground arith

sub_word_difference :
    (x y b : ℕ)
    → x < word_mod
    → y < word_mod
    → b ≤ 1
    → ((sub_word x y b).0 + y + b ≡ x + word_mod * (sub_word x y b).1)
      × ((sub_word x y b).0 < word_mod)
      × ((sub_word x y b).1 ≤ 1)
unfolding sub_word
sub_word_difference x y b p q r = ground arith

-- The invariants of the two loops: `out` is the result and the last carry (borrow).
pub record IsSum (left right : List ℕ) (carry : ℕ) (out : List ℕ × ℕ) : Type 0 where
  pub same_length : length out.0 ≡ length left
  pub words : IsWords out.0
  pub last_bit : out.1 ≤ 1
  pub total : val out.0 + span left * out.1 ≡ val left + val right + carry

pub record IsDifference (left right : List ℕ) (borrow : ℕ) (out : List ℕ × ℕ) : Type 0 where
  pub same_length : length out.0 ≡ length left
  pub words : IsWords out.0
  pub last_bit : out.1 ≤ 1
  pub total : val out.0 + val right + borrow ≡ val left + span left * out.1

add_loop-IsSum :
    (c : ℕ) (left right : List ℕ)
    → length left ≡ length right
    → IsWords left
    → IsWords right
    → c ≤ 1
    → IsSum left right c (add_loop c left right)
unfolding add_loop
add_loop-IsSum c [] [] e p q h = omega arith
add_loop-IsSum c [] (y ∷ right) e p q h = absurd (omega arith)
add_loop-IsSum c (x ∷ left) [] e p q h = absurd (omega arith)
add_loop-IsSum c (x ∷ left) (y ∷ right) e p q h =
    let step = add_word_sum x y c p.0 q.0 h in
    let rest = add_loop-IsSum (add_word x y c).1 left right (omega arith) p.1 q.1 step.2 in
    record {
      same_length = omega (arith, rest.same_length);
      words = (step.1, rest.words);
      last_bit = rest.last_bit;
      total = omega (arith, step.0, rest.total);
    }

sub_loop-IsDifference :
    (b : ℕ) (left right : List ℕ)
    → length left ≡ length right
    → IsWords left
    → IsWords right
    → b ≤ 1
    → IsDifference left right b (sub_loop b left right)
unfolding sub_loop
sub_loop-IsDifference b [] [] e p q h = omega arith
sub_loop-IsDifference b [] (y ∷ right) e p q h = absurd (omega arith)
sub_loop-IsDifference b (x ∷ left) [] e p q h = absurd (omega arith)
sub_loop-IsDifference b (x ∷ left) (y ∷ right) e p q h =
    let step = sub_word_difference x y b p.0 q.0 h in
    let rest = sub_loop-IsDifference (sub_word x y b).1 left right (omega arith) p.1 q.1 step.2 in
    record {
      same_length = omega (arith, rest.same_length);
      words = (step.1, rest.words);
      last_bit = rest.last_bit;
      total = omega (arith, step.0, rest.total);
    }

-- On operands of one length `uECC_vli_add` returns a VLI of that length and a carry of 0 or 1
-- that together are exactly the sum.
pub add-IsSum :
    (left right : List ℕ)
    → length left ≡ length right
    → IsWords left
    → IsWords right
    → IsSum left right 0 (add left right)
unfolding add
add-IsSum left right e p q = add_loop-IsSum 0 left right e p q (omega arith)

-- On operands of one length `uECC_vli_sub` returns a VLI of that length and a borrow of 0 or 1,
-- with left + borrow * 2^(64 n) = right + result.
pub sub-IsDifference :
    (left right : List ℕ)
    → length left ≡ length right
    → IsWords left
    → IsWords right
    → IsDifference left right 0 (sub left right)
unfolding sub
sub-IsDifference left right e p q = sub_loop-IsDifference 0 left right e p q (omega arith)

pub val-lt-span : (xs : List ℕ) → IsWords xs → val xs < span xs
val-lt-span [] h = omega arith
val-lt-span (x ∷ xs) h = omega (arith, val-lt-span xs h.1)

pub span-eq_of_length : (xs ys : List ℕ) → length xs ≡ length ys → span xs ≡ span ys
span-eq_of_length [] [] e = refl
span-eq_of_length [] (y ∷ ys) e = absurd (omega arith)
span-eq_of_length (x ∷ xs) [] e = absurd (omega arith)
span-eq_of_length (x ∷ xs) (y ∷ ys) e = omega (arith, span-eq_of_length xs ys)

-- The borrow tells which operand is larger.
pub sub_borrow :
    (left right : List ℕ)
    → length left ≡ length right
    → IsWords left
    → IsWords right
    → ((sub left right).1 ≡ 0 → val right ≤ val left)
      × ((sub left right).1 ≢ 0 → val left < val right)
sub_borrow left right e p q =
    let d = sub-IsDifference left right e p q in
    let weighed = λ (k : ℕ) (z : (sub left right).1 ≡ k). ap (λ (t : ℕ). span left * t) z in
    (
      λ z. omega (arith, d.total, weighed 0 z),
      λ nz.
          let one : (sub left right).1 ≡ 1 = omega (arith, d.last_bit) in
          omega (
            arith,
            d.total,
            weighed 1 one,
            val-lt-span _ d.words,
            span-eq_of_length _ _ d.same_length,
          ),
    )
