-- ===== src/Uecc/Curve/Element.antt =====
-- The field that a curve's coordinates are in: what a curve promises, and what follows for the
-- operations modulo its prime.
use ligo.Prelude.{ℕ, ◌+◌, ◌-◌, ◌*◌, ◌%◌, ◌≤◌, ◌<◌, ◌≡◌, sym, ◌∙◌, arith, List, length}
use ligo.Uecc.Word.{IsWords, val}
use ligo.Uecc.ModArith.{mod_add, mod_sub}
use ligo.Uecc.ModArith.Congruence.{Congruent}
use ligo.Uecc.ModArith.Algebra.{congruent_of_mod, congruent_sub}
use ligo.Uecc.ModArith.Residue.{AreReduced, mod_add-IsResidue, mod_sub-IsResidue}
use ligo.Uecc.Mult.{mult, square}
use ligo.Uecc.Mult.Product.{mult-IsProduct}
use ligo.Uecc.Mult.Square.{square-IsProduct}
use ligo.Uecc.Curve.{CurveData, mod_mult_fast, mod_square_fast}

-- A reduced VLI of the curve's length.
pub record IsElement (c : CurveData) (x : List ℕ) : Type 0 where
  pub size : length x ≡ c.num_words
  pub words : IsWords x
  pub reduced : val x < val c.p

-- An element that stands for `v`.
pub record IsValue (c : CurveData) (v : ℕ) (x : List ℕ) : Type 0 where
  pub element : IsElement c x
  pub value : val x ≡ v % val c.p

-- What a curve promises: its prime is an odd VLI of the curve's length, and `mmod_fast` reduces
-- the products of elements.
pub record IsField (c : CurveData) : Type 0 where
  pub positive : 0 < c.num_words
  pub small : c.num_words ≤ 63
  pub p_size : length c.p ≡ c.num_words
  pub p_words : IsWords c.p
  pub p_odd : val c.p % 2 ≡ 1
  pub p_big : 1 < val c.p
  pub reduces :
      (product : List ℕ)
      → length product ≡ 2 * c.num_words
      → IsWords product
      → val product < val c.p * val c.p
      → IsValue c (val product) (c.mmod_fast product)

product-lt_square : (a b m : ℕ) → a < m → b < m → a * b < m * m
product-lt_square a b m p q = grind arith

module _ (c : CurveData) (f : IsField c) where
  reduced : (x y : List ℕ) → IsElement c x → IsElement c y → AreReduced x y c.p
  reduced x y p q = record {
    same = p.size ∙ sym q.size;
    same_mod = p.size ∙ sym f.p_size;
    left_words = p.words;
    right_words = q.words;
    mod_words = f.p_words;
    left_reduced = p.reduced;
    right_reduced = q.reduced;
  }

  pub mod_add-IsValue :
      (x y : List ℕ) → IsElement c x → IsElement c y → IsValue c (val x + val y) (mod_add x y c.p)
  mod_add-IsValue x y p q =
      let r = mod_add-IsResidue x y c.p (reduced x y p q) in
      record {
        element = record { size = r.same_length ∙ p.size; words = r.words; reduced = r.reduced };
        value = r.residue;
      }

  pub mod_sub-IsValue :
      (x y : List ℕ)
      → IsElement c x
      → IsElement c y
      → IsValue c (val x + val c.p - val y) (mod_sub x y c.p)
  mod_sub-IsValue x y p q =
      let r = mod_sub-IsResidue x y c.p (reduced x y p q) in
      record {
        element = record { size = r.same_length ∙ p.size; words = r.words; reduced = r.reduced };
        value = r.residue;
      }

  pub mod_mult_fast-IsValue :
      (x y : List ℕ)
      → IsElement c x
      → IsElement c y
      → IsValue c (val x * val y) (mod_mult_fast x y c)
  unfolding mod_mult_fast
  mod_mult_fast-IsValue x y p q =
      let m =
        mult-IsProduct x y (p.size ∙ sym q.size) (omega (arith, p.size, f.positive))
          (omega (arith, p.size, f.small)) p.words q.words in
      rw (← m.product) (
        f.reduces (mult x y) (omega (arith, m.same_length, p.size)) m.words
          (rw m.product (product-lt_square (val x) (val y) (val c.p) p.reduced q.reduced)))

  pub mod_square_fast-IsValue :
      (x : List ℕ) → IsElement c x → IsValue c (val x * val x) (mod_square_fast x c)
  unfolding mod_square_fast
  mod_square_fast-IsValue x p =
      let m =
        square-IsProduct x (omega (arith, p.size, f.positive)) (omega (arith, p.size, f.small))
          p.words in
      rw (← m.product) (
        f.reduces (square x) (omega (arith, m.same_length, p.size)) m.words
          (rw m.product (product-lt_square (val x) (val x) (val c.p) p.reduced p.reduced)))

  -- The same, as congruences.
  pub difference_lem :
      (x y : List ℕ)
      → IsElement c x
      → IsElement c y
      → IsElement c (mod_sub x y c.p) × Congruent (val c.p) (val (mod_sub x y c.p) + val y) (val x)
  difference_lem x y xe ye =
      let d = mod_sub-IsValue x y xe ye in
      (d.element, congruent_sub d.value (omega (arith, ye.reduced)))

  pub product_lem :
      (x y : List ℕ)
      → IsElement c x
      → IsElement c y
      → IsElement c (mod_mult_fast x y c)
        × Congruent (val c.p) (val (mod_mult_fast x y c)) (val x * val y)
  product_lem x y xe ye =
      let m = mod_mult_fast-IsValue x y xe ye in (m.element, congruent_of_mod m.value)

  pub square_lem :
      (x : List ℕ)
      → IsElement c x
      → IsElement c (mod_square_fast x c)
        × Congruent (val c.p) (val (mod_square_fast x c)) (val x * val x)
  square_lem x xe = let m = mod_square_fast-IsValue x xe in (m.element, congruent_of_mod m.value)
