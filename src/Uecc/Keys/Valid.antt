-- ===== src/Uecc/Keys/Valid.antt =====
-- `uECC_valid_point` (uECC.c lines 1109-1130) accepts the points of the curve.
use ligo.Prelude.{
  ℕ, ◌+◌, ◌*◌, ◌<◌, ◌≡◌, ◌≢◌, ◌↔◌, refl, sym, ap, ◌∙◌, arith, List, length, Bool, true, false,
  Bool-cases, inl, inr, not, ◌||◌, if◌then◌else◌, take, drop, length-take, length-drop,
}
use native.Mathlib.Nat.{mod-eq_of_lt}
use ligo.Uecc.Word.{IsWords, val}
use ligo.Uecc.Vli.{is_zero, cmp_unsafe, equal}
use ligo.Uecc.Vli.Value.{val_ext, IsWords-drop}
use ligo.Uecc.Reduce.Multiple.{IsWords-take}
use ligo.Uecc.Point.Chord.{◌⊕◌}
use ligo.Uecc.Vli.Compare.{is_zero_iff, is_zero-false, equal_iff, cmp_unsafe-IsOrder}
use ligo.Uecc.ModArith.{is_one}
use ligo.Uecc.ModArith.Residue.{is_one-lt, not_one-le}
use ligo.Uecc.ModArith.Congruence.{Congruent, Congruent-mod}
use ligo.Uecc.ModArith.Algebra.{congruent_sym, congruent_combine, congruent_of_eq}
use ligo.Uecc.Curve.{CurveData, Curve, mod_square_fast}
use ligo.Uecc.Curve.Element.{IsElement, IsField, square_lem}
use ligo.Uecc.Jacobian.{x_side_default}
use ligo.Uecc.Jacobian.Side.{x_side-IsSide}
use ligo.Uecc.Point.{point_is_zero}
use ligo.Uecc.Keys.{valid_point}

-- The coordinates of `point` are below the prime, not both 0, and satisfy y^2 = x^3 - 3 x + b.
pub record IsOnCurve (c : CurveData) (point : List ℕ) : Type 0 where
  pub finite : val point ≢ 0
  pub x_reduced : val (take c.num_words point) < val c.p
  pub y_reduced : val (drop c.num_words point) < val c.p
  pub equation :
      Congruent
        (val c.p)
        (val (drop c.num_words point) * val (drop c.num_words point)
          + 3 * val (take c.num_words point))
        (val (take c.num_words point) * val (take c.num_words point) * val (take c.num_words point)
          + val c.b)

-- Two elements are the same words where they are congruent.
equal-congruent :
    (c : CurveData) (x y : List ℕ)
    → IsElement c x
    → IsElement c y
    → (equal x y ≡ true) ↔ Congruent (val c.p) (val x) (val y)
equal-congruent c x y xe ye =
    let same = xe.size ∙ sym ye.size in
    (
      λ h. congruent_of_eq (ap val ((equal_iff x y same).0 h)),
      λ h. (equal_iff x y same).1 (
          val_ext x y same xe.words ye.words
            (sym (mod-eq_of_lt xe.reduced) ∙ Congruent-mod _ _ _ h ∙ mod-eq_of_lt ye.reduced)),
    )

-- A comparison with the prime.
is_one_iff :
    (c : CurveData) (x : List ℕ)
    → IsField c
    → length x ≡ c.num_words
    → IsWords x
    → (is_one (cmp_unsafe c.p x) ≡ true) ↔ (val x < val c.p)
is_one_iff c x f e w =
    let order = cmp_unsafe-IsOrder c.p x (f.p_size ∙ sym e) f.p_words w in
    (
      is_one-lt (cmp_unsafe c.p x) _ _ order,
      λ h. elim (Bool-cases (is_one (cmp_unsafe c.p x))) [
        | inl holds ↦ holds
        | inr fails ↦ absurd (omega (arith, not_one-le (cmp_unsafe c.p x) _ _ order fails))
      ],
    )

-- The guards of the code, and its last test.
guards_iff :
    (z a b q : Bool)
    → ((if z then false else if not a || not b then false else q) ≡ true)
      ↔ ((z ≡ false) × (a ≡ true) × (b ≡ true) × (q ≡ true))
guards_iff true a b q = (λ h. absurd (cc), λ h. absurd (cc))
guards_iff false false b q = (λ h. absurd (cc), λ h. absurd (cc))
guards_iff false true false q = (λ h. absurd (cc), λ h. absurd (cc))
guards_iff false true true q = (λ h. (refl, refl, refl, h), λ h. h.3)

-- The right side of the equation, as a congruence.
side_iff :
    {m y2 s : ℕ} (x y b : ℕ)
    → Congruent m y2 (y * y)
    → Congruent m (s + 3 * x) (x * x * x + b)
    → Congruent m y2 s ↔ Congruent m (y * y + 3 * x) (x * x * x + b)
side_iff x y b p q = (
  λ h. congruent_combine (congruent_sym p ⊕ h ⊕ q) (omega arith),
  λ h. congruent_combine (p ⊕ h ⊕ congruent_sym q) (omega arith),
)

-- On a curve with `a = -3`, whose prime is above 3 and reduces products, and whose `b` is reduced,
-- `uECC_valid_point` accepts the words of a point exactly where its coordinates are below the
-- prime, are not both zero, and satisfy the curve's equation.
pub valid_point-IsOnCurve :
    (c : Curve) (point : List ℕ)
    → IsField c.info
    → IsElement c.info c.b
    → 3 < val c.p
    → c.x_side ≡ x_side_default
    → length point ≡ c.num_words + c.num_words
    → IsWords point
    → (valid_point point c ≡ true) ↔ IsOnCurve c.info point
unfolding valid_point point_is_zero
valid_point-IsOnCurve c point f be big side e w =
    let n = c.num_words in
    let x = take n point in
    let y = drop n point in
    let x_size : length x ≡ n = length-take n point ∙ omega (arith, e) in
    let y_size : length y ≡ n = length-drop n point ∙ omega (arith, e) in
    let xw = IsWords-take n point w in
    let yw = IsWords-drop n point w in
    let guards =
      guards_iff (is_zero point) (is_one (cmp_unsafe c.p x)) (is_one (cmp_unsafe c.p y))
        (equal (mod_square_fast y c.info) (c.x_side c.info x)) in
    let below_x = is_one_iff c.info x f x_size xw in
    let below_y = is_one_iff c.info y f y_size yw in
    let element_x : val x < val c.p → IsElement c.info x =
      λ h. record { size = x_size; words = xw; reduced = h } in
    let element_y : val y < val c.p → IsElement c.info y =
      λ h. record { size = y_size; words = yw; reduced = h } in
    (
      λ h.
          let (nonzero, gx, gy, same) = guards.0 h in
          let bx = below_x.0 gx in
          let by_ = below_y.0 gy in
          record {
            finite = λ z. absurd (cc (nonzero, (is_zero_iff point).1 z));
            x_reduced = bx;
            y_reduced = by_;
            equation = (equation_iff x y (element_x bx) (element_y by_)).0 same;
          },
      λ h. guards.1 (
        is_zero-false point h.finite,
        below_x.1 h.x_reduced,
        below_y.1 h.y_reduced,
        (equation_iff x y (element_x h.x_reduced) (element_y h.y_reduced)).1 h.equation,
      ),
    )
  where
    equation_iff :
        (x y : List ℕ)
        → IsElement c.info x
        → IsElement c.info y
        → (equal (mod_square_fast y c.info) (c.x_side c.info x) ≡ true)
          ↔ Congruent (val c.p) (val y * val y + 3 * val x) (val x * val x * val x + val c.b)
    equation_iff x y xe ye =
        let s = square_lem c.info f y ye in
        let r = x_side-IsSide c.info x f be big xe in
        let same = equal-congruent c.info _ _ s.0 r.0 in
        let sides = side_iff (val x) (val y) (val c.b) s.1 r.1 in
        rw side (λ h. sides.0 (same.0 h), λ h. same.1 (sides.1 h))
