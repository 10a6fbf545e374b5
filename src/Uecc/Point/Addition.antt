-- ===== src/Uecc/Point/Addition.antt =====
-- `XYcZ_add` (uECC.c lines 775-804) adds points of the curve's group.
use ligo.Prelude.{ℕ, ◌+◌, ◌*◌}
use ligo.Uecc.Word.{val}
use ligo.Uecc.ModArith.{mod_sub}
use ligo.Uecc.ModArith.Congruence.{Congruent}
use ligo.Uecc.ModArith.Algebra.{congruent_refl, congruent_trans, congruent_add}
use ligo.Uecc.Curve.{CurveData}
use ligo.Uecc.Curve.Element.{IsElement, IsField, difference_lem, product_lem, square_lem}
use ligo.Uecc.Point.{Points, xycz_add}
use ligo.Uecc.Point.Chord.{IsPoint, IsChordSum, IsAddition, first-IsPoint, sum_x_lem, sum_y_lem}

pub record AreElements (c : CurveData) (s : Points) : Type 0 where
  pub x1 : IsElement c s.x1
  pub y1 : IsElement c s.y1
  pub x2 : IsElement c s.x2
  pub y2 : IsElement c s.y2

module _ (c : CurveData) (f : IsField c) where
  open c use {p}

  module _ (s : Points) (h : AreElements c s) where
    pub xycz_add-IsAddition :
        AreElements c (xycz_add s c)
        × IsAddition
            (val p)
            (val s.x1)
            (val s.y1)
            (val s.x2)
            (val s.y2)
            (val (Points.x1 (xycz_add s c)))
            (val (Points.y1 (xycz_add s c)))
            (val (Points.x2 (xycz_add s c)))
            (val (Points.y2 (xycz_add s c)))
    unfolding xycz_add
    xycz_add-IsAddition =
        let d = difference_lem c f s.x2 s.x1 h.x2 h.x1 in
        let a = square_lem c f (mod_sub s.x2 s.x1 p) d.0 in
        let b = product_lem c f s.x1 _ h.x1 a.0 in
        let x2_a = product_lem c f s.x2 _ h.x2 a.0 in
        let dy = difference_lem c f s.y2 s.y1 h.y2 h.y1 in
        let e2 = square_lem c f _ dy.0 in
        let d_b = difference_lem c f _ _ e2.0 b.0 in
        let x3 = difference_lem c f _ _ d_b.0 x2_a.0 in
        let c_b = difference_lem c f _ _ x2_a.0 b.0 in
        let y1 = product_lem c f s.y1 _ h.y1 c_b.0 in
        let b_x3 = difference_lem c f _ _ b.0 x3.0 in
        let product = product_lem c f _ _ dy.0 b_x3.0 in
        let y3 = difference_lem c f _ _ product.0 y1.0 in
        (
          record { x1 = b.0; y1 = y1.0; x2 = x3.0; y2 = y3.0 },
          record {
            d = _;
            e = _;
            a = _;
            c = _;
            difference = _;
            w = _;
            v = _;
            at_d = d.1;
            at_e = dy.1;
            at_a = a.1;
            at_b = b.1;
            at_c = x2_a.1;
            at_difference = c_b.1;
            at_y1 = y1.1;
            at_x3 =
                congruent_trans (congruent_add x3.1 (congruent_refl _))
                  (congruent_trans d_b.1 e2.1);
            at_w = b_x3.1;
            at_v = product.1;
            at_y3 = y3.1;
          },
        )

-- The outcome of `XYcZ_add` for the points of (a1, b1) and (a2, b2): the Z coordinate is multiplied
-- by `d`, the difference of the x coordinates, for both the first point and the sum (x, y).
pub record Adds (c : CurveData) (a1 b1 x y z : ℕ) (s out : Points) : Type 0 where
  pub elements : AreElements c out
  pub d : ℕ
  pub at_d : Congruent (val c.p) (d + val s.x1) (val s.x2)
  pub first : IsPoint (val c.p) a1 b1 (z * d) (val out.x1) (val out.y1)
  pub sum : IsPoint (val c.p) x y (z * d) (val out.x2) (val out.y2)

-- On a curve that reduces products, for two points with reduced coordinates and the common Z
-- coordinate `z`, whose sum lies on their chord, `XYcZ_add` returns the first point and the sum
-- with a common Z coordinate, which is `z` times the difference of the x coordinates.
pub xycz_add-Adds :
    (c : CurveData) (s : Points) (a1 b1 a2 b2 x y z : ℕ)
    → IsField c
    → AreElements c s
    → IsPoint (val c.p) a1 b1 z (val s.x1) (val s.y1)
    → IsPoint (val c.p) a2 b2 z (val s.x2) (val s.y2)
    → IsChordSum (val c.p) a1 b1 a2 b2 x y
    → Adds c a1 b1 x y z s (xycz_add s c)
xycz_add-Adds c s a1 b1 a2 b2 x y z f h p1 p2 sum =
    let (elements, added) = xycz_add-IsAddition c f s h in
    let first = first-IsPoint (val c.p) a1 b1 z _ _ _ _ _ _ _ _ added p1 in
    record {
      elements = elements;
      d = added.d;
      at_d = added.at_d;
      first = first;
      sum = record {
        at_x = sum_x_lem (val c.p) a1 b1 z _ _ _ _ _ _ _ _ added p1 a2 b2 x y p2 sum;
        at_y = sum_y_lem (val c.p) a1 b1 z _ _ _ _ _ _ _ _ added p1 a2 b2 x y p2 sum;
      };
    }
