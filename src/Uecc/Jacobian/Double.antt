-- ===== src/Uecc/Jacobian/Double.antt =====
-- `double_jacobian_default` (curve-specific.h lines 48-95) doubles points by the tangent law.
use ligo.Prelude.{ℕ, ◌+◌, ◌*◌, ◌%◌, ◌≡◌, arith, List, false}
use ligo.Uecc.Word.{val}
use ligo.Uecc.Vli.{is_zero}
use ligo.Uecc.ModArith.{mod_add}
use ligo.Uecc.ModArith.Congruence.{Congruent, Congruent-half}
use ligo.Uecc.ModArith.Algebra.{
  congruent_sym, congruent_trans, congruent_mul, congruent_of_mod, congruent_times,
  congruent_combine,
}
use ligo.Uecc.Curve.{CurveData, Jacobian}
use ligo.Uecc.Curve.Element.{
  IsElement, IsField, product_lem, square_lem, difference_lem, mod_add-IsValue,
}
use ligo.Uecc.Point.Chord.{IsPoint, ◌⊕◌, ◌⊗◌, neg}
use ligo.Uecc.Jacobian.Half.{half_mod-IsHalf}
use ligo.Uecc.Jacobian.{double_jacobian_default}

-- (x, y) is twice the point (a, b) of a curve with `a = -3`, on the tangent of slope `k`.
pub record IsTangentSum (m a b x y : ℕ) : Type 0 where
  pub k : ℕ
  pub slope : Congruent m (2 * b * k + 3) (3 * a * a)
  pub sum_x : Congruent m (x + a + a) (k * k)
  pub sum_y : Congruent m (y + b + k * x) (k * a)

-- The steps of the doubling as congruences between its intermediate values.
pub record IsDoubling (m x1 y1 z1 x3 y3 z3 : ℕ) : Type 0 where
  pub y2 : ℕ
  pub a : ℕ
  pub y4 : ℕ
  pub z2 : ℕ
  pub s : ℕ
  pub t2 : ℕ
  pub l : ℕ
  pub t : ℕ
  pub tt : ℕ
  pub u : ℕ
  pub b : ℕ
  pub b2 : ℕ
  pub g : ℕ
  pub h : ℕ
  pub w : ℕ
  pub at_y2 : Congruent m y2 (y1 * y1)
  pub at_a : Congruent m a (x1 * y2)
  pub at_y4 : Congruent m y4 (y2 * y2)
  pub at_z3 : Congruent m z3 (y1 * z1)
  pub at_z2 : Congruent m z2 (z1 * z1)
  pub at_s : Congruent m s (x1 + z2)
  pub at_t2 : Congruent m t2 (z2 + z2)
  pub at_l : Congruent m (l + t2) s
  pub at_t : Congruent m t (s * l)
  pub at_tt : Congruent m tt (t + t)
  pub at_u : Congruent m u (t + tt)
  pub at_b : Congruent m (2 * b) u
  pub at_b2 : Congruent m b2 (b * b)
  pub at_g : Congruent m (g + a) b2
  pub at_x3 : Congruent m (x3 + a) g
  pub at_h : Congruent m (h + x3) a
  pub at_w : Congruent m w (b * h)
  pub at_y3 : Congruent m (y3 + y4) w

module _ (m a1 b1 x1 y1 z x3 y3 z3 : ℕ) (o : m % 2 ≡ 1) (s : IsDoubling m x1 y1 z x3 y3 z3)
    (p : IsPoint m a1 b1 z x1 y1) (x y : ℕ) (h : IsTangentSum m a1 b1 x y) where
  difference_lem' : Congruent m (s.l + z * z) x1
  difference_lem' = congruent_combine (s.at_l ⊕ s.at_s ⊕ neg s.at_t2 ⊕ neg s.at_z2) (omega arith)

  slope_lem : Congruent m s.b (h.k * (y1 * z))
  slope_lem = Congruent-half m _ _ o (
      congruent_combine
        (s.at_b
          ⊕ s.at_u
          ⊕ s.at_tt
          ⊕ 3 ⊗ s.at_t
          ⊕ 3 * s.l ⊗ s.at_s
          ⊕ 3 * s.l ⊗ s.at_z2
          ⊕ 3 * (x1 + z * z) ⊗ difference_lem'
          ⊕ 3 * (x1 + a1 * (z * z)) ⊗ p.at_x
          ⊕ z * z * (z * z) ⊗ neg h.slope
          ⊕ 2 * h.k * z ⊗ neg p.at_y)
        (omega arith))

  sum_x_lem : Congruent m x3 (x * (y1 * z * (y1 * z)))
  sum_x_lem =
      congruent_combine
        (s.at_x3
          ⊕ s.at_g
          ⊕ s.at_b2
          ⊕ s.b + h.k * (y1 * z) ⊗ slope_lem
          ⊕ 2 ⊗ neg s.at_a
          ⊕ 2 * x1 ⊗ neg s.at_y2
          ⊕ 2 * (y1 * y1) ⊗ neg p.at_x
          ⊕ y1 * z * (y1 * z) ⊗ neg h.sum_x)
        (omega arith)

  sum_y_lem : Congruent m y3 (y * (y1 * z * (y1 * z) * (y1 * z)))
  sum_y_lem =
      congruent_combine
        (s.at_y3
          ⊕ s.at_w
          ⊕ s.b ⊗ s.at_h
          ⊕ s.b ⊗ neg sum_x_lem
          ⊕ s.b ⊗ s.at_a
          ⊕ s.b * x1 ⊗ s.at_y2
          ⊕ s.b * (y1 * y1) ⊗ p.at_x
          ⊕ neg s.at_y4
          ⊕ s.y2 + y1 * y1 ⊗ neg s.at_y2
          ⊕ y1 * y1 * y1 ⊗ neg p.at_y
          ⊕ a1 * (y1 * z * (y1 * z)) ⊗ slope_lem
          ⊕ x * (y1 * z * (y1 * z)) ⊗ neg slope_lem
          ⊕ y1 * z * (y1 * z) * (y1 * z) ⊗ neg h.sum_y)
        (omega arith)

  doubled-IsPoint : IsPoint m x y z3 x3 y3
  doubled-IsPoint =
      let q = congruent_sym s.at_z3 in
      record {
        at_x = congruent_trans sum_x_lem (congruent_times x (congruent_mul q q));
        at_y = congruent_trans sum_y_lem (congruent_times y (congruent_mul (congruent_mul q q) q));
      }

-- A Jacobian point with reduced coordinates.
pub record AreReduced (c : CurveData) (s : Jacobian) : Type 0 where
  pub x1 : IsElement c s.x1
  pub y1 : IsElement c s.y1
  pub z1 : IsElement c s.z1

sum_lem :
    (c : CurveData)
    → IsField c
    → (x y : List ℕ) → IsElement c x
    → IsElement c y
    → IsElement c (mod_add x y c.p) × Congruent (val c.p) (val (mod_add x y c.p)) (val x + val y)
sum_lem c f x y xe ye =
    let a = mod_add-IsValue c f x y xe ye in (a.element, congruent_of_mod a.value)

double_jacobian-IsDoubling :
    (c : CurveData) (s : Jacobian)
    → IsField c
    → AreReduced c s
    → is_zero s.z1 ≡ false
    → AreReduced c (double_jacobian_default c s)
      × IsDoubling
          (val c.p)
          (val s.x1)
          (val s.y1)
          (val s.z1)
          (val (Jacobian.x1 (double_jacobian_default c s)))
          (val (Jacobian.y1 (double_jacobian_default c s)))
          (val (Jacobian.z1 (double_jacobian_default c s)))
unfolding double_jacobian_default
double_jacobian-IsDoubling c s f r e =
    let y2 = square_lem c f s.y1 r.y1 in
    let a = product_lem c f s.x1 _ r.x1 y2.0 in
    let y4 = square_lem c f _ y2.0 in
    let z3 = product_lem c f s.y1 s.z1 r.y1 r.z1 in
    let z2 = square_lem c f s.z1 r.z1 in
    let x_z2 = sum_lem c f s.x1 _ r.x1 z2.0 in
    let twice_z2 = sum_lem c f _ _ z2.0 z2.0 in
    let x_less = difference_lem c f _ _ x_z2.0 twice_z2.0 in
    let t = product_lem c f _ _ x_z2.0 x_less.0 in
    let twice_t = sum_lem c f _ _ t.0 t.0 in
    let u = sum_lem c f _ _ t.0 twice_t.0 in
    let b = half_mod-IsHalf c f _ u.0 in
    let b2 = square_lem c f _ b.0 in
    let b2_a = difference_lem c f _ _ b2.0 a.0 in
    let x3 = difference_lem c f _ _ b2_a.0 a.0 in
    let a_x3 = difference_lem c f _ _ a.0 x3.0 in
    let product = product_lem c f _ _ b.0 a_x3.0 in
    let y3 = difference_lem c f _ _ product.0 y4.0 in
    rw e (
      record { x1 = x3.0; y1 = y3.0; z1 = z3.0 },
      record {
        y2 = _;
        a = _;
        y4 = _;
        z2 = _;
        s = _;
        t2 = _;
        l = _;
        t = _;
        tt = _;
        u = _;
        b = _;
        b2 = _;
        g = _;
        h = _;
        w = _;
        at_y2 = y2.1;
        at_a = a.1;
        at_y4 = y4.1;
        at_z3 = z3.1;
        at_z2 = z2.1;
        at_s = x_z2.1;
        at_t2 = twice_z2.1;
        at_l = x_less.1;
        at_t = t.1;
        at_tt = twice_t.1;
        at_u = u.1;
        at_b = b.1;
        at_b2 = b2.1;
        at_g = b2_a.1;
        at_x3 = x3.1;
        at_h = a_x3.1;
        at_w = product.1;
        at_y3 = y3.1;
      },
    )

-- The outcome for twice the point: (x, y), with the Z coordinate Y1 Z1.
pub record Doubles (c : CurveData) (x y : ℕ) (s out : Jacobian) : Type 0 where
  pub reduced : AreReduced c out
  pub point : IsPoint (val c.p) x y (val out.z1) (val out.x1) (val out.y1)
  pub at_z : Congruent (val c.p) (val out.z1) (val s.y1 * val s.z1)

-- On a curve that reduces products, for a Jacobian point with reduced coordinates whose Z coordinate
-- is not zero, and a point (x, y) that is twice it on its tangent, `double_jacobian_default` returns
-- reduced coordinates of (x, y), and its Z coordinate is congruent to Y1 Z1.
pub double_jacobian-Doubles :
    (c : CurveData) (s : Jacobian) (a b x y : ℕ)
    → IsField c
    → AreReduced c s
    → is_zero s.z1 ≡ false
    → IsPoint (val c.p) a b (val s.z1) (val s.x1) (val s.y1)
    → IsTangentSum (val c.p) a b x y
    → Doubles c x y s (double_jacobian_default c s)
double_jacobian-Doubles c s a b x y f r e p h =
    let (reduced, d) = double_jacobian-IsDoubling c s f r e in
    record {
      reduced = reduced;
      point = doubled-IsPoint (val c.p) a b _ _ _ _ _ _ f.p_odd d p x y h;
      at_z = d.at_z3;
    }
