-- ===== src/Uecc/Point/Start.antt =====
-- The start of `EccPoint_mult` (uECC.c lines 729-773): `apply_z` and `XYcZ_initial_double` give the
-- point and its double with a common Z coordinate.
use ligo.Prelude.{ℕ, ◌*◌, ◌%◌, ◌<◌, ◌≡◌, ◌≢◌, refl, ap, arith, List, Option, none, some, set}
use native.Mathlib.Nat.{mod-eq_of_lt}
use ligo.Uecc.Word.{val}
use ligo.Uecc.Vli.{clear}
use ligo.Uecc.Vli.Compare.{is_zero-false}
use ligo.Uecc.ModArith.Congruence.{Congruent, Congruent-mod}
use ligo.Uecc.ModArith.Algebra.{congruent_combine}
use ligo.Uecc.Curve.{CurveData, Curve}
use ligo.Uecc.Curve.Element.{IsElement, IsField, product_lem, square_lem}
use ligo.Uecc.Jacobian.{double_jacobian_default}
use ligo.Uecc.Jacobian.Double.{IsTangentSum, double_jacobian-Doubles}
use ligo.Uecc.Jacobian.Side.{constant-IsElement}
use ligo.Uecc.Point.{Coords, Points, Ladder, apply_z, xycz_initial_double}
use ligo.Uecc.Point.Chord.{◌⊕◌, ◌⊗◌}
use ligo.Uecc.Point.Multiples.{IsUnit, IsUnit-mul, IsUnit-congruent}
use ligo.Uecc.Point.Rounds.{IsAt, Holds}

-- Modulo a number above 1, 0 has no inverse.
pub unit_nonzero : {m x : ℕ} → 1 < m → IsUnit m x → x ≢ 0
unit_nonzero {m = m} big u e =
    let zero_is_one : 0 % m ≡ 1 % m =
      Congruent-mod m 0 1
        (congruent_combine u.is_one (omega (arith, ap (λ (t : ℕ). t * u.inverse) e))) in
    omega (arith, zero_is_one, mod-eq_of_lt big)

module _ (c : CurveData) (f : IsField c) where
  pub applied-IsAt :
      {z a b : ℕ} {s : Coords} (w : List ℕ)
      → IsElement c w
      → IsAt c z a b s
      → IsAt c (z * val w) a b (apply_z s w c)
  unfolding apply_z
  applied-IsAt {s = s} w we h =
      let t1 = square_lem c f w we in
      let x1 = product_lem c f s.x _ h.x_element t1.0 in
      let t1' = product_lem c f _ w t1.0 we in
      let y1 = product_lem c f s.y _ h.y_element t1'.0 in
      record {
        x_element = x1.0;
        y_element = y1.0;
        point = record {
          at_x =
              congruent_combine (x1.1 ⊕ val s.x ⊗ t1.1 ⊕ val w * val w ⊗ h.point.at_x)
                (omega arith);
          at_y =
              congruent_combine
                (y1.1
                  ⊕ val s.y ⊗ t1'.1
                  ⊕ val s.y * val w ⊗ t1.1
                  ⊕ val w * val w * val w ⊗ h.point.at_y)
                (omega arith);
        };
      }

  -- The same, on affine coordinates.
  pub applied_affine :
      {a b : ℕ} {s : Coords} (w : List ℕ)
      → IsElement c w
      → IsAt c 1 a b s
      → IsAt c (val w) a b (apply_z s w c)
  applied_affine w we h =
      let once : 1 * val w ≡ val w = omega arith in rw (← once) (applied-IsAt w we h)

  -- The Z coordinate that `XYcZ_initial_double` takes.
  abbrev initial : Option (List ℕ) → List ℕ
  initial initial_z = elim initial_z [ none ↦ set (clear c.num_words) 0 1 | some z ↦ z ]

  initial_lem :
      (initial_z : Option (List ℕ))
      → ((z : List ℕ) → initial_z ≡ some z → IsElement c z × IsUnit (val c.p) (val z))
      → IsElement c (initial initial_z) × IsUnit (val c.p) (val (initial initial_z))
  initial_lem none h =
      let (one, value) = constant-IsElement c f 1 (omega arith) f.p_big in
      (one, record { inverse = 1; is_one = congruent_one value })
    where
      congruent_one : {x : ℕ} → x ≡ 1 → Congruent (val c.p) (x * 1) 1
      congruent_one e = record { left_multiple = 0; right_multiple = 0; balance = omega (arith, e) }
  initial_lem (some z) h = h z refl

-- The ladder's first registers.
abbrev pub start_registers : Points → Ladder
start_registers start = record {
  r0 = record { x = start.x2; y = start.y2 };
  r1 = record { x = start.x1; y = start.y1 };
}

-- R[0] and R[1] stand for the point and its double.
pub initial_double-Holds :
    (c : Curve) (s : Coords) (initial_z : Option (List ℕ)) (a b x y : ℕ)
    → IsField c.info
    → c.double_jacobian ≡ double_jacobian_default
    → ((z : List ℕ) → initial_z ≡ some z → IsElement c.info z × IsUnit (val c.p) (val z))
    → IsAt c.info 1 a b s
    → IsUnit (val c.p) b
    → IsTangentSum (val c.p) a b x y
    → Holds c.info a b x y (start_registers (xycz_initial_double s initial_z c))
unfolding xycz_initial_double
initial_double-Holds c s initial_z a b x y f doubling initials h unit tangent =
    let (ze, zu) = initial_lem c.info f initial_z initials in
    let z = initial c.info f initial_z in
    let first = applied_affine c.info f z ze h in
    let t =
      double_jacobian-Doubles c.info
        (record { x1 = (apply_z s z c.info).x; y1 = (apply_z s z c.info).y; z1 = z }) a b x y f
        (record { x1 = first.x_element; y1 = first.y_element; z1 = ze })
        (is_zero-false z (unit_nonzero f.p_big zu)) first.point tangent in
    let doubled_unit = IsUnit-congruent _ t.at_z (
      IsUnit-mul
        (IsUnit-congruent _ first.point.at_y (IsUnit-mul unit (IsUnit-mul (IsUnit-mul zu zu) zu)))
        zu) in
    rw doubling (record {
      z = _;
      unit = doubled_unit;
      first = applied_affine c.info f _ t.reduced.z1 h;
      second = record { x_element = t.reduced.x1; y_element = t.reduced.y1; point = t.point };
    })
