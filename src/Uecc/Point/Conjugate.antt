-- ===== src/Uecc/Point/Conjugate.antt =====
-- `XYcZ_addC` (uECC.c lines 806-845) returns the sum and the difference of two points.
use ligo.Prelude.{ℕ, ◌+◌, ◌-◌, ◌*◌, ◌<◌, ◌≤◌, arith}
use ligo.Uecc.Word.{val}
use ligo.Uecc.ModArith.{mod_sub}
use ligo.Uecc.ModArith.Congruence.{Congruent}
use ligo.Uecc.ModArith.Algebra.{congruent_of_mod, congruent_combine}
use ligo.Uecc.Curve.{CurveData}
use ligo.Uecc.Curve.Element.{IsField, difference_lem, product_lem, square_lem, mod_add-IsValue}
use ligo.Uecc.Point.{Points, xycz_add_c}
use ligo.Uecc.Point.Chord.{IsPoint, IsChordSum, IsAddition, sum_x_lem, sum_y_lem, ◌⊕◌, ◌⊗◌, neg}
use ligo.Uecc.Point.Addition.{AreElements}

-- `m - x` is the opposite of `x`.
opposite_lem : {m x : ℕ} → x ≤ m → Congruent m (m - x + x) 0
opposite_lem h = record { left_multiple = 0; right_multiple = 1; balance = omega arith }

-- The steps for the difference are those of an addition of the opposite: `n`, `s'` and `w` are the
-- opposites of y2, of the sum `sy` and of `u`.
abbrev minus_steps :
    {m x1 y1 x2 b e x3 y3 a c sy v n : ℕ} (y2 d t u s' w : ℕ)
    → Congruent m (d + x1) x2
    → Congruent m a (d * d)
    → Congruent m b (x1 * a)
    → Congruent m c (x2 * a)
    → Congruent m (t + b) c
    → Congruent m e (y1 * t)
    → Congruent m sy (y2 + y1)
    → Congruent m (x3 + b + c) (sy * sy)
    → Congruent m (u + b) x3
    → Congruent m v (u * sy)
    → Congruent m (y3 + e) v
    → Congruent m (n + y2) 0
    → Congruent m (s' + sy) 0
    → Congruent m (w + u) 0
    → IsAddition m x1 y1 x2 n b e x3 y3
minus_steps {a = a} {c = c} {sy = sy} {v = v} y2 d t u s' w hd ha hb hc ht he hs hx hu hv hy nn ns
      nw =
    record {
      d = d;
      e = s';
      a = a;
      c = c;
      difference = t;
      w = w;
      v = v;
      at_d = hd;
      at_e = congruent_combine (ns ⊕ neg hs ⊕ neg nn) (omega arith);
      at_a = ha;
      at_b = hb;
      at_c = hc;
      at_difference = ht;
      at_y1 = he;
      at_x3 = congruent_combine (hx ⊕ sy ⊗ ns ⊕ neg (s' ⊗ ns)) (omega arith);
      at_w = congruent_combine (nw ⊕ neg hu) (omega arith);
      at_v = congruent_combine (hv ⊕ u ⊗ ns ⊕ neg (s' ⊗ nw)) (omega arith);
      at_y3 = hy;
    }

opposite-IsPoint :
    {m a b' z x n : ℕ} (b y : ℕ)
    → IsPoint m a b z x y
    → Congruent m (b' + b) 0
    → Congruent m (n + y) 0
    → IsPoint m a b' z x n
opposite-IsPoint {z = z} b y p o nn = record {
  at_x = p.at_x;
  at_y = congruent_combine (nn ⊕ neg p.at_y ⊕ neg (z * z * z ⊗ o)) (omega arith);
}

-- The outcome for two points: the difference (x', y') and the sum (x, y), with the Z coordinate
-- multiplied by the difference `d` of the x coordinates.
pub record AddsBoth (c : CurveData) (x' y' x y z : ℕ) (s out : Points) : Type 0 where
  pub elements : AreElements c out
  pub d : ℕ
  pub at_d : Congruent (val c.p) (d + val s.x1) (val s.x2)
  pub difference : IsPoint (val c.p) x' y' (z * d) (val out.x1) (val out.y1)
  pub sum : IsPoint (val c.p) x y (z * d) (val out.x2) (val out.y2)

-- On a curve that reduces products, for two points with reduced coordinates and the common Z
-- coordinate `z`, whose sum lies on their chord, and whose difference lies on the chord of the first
-- and the opposite (a2, b2') of the second, `XYcZ_addC` returns the difference and the sum with a
-- common Z coordinate, which is `z` times the difference of the x coordinates.
pub xycz_add_c-AddsBoth :
    (c : CurveData) (s : Points) (a1 b1 a2 b2 b2' x y x' y' z : ℕ)
    → IsField c
    → AreElements c s
    → IsPoint (val c.p) a1 b1 z (val s.x1) (val s.y1)
    → IsPoint (val c.p) a2 b2 z (val s.x2) (val s.y2)
    → Congruent (val c.p) (b2' + b2) 0
    → IsChordSum (val c.p) a1 b1 a2 b2 x y
    → IsChordSum (val c.p) a1 b1 a2 b2' x' y'
    → AddsBoth c x' y' x y z s (xycz_add_c s c)
unfolding xycz_add_c
xycz_add_c-AddsBoth c s a1 b1 a2 b2 b2' x y x' y' z f h p1 p2 opposite sum difference =
    let m = val c.p in
    let d = difference_lem c f s.x2 s.x1 h.x2 h.x1 in
    let a = square_lem c f (mod_sub s.x2 s.x1 c.p) d.0 in
    let b = product_lem c f s.x1 _ h.x1 a.0 in
    let x2_a = product_lem c f s.x2 _ h.x2 a.0 in
    let sy_value = mod_add-IsValue c f s.y2 s.y1 h.y2 h.y1 in
    let sy = congruent_of_mod sy_value.value in
    let dy = difference_lem c f s.y2 s.y1 h.y2 h.y1 in
    let c_b = difference_lem c f _ _ x2_a.0 b.0 in
    let e = product_lem c f s.y1 _ h.y1 c_b.0 in
    let b_c_value = mod_add-IsValue c f _ _ b.0 x2_a.0 in
    let b_c = congruent_of_mod b_c_value.value in
    let dd = square_lem c f _ dy.0 in
    let x3 = difference_lem c f _ _ dd.0 b_c_value.element in
    let b_x3 = difference_lem c f _ _ b.0 x3.0 in
    let product = product_lem c f _ _ dy.0 b_x3.0 in
    let y3 = difference_lem c f _ _ product.0 e.0 in
    let ff = square_lem c f _ sy_value.element in
    let x3' = difference_lem c f _ _ ff.0 b_c_value.element in
    let x3'_b = difference_lem c f _ _ x3'.0 b.0 in
    let product' = product_lem c f _ _ x3'_b.0 sy_value.element in
    let y3' = difference_lem c f _ _ product'.0 e.0 in
    let plus : IsAddition m (val s.x1) (val s.y1) (val s.x2) (val s.y2) _ _ _ _ = record {
      d = _;
      e = _;
      a = _;
      c = _;
      difference = _;
      w = _;
      v = _;
      at_d = d.1;
      at_e = dy.1;
      at_a = a.1;
      at_b = b.1;
      at_c = x2_a.1;
      at_difference = c_b.1;
      at_y1 = e.1;
      at_x3 = congruent_combine (x3.1 ⊕ dd.1 ⊕ neg b_c) (omega arith);
      at_w = b_x3.1;
      at_v = product.1;
      at_y3 = y3.1;
    } in
    let no_sy = opposite_lem {m = m} (below sy_value.element.reduced) in
    let no_y2 = opposite_lem {m = m} (below h.y2.reduced) in
    let no_w = opposite_lem {m = m} (below x3'_b.0.reduced) in
    let minus =
      minus_steps _ _ _ _ _ _ d.1 a.1 b.1 x2_a.1 c_b.1 e.1 sy
        (congruent_combine (x3'.1 ⊕ ff.1 ⊕ neg b_c) (omega arith)) x3'_b.1 product'.1 y3'.1 no_y2
        no_sy no_w in
    let p2' = opposite-IsPoint _ _ p2 opposite no_y2 in
    record {
      elements = record { x1 = x3'.0; y1 = y3'.0; x2 = x3.0; y2 = y3.0 };
      d = _;
      at_d = d.1;
      difference = record {
        at_x = sum_x_lem m a1 b1 z _ _ _ _ _ _ _ _ minus p1 a2 b2' x' y' p2' difference;
        at_y = sum_y_lem m a1 b1 z _ _ _ _ _ _ _ _ minus p1 a2 b2' x' y' p2' difference;
      };
      sum = record {
        at_x = sum_x_lem m a1 b1 z _ _ _ _ _ _ _ _ plus p1 a2 b2 x y p2 sum;
        at_y = sum_y_lem m a1 b1 z _ _ _ _ _ _ _ _ plus p1 a2 b2 x y p2 sum;
      };
    }
  where
    below : {x m : ℕ} → x < m → x ≤ m
    below h = omega arith
