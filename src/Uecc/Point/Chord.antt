-- ===== src/Uecc/Point/Chord.antt =====
-- The chord law of a curve's group, and the algebra that relates it to `XYcZ_add` (uECC.c lines
-- 775-804).
use ligo.Prelude.{ℕ, ◌+◌, ◌*◌, arith}
use ligo.Uecc.ModArith.Congruence.{Congruent}
use ligo.Uecc.ModArith.Algebra.{congruent_sym, congruent_add, congruent_times, congruent_combine}

-- The coordinates stand, with the common Z coordinate `z`, for the point with the affine
-- coordinates `a` and `b`, modulo `m`.
pub record IsPoint (m a b z x y : ℕ) : Type 0 where
  pub at_x : Congruent m x (a * (z * z))
  pub at_y : Congruent m y (b * (z * z * z))

-- (x, y) is the sum of the points (a1, b1) and (a2, b2) on the chord of slope `k`.
pub record IsChordSum (m a1 b1 a2 b2 x y : ℕ) : Type 0 where
  pub k : ℕ
  pub slope : Congruent m (k * a2 + b1) (k * a1 + b2)
  pub sum_x : Congruent m (x + a1 + a2) (k * k)
  pub sum_y : Congruent m (y + b1 + k * x) (k * a1)

-- The steps of `XYcZ_add` as congruences between its intermediate values.
pub record IsAddition (m x1 y1 x2 y2 b y1' x3 y3 : ℕ) : Type 0 where
  pub d : ℕ
  pub e : ℕ
  pub a : ℕ
  pub c : ℕ
  pub difference : ℕ
  pub w : ℕ
  pub v : ℕ
  pub at_d : Congruent m (d + x1) x2
  pub at_e : Congruent m (e + y1) y2
  pub at_a : Congruent m a (d * d)
  pub at_b : Congruent m b (x1 * a)
  pub at_c : Congruent m c (x2 * a)
  pub at_difference : Congruent m (difference + b) c
  pub at_y1 : Congruent m y1' (y1 * difference)
  pub at_x3 : Congruent m (x3 + c + b) (e * e)
  pub at_w : Congruent m (w + x3) b
  pub at_v : Congruent m v (e * w)
  pub at_y3 : Congruent m (y3 + y1') v

infixl 40 ◌⊕◌
abbrev pub ◌⊕◌ : {m x y z w : ℕ} → Congruent m x y → Congruent m z w → Congruent m (x + z) (y + w)
p ⊕ q = congruent_add p q

infix 45 ◌⊗◌
abbrev pub ◌⊗◌ : {m x y : ℕ} (c : ℕ) → Congruent m x y → Congruent m (c * x) (c * y)
c ⊗ p = congruent_times c p

abbrev pub neg : {m x y : ℕ} → Congruent m x y → Congruent m y x
neg p = congruent_sym p

module _ (m a1 b1 z x1 y1 x2 y2 b y1' x3 y3 : ℕ) (s : IsAddition m x1 y1 x2 y2 b y1' x3 y3)
    (p : IsPoint m a1 b1 z x1 y1) where
  -- The first point with the new Z coordinate.
  pub first-IsPoint : IsPoint m a1 b1 (z * s.d) b y1'
  first-IsPoint = record {
    at_x = congruent_combine (s.at_b ⊕ x1 ⊗ s.at_a ⊕ s.d * s.d ⊗ p.at_x) (omega arith);
    at_y =
        congruent_combine
          (s.at_y1
            ⊕ y1 ⊗ s.at_difference
            ⊕ y1 ⊗ s.at_c
            ⊕ y1 ⊗ neg s.at_b
            ⊕ y1 * s.a ⊗ neg s.at_d
            ⊕ y1 * s.d ⊗ s.at_a
            ⊕ s.d * s.d * s.d ⊗ p.at_y)
          (omega arith);
  }

  module _ (a2 b2 sx sy : ℕ) (p' : IsPoint m a2 b2 z x2 y2)
      (h : IsChordSum m a1 b1 a2 b2 sx sy) where
    slope_lem : Congruent m s.e (h.k * s.d * z)
    slope_lem =
        congruent_combine
          (s.at_e
            ⊕ p'.at_y
            ⊕ neg p.at_y
            ⊕ h.k * z ⊗ neg s.at_d
            ⊕ h.k * z ⊗ neg p'.at_x
            ⊕ h.k * z ⊗ p.at_x
            ⊕ z * z * z ⊗ neg h.slope)
          (omega arith)

    pub sum_x_lem : Congruent m x3 (sx * (z * s.d * (z * s.d)))
    sum_x_lem =
        congruent_combine
          (s.at_x3
            ⊕ neg s.at_b
            ⊕ neg s.at_c
            ⊕ x1 + x2 ⊗ neg s.at_a
            ⊕ s.e + h.k * s.d * z ⊗ slope_lem
            ⊕ s.d * s.d ⊗ neg p.at_x
            ⊕ s.d * s.d ⊗ neg p'.at_x
            ⊕ z * z * (s.d * s.d) ⊗ neg h.sum_x)
          (omega arith)

    pub sum_y_lem : Congruent m y3 (sy * (z * s.d * (z * s.d) * (z * s.d)))
    sum_y_lem =
        congruent_combine
          (s.at_y3
            ⊕ s.at_v
            ⊕ neg first-IsPoint.at_y
            ⊕ s.e ⊗ s.at_w
            ⊕ s.e ⊗ first-IsPoint.at_x
            ⊕ s.e ⊗ neg sum_x_lem
            ⊕ a1 * (z * s.d * (z * s.d)) ⊗ slope_lem
            ⊕ sx * (z * s.d * (z * s.d)) ⊗ neg slope_lem
            ⊕ z * s.d * (z * s.d) * (z * s.d) ⊗ neg h.sum_y)
          (omega arith)
