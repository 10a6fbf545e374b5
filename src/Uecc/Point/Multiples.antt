-- ===== src/Uecc/Point/Multiples.antt =====
-- The multiples of a point, by the chord and tangent laws of a curve's group.
use ligo.Prelude.{ℕ, zero, suc, ◌+◌, ◌-◌, ◌*◌, ◌^◌, ap, ◌/◌, ◌<◌, ◌≡◌, arith}
use ligo.Uecc.ModArith.Congruence.{Congruent}
use ligo.Uecc.ModArith.Algebra.{congruent_combine}
use ligo.Uecc.Point.Chord.{IsPoint, IsChordSum, ◌⊕◌, ◌⊗◌, neg}
use ligo.Uecc.Jacobian.Double.{IsTangentSum}

-- A number with an inverse.
pub record IsUnit (m x : ℕ) : Type 0 where
  pub inverse : ℕ
  pub is_one : Congruent m (x * inverse) 1

-- The difference `x2 - x1` has an inverse: modulo a prime, the numbers are not congruent.
pub record IsDistinct (m x1 x2 : ℕ) : Type 0 where
  pub difference : ℕ
  pub at_difference : Congruent m (difference + x1) x2
  pub unit : IsUnit m difference

-- What a round of the ladder uses of the multiples of the point (a 1, b 1) next to `n`, when (a i, b i)
-- stands for i times the point, and (a i, opp i) for its opposite: the laws of the group for the
-- chords through them, none of which is vertical.
pub record IsStep (m : ℕ) (a b opp : ℕ → ℕ) (n : ℕ) : Type 0 where
  pub odd : IsChordSum m (a n) (b n) (a (n + 1)) (b (n + 1)) (a (2 * n + 1)) (b (2 * n + 1))
  pub difference : IsChordSum m (a (n + 1)) (b (n + 1)) (a n) (opp n) (a 1) (b 1)
  pub next :
      IsChordSum m (a (2 * n + 1)) (b (2 * n + 1)) (a 1) (b 1) (a (2 * n + 2)) (b (2 * n + 2))
  pub previous : IsChordSum m (a (2 * n + 1)) (b (2 * n + 1)) (a 1) (opp 1) (a (2 * n)) (b (2 * n))
  pub neighbours : IsDistinct m (a n) (a (n + 1))
  pub not_first : IsDistinct m (a (2 * n + 1)) (a 1)

-- The multiples of the point (a 1, b 1) that the ladder goes through for `key`, a number of `bits`
-- digits below its highest one.
pub record IsMultiples (m key bits : ℕ) (a b opp : ℕ → ℕ) : Type 0 where
  pub opposite : (i : ℕ) → Congruent m (opp i + b i) 0
  pub double : IsTangentSum m (a 1) (b 1) (a 2) (b 2)
  pub step : (i : ℕ) → i < bits → IsStep m a b opp (key / 2 ^ suc i)

-- d (m - 1) is the opposite of d.
minus_one : (m d : ℕ) → 0 < m → Congruent m (d * (m - 1) + d) 0
minus_one zero d pos = absurd (omega arith)
minus_one (suc m) d pos =
    let less : suc m - 1 ≡ m = omega arith in
    record {
      left_multiple = 0;
      right_multiple = d;
      balance = omega (arith, ap (λ (t : ℕ). d * t) less);
    }

module _ {m : ℕ} where
  pub IsUnit-mul : {x y : ℕ} → IsUnit m x → IsUnit m y → IsUnit m (x * y)
  IsUnit-mul {x = x} {y = y} p q = record {
    inverse = p.inverse * q.inverse;
    is_one = congruent_combine (y * q.inverse ⊗ p.is_one ⊕ q.is_one) (omega arith);
  }

  pub IsUnit-congruent : {x : ℕ} (y : ℕ) → Congruent m x y → IsUnit m y → IsUnit m x
  IsUnit-congruent y h p = record {
    inverse = p.inverse;
    is_one = congruent_combine (p.inverse ⊗ h ⊕ p.is_one) (omega arith);
  }

  pub IsUnit-opposite : 0 < m → {x y : ℕ} → Congruent m (y + x) 0 → IsUnit m x → IsUnit m y
  IsUnit-opposite pos {x = x} {y = y} o p = record {
    inverse = p.inverse * (m - 1);
    is_one = opposite_one (p.inverse * (m - 1)) (minus_one m p.inverse pos);
  }
    where
      opposite_one : (v : ℕ) → Congruent m (v + p.inverse) 0 → Congruent m (y * v) 1
      opposite_one v h = congruent_combine (y ⊗ h ⊕ neg (p.inverse ⊗ o) ⊕ p.is_one) (omega arith)

  -- A difference in the other direction.
  pub IsDistinct-swap : 0 < m → {x1 x2 : ℕ} → IsDistinct m x1 x2 → IsDistinct m x2 x1
  IsDistinct-swap pos {x1 = x1} {x2 = x2} h =
      let d = h.difference in
      let back = minus_one m d pos in
      record {
        difference = d * (m - 1);
        at_difference = opposite_difference d (d * (m - 1)) h.at_difference back;
        unit = IsUnit-opposite pos back h.unit;
      }
    where
      opposite_difference :
          {x1 x2 : ℕ} (d e : ℕ)
          → Congruent m (d + x1) x2
          → Congruent m (e + d) 0
          → Congruent m (e + x2) x1
      opposite_difference d e p q = congruent_combine (q ⊕ neg p) (omega arith)

  -- The difference of the x coordinates of two points with the same Z coordinate.
  pub distinct-IsUnit :
      {a1 b1 a2 b2 z x1 y1 x2 y2 d : ℕ}
      → IsPoint m a1 b1 z x1 y1
      → IsPoint m a2 b2 z x2 y2
      → IsDistinct m a1 a2
      → IsUnit m z
      → Congruent m (d + x1) x2
      → IsUnit m d
  distinct-IsUnit {z = z} p q h u e =
      IsUnit-congruent (h.difference * (z * z))
        (congruent_combine (e ⊕ q.at_x ⊕ neg p.at_x ⊕ neg (z * z ⊗ h.at_difference)) (omega arith))
        (IsUnit-mul h.unit (IsUnit-mul u u))

  -- The points of a chord the other way round.
  pub chord_swap :
      {a1 b1 a2 b2 x y : ℕ} → IsChordSum m a1 b1 a2 b2 x y → IsChordSum m a2 b2 a1 b1 x y
  chord_swap h = record {
    k = h.k;
    slope = neg h.slope;
    sum_x = congruent_combine h.sum_x (omega arith);
    sum_y = congruent_combine (h.sum_y ⊕ neg h.slope) (omega arith);
  }

  -- If P - Q = R then Q - P = -R.
  pub chord_opposite :
      {ap bp aq bq x y : ℕ} (bp' bq' y' : ℕ)
      → 0 < m
      → Congruent m (bp' + bp) 0
      → Congruent m (bq' + bq) 0
      → Congruent m (y' + y) 0
      → IsChordSum m ap bp aq bq' x y
      → IsChordSum m aq bq ap bp' x y'
  chord_opposite {ap = ap} {bp = bp} {aq = aq} {bq = bq} {x = x} bp' bq' y' pos op oq oy h =
      with_slope (h.k * (m - 1)) (minus_one m h.k pos)
    where
      with_slope : (k : ℕ) → Congruent m (k + h.k) 0 → IsChordSum m aq bq ap bp' x y'
      with_slope k hk = record {
        k = k;
        slope = congruent_combine (ap ⊗ hk ⊕ neg (aq ⊗ hk) ⊕ h.slope ⊕ oq ⊕ neg op) (omega arith);
        sum_x = congruent_combine (h.sum_x ⊕ h.k ⊗ hk ⊕ neg (k ⊗ hk)) (omega arith);
        sum_y =
            congruent_combine (oy ⊕ neg h.sum_y ⊕ x ⊗ hk ⊕ h.slope ⊕ oq ⊕ neg (aq ⊗ hk))
              (omega arith);
      }
