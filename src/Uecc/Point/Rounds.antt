-- ===== src/Uecc/Point/Rounds.antt =====
-- The rounds of the ladder of `EccPoint_mult` (uECC.c lines 869-875): R[0] and R[1] stand for
-- neighbouring multiples of the point.
use ligo.Prelude.{
  ℕ, zero, suc, ◌+◌, ◌-◌, ◌*◌, ◌/◌, ◌^◌, ◌<◌, ◌≡◌, arith, List, ◌==◌, Bool-cases, inl, inr,
}
use ligo.Uecc.Word.{IsWords, val}
use ligo.Uecc.Vli.Bit.{digit, test_bit-zero, halved_lem}
use ligo.Uecc.ModArith.Congruence.{Congruent}
use ligo.Uecc.Curve.{CurveData}
use ligo.Uecc.Curve.Element.{IsElement, IsField}
use ligo.Uecc.Point.{Ladder, Coords, at_first, no_bit, ladder_loop, xycz_add, xycz_add_c}
use ligo.Uecc.Point.Chord.{IsPoint, IsChordSum}
use ligo.Uecc.Point.Addition.{xycz_add-Adds}
use ligo.Uecc.Point.Conjugate.{xycz_add_c-AddsBoth}
use ligo.Uecc.Point.Multiples.{
  IsUnit, IsDistinct, IsStep, IsUnit-mul, IsDistinct-swap, distinct-IsUnit, chord_swap,
  chord_opposite,
}

-- Coordinates that stand for a point with the Z coordinate `z`.
pub record IsAt (c : CurveData) (z a b : ℕ) (s : Coords) : Type 0 where
  pub x_element : IsElement c s.x
  pub y_element : IsElement c s.y
  pub point : IsPoint (val c.p) a b z (val s.x) (val s.y)

-- R[0] and R[1] stand for two points, with a common Z coordinate that has an inverse.
pub record Holds (c : CurveData) (a0 b0 a1 b1 : ℕ) (r : Ladder) : Type 0 where
  pub z : ℕ
  pub unit : IsUnit (val c.p) z
  pub first : IsAt c z a0 b0 r.r0
  pub second : IsAt c z a1 b1 r.r1

abbrev pub swapped : Ladder → Ladder
swapped r = record { r0 = r.r1; r1 = r.r0 }

abbrev pub Holds-swapped :
    {c : CurveData} {a0 b0 a1 b1 : ℕ} {r : Ladder}
    → Holds c a0 b0 a1 b1 r
    → Holds c a1 b1 a0 b0 (swapped r)
Holds-swapped h = record { z = h.z; unit = h.unit; first = h.second; second = h.first }

-- R[0] and R[1] stand for the multiples n and n + 1.
abbrev pub AtStep : CurveData → (ℕ → ℕ) → (ℕ → ℕ) → ℕ → Ladder → Type 0
AtStep c a b n r = Holds c (a n) (b n) (a (n + 1)) (b (n + 1)) r

-- After `XYcZ_addC`: the sum and the difference, for the digit 1 and for the digit 0.
abbrev pub AtSet : CurveData → (ℕ → ℕ) → (ℕ → ℕ) → ℕ → Ladder → Type 0
AtSet c a b n r = Holds c (a (2 * n + 1)) (b (2 * n + 1)) (a 1) (b 1) r

abbrev pub AtClear : CurveData → (ℕ → ℕ) → (ℕ → ℕ) → (ℕ → ℕ) → ℕ → Ladder → Type 0
AtClear c a b opp n r = Holds c (a 1) (opp 1) (a (2 * n + 1)) (b (2 * n + 1)) r

module _ (c : CurveData) (f : IsField c) where
  -- `XYcZ_add` on R[0] and R[1]: the first point and the sum, with a new Z coordinate.
  pub added_lem :
      {a0 b0 a1 b1 x y : ℕ} {r : Ladder} (h : Holds c a0 b0 a1 b1 r)
      → IsChordSum (val c.p) a0 b0 a1 b1 x y
      → (d : ℕ) × Congruent (val c.p) (d + val (Coords.x r.r0)) (val (Coords.x r.r1))
        × IsAt c (h.z * d) a0 b0 (Ladder.r0 (at_first 0 xycz_add r c))
        × IsAt c (h.z * d) x y (Ladder.r1 (at_first 0 xycz_add r c))
  unfolding at_first
  added_lem {a0 = a0} {b0 = b0} {a1 = a1} {b1 = b1} {x = x} {y = y} {r = r} h sum =
      let p = h.first in
      let q = h.second in
      let t =
        xycz_add-Adds c (record { x1 = r.r0.x; y1 = r.r0.y; x2 = r.r1.x; y2 = r.r1.y }) a0 b0 a1 b1
          x y h.z f
          (record { x1 = p.x_element; y1 = p.y_element; x2 = q.x_element; y2 = q.y_element })
          p.point q.point sum in
      (
        t.d,
        t.at_d,
        record { x_element = t.elements.x1; y_element = t.elements.y1; point = t.first },
        record { x_element = t.elements.x2; y_element = t.elements.y2; point = t.sum },
      )

  pub Holds-add :
      {a0 b0 a1 b1 x y : ℕ} {r : Ladder}
      → Holds c a0 b0 a1 b1 r
      → IsDistinct (val c.p) a0 a1
      → IsChordSum (val c.p) a0 b0 a1 b1 x y
      → Holds c a0 b0 x y (at_first 0 xycz_add r c)
  Holds-add h apart sum =
      let (d, at_d, first, second) = added_lem h sum in
      record {
        z = h.z * d;
        unit = IsUnit-mul h.unit (distinct-IsUnit h.first.point h.second.point apart h.unit at_d);
        first = first;
        second = second;
      }

  -- `XYcZ_addC` on R[0] and R[1].
  pub Holds-add_c :
      {a0 b0 a1 b1 x y x' y' : ℕ} {r : Ladder} (b1' : ℕ)
      → Holds c a0 b0 a1 b1 r
      → IsDistinct (val c.p) a0 a1
      → Congruent (val c.p) (b1' + b1) 0
      → IsChordSum (val c.p) a0 b0 a1 b1 x y
      → IsChordSum (val c.p) a0 b0 a1 b1' x' y'
      → Holds c x' y' x y (at_first 0 xycz_add_c r c)
  unfolding at_first
  Holds-add_c {a0 = a0} {b0 = b0} {a1 = a1} {b1 = b1} {x = x} {y = y} {x' = x'} {y' = y'} {r = r}
        b1' h apart opposite sum difference =
      let p = h.first in
      let q = h.second in
      let t =
        xycz_add_c-AddsBoth c (record { x1 = r.r0.x; y1 = r.r0.y; x2 = r.r1.x; y2 = r.r1.y }) a0 b0
          a1 b1 b1' x y x' y' h.z f
          (record { x1 = p.x_element; y1 = p.y_element; x2 = q.x_element; y2 = q.y_element })
          p.point q.point opposite sum difference in
      record {
        z = h.z * t.d;
        unit = IsUnit-mul h.unit (distinct-IsUnit p.point q.point apart h.unit t.at_d);
        first = record {
          x_element = t.elements.x1;
          y_element = t.elements.y1;
          point = t.difference;
        };
        second = record { x_element = t.elements.x2; y_element = t.elements.y2; point = t.sum };
      }

  module _ (a b opp : ℕ → ℕ) (opposite : (i : ℕ) → Congruent (val c.p) (opp i + b i) 0)
      (modulus : 0 < val c.p) where
    pub half-AtSet :
        (n : ℕ) (r : Ladder)
        → AtStep c a b n r
        → IsStep (val c.p) a b opp n
        → AtSet c a b n (at_first 1 xycz_add_c r c)
    unfolding at_first
    half-AtSet n r h s = Holds-swapped (
        Holds-add_c (opp n) (Holds-swapped h) (IsDistinct-swap modulus s.neighbours) (opposite n)
          (chord_swap s.odd) s.difference)

    pub half-AtClear :
        (n : ℕ) (r : Ladder)
        → AtStep c a b n r
        → IsStep (val c.p) a b opp n
        → AtClear c a b opp n (at_first 0 xycz_add_c r c)
    unfolding at_first
    half-AtClear n r h s = Holds-add_c (opp (n + 1)) h s.neighbours (opposite (n + 1)) s.odd (
        chord_opposite (opp (n + 1)) (opp n) (opp 1) modulus (opposite (n + 1)) (opposite n)
          (opposite 1) s.difference)

    -- After `XYcZ_add`, the multiples for one more digit.
    pub whole-AtSet :
        (n : ℕ) (r : Ladder)
        → AtSet c a b n r
        → IsStep (val c.p) a b opp n
        → AtStep c a b (2 * n + 1) (at_first 0 xycz_add r c)
    unfolding at_first
    whole-AtSet n r h s =
        let after : 2 * n + 1 + 1 ≡ 2 * n + 2 = omega arith in
        rw after (Holds-add h s.not_first s.next)

    pub whole-AtClear :
        (n : ℕ) (r : Ladder)
        → AtClear c a b opp n r
        → IsStep (val c.p) a b opp n
        → AtStep c a b (2 * n) (at_first 1 xycz_add r c)
    unfolding at_first
    whole-AtClear n r h s = Holds-swapped (Holds-add (Holds-swapped h) s.not_first s.previous)

    module _ (scalar : List ℕ) (words : IsWords scalar) (key : ℕ) where
      -- A round brings one more digit of the key.
      pub round-AtStep :
          (i : ℕ) (r : Ladder)
          → digit (val scalar) i ≡ digit key i
          → IsStep (val c.p) a b opp (key / 2 ^ suc i)
          → AtStep c a b (key / 2 ^ suc i) r
          → AtStep c a b (key / 2 ^ i) (
              at_first (no_bit scalar i) xycz_add (at_first (1 - no_bit scalar i) xycz_add_c r c) c)
      unfolding no_bit
      round-AtStep i r same s h = elim (Bool-cases (digit (val scalar) i == 0)) [
        | inl clear_bit ↦
            let n : key / 2 ^ i ≡ 2 * (key / 2 ^ suc i) =
              ground (arith, halved_lem key i, same, clear_bit) in
            rw (test_bit-zero scalar i words, clear_bit, n)
              (whole-AtClear (key / 2 ^ suc i) _ (half-AtClear (key / 2 ^ suc i) r h s) s)
        | inr set_bit ↦
            let n : key / 2 ^ i ≡ 2 * (key / 2 ^ suc i) + 1 =
              ground (arith, halved_lem key i, same, set_bit) in
            rw (test_bit-zero scalar i words, set_bit, n)
              (whole-AtSet (key / 2 ^ suc i) _ (half-AtSet (key / 2 ^ suc i) r h s) s)
      ]

      -- The loop leaves the multiples for all the digits but the last.
      pub ladder_loop-AtStep :
          (i : ℕ) (r : Ladder)
          → ((j : ℕ) → j < suc i → digit (val scalar) j ≡ digit key j)
          → ((j : ℕ) → j < suc i → IsStep (val c.p) a b opp (key / 2 ^ suc j))
          → AtStep c a b (key / 2 ^ suc i) r
          → AtStep c a b (key / 2 ^ 1) (ladder_loop i scalar r c)
      unfolding ladder_loop
      ladder_loop-AtStep zero r same s h = h
      ladder_loop-AtStep (suc i) r same s h =
          ladder_loop-AtStep i _ (λ j q. same j (omega arith)) (λ j q. s j (omega arith))
            (round-AtStep (suc i) r (same (suc i) (omega arith)) (s (suc i) (omega arith)) h)
