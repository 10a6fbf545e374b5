-- ===== src/Uecc/Point/Product.antt =====
-- `EccPoint_mult` (uECC.c lines 847-891) computes multiples of a point, by a ladder that adds and
-- subtracts in co-Z coordinates.
use ligo.Prelude.{
  ℕ, zero, suc, ◌+◌, ◌-◌, ◌*◌, ◌/◌, ◌%◌, ◌^◌, ◌<◌, ◌≤◌, ◌≡◌, refl, sym, ap, ◌∙◌, arith, List, ◌++◌,
  Option, none, some, ◌==◌, Bool-cases, inl, inr,
}
use native.Mathlib.Nat.{pow-zero, div-eq_of_lt-le, div-add-mod, mod-lt}
use ligo.Prelude.Pow.{pow-pos}
use ligo.Uecc.Word.{IsWords, val}
use ligo.Uecc.Vli.Bit.{digit, test_bit-zero, digit_over}
use ligo.Uecc.ModArith.{mod_sub, mod_inv}
use ligo.Uecc.ModArith.Congruence.{Congruent}
use ligo.Uecc.ModArith.Algebra.{congruent_combine}
use ligo.Uecc.Curve.{CurveData, Curve, mod_mult_fast}
use ligo.Uecc.Curve.Element.{IsElement, IsField, difference_lem}
use ligo.Uecc.Jacobian.{double_jacobian_default}
use ligo.Uecc.Point.{
  Coords, Ladder, at_first, no_bit, ladder_loop, ladder_finish, point_mult, xycz_add_c, register,
  xycz_initial_double,
}
use ligo.Uecc.Point.Chord.{◌⊕◌, ◌⊗◌, neg}
use ligo.Uecc.Point.Multiples.{
  IsUnit, IsUnit-opposite, IsStep, IsMultiples, IsUnit-mul, IsUnit-congruent, IsDistinct-swap,
  distinct-IsUnit,
}
use ligo.Uecc.Point.Rounds.{
  IsAt, Holds-swapped, added_lem, AtStep, AtSet, AtClear, half-AtSet, half-AtClear,
  ladder_loop-AtStep,
}
use ligo.Uecc.Point.Start.{initial_double-Holds, start_registers}
use ligo.Uecc.Point.Result.{finish-IsAt}

-- The words of a point with the affine coordinates `a` and `b`.
pub record IsResult (c : CurveData) (a b : ℕ) (result : Option (List ℕ)) : Type 0 where
  pub coords : Coords
  pub returns : result ≡ some (coords.x ++ coords.y)
  pub x_element : IsElement c coords.x
  pub y_element : IsElement c coords.y
  pub at_x : Congruent (val c.p) (val coords.x) a
  pub at_y : Congruent (val c.p) (val coords.y) b

module _ (c : CurveData) (f : IsField c) where
  -- What `EccPoint_mult` does from the registers before its inversion.
  abbrev finish : ℕ → Coords → Ladder → Option (List ℕ)
  finish nb point r =
      elim (mod_inv
        (mod_mult_fast (mod_mult_fast (mod_sub r.r1.x r.r0.x c.p) (register (1 - nb) r).y c) point.x
          c)
        c.p) [ none ↦ none | some inverse ↦ some (ladder_finish nb point r c inverse) ]

  module _ {a b opp : ℕ → ℕ} (opposite : (i : ℕ) → Congruent (val c.p) (opp i + b i) 0)
      (point : Coords) (at_point : IsAt c 1 (a 1) (b 1) point) (a_unit : IsUnit (val c.p) (a 1))
      (b_unit : IsUnit (val c.p) (b 1)) (n : ℕ) (s : IsStep (val c.p) a b opp n) where
    -- What the coordinates with Z coordinate 1 give.
    result_lem : {x y : ℕ} (s' : Coords) → IsAt c 1 x y s' → IsResult c x y (some (s'.x ++ s'.y))
    result_lem s' h = record {
      coords = s';
      returns = refl;
      x_element = h.x_element;
      y_element = h.y_element;
      at_x = congruent_combine h.point.at_x (omega arith);
      at_y = congruent_combine h.point.at_y (omega arith);
    }

    -- The last digit is 1.
    finish_set :
        (r : Ladder)
        → AtSet c a b n r
        → IsResult c (a (2 * n + 1)) (b (2 * n + 1)) (finish 0 point r)
    unfolding ladder_finish
    finish_set r h =
        let (d0e, at_d0) = difference_lem c f r.r1.x r.r0.x h.second.x_element h.first.x_element in
        let (d, at_d, last, other) = added_lem c f h s.next in
        let base = h.second in
        let cube = IsUnit-mul (IsUnit-mul h.unit h.unit) h.unit in
        let (i, returns, done) =
          finish-IsAt c f h.z d _ at_point d0e
            (distinct-IsUnit h.first.point h.second.point s.not_first h.unit at_d0) base.x_element
            base.y_element (IsUnit-congruent _ base.point.at_y (IsUnit-mul b_unit cube)) a_unit
            base.point.at_x (key_lem d _ _ _ (b 1) h.z at_d at_d0 base.point.at_y) last in
        rw (finish, returns) (result_lem _ done)
      where
        key_lem :
            {m yb : ℕ} (d d0 x0 x1 b1 z : ℕ)
            → Congruent m (d + x0) x1
            → Congruent m (d0 + x0) x1
            → Congruent m yb (b1 * (z * z * z))
            → Congruent m (d * b1 * (z * z * z)) (d0 * yb)
        key_lem d d0 x0 x1 b1 z p q e =
            congruent_combine (b1 * (z * z * z) ⊗ (p ⊕ neg q) ⊕ d0 ⊗ neg e) (omega arith)

    -- The last digit is 0.
    finish_clear :
        (r : Ladder) → AtClear c a b opp n r → IsResult c (a (2 * n)) (b (2 * n)) (finish 1 point r)
    unfolding ladder_finish at_first
    finish_clear r h =
        let (d0e, at_d0) = difference_lem c f r.r1.x r.r0.x h.second.x_element h.first.x_element in
        let (d, at_d, other, last) = added_lem c f (Holds-swapped h) s.previous in
        let base = h.first in
        let cube = IsUnit-mul (IsUnit-mul h.unit h.unit) h.unit in
        let (i, returns, done) =
          finish-IsAt c f h.z d _ at_point d0e
            (distinct-IsUnit h.first.point h.second.point
              (IsDistinct-swap (omega (arith, f.p_big)) s.not_first) h.unit at_d0)
            base.x_element base.y_element
            (IsUnit-congruent _ base.point.at_y (IsUnit-mul opp_unit cube)) a_unit base.point.at_x
            (key_lem d _ _ _ (b 1) (opp 1) h.z at_d at_d0 base.point.at_y (opposite 1)) last in
        rw (finish, returns) (result_lem _ done)
      where
        opp_unit : IsUnit (val c.p) (opp 1)
        opp_unit = IsUnit-opposite (omega (arith, f.p_big)) (opposite 1) b_unit

        key_lem :
            {m yb : ℕ} (d d0 x0 x1 b1 b1' z : ℕ)
            → Congruent m (d + x1) x0
            → Congruent m (d0 + x0) x1
            → Congruent m yb (b1' * (z * z * z))
            → Congruent m (b1' + b1) 0
            → Congruent m (d * b1 * (z * z * z)) (d0 * yb)
        key_lem d d0 x0 x1 b1 b1' z p q e o =
            congruent_combine (b1 * (z * z * z) ⊗ (p ⊕ q) ⊕ neg (d0 * (z * z * z) ⊗ o) ⊕ d0 ⊗ neg e)
              (omega arith)

    -- The last digit of the key selects the registers.
    finish_step :
        (scalar : List ℕ) (key : ℕ) (r : Ladder)
        → IsWords scalar
        → digit (val scalar) 0 ≡ digit key 0
        → n ≡ key / 2
        → AtStep c a b n r
        → IsResult c
            (a key)
            (b key)
            (finish (no_bit scalar 0) point (at_first (1 - no_bit scalar 0) xycz_add_c r c))
    unfolding no_bit
    finish_step scalar key r w same half h = elim (Bool-cases (digit (val scalar) 0 == 0)) [
      | inl clear_bit ↦
          let double : key ≡ 2 * n = ground (arith, pow-zero 2, same, half, clear_bit) in
          rw (test_bit-zero scalar 0 w, clear_bit, double)
            (finish_clear _ (half-AtClear c f a b opp opposite (omega (arith, f.p_big)) n r h s))
      | inr set_bit ↦
          let odd : key ≡ 2 * n + 1 = ground (arith, pow-zero 2, same, half, set_bit) in
          rw (test_bit-zero scalar 0 w, set_bit, odd)
            (finish_set _ (half-AtSet c f a b opp opposite (omega (arith, f.p_big)) n r h s))
    ]

-- The low `bits` digits of `v`, with a digit 1 above them.
abbrev pub leading : ℕ → ℕ → ℕ
leading bits v = v % 2 ^ bits + 2 ^ bits

leading-digit : (bits v j : ℕ) → j < bits → digit v j ≡ digit (leading bits v) j
leading-digit bits v j h =
    let parts : v % 2 ^ bits + 2 ^ bits * (v / 2 ^ bits) ≡ v =
      omega (arith, div-add-mod v (2 ^ bits)) in
    let one : v % 2 ^ bits + 2 ^ bits * 1 ≡ leading bits v = omega arith in
    ap (λ (t : ℕ). digit t j) (sym parts)
    ∙ digit_over (v % 2 ^ bits) (v / 2 ^ bits) bits j h
    ∙ sym (digit_over (v % 2 ^ bits) 1 bits j h)
    ∙ ap (λ (t : ℕ). digit t j) one

leading-first : (bits v : ℕ) → leading bits v / 2 ^ bits ≡ 1
leading-first bits v =
    let below : v % 2 ^ bits < 2 ^ bits = mod-lt v (pow-pos 2 bits (omega arith)) in
    div-eq_of_lt-le {k = 1} (2 ^ bits) {m = leading bits v} (omega arith) (omega (arith, below))

-- On a curve that reduces products and doubles points with `double_jacobian_default`, for a point with
-- affine coordinates (a 1, b 1) that have inverses, an initial Z coordinate that is absent or an element
-- with an inverse, at least one bit, and a sequence of multiples (a i, b i) of the point in which the
-- ladder's steps are sums on chords, `EccPoint_mult` returns the reduced coordinates of the multiple
-- of the number that has the low `bits` digits of the scalar and a digit 1 above them.
pub point_mult-IsResult :
    (c : Curve) (point : Coords) (scalar : List ℕ) (initial_z : Option (List ℕ)) (bits : ℕ)
    (a b opp : ℕ → ℕ)
    → IsField c.info
    → c.double_jacobian ≡ double_jacobian_default
    → IsAt c.info 1 (a 1) (b 1) point
    → IsUnit (val c.p) (a 1)
    → IsUnit (val c.p) (b 1)
    → ((z : List ℕ) → initial_z ≡ some z → IsElement c.info z × IsUnit (val c.p) (val z))
    → IsWords scalar
    → 1 ≤ bits
    → IsMultiples (val c.p) (leading bits (val scalar)) bits a b opp
    → IsResult c.info
        (a (leading bits (val scalar)))
        (b (leading bits (val scalar)))
        (point_mult point scalar initial_z (bits + 1) c)
unfolding point_mult
point_mult-IsResult c point scalar initial_z zero a b opp f doubling at_point au bu iz w some_bits
      h =
    absurd (omega arith)
point_mult-IsResult c point scalar initial_z (suc i) a b opp f doubling at_point au bu iz w
      some_bits h =
    let bits = suc i in
    let key = leading bits (val scalar) in
    let rounds : suc i + 1 - 2 ≡ i = omega arith in
    let modulus : 0 < val c.p = omega (arith, f.p_big) in
    let start =
      initial_double-Holds c point initial_z (a 1) (b 1) (a 2) (b 2) f doubling iz at_point bu
        h.double in
    let looped : AtStep c.info a b (key / 2 ^ 1) (
        ladder_loop (bits + 1 - 2) scalar (start_registers (xycz_initial_double point initial_z c))
          c.info) =
      rw rounds (
        ladder_loop-AtStep c.info f a b opp h.opposite modulus scalar w key i _
          (λ j q. leading-digit bits (val scalar) j q) h.step
          (rw (leading-first bits (val scalar)) start)) in
    finish_step c.info f h.opposite point at_point au bu (key / 2 ^ 1) (h.step 0 (omega arith))
      scalar key _ w (leading-digit bits (val scalar) 0 (omega arith)) (omega arith) looped
