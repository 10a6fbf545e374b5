-- ===== src/Uecc/Point/Result.antt =====
-- The end of `EccPoint_mult` (uECC.c lines 876-891): one inversion gives the factor that makes the
-- coordinates of the result affine.
use ligo.Prelude.{ℕ, zero, suc, ◌+◌, ◌-◌, ◌*◌, ◌<◌, ◌≡◌, ◌≢◌, refl, sym, ap, ◌∙◌, arith, List, some}
use native.Mathlib.Decide.{dec_le}
use ligo.Uecc.Word.{val}
use ligo.Uecc.ModArith.{mod_inv}
use ligo.Uecc.ModArith.Congruence.{Congruent}
use ligo.Uecc.ModArith.Algebra.{congruent_of_mod, congruent_combine}
use ligo.Uecc.ModArith.Inverse.Round.{Divides}
use ligo.Uecc.ModArith.Inverse.Loop.{mod_inv-inverse}
use ligo.Uecc.Curve.{CurveData, mod_mult_fast}
use ligo.Uecc.Curve.Element.{IsElement, IsField, product_lem}
use ligo.Uecc.Point.{Coords, apply_z}
use ligo.Uecc.Point.Chord.{◌⊕◌, ◌⊗◌, neg}
use ligo.Uecc.Point.Multiples.{IsUnit, IsUnit-mul, IsUnit-congruent}
use ligo.Uecc.Point.Rounds.{IsAt}
use ligo.Uecc.Point.Start.{applied-IsAt, unit_nonzero}

one_factor : (k g : ℕ) → k * g ≡ 1 → g ≡ 1
one_factor zero g h = absurd (omega arith)
one_factor (suc k) zero h = absurd (omega arith)
one_factor (suc k) (suc zero) h = refl
one_factor (suc k) (suc (suc g)) h = absurd (omega arith)

-- A number with an inverse is coprime to the modulus.
unit_coprime : {m x : ℕ} → IsUnit m x → (g : ℕ) → Divides g x → Divides g m → g ≡ 1
unit_coprime {m = m} u g d e = one_lem _ _ g product
  where
    open u use {inverse, is_one}

    one_lem : (s t g : ℕ) → s * g ≡ 1 + t * g → g ≡ 1
    one_lem s t g h = elim (dec_le s t) [
      | yes le ↦
          let split : t ≡ s + (t - s) = omega arith in
          absurd (omega (arith, ap (λ (k : ℕ). k * g) split))
      | no gt ↦
          let split : s ≡ t + (s - t) = omega arith in
          one_factor (s - t) g (omega (arith, ap (λ (k : ℕ). k * g) split))
    ]

    product :
        (d.quotient * inverse + is_one.left_multiple * e.quotient) * g
        ≡ 1 + is_one.right_multiple * e.quotient * g
    product = omega (
      arith,
      is_one.balance,
      ap (λ (t : ℕ). t * inverse) d.product,
      ap (λ (t : ℕ). is_one.left_multiple * t) e.product,
      ap (λ (t : ℕ). is_one.right_multiple * t) e.product,
    )

-- What the end computes with: `d0` the difference of the x coordinates, `yb` and `xb` the coordinates
-- of the point in one of the registers, whose Z coordinate is `z`, and `i` the inverse.
record IsEnd (m a1 b1 z d d0 px py xb yb z1 z2 i v zz : ℕ) : Type 0 where
  pub at_px : Congruent m px a1
  pub at_py : Congruent m py b1
  pub at_xb : Congruent m xb (a1 * (z * z))
  pub at_yb : Congruent m (d * b1 * (z * z * z)) (d0 * yb)
  pub at_z1 : Congruent m z1 (d0 * yb)
  pub at_z2 : Congruent m z2 (z1 * px)
  pub at_inverse : Congruent m (i * z2) 1
  pub at_v : Congruent m v (i * py)
  pub at_zz : Congruent m zz (v * xb)

end_lem :
    {m a1 b1 z d d0 px py xb yb z1 z2 i v zz : ℕ}
    → IsEnd m a1 b1 z d d0 px py xb yb z1 z2 i v zz
    → Congruent m (z * d * zz) 1
end_lem {a1 = a1} {b1 = b1} {z = z} {d = d} {d0 = d0} {px = px} {xb = xb} {yb = yb} {i = i} h =
    congruent_combine
      (z * d ⊗ h.at_zz
        ⊕ z * d * xb ⊗ h.at_v
        ⊕ z * d * xb * i ⊗ h.at_py
        ⊕ z * d * i * b1 ⊗ h.at_xb
        ⊕ i * a1 ⊗ h.at_yb
        ⊕ i * d0 * yb ⊗ neg h.at_px
        ⊕ i * px ⊗ neg h.at_z1
        ⊕ i ⊗ neg h.at_z2
        ⊕ h.at_inverse)
      (omega arith)

-- Coordinates with a Z coordinate congruent to 1 are affine.
affine_lem :
    {c : CurveData} {z a b : ℕ} {s : Coords}
    → Congruent (val c.p) z 1
    → IsAt c z a b s
    → IsAt c 1 a b s
affine_lem {z = z} {a = a} {b = b} one h = record {
  x_element = h.x_element;
  y_element = h.y_element;
  point = record {
    at_x = congruent_combine (h.point.at_x ⊕ a * (z + 1) ⊗ one) (omega arith);
    at_y = congruent_combine (h.point.at_y ⊕ b * (z * z + z + 1) ⊗ one) (omega arith);
  };
}

module _ (c : CurveData) (f : IsField c) where
  -- `uECC_vli_modInv` returns an element.
  inverse_lem :
      (x : List ℕ)
      → IsElement c x
      → IsUnit (val c.p) (val x)
      → (i : List ℕ) × (mod_inv x c.p ≡ some i)
        × IsElement c i
        × Congruent (val c.p) (val i * val x) 1
  inverse_lem x xe u =
      let (i, returns, size, words, below, one) =
        mod_inv-inverse x c.p (xe.size ∙ sym f.p_size) (omega (arith, f.p_size, f.positive))
          xe.words f.p_words (positive (unit_nonzero f.p_big u)) f.p_odd f.p_big (unit_coprime u) in
      (
        i,
        returns,
        record { size = size ∙ f.p_size; words = words; reduced = below },
        neg (congruent_of_mod (sym one)),
      )
    where
      positive : {v : ℕ} → v ≢ 0 → 0 < v
      positive nz = omega (arith, nz)

  -- The result of `EccPoint_mult` from the registers before its inversion: the last registers `s`
  -- have the Z coordinate z d.
  pub finish-IsAt :
      {a1 b1 a b : ℕ} {point base s : Coords} (z d : ℕ) (d0 : List ℕ)
      → IsAt c 1 a1 b1 point
      → IsElement c d0
      → IsUnit (val c.p) (val d0)
      → IsElement c base.x
      → IsElement c base.y
      → IsUnit (val c.p) (val (Coords.y base))
      → IsUnit (val c.p) a1
      → Congruent (val c.p) (val (Coords.x base)) (a1 * (z * z))
      → Congruent (val c.p) (d * b1 * (z * z * z)) (val d0 * val (Coords.y base))
      → IsAt c (z * d) a b s
      → (i : List ℕ) × (mod_inv (mod_mult_fast (mod_mult_fast d0 base.y c) point.x c) c.p ≡ some i)
        × IsAt c 1 a b (apply_z s (mod_mult_fast (mod_mult_fast i point.y c) base.x c) c)
  finish-IsAt {point = point} {base = base} z d d0 p d0e d0u bx by bu au at_xb at_yb last =
      let z1 = product_lem c f d0 base.y d0e by in
      let z2 = product_lem c f _ point.x z1.0 p.x_element in
      let at_px = congruent_combine p.point.at_x (omega arith) in
      let at_py = congruent_combine p.point.at_y (omega arith) in
      let u =
        IsUnit-congruent _ z2.1 (
          IsUnit-mul (IsUnit-congruent _ z1.1 (IsUnit-mul d0u bu)) (IsUnit-congruent _ at_px au)) in
      let (i, returns, ie, one) = inverse_lem _ z2.0 u in
      let v = product_lem c f i point.y ie p.y_element in
      let zz = product_lem c f _ base.x v.0 bx in
      (
        i,
        returns,
        affine_lem
            (end_lem (record {
              at_px = at_px;
              at_py = at_py;
              at_xb = at_xb;
              at_yb = at_yb;
              at_z1 = z1.1;
              at_z2 = z2.1;
              at_inverse = one;
              at_v = v.1;
              at_zz = zz.1;
            }))
            (applied-IsAt c f _ zz.0 last),
      )
