-- ===== src/Uecc/Jacobian/Half.antt =====
-- The halving in `double_jacobian_default` (curve-specific.h lines 77-83).
use ligo.Prelude.{
  ℕ, zero, suc, ◌+◌, ◌-◌, ◌*◌, ◌%◌, ◌^◌, ◌<◌, ◌≤◌, ◌≡◌, refl, sym, ap, ◌∙◌, arith, bit_or, List, [],
  ◌∷◌, length, Bool, not, if◌then◌else◌, ◌==◌, get_or, set,
}
use ligo.Prelude.Bits.{bit_or-zero}
use ligo.Uecc.Word.{word_mod, IsWords, val}
use ligo.Uecc.Vli.{add, rshift1}
use ligo.Uecc.Vli.Bit.{digit, test_bit-zero}
use ligo.Uecc.Vli.Shift.{rshift1-half}
use ligo.Uecc.Vli.Carry.{add-IsSum}
use ligo.Uecc.ModArith.{mod_inv_update}
use ligo.Uecc.ModArith.Halve.{at_top, even_iff, mod_inv_update-cases, mod_inv_update-IsHalf}
use ligo.Uecc.ModArith.Congruence.{Congruent}
use ligo.Uecc.Curve.{CurveData}
use ligo.Uecc.Curve.Element.{IsElement, IsField}
use ligo.Uecc.Jacobian.{half_mod}

set-get_or : (xs : List ℕ) (i : ℕ) → set xs i (get_or xs i 0) ≡ xs
set-get_or [] i = refl
set-get_or (x ∷ xs) zero = refl
set-get_or (x ∷ xs) (suc i) = ap (λ (t : List ℕ). x ∷ t) (set-get_or xs i)

-- The carry, written to the highest bit.
top_lem :
    (half : List ℕ) (top carry : ℕ)
    → carry ≤ 1
    → set half top (bit_or (get_or half top 0) (carry * 2 ^ 63 % word_mod))
      ≡ (if not (carry == 0) then at_top half top else half)
top_lem half top zero h = rw (bit_or-zero (get_or half top 0)) (set-get_or half top)
top_lem half top (suc zero) h = refl
top_lem half top (suc (suc k)) h = absurd (omega arith)

-- The curve's code halves as `vli_modInv_update` does.
pub half_mod-mod_inv_update :
    (x p : List ℕ) → length x ≡ length p → IsWords x → IsWords p → half_mod x p ≡ mod_inv_update x p
unfolding half_mod
half_mod-mod_inv_update x p same xw pw =
    let t = add-IsSum x p same xw pw in
    let top = top_lem (rshift1 (add x p).0) (length x - 1) (add x p).1 t.last_bit in
    let size : length (rshift1 (add x p).0) ≡ length x =
      (rshift1-half (add x p).0 t.words).0 ∙ t.same_length in
    let parity : digit (val x) 0 ≡ val x % 2 = omega arith in
    rw (mod_inv_update-cases x p, even_iff x, test_bit-zero x 0 xw, parity, size)
      (by_parity _ (val x % 2 == 0) top)
  where
    by_parity :
        {b c : List ℕ} (a : List ℕ) (is_even : Bool)
        → b ≡ c
        → (if is_even then a else b) ≡ (if is_even then a else c)
    by_parity a is_even e = ap (λ (t : List ℕ). if is_even then a else t) e

-- The halving returns an element that is congruent to half of the given one.
pub half_mod-IsHalf :
    (c : CurveData)
    → IsField c
    → (x : List ℕ) → IsElement c x
    → IsElement c (half_mod x c.p) × Congruent (val c.p) (2 * val (half_mod x c.p)) (val x)
half_mod-IsHalf c f x xe =
    let same = xe.size ∙ sym f.p_size in
    let h =
      mod_inv_update-IsHalf x c.p (omega (arith, xe.size, f.positive)) same xe.words f.p_words
        f.p_odd in
    rw (half_mod-mod_inv_update x c.p same xe.words f.p_words) (
      record {
        size = h.same_length ∙ xe.size;
        words = h.words;
        reduced = below (val x % 2) (omega arith) h.half;
      },
      record { left_multiple = 0; right_multiple = val x % 2; balance = omega (arith, h.half) },
    )
  where
    below : {v : ℕ} (parity : ℕ) → parity < 2 → 2 * v ≡ val x + parity * val c.p → v < val c.p
    below zero le e = omega (arith, e, xe.reduced)
    below (suc zero) le e = omega (arith, e, xe.reduced)
    below (suc (suc n)) le e = absurd (omega arith)
