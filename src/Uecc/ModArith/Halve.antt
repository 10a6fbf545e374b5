-- ===== src/Uecc/ModArith/Halve.antt =====
-- `EVEN` and `vli_modInv_update` (uECC.c lines 666-678): halving modulo an odd number.
use ligo.Prelude.{
  ℕ, zero, suc, ◌+◌, ◌-◌, ◌*◌, ◌%◌, ◌<◌, ◌≡◌, inl, inr, refl, List, [], ◌∷◌, arith, length, ◌==◌,
  false, Bool-cases, ◌∙◌, ap, bit_or, get_or, set, not, if◌then◌else◌,
}
use ligo.Prelude.Bits.{bit_and-one, bit_or_low_high}
use ligo.Uecc.Word.{word_mod, high_bit_set, IsWords, val}
use ligo.Uecc.Vli.{add, rshift1}
use ligo.Uecc.Vli.Carry.{IsSum, add-IsSum, span, val-lt-span, span-eq_of_length}
use ligo.Uecc.Vli.Shift.{rshift1-half}
use ligo.Uecc.ModArith.{even, set_high_bit, mod_inv_update}

-- The macro `EVEN` reads the parity of the number.
pub even_iff : (vli : List ℕ) → even vli ≡ (val vli % 2 == 0)
unfolding even
even_iff [] = refl
even_iff (x ∷ vli) = rw (bit_and-one x, parity) refl
  where
    parity : (x + word_mod * val vli) % 2 ≡ x % 2
    parity = omega arith

-- A VLI below half its span has room for the highest bit.
record HasHighBit (vli out : List ℕ) : Type 0 where
  same_length : length out ≡ length vli
  words : IsWords out
  high : 2 * val out ≡ 2 * val vli + span vli

or_top : (x : ℕ) → x < 0x8000_0000_0000_0000 → bit_or x high_bit_set ≡ x + high_bit_set
or_top x h = bit_or_low_high 63 x 1 h

abbrev pub at_top : List ℕ → ℕ → List ℕ
at_top uv top = set uv top (bit_or (get_or uv top 0) high_bit_set)

at_top-HasHighBit :
    (n : ℕ) (vli : List ℕ)
    → length vli ≡ suc n
    → IsWords vli
    → 2 * val vli < span vli
    → HasHighBit vli (at_top vli n)
at_top-HasHighBit n [] e w h = absurd (omega arith)
at_top-HasHighBit zero (x ∷ []) e w h =
    let top = or_top x (omega arith) in
    record { same_length = refl; words = (omega (arith, top), tt); high = omega (arith, top) }
at_top-HasHighBit zero (x ∷ y ∷ vli) e w h = absurd (omega arith)
at_top-HasHighBit (suc n) (x ∷ vli) e w h =
    let rest = at_top-HasHighBit n vli (omega arith) w.1 (omega arith) in
    record {
      same_length = omega (arith, rest.same_length);
      words = (w.0, rest.words);
      high = omega (arith, rest.high);
    }

set_high_bit-HasHighBit :
    (vli : List ℕ)
    → 0 < length vli
    → IsWords vli
    → 2 * val vli < span vli
    → HasHighBit vli (set_high_bit vli)
unfolding set_high_bit
set_high_bit-HasHighBit vli p = at_top-HasHighBit (length vli - 1) vli (omega arith)

span_even : (vli : List ℕ) → 0 < length vli → span vli % 2 ≡ 0
span_even [] p = absurd (omega arith)
span_even (x ∷ vli) p = omega arith

-- `out` is half of `v` modulo an odd `m`: twice `out` is `v`, or `v + m` if `v` is odd.
pub record IsHalf (like : List ℕ) (v m : ℕ) (out : List ℕ) : Type 0 where
  pub same_length : length out ≡ length like
  pub words : IsWords out
  pub half : 2 * val out ≡ v + v % 2 * m

module _ (uv mod' : List ℕ) (nonempty : 0 < length uv) (same : length uv ≡ length mod')
    (uw : IsWords uv) (mw : IsWords mod') where
  even-IsHalf : val uv % 2 ≡ 0 → IsHalf uv (val uv) (val mod') (rshift1 uv)
  even-IsHalf e =
      let r = rshift1-half uv uw in
      record { same_length = r.0; words = r.1; half = rw e (omega (arith, r.2)) }

  abbrev sum : List ℕ
  sum = (add uv mod').0

  sum_lem : IsSum uv mod' 0 (add uv mod')
  sum_lem = add-IsSum uv mod' same uw mw

  module _ (e : val uv % 2 ≡ 1) (o : val mod' % 2 ≡ 1) where
    no_carry-IsHalf : (add uv mod').1 ≡ 0 → IsHalf uv (val uv) (val mod') (rshift1 sum)
    no_carry-IsHalf z =
        let s = sum_lem in
        let r = rshift1-half sum s.words in
        record {
          same_length = r.0 ∙ s.same_length;
          words = r.1;
          half = rw e (omega (arith, r.2, s.total, ap (λ (t : ℕ). span uv * t) z));
        }

    carry-IsHalf : (add uv mod').1 ≡ 1 → IsHalf uv (val uv) (val mod') (set_high_bit (rshift1 sum))
    carry-IsHalf z =
        let s = sum_lem in
        let r = rshift1-half sum s.words in
        let same_span = span-eq_of_length (rshift1 sum) uv (r.0 ∙ s.same_length) in
        let below : val sum < span uv =
          rw (← span-eq_of_length sum uv s.same_length) (val-lt-span sum s.words) in
        let high =
          set_high_bit-HasHighBit (rshift1 sum) (rw (r.0, s.same_length) nonempty) r.1
            (omega (arith, r.2, below, same_span)) in
        record {
          same_length = high.same_length ∙ r.0 ∙ s.same_length;
          words = high.words;
          half = rw e (
              omega (
                arith,
                high.high,
                r.2,
                s.total,
                same_span,
                span_even uv nonempty,
                ap (λ (t : ℕ). span uv * t) z,
              ));
        }

    odd-IsHalf :
        IsHalf uv
          (val uv)
          (val mod')
          (if not ((add uv mod').1 == 0) then set_high_bit (rshift1 sum) else rshift1 sum)
    odd-IsHalf = elim (Bool-cases ((add uv mod').1 == 0)) [
      | inl none_carried ↦ rw none_carried (no_carry-IsHalf (ground arith))
      | inr carried ↦ rw carried (carry-IsHalf (ground (arith, sum_lem.last_bit)))
    ]

-- For a nonempty `uv` and an odd modulus of its length, `vli_modInv_update` halves `uv` modulo
-- the modulus, also where `uv + mod` does not fit the words.
pub mod_inv_update-IsHalf :
    (uv mod' : List ℕ)
    → 0 < length uv
    → length uv ≡ length mod'
    → IsWords uv
    → IsWords mod'
    → val mod' % 2 ≡ 1
    → IsHalf uv (val uv) (val mod') (mod_inv_update uv mod')
unfolding mod_inv_update
mod_inv_update-IsHalf uv mod' p same uw mw o = elim (Bool-cases (val uv % 2 == 0)) [
  | inl e ↦ rw (even_iff uv, e) (even-IsHalf uv mod' p same uw mw (ground arith))
  | inr e ↦ rw (even_iff uv, e) (odd-IsHalf uv mod' p same uw mw (odd e) o)
]
  where
    odd : (val uv % 2 == 0) ≡ false → val uv % 2 ≡ 1
    odd e = ground arith

-- `vli_modInv_update`, case by case.
pub mod_inv_update-cases :
    (uv mod' : List ℕ)
    → mod_inv_update uv mod' ≡ (
        if even uv
        then rshift1 uv
        else if not ((add uv mod').1 == 0)
        then at_top (rshift1 (add uv mod').0) (length (rshift1 (add uv mod').0) - 1)
        else rshift1 (add uv mod').0)
unfolding mod_inv_update set_high_bit
mod_inv_update-cases uv mod' = elim (Bool-cases (even uv)) [
  | inl is_even ↦ rw is_even refl
  | inr is_odd ↦ rw is_odd refl
]
