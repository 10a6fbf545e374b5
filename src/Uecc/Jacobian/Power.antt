-- ===== src/Uecc/Jacobian/Power.antt =====
-- `mod_sqrt_default` (curve-specific.h lines 112-129) takes the power (p + 1) / 4, which is a square
-- root where p is 3 modulo 4.
use ligo.Prelude.{
  ℕ, zero, suc, ◌+◌, ◌-◌, ◌*◌, ◌/◌, ◌%◌, ◌^◌, ◌<◌, ◌≤◌, ◌≡◌, sym, ap, ◌∙◌, arith, List, ◌==◌,
  Bool-cases, inl, inr, if◌then◌else◌,
}
use ligo.Prelude.Pow.{pow_add, pow_mul}
use native.Mathlib.Nat.{pow-zero, pow-suc, div-eq_of_lt}
use ligo.Uecc.Word.{IsWords, val}
use ligo.Uecc.Vli.{test_bit, add, num_bits}
use ligo.Uecc.Vli.Bit.{digit, test_bit-zero, halved_lem}
use ligo.Uecc.Vli.Carry.{span, add-IsSum}
use ligo.Uecc.Vli.Count.{IsLength, num_bits-IsLength}
use ligo.Uecc.ModArith.Congruence.{Congruent}
use ligo.Uecc.ModArith.Algebra.{
  congruent_refl, congruent_of_eq, congruent_sym, congruent_trans, congruent_mul,
}
use ligo.Uecc.Curve.{CurveData, mod_mult_fast, mod_square_fast}
use ligo.Uecc.Curve.Element.{IsElement, IsField, product_lem, square_lem}
use ligo.Uecc.Jacobian.Side.{constant-IsElement}
use ligo.Uecc.Jacobian.{small_constant, mod_sqrt_loop, mod_sqrt_default}

-- An element that is a power of `a`.
pub record IsPower (c : CurveData) (a e : ℕ) (x : List ℕ) : Type 0 where
  pub element : IsElement c x
  pub power : Congruent (val c.p) (val x) (a ^ e)

module _ (c : CurveData) (f : IsField c) (a : List ℕ) (ae : IsElement c a) where
  squared-IsPower :
      (l : List ℕ) (e : ℕ) → IsPower c (val a) e l → IsPower c (val a) (e + e) (mod_square_fast l c)
  squared-IsPower l e h =
      let (s, q) = square_lem c f l h.element in
      record {
        element = s;
        power = rw (pow_add (val a) e e) (congruent_trans q (congruent_mul h.power h.power));
      }

  times-IsPower :
      (l : List ℕ) (e : ℕ) → IsPower c (val a) e l → IsPower c (val a) (suc e) (mod_mult_fast l a c)
  times-IsPower l e h =
      let (s, q) = product_lem c f l a h.element ae in
      record {
        element = s;
        power =
            rw (pow-suc (val a) e)
              (congruent_trans q (congruent_mul h.power (congruent_refl (val a))));
      }

  -- Each round brings one more digit of the exponent.
  loop-IsPower :
      (i : ℕ) (p1 l : List ℕ)
      → IsWords p1
      → IsPower c (val a) (val p1 / 2 ^ (i + 2)) l
      → IsPower c (val a) (val p1 / 4) (mod_sqrt_loop i p1 l a c)
  unfolding mod_sqrt_loop
  loop-IsPower zero p1 l w h = h
  loop-IsPower (suc i) p1 l w h = loop-IsPower i p1 _ w (next (squared-IsPower l _ h))
    where
      next :
          IsPower c
            (val a)
            (val p1 / 2 ^ (suc i + 2) + val p1 / 2 ^ (suc i + 2))
            (mod_square_fast l c)
          → IsPower c (val a) (val p1 / 2 ^ (i + 2)) (
              if test_bit p1 (suc (suc i)) == 0
              then mod_square_fast l c
              else mod_mult_fast (mod_square_fast l c) a c)
      next s =
          let halved = halved_lem (val p1) (i + 2) in
          elim (Bool-cases (digit (val p1) (suc (suc i)) == 0)) [
            | inl clear_bit ↦
                let same : val p1 / 2 ^ (i + 2)
                    ≡ val p1 / 2 ^ (suc i + 2) + val p1 / 2 ^ (suc i + 2) =
                  ground (arith, halved, clear_bit) in
                rw (test_bit-zero p1 (suc (suc i)) w, clear_bit, same) s
            | inr set_bit ↦
                let same : val p1 / 2 ^ (i + 2)
                    ≡ suc (val p1 / 2 ^ (suc i + 2) + val p1 / 2 ^ (suc i + 2)) =
                  ground (arith, halved, set_bit) in
                rw (test_bit-zero p1 (suc (suc i)) w, set_bit, same) (times-IsPower _ _ s)
          ]

  -- The word 1 is the power 0.
  one-IsPower : IsPower c (val a) 0 (small_constant c.num_words 1)
  one-IsPower =
      let (e, v) = constant-IsElement c f 1 (omega arith) f.p_big in
      record { element = e; power = rw (pow-zero (val a)) (congruent_of_eq v) }

  no_carry_lem : (v s k w : ℕ) → v + s * k ≡ w → k ≤ 1 → w < s → v ≡ w
  no_carry_lem v s zero w e le h = omega (arith, e)
  no_carry_lem v s (suc zero) w e le h = absurd (omega (arith, e))
  no_carry_lem v s (suc (suc k)) w e le h = absurd (omega arith)

  -- More than two digits, of which none are left above the highest.
  start_lem : (b v : ℕ) → IsLength b v → 4 ≤ v → (v / 2 ^ (b - 1 - 1 + 2) ≡ 0)
  start_lem zero v h large = absurd (omega arith)
  start_lem (suc zero) v h large = absurd (omega arith)
  start_lem (suc (suc b)) v h large =
      let exponent : suc (suc b) - 1 - 1 + 2 ≡ suc (suc b) = omega arith in
      ap (λ (t : ℕ). v / 2 ^ t) exponent ∙ div-eq_of_lt h.1

  module _ (room : suc (val c.p) < span c.p) where
    mod_sqrt-IsPower : IsPower c (val a) (suc (val c.p) / 4) (mod_sqrt_default c a)
    unfolding mod_sqrt_default
    mod_sqrt-IsPower =
        let (one, value) = constant-IsElement c f 1 (omega arith) f.p_big in
        let t =
          add-IsSum c.p (small_constant c.num_words 1) (f.p_size ∙ sym one.size) f.p_words
            one.words in
        let p1 = (add c.p (small_constant c.num_words 1)).0 in
        let sum : val p1 ≡ suc (val c.p) =
          no_carry_lem _ _ _ _ t.total t.last_bit (omega (arith, value, room))
          ∙ omega (arith, value) in
        let start =
          start_lem (num_bits p1) (val p1) (num_bits-IsLength p1 t.words)
            (omega (arith, sum, f.p_big)) in
        rw (← sum) (loop-IsPower (num_bits p1 - 1 - 1) p1 _ t.words (rw start one-IsPower))

-- Powers of congruent numbers.
congruent_pow : {m x y : ℕ} (k : ℕ) → Congruent m x y → Congruent m (x ^ k) (y ^ k)
congruent_pow {x = x} {y = y} zero h = congruent_of_eq (pow-zero x ∙ sym (pow-zero y))
congruent_pow {x = x} {y = y} (suc k) h =
    rw (pow-suc x k, pow-suc y k) (congruent_mul (congruent_pow k h) h)

square_pow : (y k : ℕ) → (y * y) ^ k * (y * y) ^ k ≡ y ^ (4 * k)
square_pow y k =
    let two : y * y ≡ y ^ 2 = rw (pow-suc y 1, pow-suc y 0, pow-zero y) (omega arith) in
    let total : 2 * k + 2 * k ≡ 4 * k = omega arith in
    rw (two, ← pow_mul y 2 k, ← pow_add y (2 * k) (2 * k)) (ap (λ (t : ℕ). y ^ t) total)

-- On a curve whose prime is 3 modulo 4 and leaves room for p + 1 in its words, for an element that
-- is congruent to the square of a number `y` with y^p congruent to y, `mod_sqrt_default` returns an
-- element whose square is congruent to the given one.
pub mod_sqrt-IsRoot :
    (c : CurveData) (a : List ℕ) (y : ℕ)
    → IsField c
    → suc (val c.p) < span c.p
    → val c.p % 4 ≡ 3
    → IsElement c a
    → Congruent (val c.p) (val a) (y * y)
    → Congruent (val c.p) (y ^ val c.p) y
    → IsElement c (mod_sqrt_default c a)
      × Congruent (val c.p) (val (mod_sqrt_default c a) * val (mod_sqrt_default c a)) (val a)
mod_sqrt-IsRoot c a y f room three ae h fermat =
    let k = suc (val c.p) / 4 in
    let r = mod_sqrt-IsPower c f a ae room in
    let four : 4 * k ≡ suc (val c.p) = omega (arith, three) in
    let root = congruent_trans r.power (congruent_pow k h) in
    let whole : (y * y) ^ k * (y * y) ^ k ≡ y ^ val c.p * y =
      square_pow y k ∙ ap (λ (t : ℕ). y ^ t) four ∙ pow-suc y (val c.p) in
    (
      r.element,
      congruent_trans (congruent_mul root root) (
          congruent_trans (congruent_of_eq whole)
            (congruent_trans (congruent_mul fermat (congruent_refl y)) (congruent_sym h))),
    )
