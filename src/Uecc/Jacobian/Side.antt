-- ===== src/Uecc/Jacobian/Side.antt =====
-- `x_side_default` (curve-specific.h lines 97-106) computes the right side of the curve's equation.
use ligo.Prelude.{ℕ, zero, suc, ◌+◌, ◌*◌, ◌<◌, ◌≡◌, ap, arith, List, length}
use ligo.Uecc.Word.{word_mod, IsWords, val}
use ligo.Uecc.Vli.{clear}
use ligo.Uecc.ModArith.Congruence.{Congruent}
use ligo.Uecc.ModArith.Algebra.{congruent_times, congruent_add, congruent_combine, congruent_of_mod}
use ligo.Uecc.ModArith.Inverse.Loop.{clear_lem}
use ligo.Uecc.Curve.{CurveData}
use ligo.Uecc.Curve.Element.{
  IsElement, IsField, product_lem, square_lem, difference_lem, mod_add-IsValue,
}
use ligo.Uecc.Jacobian.{small_constant, x_side_default}

constant_lem :
    (n x : ℕ)
    → 0 < n
    → x < word_mod
    → (length (small_constant n x) ≡ n)
      × IsWords (small_constant n x)
      × (val (small_constant n x) ≡ x)
unfolding clear
constant_lem zero x p h = absurd (omega arith)
constant_lem (suc n) x p h =
    let rest = clear_lem n in (omega (arith, rest.0), (h, rest.1), omega (arith, rest.2))

-- A small constant is an element.
pub constant-IsElement :
    (c : CurveData)
    → IsField c
    → (x : ℕ) → x < word_mod
    → x < val c.p
    → IsElement c (small_constant c.num_words x) × (val (small_constant c.num_words x) ≡ x)
constant-IsElement c f x h below =
    let r = constant_lem c.num_words x f.positive h in
    (record { size = r.0; words = r.1; reduced = rw r.2 below }, r.2)

-- For an element `x` of a field whose prime is above 3, and a reduced `b`, `x_side_default` returns
-- the element that is congruent to x^3 - 3 x + b.
pub x_side-IsSide :
    (c : CurveData) (x : List ℕ)
    → IsField c
    → IsElement c c.b
    → 3 < val c.p
    → IsElement c x
    → IsElement c (x_side_default c x)
      × Congruent (val c.p) (val (x_side_default c x) + 3 * val x) (val x * val x * val x + val c.b)
unfolding x_side_default
x_side-IsSide c x f be big xe =
    let (three, value) = constant-IsElement c f 3 (omega arith) big in
    let s = square_lem c f x xe in
    let d = difference_lem c f _ _ s.0 three in
    let m = product_lem c f _ x d.0 xe in
    let a = mod_add-IsValue c f _ _ m.0 be in
    (
      a.element,
      congruent_combine
          (congruent_add (congruent_add (congruent_of_mod a.value) m.1)
            (congruent_add (congruent_times (val x) d.1) (congruent_times (val x) s.1)))
          (omega (arith, ap (λ (t : ℕ). val x * t) value)),
    )
