-- ===== src/Uecc/Jacobian.antt =====
-- ocaml-uecc/src/curve-specific.h, lines 48-129: what the curves with `a = -3` share.
pub mod Side
mod Half
pub mod Power
pub mod Double
use ligo.Prelude.{ℕ, zero, suc, ◌-◌, bit_or, not, ◌*◌, ◌%◌, ◌^◌, List, [], ◌∷◌}
use ligo.Prelude.{◌==◌, if◌then◌else◌, length, get_or, set}
use ligo.Uecc.Word.{word_mod}
use ligo.Uecc.Vli.{clear, is_zero, test_bit, add, num_bits, rshift1}
use ligo.Uecc.ModArith.{mod_add, mod_sub}
use ligo.Uecc.Curve.{CurveData, Jacobian, mod_mult_fast, mod_square_fast}

-- `if (uECC_vli_testBit(X1, 0)) … else …`: half, modulo an odd `p`.
pub half_mod : List ℕ → List ℕ → List ℕ
half_mod x p =
    let (sum, l_carry) = add x p in
    let half = rshift1 sum in
    let top = length x - 1 in
    if test_bit x 0 == 0
    then rshift1 x
    else set half top (bit_or (get_or half top 0) (l_carry * 2 ^ 63 % word_mod))

-- `double_jacobian_default`
pub double_jacobian_default : CurveData → Jacobian → Jacobian
double_jacobian_default c s =
    let y2 = mod_square_fast s.y1 c in
    let a = mod_mult_fast s.x1 y2 c in
    let y4 = mod_square_fast y2 c in
    let z3 = mod_mult_fast s.y1 s.z1 c in
    let z2 = mod_square_fast s.z1 c in
    let x_z2 = mod_add s.x1 z2 c.p in
    let twice_z2 = mod_add z2 z2 c.p in
    let x_less = mod_sub x_z2 twice_z2 c.p in
    let t = mod_mult_fast x_z2 x_less c in
    let twice_t = mod_add t t c.p in
    let b = half_mod (mod_add t twice_t c.p) c.p in
    let b2 = mod_square_fast b c in
    let b2_a = mod_sub b2 a c.p in
    let x3 = mod_sub b2_a a c.p in
    let a_x3 = mod_sub a x3 c.p in
    let product = mod_mult_fast b a_x3 c in
    let y3 = mod_sub product y4 c.p in
    if is_zero s.z1 then s else record { x1 = x3; y1 = y3; z1 = z3 }

-- A constant in the lowest word.
abbrev pub small_constant : ℕ → ℕ → List ℕ
small_constant num_words x = set (clear num_words) 0 x

-- `x_side_default`
pub x_side_default : CurveData → List ℕ → List ℕ
x_side_default c x =
    let r = mod_square_fast x c in
    let r' = mod_sub r (small_constant c.num_words 3) c.p in
    let r'' = mod_mult_fast r' x c in mod_add r'' c.b c.p

-- `for (i = …; i > 1; --i)`, with `i + 2` for the loop's `i + 1`.
pub mod_sqrt_loop : ℕ → List ℕ → List ℕ → List ℕ → CurveData → List ℕ
mod_sqrt_loop zero p1 l_result a c = l_result
mod_sqrt_loop (suc i) p1 l_result a c =
    let squared = mod_square_fast l_result c in
    let next = if test_bit p1 (suc (suc i)) == 0 then squared else mod_mult_fast squared a c in
    mod_sqrt_loop i p1 next a c

-- `mod_sqrt_default`
pub mod_sqrt_default : CurveData → List ℕ → List ℕ
mod_sqrt_default c a =
    let one = small_constant c.num_words 1 in
    let p1 = (add c.p one).0 in mod_sqrt_loop (num_bits p1 - 1 - 1) p1 one a c
