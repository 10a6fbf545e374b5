-- ===== src/Uecc/Secp256k1.antt =====
-- ocaml-uecc/src/curve-specific.h, lines 1060-1178 and 1227-1242: the curve secp256k1.
use ligo.Prelude.{ℕ, zero, suc, ◌+◌, List, [], ◌∷◌, ◌++◌}
use ligo.Prelude.{if◌then◌else◌, take, drop}
use ligo.Uecc.Vli.{is_zero, add, sub, cmp_unsafe}
use ligo.Uecc.ModArith.{is_positive, mod_add, mod_sub}
use ligo.Uecc.Mult.{Acc3, muladd}
use ligo.Uecc.Curve.{CurveData, Curve, Jacobian, mod_mult_fast, mod_square_fast}
use ligo.Uecc.Jacobian.{half_mod, mod_sqrt_default}

-- 2^256 - 2^32 - 977
abbrev pub secp256k1_p : List ℕ
secp256k1_p =
    0xffff_fffe_ffff_fc2f ∷ 0xffff_ffff_ffff_ffff ∷ 0xffff_ffff_ffff_ffff ∷ 0xffff_ffff_ffff_ffff
    ∷ []

abbrev pub secp256k1_n : List ℕ
secp256k1_n =
    0xbfd2_5e8c_d036_4141 ∷ 0xbaae_dce6_af48_a03b ∷ 0xffff_ffff_ffff_fffe ∷ 0xffff_ffff_ffff_ffff
    ∷ []

abbrev pub secp256k1_g : List ℕ
secp256k1_g =
    0x59f2_815b_16f8_1798 ∷ 0x029b_fcdb_2dce_28d9 ∷ 0x55a0_6295_ce87_0b07 ∷ 0x79be_667e_f9dc_bbac
    ∷ 0x9c47_d08f_fb10_d4b8 ∷ 0xfd17_b448_a685_5419 ∷ 0x5da4_fbfc_0e11_08a8 ∷ 0x483a_da77_26a3_c465
    ∷ []

abbrev pub secp256k1_b : List ℕ
secp256k1_b = 7 ∷ 0 ∷ 0 ∷ 0 ∷ []

-- The loop of `omega_mult_secp256k1`: the accumulator's lowest word is the next word.
pub omega_loop : Acc3 → List ℕ → List ℕ
omega_loop r [] = r.r0 ∷ []
omega_loop r (x ∷ right) =
    let acc = muladd 0x1_0000_03d1 x r in
    acc.r0 ∷ omega_loop (record { r0 = acc.r1; r1 = acc.r2; r2 = 0 }) right

-- `omega_mult_secp256k1`: five words.
pub omega_mult_secp256k1 : List ℕ → List ℕ
omega_mult_secp256k1 right = omega_loop (record { r0 = 0; r1 = 0; r2 = 0 }) right

-- `while (carry > 0)`, with `--carry` first.
pub sub_carries : ℕ → List ℕ → List ℕ
sub_carries zero result = result
sub_carries (suc carry) result = sub_carries carry (sub result secp256k1_p).0

-- `vli_mmod_fast_secp256k1`; `tmp` has zeros above the five words that are written.
pub mmod_fast_secp256k1 : List ℕ → List ℕ
mmod_fast_secp256k1 product =
    let tmp = omega_mult_secp256k1 (drop 4 product) ++ 0 ∷ 0 ∷ 0 ∷ [] in
    let (first, carry) = add (take 4 product) (take 4 tmp) in
    let (second, carry') = add first (take 4 (omega_mult_secp256k1 (drop 4 tmp))) in
    let result = sub_carries (carry + carry') second in
    if is_positive (cmp_unsafe result secp256k1_p) then (sub result secp256k1_p).0 else result

abbrev pub secp256k1_data : CurveData
secp256k1_data = record {
  num_words = 4;
  num_bytes = 32;
  num_n_bits = 256;
  p = secp256k1_p;
  n = secp256k1_n;
  g = secp256k1_g;
  b = secp256k1_b;
  mmod_fast = mmod_fast_secp256k1;
}

-- `double_jacobian_secp256k1`
pub double_jacobian_secp256k1 : CurveData → Jacobian → Jacobian
double_jacobian_secp256k1 c s =
    let y2 = mod_square_fast s.y1 c in
    let a = mod_mult_fast s.x1 y2 c in
    let x2 = mod_square_fast s.x1 c in
    let y4 = mod_square_fast y2 c in
    let z3 = mod_mult_fast s.y1 s.z1 c in
    let twice_x2 = mod_add x2 x2 c.p in
    let b = half_mod (mod_add twice_x2 x2 c.p) c.p in
    let b2 = mod_square_fast b c in
    let b2_a = mod_sub b2 a c.p in
    let x3 = mod_sub b2_a a c.p in
    let a_x3 = mod_sub a x3 c.p in
    let product = mod_mult_fast b a_x3 c in
    let y3 = mod_sub product y4 c.p in
    if is_zero s.z1 then s else record { x1 = x3; y1 = y3; z1 = z3 }

-- `x_side_secp256k1`
pub x_side_secp256k1 : CurveData → List ℕ → List ℕ
x_side_secp256k1 c x =
    let r = mod_square_fast x c in let r' = mod_mult_fast r x c in mod_add r' c.b c.p

abbrev pub curve_secp256k1 : Curve
curve_secp256k1 = record {
  info = secp256k1_data;
  double_jacobian = double_jacobian_secp256k1;
  mod_sqrt = mod_sqrt_default;
  x_side = x_side_secp256k1;
}
