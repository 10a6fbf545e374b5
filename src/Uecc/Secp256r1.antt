-- ===== src/Uecc/Secp256r1.antt =====
-- ocaml-uecc/src/curve-specific.h, lines 730-769 and 981-1054: the curve secp256r1 (P-256), with the
-- reduction of a product modulo its prime.
pub mod Halves
pub mod Loops
pub mod Final
pub mod Reduction
pub mod Definition
use ligo.Prelude.{ℕ, zero, suc, ◌*◌, ◌/◌, ◌%◌, ◌^◌, bit_and, bit_or, not, ◌||◌, List, [], ◌∷◌}
use ligo.Prelude.{◌==◌, if◌then◌else◌, get_or, take}
use ligo.Prelude.Int.{ℤ, pos, negsuc, add_nat, sub_nat}
use ligo.Uecc.Word.{word_mod}
use ligo.Uecc.Vli.{add, sub, cmp_unsafe}
use ligo.Uecc.Curve.{CurveData}
use ligo.Uecc.ModArith.{is_one}

-- 2^256 - 2^224 + 2^192 + 2^96 - 1
abbrev pub secp256r1_p : List ℕ
secp256r1_p = 0xffff_ffff_ffff_ffff ∷ 0xffff_ffff ∷ 0 ∷ 0xffff_ffff_0000_0001 ∷ []

abbrev pub secp256r1_n : List ℕ
secp256r1_n =
    0xf3b9_cac2_fc63_2551 ∷ 0xbce6_faad_a717_9e84 ∷ 0xffff_ffff_ffff_ffff ∷ 0xffff_ffff_0000_0000
    ∷ []

abbrev pub secp256r1_g : List ℕ
secp256r1_g =
    0xf4a1_3945_d898_c296 ∷ 0x7703_7d81_2deb_33a0 ∷ 0xf8bc_e6e5_63a4_40f2 ∷ 0x6b17_d1f2_e12c_4247
    ∷ 0xcbb6_4068_37bf_51f5 ∷ 0x2bce_3357_6b31_5ece ∷ 0x8ee7_eb4a_7c0f_9e16 ∷ 0x4fe3_42e2_fe1a_7f9b
    ∷ []

abbrev pub secp256r1_b : List ℕ
secp256r1_b =
    0x3bce_3c3e_27d2_604b ∷ 0x651d_06b0_cc53_b0f6 ∷ 0xb3eb_bd55_7698_86bc ∷ 0x5ac6_35d8_aa3a_93e7
    ∷ []

-- `result` and the int `carry`.
pub record Reducing : Type 0 where
  pub result : List ℕ
  pub carry : ℤ

-- `carry += uECC_vli_add(result, result, tmp, …)`
pub plus : List ℕ → Reducing → Reducing
plus tmp s =
    let (result, carry) = add s.result tmp in
    record { result = result; carry = add_nat s.carry carry }

-- `carry -= uECC_vli_sub(result, result, tmp, …)`
pub minus : List ℕ → Reducing → Reducing
minus tmp s =
    let (result, borrow) = sub s.result tmp in
    record { result = result; carry = sub_nat s.carry borrow }

-- `tmp` is doubled with a carry, and added.
pub plus_twice : List ℕ → Reducing → Reducing
unfolding plus
plus_twice tmp s =
    let (twice, carry) = add tmp tmp in plus twice (record s { carry = add_nat s.carry carry })

-- `x >> 32`, `x << 32`, and the masks for the halves of a word.
abbrev pub shr32 : ℕ → ℕ
shr32 x = x / 2 ^ 32

abbrev pub shl32 : ℕ → ℕ
shl32 x = x * 2 ^ 32 % word_mod

abbrev pub low_half : ℕ → ℕ
low_half x = bit_and x 0xffff_ffff

abbrev pub high_half : ℕ → ℕ
high_half x = bit_and x 0xffff_ffff_0000_0000

-- The words that are added and subtracted, of the words 4 to 7 of the product.
pub s1 : ℕ → ℕ → ℕ → ℕ → List ℕ
s1 p4 p5 p6 p7 = 0 ∷ high_half p5 ∷ p6 ∷ p7 ∷ []

pub s2 : ℕ → ℕ → ℕ → ℕ → List ℕ
s2 p4 p5 p6 p7 = 0 ∷ shl32 p6 ∷ bit_or (shr32 p6) (shl32 p7) ∷ shr32 p7 ∷ []

pub s3 : ℕ → ℕ → ℕ → ℕ → List ℕ
s3 p4 p5 p6 p7 = p4 ∷ low_half p5 ∷ 0 ∷ p7 ∷ []

pub s4 : ℕ → ℕ → ℕ → ℕ → List ℕ
s4 p4 p5 p6 p7 =
    bit_or (shr32 p4) (shl32 p5)
    ∷ bit_or (shr32 p5) (high_half p6)
    ∷ p7
    ∷ bit_or (shr32 p6) (shl32 p4)
    ∷ []

pub d1 : ℕ → ℕ → ℕ → ℕ → List ℕ
d1 p4 p5 p6 p7 = bit_or (shr32 p5) (shl32 p6) ∷ shr32 p6 ∷ 0 ∷ bit_or (low_half p4) (shl32 p5) ∷ []

pub d2 : ℕ → ℕ → ℕ → ℕ → List ℕ
d2 p4 p5 p6 p7 = p6 ∷ p7 ∷ 0 ∷ bit_or (shr32 p4) (high_half p5) ∷ []

pub d3 : ℕ → ℕ → ℕ → ℕ → List ℕ
d3 p4 p5 p6 p7 =
    bit_or (shr32 p6) (shl32 p7)
    ∷ bit_or (shr32 p7) (shl32 p4)
    ∷ bit_or (shr32 p4) (shl32 p5)
    ∷ shl32 p6
    ∷ []

pub d4 : ℕ → ℕ → ℕ → ℕ → List ℕ
d4 p4 p5 p6 p7 = p7 ∷ high_half p4 ∷ p5 ∷ high_half p6 ∷ []

-- The sums and differences, from `t`.
pub combine : List ℕ → Reducing
combine product =
    let p4 = get_or product 4 0 in
    let p5 = get_or product 5 0 in
    let p6 = get_or product 6 0 in
    let p7 = get_or product 7 0 in
    let t : Reducing = record { result = take 4 product; carry = pos 0 } in
    let sums =
      plus (s4 p4 p5 p6 p7)
        (plus (s3 p4 p5 p6 p7) (plus_twice (s2 p4 p5 p6 p7) (plus_twice (s1 p4 p5 p6 p7) t))) in
    minus (d4 p4 p5 p6 p7)
      (minus (d3 p4 p5 p6 p7) (minus (d2 p4 p5 p6 p7) (minus (d1 p4 p5 p6 p7) sums)))

-- `do … while (carry < 0)`, on fuel.
pub raise : ℕ → Reducing → Reducing
raise zero s = s
raise (suc fuel) s =
    let next = plus secp256r1_p s in
    let rest = raise fuel next in elim next.carry [ pos k ↦ next | negsuc k ↦ rest ]

-- `while (carry || uECC_vli_cmp_unsafe(p, result) != 1)`, on fuel.
pub lower : ℕ → Reducing → Reducing
lower zero s = s
lower (suc fuel) s =
    let rest = lower fuel (minus secp256r1_p s) in
    let reduced = is_one (cmp_unsafe secp256r1_p s.result) in
    elim s.carry [ pos zero ↦ (if reduced then s else rest) | pos (suc k) ↦ rest | negsuc k ↦ rest ]

-- `vli_mmod_fast_secp256r1`; 5 rounds up and 8 rounds down are enough.
pub mmod_fast_secp256r1 : List ℕ → List ℕ
mmod_fast_secp256r1 product =
    let s = combine product in
    elim s.carry [ pos k ↦ Reducing.result (lower 8 s) | negsuc k ↦ Reducing.result (raise 5 s) ]

-- The data of `curve_secp256r1`.
abbrev pub secp256r1_data : CurveData
secp256r1_data = record {
  num_words = 4;
  num_bytes = 32;
  num_n_bits = 256;
  p = secp256r1_p;
  n = secp256r1_n;
  g = secp256r1_g;
  b = secp256r1_b;
  mmod_fast = mmod_fast_secp256r1;
}
