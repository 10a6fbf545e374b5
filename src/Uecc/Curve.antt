-- ===== src/Uecc/Curve.antt =====
-- ocaml-uecc/src/uECC.c, lines 138-158 and 608-645: curves, and arithmetic modulo a curve's prime.
-- The function pointers of `uECC_Curve_t` are fields; those that C hands the curve itself get its
-- data, the first record.
pub mod Element
use ligo.Prelude.{ℕ, ◌+◌, ◌*◌, ◌/◌, List}
use ligo.Uecc.Mult.{mult, square}

pub record CurveData : Type 0 where
  pub num_words : ℕ
  pub num_bytes : ℕ
  pub num_n_bits : ℕ
  pub p : List ℕ
  pub n : List ℕ
  pub g : List ℕ
  pub b : List ℕ
  pub mmod_fast : List ℕ → List ℕ

-- Jacobian coordinates.
pub record Jacobian : Type 0 where
  pub x1 : List ℕ
  pub y1 : List ℕ
  pub z1 : List ℕ

-- `uECC_Curve_t`
pub record Curve : Type 0 where
  pub info : CurveData
  pub open info use *
  pub double_jacobian : CurveData → Jacobian → Jacobian
  pub mod_sqrt : CurveData → List ℕ → List ℕ
  pub x_side : CurveData → List ℕ → List ℕ

-- `BITS_TO_WORDS` and `BITS_TO_BYTES`
abbrev pub bits_to_words : ℕ → ℕ
bits_to_words num_bits = (num_bits + 63) / 64

abbrev pub bits_to_bytes : ℕ → ℕ
bits_to_bytes num_bits = (num_bits + 7) / 8

-- `uECC_vli_modMult_fast`
pub mod_mult_fast : List ℕ → List ℕ → CurveData → List ℕ
mod_mult_fast left right curve = curve.mmod_fast (mult left right)

-- `uECC_vli_modSquare_fast`
pub mod_square_fast : List ℕ → CurveData → List ℕ
mod_square_fast left curve = curve.mmod_fast (square left)
