-- ===== src/Uecc/Secp256r1/Definition.antt =====
-- ocaml-uecc/src/curve-specific.h, lines 736-771: `curve_secp256r1` with its functions.
use ligo.Uecc.Curve.{Curve}
use ligo.Uecc.Jacobian.{double_jacobian_default, mod_sqrt_default, x_side_default}
use ligo.Uecc.Secp256r1.{secp256r1_data}

abbrev pub curve_secp256r1 : Curve
curve_secp256r1 = record {
  info = secp256r1_data;
  double_jacobian = double_jacobian_default;
  mod_sqrt = mod_sqrt_default;
  x_side = x_side_default;
}
