-- ===== src/Uecc.antt =====
-- vendors/tezos-modded/vendors/ocaml-uecc/src: the elliptic-curve library, from its big integers
-- ("VLI") up.
pub mod Word
pub mod Vli
pub mod ModArith
pub mod Reduce
pub mod Mult
pub mod Curve
pub mod Point
pub mod Jacobian
pub mod Bytes
pub mod Run
pub mod Keys
pub mod Ecdsa
mod Tests
pub mod Secp256r1
pub mod Secp256k1
