-- ===== src/Uecc/ModArith/Inverse.antt =====
-- `uECC_vli_modInv` (uECC.c lines 680-725): the loop ends within its fuel, and its result times the
-- input is congruent to a common divisor of the input and the modulus.
mod Difference
mod Side
pub mod Round
pub mod Loop
