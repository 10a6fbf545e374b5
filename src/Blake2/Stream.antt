-- ===== src/Blake2/Stream.antt =====
-- `blake2b_update` (blake2b-ref.c lines 221-246) against the hashing of one long input: how the
-- input is cut into calls does not matter.
pub mod Absorb
pub mod Update
pub mod Rfc
