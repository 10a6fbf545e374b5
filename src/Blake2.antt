-- ===== src/Blake2.antt =====
-- vendors/tezos-modded/vendors/ocaml-blake2/src: the BLAKE2b hash, from the words of a block to the
-- streaming interface.
pub mod Impl
pub mod Compress
pub mod State
pub mod Bytes
pub mod Stream
pub mod Hash
pub mod Pieces
mod Tests
