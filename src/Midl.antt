-- ===== src/Midl.antt =====
-- vendors/tezos-modded/vendors/ocaml-lmdb/src/midl.c and midl.h: the ID lists of LMDB. An array of
-- words whose element 0 counts the elements in use, which stand from index 1 on.
pub mod Search
pub mod Insert
pub mod Growing
pub mod Merge
pub mod Sort
mod Tests
