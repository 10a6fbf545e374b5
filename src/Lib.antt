-- ===== src/Lib.antt =====
-- Verification of the C code that the LIGO tools link against: the elliptic-curve arithmetic, the
-- hash function and the ID lists of the database under vendors/tezos-modded/vendors.
--
-- The parts
-- - Uecc: ocaml-uecc/src/uECC.c and types.h, in the 64-bit build. Big integers (VLIs) are lists of
--   64-bit words, lowest first. Uecc.Vli has the primitives (uECC_vli_add is `add`, and so on),
--   Uecc.Mult the multiplication and squaring by columns, Uecc.Reduce the reduction uECC_vli_mmod
--   with modMult and modSquare, Uecc.ModArith addition, subtraction and inversion modulo a VLI.
--   All of them call the primitives. Results that C writes through a pointer are
--   returned, with the carry or borrow where the function returns one.
--   Uecc.Curve has uECC_Curve_t, with its function pointers as fields, and in Curve.Element what a
--   curve promises of its prime; Uecc.Secp256r1 and Uecc.Jacobian, which are about
--   curve-specific.h, have the curve secp256r1 with its reduction, and the doubling, the square
--   root and the curve's equation that it shares with others; Uecc.Secp256k1 defines the curve
--   secp256k1, of which no theorem speaks. Uecc.Point has the additions and
--   EccPoint_mult: Point.Chord, Addition and Conjugate are about one addition, Point.Multiples has
--   what the laws of the group say of the ladder's steps, Point.Rounds, Start, Result and Product
--   follow the ladder, and Point.Public the public key's point; Uecc.Bytes has the bytes of numbers,
--   Uecc.Keys the random numbers, keys and their encodings, Keys.Public is about the bytes of a
--   public key, Keys.Secret about the shared secret, and Uecc.Ecdsa has the signatures, with those
--   of RFC 6979 in Ecdsa.Deterministic. The random source and the hash functions are parameters: a
--   generator takes a size and a state and returns bytes or fails, which Uecc.Run puts together
--   with the functions' results. Its bytes are read as words the way a little-endian machine does;
--   keys and signatures have the build's big-endian bytes (uECC_VLI_NATIVE_LITTLE_ENDIAN=0).
-- - Blake2: ocaml-blake2/src/blake2b-ref.c, blake2-impl.h and blake2.h. Blake2.Impl has the bytes
--   of words, Blake2.Compress the compression function, Blake2.State the streaming interface
--   (blake2b_init, blake2b_init_key, blake2b_update, blake2b_final) and `blake2b`; Blake2.Pieces
--   has the calls on a message in pieces. A state is a record; the chaining value, counter and
--   flags stand in a record of their own.
-- - Midl: ocaml-lmdb/src/midl.c and midl.h. Midl.Search has the binary search that both kinds of
--   list share, Midl.Insert the ordered insertion into a list of ID/pointer pairs,
--   Midl.Growing the lists that grow, with `malloc` and `realloc` as parameters; of `realloc` it is
--   supposed that a block it returns has the size asked for and the old words. Midl.Merge has
--   mdb_midl_xmerge and Midl.Sort mdb_midl_sort, with a stack of parts for its array `istack`;
--   Merge.Order has the counts and orders that both use. An array is a list of its cells, and a
--   status is a ℤ.
-- - Prelude: lists, tests, powers and bit operations on native numbers.
--
-- The parts do not call each other.
--
-- Words are natural numbers; every operation of C that can wrap has its `% 2 ^ w` written out.
-- Reading a list out of bounds gives 0 and writing out of bounds changes nothing. The theorems have
-- hypotheses on the lengths of the lists that are written. A list that is only read can be shorter
-- than what is read of it, where C has no defined behaviour, in some of them: those on
-- mdb_midl_append_list and mdb_midl_xmerge do not ask for cells for all IDs of the list that is
-- added, and then speak of IDs 0 in the missing ones.
-- A shift by 64 or more is not defined in C either: the mask for the highest random word is 0 then,
-- which takes a bound whose highest word is 0.
-- The small counters of uECC.c (wordcount_t has 8 bits, bitcount_t 16) have no wrap-around: the
-- build's VLIs have at most uECC_MAX_WORDS = 4 words, and up to 63 words no counter of words or
-- bits wraps. The byte counter of uECC_vli_nativeToBytes and uECC_vli_bytesToNative has 8 bits too,
-- and counts at most 127 bytes, as num_bytes of a curve does, which has the same type.
-- The indices of mdb_midl_sort are of type int: the one sum of two of them that can leave its range
-- ends the sort in the model, and does not for at most 2^30 IDs.
--
-- Loops
-- - The loops over the words of a VLI are structural recursion on the list or on the index.
-- - The bit count of a word has fuel 64: a word is 0 after as many shifts.
-- - The inversion of n words has fuel 128 n + 1: each round takes a bit off one of two numbers of
--   64 n bits.
-- - The reduction of secp256r1 has fuel 5 for its loop upwards and 8 for the one downwards: the
--   sum is more than -4 and less than 7 times 2^256.
-- - The 64 tries of the functions that draw random numbers are their fuel and the code's bound; an
--   inversion that ran out of fuel would be an outcome of its own.
-- - T of uECC_sign_deterministic has as many rounds of fuel as bytes, for a hash that is not empty.
-- - uECC_vli_mmod counts its shift down to 0, which is its recursion.
-- - The inner loop of uECC_vli_square has fuel k + 1: its index passes k / 2 before that.
-- - A search has fuel 33: an unsigned of 32 bits at least halves in each round.
-- - The sort of n IDs has fuel 2 n + 1: a round ends a part or splits one, and n IDs have at most n
--   parts. Its scans have the list's length as fuel, and its partition too, whose second index
--   decreases in each round. Its stack has room for 31 parts, as `istack` has.
-- - The block loop of blake2b_update has the input's length as fuel: a round takes 128 bytes.
--
-- Not modelled: the curves other than secp256r1 and secp256k1, mdb_midl_insert and the lists mid3l
-- of midl.c, which are not in the build, mdb.c, the copies of HACL* and libsecp256k1, the glue to
-- OCaml, and the OCaml code of the repository.
pub mod Prelude
pub mod Uecc
pub mod Blake2
pub mod Midl
