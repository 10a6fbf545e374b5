-- ===== src/Blake2/Tests.antt =====
-- The test vector of RFC 7693 appendix A, and the theorems at small inputs.
use ligo.Prelude.{
  ℕ, ◌+◌, ◌≡◌, refl, arith, List, [], ◌∷◌, ◌++◌, some, none, replicate, length-replicate,
}
use ligo.Prelude.Int.{pos}
use ligo.Blake2.Impl.{load64, store32, store64, rotr64, memcpy}
use ligo.Blake2.Compress.{
  blake2b_iv, increment_counter, compress, load_words, fold_words, rounds, round, mix_g,
}
use ligo.Blake2.State.{
  State, init0, init, init_param, param_block, xor_words, update, update_loop, final, close,
  set_lastblock, store_words, blake2b,
}
use ligo.Blake2.Bytes.{load64-store64}
use ligo.Blake2.Stream.Update.{IsValid, Takes, update-Takes, SameView, update-update}
use ligo.Blake2.Stream.Rfc.{counted, increment_counter-counted}
use ligo.Blake2.Hash.{digest_of, blake2b-digest}
use ligo.Blake2.Pieces.{IsOneShot, final-blake2b}

abbrev abc : List ℕ
abc = b'a' ∷ b'b' ∷ b'c' ∷ []

abbrev buffer : List ℕ
buffer = replicate 64 0

-- 130 bytes.
abbrev long : List ℕ
long = replicate 130 7

init0-IsValid : IsValid init0
init0-IsValid = record { size = length-replicate {A = ℕ} 128 0; within = omega arith }

blake2b-digest_example :
    blake2b (some buffer) 64 long (some abc)
    ≡ (pos 0, some (memcpy buffer 0 (digest_of 64 (some abc) long)))
blake2b-digest_example =
    blake2b-digest 64 (some abc) long buffer (omega arith) (omega arith) (omega arith)

final-blake2b_example : (s : State) × IsOneShot 64 (some abc) (long ∷ [] ∷ abc ∷ long ∷ []) buffer s
final-blake2b_example =
    final-blake2b 64 (some abc) (long ∷ [] ∷ abc ∷ long ∷ []) buffer (omega arith) (omega arith)
      (omega arith)

update-Takes_example : Takes init0 long (update init0 long)
update-Takes_example = update-Takes init0 long init0-IsValid

update-update_example : SameView (update (update init0 abc) long) (update init0 (abc ++ long))
update-update_example = update-update init0 abc long init0-IsValid

load64-store64_example : load64 (store64 0x1234_5678_9abc_def0 ++ abc) 0 ≡ 0x1234_5678_9abc_def0
load64-store64_example = load64-store64 0x1234_5678_9abc_def0 abc (omega arith)

increment_counter-counted_example :
    increment_counter (counted blake2b_iv 0xffff_ffff_ffff_ff80 0) 128
    ≡ counted blake2b_iv (0xffff_ffff_ffff_ff80 + 128) 0
increment_counter-counted_example =
    increment_counter-counted blake2b_iv 0xffff_ffff_ffff_ff80 0 128 (omega arith)

-- The 64-byte digest of "abc".
abbrev abc_digest : List ℕ
abc_digest =
    0xba ∷ 0x80 ∷ 0xa5 ∷ 0x3f ∷ 0x98 ∷ 0x1c ∷ 0x4d ∷ 0x0d ∷ 0x6a ∷ 0x27 ∷ 0x97 ∷ 0xb6 ∷ 0x9f ∷ 0x12
    ∷ 0xf6 ∷ 0xe9 ∷ 0x4c ∷ 0x21 ∷ 0x2f ∷ 0x14 ∷ 0x68 ∷ 0x5a ∷ 0xc4 ∷ 0xb7 ∷ 0x4b ∷ 0x12 ∷ 0xbb
    ∷ 0x6f ∷ 0xdb ∷ 0xff ∷ 0xa2 ∷ 0xd1 ∷ 0x7d ∷ 0x87 ∷ 0xc5 ∷ 0x39 ∷ 0x2a ∷ 0xab ∷ 0x79 ∷ 0x2d
    ∷ 0xc2 ∷ 0x52 ∷ 0xd5 ∷ 0xde ∷ 0x45 ∷ 0x33 ∷ 0xcc ∷ 0x95 ∷ 0x18 ∷ 0xd3 ∷ 0x8a ∷ 0xa8 ∷ 0xdb
    ∷ 0xf1 ∷ 0x92 ∷ 0x5a ∷ 0xb9 ∷ 0x23 ∷ 0x86 ∷ 0xed ∷ 0xd4 ∷ 0x00 ∷ 0x99 ∷ 0x23 ∷ []

blake2b-abc : blake2b (some buffer) 64 abc none ≡ (pos 0, some abc_digest)
unfolding blake2b init init_param param_block xor_words update update_loop final close set_lastblock
    increment_counter compress load_words fold_words rounds round mix_g rotr64 load64 store32
    store64 store_words
blake2b-abc = refl
