-- ===== src/Blake2/Compress.antt =====
-- ocaml-blake2/src/blake2b-ref.c, lines 23-70 and 153-216: the chaining value, its counter and
-- flags, and the compression of a block.
use ligo.Prelude.{ℕ, zero, suc, ◌+◌, ◌*◌, bit_xor, List, [], ◌∷◌}
use ligo.Prelude.{ltb, if◌then◌else◌, get_or, set}
use ligo.Blake2.Impl.{u64, load64, rotr64}

-- `blake2b_IV`
abbrev pub blake2b_iv : List ℕ
blake2b_iv =
    0x6a09e667f3bcc908 ∷ 0xbb67ae8584caa73b ∷ 0x3c6ef372fe94f82b ∷ 0xa54ff53a5f1d36f1
    ∷ 0x510e527fade682d1 ∷ 0x9b05688c2b3e6c1f ∷ 0x1f83d9abfb41bd6b ∷ 0x5be0cd19137e2179 ∷ []

-- `blake2b_sigma`
abbrev pub blake2b_sigma : List (List ℕ)
blake2b_sigma =
    (0 ∷ 1 ∷ 2 ∷ 3 ∷ 4 ∷ 5 ∷ 6 ∷ 7 ∷ 8 ∷ 9 ∷ 10 ∷ 11 ∷ 12 ∷ 13 ∷ 14 ∷ 15 ∷ [])
    ∷ (14 ∷ 10 ∷ 4 ∷ 8 ∷ 9 ∷ 15 ∷ 13 ∷ 6 ∷ 1 ∷ 12 ∷ 0 ∷ 2 ∷ 11 ∷ 7 ∷ 5 ∷ 3 ∷ [])
    ∷ (11 ∷ 8 ∷ 12 ∷ 0 ∷ 5 ∷ 2 ∷ 15 ∷ 13 ∷ 10 ∷ 14 ∷ 3 ∷ 6 ∷ 7 ∷ 1 ∷ 9 ∷ 4 ∷ [])
    ∷ (7 ∷ 9 ∷ 3 ∷ 1 ∷ 13 ∷ 12 ∷ 11 ∷ 14 ∷ 2 ∷ 6 ∷ 5 ∷ 10 ∷ 4 ∷ 0 ∷ 15 ∷ 8 ∷ [])
    ∷ (9 ∷ 0 ∷ 5 ∷ 7 ∷ 2 ∷ 4 ∷ 10 ∷ 15 ∷ 14 ∷ 1 ∷ 11 ∷ 12 ∷ 6 ∷ 8 ∷ 3 ∷ 13 ∷ [])
    ∷ (2 ∷ 12 ∷ 6 ∷ 10 ∷ 0 ∷ 11 ∷ 8 ∷ 3 ∷ 4 ∷ 13 ∷ 7 ∷ 5 ∷ 15 ∷ 14 ∷ 1 ∷ 9 ∷ [])
    ∷ (12 ∷ 5 ∷ 1 ∷ 15 ∷ 14 ∷ 13 ∷ 4 ∷ 10 ∷ 0 ∷ 7 ∷ 6 ∷ 3 ∷ 9 ∷ 2 ∷ 8 ∷ 11 ∷ [])
    ∷ (13 ∷ 11 ∷ 7 ∷ 14 ∷ 12 ∷ 1 ∷ 3 ∷ 9 ∷ 5 ∷ 0 ∷ 15 ∷ 4 ∷ 8 ∷ 6 ∷ 2 ∷ 10 ∷ [])
    ∷ (6 ∷ 15 ∷ 14 ∷ 9 ∷ 11 ∷ 3 ∷ 0 ∷ 8 ∷ 12 ∷ 2 ∷ 13 ∷ 7 ∷ 1 ∷ 4 ∷ 10 ∷ 5 ∷ [])
    ∷ (10 ∷ 2 ∷ 8 ∷ 4 ∷ 7 ∷ 6 ∷ 1 ∷ 5 ∷ 15 ∷ 11 ∷ 9 ∷ 14 ∷ 3 ∷ 12 ∷ 13 ∷ 0 ∷ [])
    ∷ (0 ∷ 1 ∷ 2 ∷ 3 ∷ 4 ∷ 5 ∷ 6 ∷ 7 ∷ 8 ∷ 9 ∷ 10 ∷ 11 ∷ 12 ∷ 13 ∷ 14 ∷ 15 ∷ [])
    ∷ (14 ∷ 10 ∷ 4 ∷ 8 ∷ 9 ∷ 15 ∷ 13 ∷ 6 ∷ 1 ∷ 12 ∷ 0 ∷ 2 ∷ 11 ∷ 7 ∷ 5 ∷ 3 ∷ [])
    ∷ []

-- The fields `h`, `t` and `f` of `blake2b_state`, which alone the compression reads and writes.
pub record Chain : Type 0 where
  pub h : List ℕ
  pub t0 : ℕ
  pub t1 : ℕ
  pub f0 : ℕ
  pub f1 : ℕ

-- `blake2b_increment_counter`
unfoldable pub increment_counter : Chain → ℕ → Chain
increment_counter s inc =
    let t0 = u64 (s.t0 + inc) in
    record s { t0 = t0; t1 = u64 (s.t1 + (if ltb t0 inc then 1 else 0)) }

-- The macro `G`.
unfoldable pub mix_g : List ℕ → ℕ → ℕ → ℕ → ℕ → ℕ → ℕ → List ℕ → List ℕ
unfolding rotr64
mix_g m r i a b c d v =
    let word = λ (j : ℕ). get_or m (get_or (get_or blake2b_sigma r []) (2 * i + j) 0) 0 in
    let a1 = u64 (get_or v a 0 + get_or v b 0 + word 0) in
    let d1 = rotr64 (bit_xor (get_or v d 0) a1) 32 in
    let c1 = u64 (get_or v c 0 + d1) in
    let b1 = rotr64 (bit_xor (get_or v b 0) c1) 24 in
    let a2 = u64 (a1 + b1 + word 1) in
    let d2 = rotr64 (bit_xor d1 a2) 16 in
    let c2 = u64 (c1 + d2) in
    let b2 = rotr64 (bit_xor b1 c2) 63 in set (set (set (set v a a2) b b2) c c2) d d2

-- The macro `ROUND`.
unfoldable pub round : List ℕ → ℕ → List ℕ → List ℕ
unfolding mix_g
round m r v =
    let v0 = mix_g m r 0 0 4 8 12 v in
    let v1 = mix_g m r 1 1 5 9 13 v0 in
    let v2 = mix_g m r 2 2 6 10 14 v1 in
    let v3 = mix_g m r 3 3 7 11 15 v2 in
    let v4 = mix_g m r 4 0 5 10 15 v3 in
    let v5 = mix_g m r 5 1 6 11 12 v4 in let v6 = mix_g m r 6 2 7 8 13 v5 in mix_g m r 7 3 4 9 14 v6

-- `ROUND(r)`, `ROUND(r + 1)`, …
unfoldable pub rounds : List ℕ → ℕ → ℕ → List ℕ → List ℕ
unfolding round
rounds m zero r v = v
rounds m (suc n) r v = rounds m n (suc r) (round m r v)

-- `for (i …) m[i] = load64(block + i * 8)`
unfoldable pub load_words : ℕ → ℕ → List ℕ → List ℕ
unfolding load64
load_words zero i block = []
load_words (suc n) i block = load64 block (i * 8) ∷ load_words n (suc i) block

-- `for (i …) h[i] = h[i] ^ v[i] ^ v[i + 8]`
unfoldable pub fold_words : ℕ → ℕ → List ℕ → List ℕ → List ℕ
fold_words zero i h v = []
fold_words (suc n) i h v =
    bit_xor (bit_xor (get_or h i 0) (get_or v i 0)) (get_or v (i + 8) 0) ∷ fold_words n (suc i) h v

-- `blake2b_compress`, on the 128 bytes of a block.
unfoldable pub compress : Chain → List ℕ → Chain
unfolding load_words fold_words rounds
compress s block =
    let m = load_words 16 0 block in
    let iv = λ (i : ℕ). get_or blake2b_iv i 0 in
    let h = λ (i : ℕ). get_or s.h i 0 in
    let v =
      h 0
      ∷ h 1
      ∷ h 2
      ∷ h 3
      ∷ h 4
      ∷ h 5
      ∷ h 6
      ∷ h 7
      ∷ iv 0
      ∷ iv 1
      ∷ iv 2
      ∷ iv 3
      ∷ bit_xor (iv 4) s.t0
      ∷ bit_xor (iv 5) s.t1
      ∷ bit_xor (iv 6) s.f0
      ∷ bit_xor (iv 7) s.f1
      ∷ [] in
    record s { h = fold_words 8 0 s.h (rounds m 12 0 v) }
