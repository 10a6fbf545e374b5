-- ===== src/Uecc/Ecdsa/Deterministic.antt =====
-- ocaml-uecc/src/uECC.c, lines 1317-1439: signatures whose number `k` is drawn from an HMAC. The
-- hash functions of `uECC_HashContext` are a parameter; `tmp` is split into its parts K, V and pad.
use ligo.Prelude.{ℕ, zero, suc, ◌-◌, ◌*◌, bit_xor, List, [], ◌∷◌, ◌++◌, map, Option}
use ligo.Prelude.{ltb, leb, if◌then◌else◌, take, replicate}
use ligo.Uecc.Curve.{CurveData, Curve, bits_to_words}
use ligo.Uecc.Keys.{max_tries, mask_top}
use ligo.Uecc.Run.{Run, or_else, refuse, Rng, words_of}
use ligo.Uecc.Ecdsa.{sign_with_k}

-- `uECC_HashContext`, with the state `H` of the hash.
pub record HashContext (H : Type 0) : Type 0 where
  pub init_hash : H → H
  pub update_hash : List ℕ → H → H
  pub finish_hash : H → List ℕ × H
  pub block_size : ℕ
  pub result_size : ℕ

-- K, V and the state of the hash.
pub record Drbg (H : Type 0) : Type 0 where
  pub k : List ℕ
  pub v : List ℕ
  pub hash : H

module _ {H : Type 0} (ctx : HashContext H) where
  open ctx use {init_hash, update_hash, finish_hash, block_size, result_size}

  -- The key with every byte changed, filled up to a block.
  pub hmac_pad : List ℕ → ℕ → List ℕ
  hmac_pad k byte =
      map (λ (x : ℕ). bit_xor x byte) (take result_size k)
      ++ replicate (block_size - result_size) byte

  -- `HMAC_init`
  pub hmac_init : List ℕ → H → H
  hmac_init k hash = update_hash (hmac_pad k 0x36) (init_hash hash)

  -- `HMAC_update`
  pub hmac_update : List ℕ → H → H
  hmac_update message hash = update_hash message hash

  -- `HMAC_finish`
  pub hmac_finish : List ℕ → H → List ℕ × H
  hmac_finish k hash =
      let (result, hash') = finish_hash hash in
      finish_hash (update_hash result (update_hash (hmac_pad k 0x5c) (init_hash hash')))

  -- `update_V`
  pub update_v : Drbg H → Drbg H
  update_v d =
      let (v, hash) = hmac_finish d.k (hmac_update d.v (hmac_init d.k d.hash)) in
      record d { v = v; hash = hash }

  -- K = HMAC_K(V || byte || messages)
  pub update_k : ℕ → List (List ℕ) → Drbg H → Drbg H
  update_k byte messages d =
      let started = hmac_update (d.v ++ byte ∷ []) (hmac_init d.k d.hash) in
      let (k, hash) = hmac_finish d.k (absorb messages started) in record d { k = k; hash = hash }
    where
      absorb : List (List ℕ) → H → H
      absorb [] hash = hash
      absorb (m ∷ rest) hash = absorb rest (hmac_update m hash)

  -- The state before the first try.
  pub drbg_start : List ℕ → List ℕ → H → Drbg H
  drbg_start x message hash =
      let zeros : Drbg H = record {
        k = replicate result_size 0;
        v = replicate result_size 1;
        hash = hash;
      } in
      let first = update_v (update_k 0 (x ∷ message ∷ []) zeros) in
      update_v (update_k 1 (x ∷ message ∷ []) first)

  -- The bytes of T, `needed` of them; each round brings `result_size`, so `needed` rounds are
  -- enough where that is not 0.
  pub fill : ℕ → ℕ → Drbg H → List ℕ × Drbg H
  fill zero needed d = ([], d)
  fill (suc fuel) needed d =
      let next = update_v d in
      let (rest, last) = fill fuel (needed - result_size) next in
      if leb needed result_size
      then (take needed next.v, next)
      else (take result_size next.v ++ rest, last)

  -- T, cut to the bits of the order.
  pub candidate : List ℕ → CurveData → List ℕ
  candidate bytes c =
      let num_n_words = bits_to_words c.num_n_bits in
      let t = words_of num_n_words bytes in
      if ltb c.num_n_bits (num_n_words * 64) then mask_top t num_n_words c.num_n_bits else t

  module _ {S : Type 0} where
    pub deterministic_loop :
        ℕ → Option (Rng S) → List ℕ → List ℕ → ℕ → Drbg H → Curve → Run S (List ℕ)
    deterministic_loop zero rng private_key message_hash hash_size d c = refuse
    deterministic_loop (suc tries) rng private_key message_hash hash_size d c =
        let needed = bits_to_words c.num_n_bits * 8 in
        let (bytes, filled) = fill needed needed d in
        let next = update_v (update_k 0 [] filled) in
        or_else (sign_with_k rng private_key message_hash hash_size (candidate bytes c.info) c)
          (deterministic_loop tries rng private_key message_hash hash_size next c)

    -- `uECC_sign_deterministic`
    pub sign_deterministic : Option (Rng S) → List ℕ → List ℕ → ℕ → H → Curve → Run S (List ℕ)
    sign_deterministic rng private_key message_hash hash_size hash c =
        deterministic_loop max_tries rng private_key message_hash hash_size
          (drbg_start (take c.num_bytes private_key) (take hash_size message_hash) hash) c
