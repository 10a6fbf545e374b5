-- ===== src/Blake2/Hash.antt =====
-- `blake2b` (blake2b-ref.c lines 273-300), with its initialisations and `blake2b_final`: the digest of
-- the padded key and the message.
use ligo.Prelude.{ℕ, suc, ◌≤◌, ◌<◌, ◌≡◌, refl, ◌∙◌, arith, List, [], ◌∷◌, ◌++◌}
use ligo.Prelude.{true, false, ltb, ◌==◌, if◌then◌else◌, length, take, replicate, length-replicate}
use ligo.Prelude.{Option, some, none}
use ligo.Prelude.Int.{pos}
use ligo.Blake2.Impl.{memcpy}
use ligo.Blake2.Compress.{blake2b_iv}
use ligo.Blake2.State.{
  State, xor_words, param_block, init_param, init, init_key, update, final, store_words, blake2b,
  bytes_of, is_lastblock,
}
use ligo.Blake2.Stream.Absorb.{absorb_stop}
use ligo.Blake2.Stream.Update.{update-Takes}
use ligo.Blake2.Stream.Rfc.{counted, digest, Started, update-Started, close-digest, not_lastblock}

-- The chaining value that the parameters give.
pub seed : ℕ → ℕ → List ℕ
seed outlen keylen = xor_words 0 blake2b_iv (param_block outlen keylen)

-- The bytes hashed before the message: the key, filled up with zeros to a block.
pub key_prefix : Option (List ℕ) → List ℕ
key_prefix key =
    if ltb 0 (length (bytes_of key)) then memcpy (replicate 128 0) 0 (bytes_of key) else []

init_param-Started :
    (outlen keylen : ℕ) → Started (seed outlen keylen) [] (init_param (param_block outlen keylen))
unfolding init_param seed
init_param-Started outlen keylen =
    let stop =
      absorb_stop (counted (xor_words 0 blake2b_iv (param_block outlen keylen)) 0 0) []
        (omega arith) in
    record {
      valid = record { size = length-replicate {A = ℕ} 128 0; within = omega arith };
      chain = rw stop refl;
      left = rw stop refl;
      not_last_node = refl;
    }

init_param-outlen :
    (outlen keylen : ℕ) → outlen ≤ 64 → (init_param (param_block outlen keylen)).outlen ≡ outlen
unfolding init_param param_block
init_param-outlen outlen keylen h = omega arith

final-digest :
    (h before out : List ℕ) (n : ℕ) (s : State)
    → Started h before s
    → s.outlen ≡ n
    → (final s (some out) n).out
      ≡ some (memcpy out 0 (take n (store_words (digest (suc (length before)) h 0 before))))
unfolding final
final-digest h before out n s st e =
    let fits : ltb n s.outlen ≡ false = ground arith in
    let still_open : is_lastblock s ≡ false = ground (arith, not_lastblock h before s st) in
    rw (fits, still_open, close-digest h before s st, e) refl

nonzero : (n : ℕ) → 0 < n → (n == 0) ≡ false
nonzero n h = ground arith

in_range : (n : ℕ) → n ≤ 64 → ltb 64 n ≡ false
in_range n h = ground arith

-- What `blake2b` starts from.
pub record Starts (outlen : ℕ) (key : Option (List ℕ)) (o : Option State) : Type 0 where
  pub state : State
  pub is : o ≡ some state
  pub started : Started (seed outlen (length (bytes_of key))) (key_prefix key) state
  pub same_outlen : state.outlen ≡ outlen

unkeyed-Starts : (outlen : ℕ) → 0 < outlen → outlen ≤ 64 → Starts outlen none (init outlen)
unfolding init key_prefix
unkeyed-Starts outlen p q = record {
  state = init_param (param_block outlen 0);
  is = ground arith;
  started = init_param-Started outlen 0;
  same_outlen = init_param-outlen outlen 0 q;
}

keyed-Starts :
    (outlen : ℕ) (key : List ℕ)
    → 0 < outlen
    → outlen ≤ 64
    → 0 < length key
    → length key ≤ 64
    → Starts outlen (some key) (init_key outlen (some key))
unfolding init_key key_prefix
keyed-Starts outlen key p q r k =
    let base = init_param-Started outlen (length key) in
    let block = memcpy (replicate 128 0) 0 key in
    let some_key : ltb 0 (length key) ≡ true = ground arith in
    record {
      state = update (init_param (param_block outlen (length key))) block;
      is =
          rw (nonzero outlen p, in_range outlen q, nonzero (length key) r, in_range (length key) k)
            refl;
      started = rw some_key (update-Started (seed outlen (length key)) [] block _ base);
      same_outlen =
          (update-Takes _ block base.valid).same_outlen ∙ init_param-outlen outlen (length key) q;
    }

-- The digest of a message under a key, of `outlen` bytes.
pub digest_of : ℕ → Option (List ℕ) → List ℕ → List ℕ
digest_of outlen key input =
    let message = key_prefix key ++ input in
    take outlen
      (store_words (digest (suc (length message)) (seed outlen (length (bytes_of key))) 0 message))

-- `blake2b_final` after the padded key and the message.
pub finished :
    (outlen : ℕ) (key : Option (List ℕ)) (input out : List ℕ) (s : State)
    → Started (seed outlen (length (bytes_of key))) (key_prefix key ++ input) s
    → s.outlen ≡ outlen
    → (final s (some out) outlen).out ≡ some (memcpy out 0 (digest_of outlen key input))
unfolding digest_of
finished outlen key input out s st e =
    final-digest (seed outlen (length (bytes_of key))) (key_prefix key ++ input) out outlen s st e

pub starts :
    (outlen : ℕ) (key : Option (List ℕ))
    → 0 < outlen
    → outlen ≤ 64
    → length (bytes_of key) ≤ 64
    → Starts outlen key (if ltb 0 (length (bytes_of key)) then init_key outlen key else init outlen)
starts outlen none p q k = unkeyed-Starts outlen p q
starts outlen (some []) p q k =
    let u = unkeyed-Starts outlen p q in
    record {
      state = u.state;
      is = u.is;
      started = unfold key_prefix in u.started;
      same_outlen = u.same_outlen;
    }
starts outlen (some (x ∷ key)) p q k =
    let given : ltb 0 (suc (length key)) ≡ true = ground arith in
    rw given (keyed-Starts outlen (x ∷ key) p q (omega arith) k)

-- For a digest length of 1 to 64 and a key of at most 64 bytes, `blake2b` returns 0 and writes
-- that many bytes of the digest of the padded key and the message, as it is computed block by
-- block with a 128-bit count of the bytes.
pub blake2b-digest :
    (outlen : ℕ) (key : Option (List ℕ)) (input out : List ℕ)
    → 0 < outlen
    → outlen ≤ 64
    → length (bytes_of key) ≤ 64
    → blake2b (some out) outlen input key
      ≡ (pos 0, some (memcpy out 0 (digest_of outlen key input)))
unfolding blake2b
blake2b-digest outlen key input out p q k =
    let st = starts outlen key p q k in
    rw
      (
        nonzero outlen p,
        in_range outlen q,
        in_range (length (bytes_of key)) k,
        st.is,
        finished outlen key input out (update st.state input)
            (update-Started _ (key_prefix key) input st.state st.started)
            ((update-Takes st.state input st.started.valid).same_outlen ∙ st.same_outlen),
      )
      refl
