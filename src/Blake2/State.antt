-- ===== src/Blake2/State.antt =====
-- ocaml-blake2/src/blake2b-ref.c, lines 48-151 and 221-300: the streaming interface of BLAKE2b.
-- Buffers are lists of bytes, and their lengths are those of the lists. A null pointer is `none`.
use ligo.Prelude.{
  ℕ, zero, suc, ◌+◌, ◌-◌, ◌*◌, bit_xor, Bool, not, ◌||◌, List, [], ◌∷◌, ◌++◌, Option, none, some,
}
use ligo.Prelude.{ltb, ◌==◌, if◌then◌else◌, length, get_or, take, drop, replicate}
use ligo.Prelude.Int.{ℤ, pos, negsuc}
use ligo.Blake2.Impl.{u8, load64, store32, store64, memcpy}
use ligo.Blake2.Compress.{Chain, blake2b_iv, increment_counter, compress}

-- `blake2b_state`
pub record State : Type 0 where
  pub chain : Chain
  pub buf : List ℕ
  pub buflen : ℕ
  pub outlen : ℕ
  pub last_node : ℕ

-- (uint64_t)-1
abbrev pub all_ones : ℕ
all_ones = 0xffff_ffff_ffff_ffff

-- `blake2b_is_lastblock`
abbrev pub is_lastblock : State → Bool
is_lastblock s = not (s.chain.f0 == 0)

-- `blake2b_set_lastblock`, with `blake2b_set_lastnode`.
unfoldable pub set_lastblock : ℕ → Chain → Chain
set_lastblock last_node c = record c {
  f0 = all_ones;
  f1 = if last_node == 0 then c.f1 else all_ones;
}

-- `blake2b_init0`
abbrev pub init0 : State
init0 = record {
  chain = record { h = blake2b_iv; t0 = 0; t1 = 0; f0 = 0; f1 = 0 };
  buf = replicate 128 0;
  buflen = 0;
  outlen = 0;
  last_node = 0;
}

-- `for (i …) h[i] ^= load64(p + 8 * i)`
unfoldable pub xor_words : ℕ → List ℕ → List ℕ → List ℕ
unfolding load64
xor_words i [] p = []
xor_words i (h ∷ hs) p = bit_xor h (load64 p (8 * i)) ∷ xor_words (suc i) hs p

-- `blake2b_init_param`, on the bytes of the packed parameter block; it returns 0.
unfoldable pub init_param : List ℕ → State
unfolding xor_words
init_param p = record init0 {
  chain = record { h = xor_words 0 blake2b_iv p; t0 = 0; t1 = 0; f0 = 0; f1 = 0 };
  outlen = get_or p 0 0;
}

-- The bytes of the `blake2b_param` that both initialisations fill in.
unfoldable pub param_block : ℕ → ℕ → List ℕ
unfolding store32
param_block outlen keylen =
    u8 outlen ∷ u8 keylen ∷ 1 ∷ 1 ∷ store32 0
    ++ (store32 0 ++ (store32 0 ++ 0 ∷ 0 ∷ replicate 14 0 ++ (replicate 16 0 ++ replicate 16 0)))

-- `blake2b_init`; `none` is -1.
unfoldable pub init : ℕ → Option State
unfolding param_block init_param
init outlen =
    if outlen == 0 || ltb 64 outlen then none else some (init_param (param_block outlen 0))

-- `while (inlen > BLAKE2B_BLOCKBYTES)`, on fuel: the chaining value and the input left.
unfoldable pub update_loop : ℕ → Chain → List ℕ → Chain × List ℕ
update_loop zero c input = (c, input)
update_loop (suc fuel) c input =
    let rest =
      update_loop fuel (compress (increment_counter c 128) (take 128 input)) (drop 128 input) in
    if ltb 128 (length input) then rest else (c, input)

-- `blake2b_update`; it returns 0.
unfoldable pub update : State → List ℕ → State
unfolding update_loop
update s input =
    let left = s.buflen in
    let fill = 128 - left in
    let filled = memcpy s.buf left (take fill input) in
    let out =
      update_loop (length input) (compress (increment_counter s.chain 128) filled)
        (drop fill input) in
    if length input == 0
    then s
    else if ltb fill (length input)
    then record s { chain = out.0; buf = memcpy filled 0 out.1; buflen = length out.1 }
    else record s { buf = memcpy s.buf left input; buflen = left + length input }

-- `blake2b_init_key`; `none` is -1.
unfoldable pub init_key : ℕ → Option (List ℕ) → Option State
unfolding param_block init_param update
init_key outlen none = none
init_key outlen (some key) =
    if outlen == 0 || ltb 64 outlen
    then none
    else if length key == 0 || ltb 64 (length key)
    then none
    else some
        (update (init_param (param_block outlen (length key))) (memcpy (replicate 128 0) 0 key))

-- What a call returns: its status, the state after it and the caller's buffer.
pub record Final : Type 0 where
  pub status : ℤ
  pub state : State
  pub out : Option (List ℕ)

unfoldable pub store_words : List ℕ → List ℕ
unfolding store64
store_words [] = []
store_words (w ∷ ws) = store64 w ++ store_words ws

-- The chaining value after the last block: counter, flag, padding and compression.
unfoldable pub close : State → Chain
close s =
    compress (set_lastblock s.last_node (increment_counter s.chain s.buflen))
      (take s.buflen s.buf ++ replicate (128 - s.buflen) 0)

-- `blake2b_final`: `memcpy(out, buffer, S->outlen)` with the full hash in `buffer`.
unfoldable pub final : State → Option (List ℕ) → ℕ → Final
final s none outlen = record { status = negsuc 0; state = s; out = none }
final s (some out) outlen =
    if ltb outlen s.outlen
    then record { status = negsuc 0; state = s; out = some out }
    else if is_lastblock s
    then record { status = negsuc 0; state = s; out = some out }
    else let last = close s in
      let padded = take s.buflen s.buf ++ replicate (128 - s.buflen) 0 in
      record {
        status = pos 0;
        state = record s { chain = last; buf = padded };
        out = some (memcpy out 0 (take s.outlen (store_words last.h)));
      }

-- The bytes behind a pointer that may be null with length 0.
abbrev pub bytes_of : Option (List ℕ) → List ℕ
bytes_of none = []
bytes_of (some xs) = xs

-- `blake2b`, with `in` and `key` as buffers; the null checks on them concern lengths that a null
-- buffer does not have here.
unfoldable pub blake2b : Option (List ℕ) → ℕ → List ℕ → Option (List ℕ) → ℤ × Option (List ℕ)
blake2b none outlen input key = (negsuc 0, none)
blake2b (some out) outlen input key =
    let keylen = length (bytes_of key) in
    let start = if ltb 0 keylen then init_key outlen key else init outlen in
    if outlen == 0 || ltb 64 outlen
    then (negsuc 0, some out)
    else if ltb 64 keylen
    then (negsuc 0, some out)
    else elim start [
      | none ↦ (negsuc 0, some out)
      | some s ↦ (pos 0, (final (update s input) (some out) outlen).out)
    ]
