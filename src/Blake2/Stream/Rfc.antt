-- ===== src/Blake2/Stream/Rfc.antt =====
-- The digest without a buffer: the blocks of one message, each with the count of the bytes up to
-- its end. `blake2b_final` and the chaining of `blake2b_update` compute it.
use ligo.Prelude.{ℕ, zero, suc, ◌+◌, ◌-◌, ◌/◌, ◌≤◌, ◌<◌, ◌≡◌, refl, ap, sym, ◌∙◌, arith, List, ◌++◌}
use ligo.Prelude.{true, false, ltb, if◌then◌else◌, length, take, drop, replicate}
use ligo.Prelude.{length-drop}
use native.Mathlib.Decide.{dec_lt}
use ligo.Blake2.Impl.{u64}
use ligo.Blake2.Compress.{Chain, compress, increment_counter}
use ligo.Blake2.State.{State, all_ones, set_lastblock, close, update}
use ligo.Blake2.Stream.Absorb.{absorb_block, absorb, absorb_stop, absorb_step, absorb-append}
use ligo.Blake2.Stream.Update.{IsValid, pending, length-pending, update-Takes}

-- The chaining value `h` after `t` bytes, with the finalisation flag `f`.
abbrev pub counted : List ℕ → ℕ → ℕ → Chain
counted h t f = record { h = h; t0 = u64 t; t1 = u64 (t / 0x1_0000_0000_0000_0000); f0 = f; f1 = 0 }

-- The compression of the block that ends at byte `t`.
pub block_hash : List ℕ → ℕ → ℕ → List ℕ → List ℕ
block_hash h t f block = (compress (counted h t f) block).h

-- The digest of a message that starts at byte `t`, with fuel for its blocks.
pub digest : ℕ → List ℕ → ℕ → List ℕ → List ℕ
digest zero h t message = h
digest (suc fuel) h t message =
    let rest =
      digest fuel (block_hash h (t + 128) 0 (take 128 message)) (t + 128) (drop 128 message) in
    if ltb 128 (length message)
    then rest
    else block_hash h (t + length message) all_ones (message ++ replicate (128 - length message) 0)

-- The two counter words are a 128-bit counter.
pub increment_counter-counted :
    (h : List ℕ) (t f inc : ℕ)
    → inc < 0x1_0000_0000_0000_0000
    → increment_counter (counted h t f) inc ≡ counted h (t + inc) f
unfolding increment_counter
increment_counter-counted h t f inc p = ground arith

compress_keeps :
    (c : Chain) (block : List ℕ) → compress c block ≡ record c { h = (compress c block).h }
unfolding compress
compress_keeps c block = refl

absorb_block-counted :
    (h : List ℕ) (t : ℕ) (block : List ℕ)
    → absorb_block (counted h t 0) block ≡ counted (block_hash h (t + 128) 0 block) (t + 128) 0
unfolding block_hash
absorb_block-counted h t block =
    rw (increment_counter-counted h t 0 128 (omega arith))
      (compress_keeps (counted h (t + 128) 0) block)

-- The last compression over the bytes left.
abbrev finish : Chain × List ℕ → List ℕ
finish o =
    (compress (set_lastblock 0 (increment_counter o.0 (length o.1)))
      (o.1 ++ replicate (128 - length o.1) 0)).h

finish_short :
    (h : List ℕ) (t : ℕ) (xs : List ℕ)
    → length xs ≤ 128
    → finish (counted h t 0, xs)
      ≡ block_hash h (t + length xs) all_ones (xs ++ replicate (128 - length xs) 0)
unfolding block_hash set_lastblock
finish_short h t xs p =
    ap (λ (c : Chain). (compress (set_lastblock 0 c) (xs ++ replicate (128 - length xs) 0)).h)
      (increment_counter-counted h t 0 (length xs) (omega arith))

finish-absorb :
    (n : ℕ) (h : List ℕ) (t : ℕ) (xs : List ℕ)
    → length xs ≤ n
    → finish (absorb (counted h t 0) xs) ≡ digest (suc n) h t xs
unfolding digest
finish-absorb zero h t xs p =
    let e : ltb 128 (length xs) ≡ false = ground arith in
    rw (absorb_stop (counted h t 0) xs (omega arith), e) (finish_short h t xs (omega arith))
finish-absorb (suc n) h t xs p = elim (dec_lt 128 (length xs)) [
  | no short ↦
      let e : ltb 128 (length xs) ≡ false = ground arith in
      rw (absorb_stop (counted h t 0) xs (omega arith), e) (finish_short h t xs (omega arith))
  | yes long ↦
      let e : ltb 128 (length xs) ≡ true = ground arith in
      rw (absorb_step (counted h t 0) xs long, absorb_block-counted h t (take 128 xs), e)
        (finish-absorb n (block_hash h (t + 128) 0 (take 128 xs)) (t + 128) (drop 128 xs)
          (omega (arith, length-drop 128 xs)))
]

-- The finalisation flag is set by the last block alone.
absorb_keeps_flag : (n : ℕ) (c : Chain) (xs : List ℕ) → length xs ≤ n → (absorb c xs).0.f0 ≡ c.f0
absorb_keeps_flag zero c xs p = rw (absorb_stop c xs (omega arith)) refl
absorb_keeps_flag (suc n) c xs p = elim (dec_lt 128 (length xs)) [
  | no short ↦ rw (absorb_stop c xs (omega arith)) refl
  | yes long ↦ rw (absorb_step c xs long) (
      absorb_keeps_flag n (absorb_block c (take 128 xs)) (drop 128 xs)
        (omega (arith, length-drop 128 xs))
      ∙ block_keeps_flag c (take 128 xs))
]
  where
    block_keeps_flag : (c : Chain) (block : List ℕ) → (absorb_block c block).f0 ≡ c.f0
    block_keeps_flag c block = unfold compress increment_counter in refl

-- `s` is what taking in `before` from the start makes of a sequential hash.
pub record Started (h before : List ℕ) (s : State) : Type 0 where
  pub valid : IsValid s
  pub chain : s.chain ≡ (absorb (counted h 0 0) before).0
  pub left : pending s ≡ (absorb (counted h 0 0) before).1
  pub not_last_node : s.last_node ≡ 0

pub update-Started :
    (h before input : List ℕ) (s : State)
    → Started h before s
    → Started h (before ++ input) (update s input)
update-Started h before input s st =
    let t = update-Takes s input st.valid in
    let joined : absorb s.chain (pending s ++ input) ≡ absorb (counted h 0 0) (before ++ input) =
      rw (st.chain, st.left) (sym (absorb-append (counted h 0 0) before input)) in
    record {
      valid = t.valid;
      chain = t.chain ∙ ap (λ (o : Chain × List ℕ). o.0) joined;
      left = t.left ∙ ap (λ (o : Chain × List ℕ). o.1) joined;
      not_last_node = t.same_last_node ∙ st.not_last_node;
    }

closing : Chain → List ℕ → ℕ → ℕ → List ℕ
closing c rest buflen last_node =
    (compress (set_lastblock last_node (increment_counter c buflen))
      (rest ++ replicate (128 - buflen) 0)).h

pub close-digest :
    (h before : List ℕ) (s : State)
    → Started h before s
    → (close s).h ≡ digest (suc (length before)) h 0 before
close-digest h before s st =
    closes
    ∙ (ap (λ (k : ℕ). closing s.chain (pending s) k s.last_node) (sym (length-pending s st.valid))
        ∙ rw (st.not_last_node, st.left, st.chain)
            (unfold closing in finish-absorb (length before) h 0 before (omega arith)))
  where
    closes : (close s).h ≡ closing s.chain (pending s) s.buflen s.last_node
    closes = unfold close closing in refl

pub not_lastblock : (h before : List ℕ) (s : State) → Started h before s → s.chain.f0 ≡ 0
not_lastblock h before s st =
    ap (λ (c : Chain). c.f0) st.chain
    ∙ absorb_keeps_flag (length before) (counted h 0 0) before (omega arith)
