-- ===== src/Blake2/Stream/Update.antt =====
-- `blake2b_update` (blake2b-ref.c lines 221-246) keeps what the buffer promises, and takes its input
-- in behind the bytes that the buffer holds.
use ligo.Prelude.{ℕ, ◌+◌, ◌-◌, ◌≤◌, ◌<◌, ◌≡◌, refl, ap, sym, ◌∙◌, arith, List, [], ◌∷◌, ◌++◌}
use ligo.Prelude.{inl, inr, Bool-cases, ltb, ◌==◌, length, take, drop}
use ligo.Prelude.{
  length-append, length-drop, length-take, take-append, drop-append, take_all, drop_all,
}
use mathlib.Core.List.{append-nil, append_assoc}
use ligo.Blake2.Impl.{memcpy}
use ligo.Blake2.Compress.{Chain}
use ligo.Blake2.State.{State, update_loop, update}
use ligo.Blake2.Stream.Absorb.{
  absorb_block, absorb, absorb_stop, absorb_step, absorb_fuel, absorb_left, absorb-append,
}

-- A block's worth of buffer, of which `buflen` bytes are in use.
pub record IsValid (s : State) : Type 0 where
  pub size : length s.buf ≡ 128
  pub within : s.buflen ≤ 128

-- The bytes in use; what stands behind them in the buffer is stale.
abbrev pub pending : State → List ℕ
pending s = take s.buflen s.buf

pub length-pending : (s : State) → IsValid s → length (pending s) ≡ s.buflen
length-pending s v = omega (arith, length-take s.buflen s.buf, v.size, v.within)

length-memcpy :
    (dst src : List ℕ) (at : ℕ)
    → at + length src ≤ length dst
    → length (memcpy dst at src) ≡ length dst
length-memcpy dst src at h = omega (
  arith,
  length-append (take at dst) (src ++ drop (at + length src) dst),
  length-append src (drop (at + length src) dst),
  length-take at dst,
  length-drop (at + length src) dst,
)

-- The bytes up to the end of a copy.
take-memcpy :
    (dst src : List ℕ) (at n : ℕ)
    → at ≤ length dst
    → n ≡ at + length src
    → take n (memcpy dst at src) ≡ take at dst ++ src
take-memcpy dst src at n h e =
    let d = drop (at + length src) dst in
    let start : length (take at dst) ≡ at = omega (arith, length-take at dst) in
    let there : n - length (take at dst) ≡ length src = omega (arith, start) in
    let none_behind : length src - length src ≡ 0 = omega arith in
    rw
      (
        take-append n (take at dst) (src ++ d),
        take_all n (take at dst) (omega (arith, start)),
        there,
        take-append (length src) src d,
        take_all (length src) src (omega arith),
        none_behind,
        append-nil src,
      )
      refl

-- The invariant, what is pending and what the chaining value is after a call.
pub record Takes (s : State) (input : List ℕ) (t : State) : Type 0 where
  pub valid : IsValid t
  pub chain : t.chain ≡ (absorb s.chain (pending s ++ input)).0
  pub left : pending t ≡ (absorb s.chain (pending s ++ input)).1
  pub same_outlen : t.outlen ≡ s.outlen
  pub same_last_node : t.last_node ≡ s.last_node

module _ (s : State) (input : List ℕ) (v : IsValid s) where
  total : length (pending s ++ input) ≡ s.buflen + length input
  total = omega (arith, length-append (pending s) input, length-pending s v)

  -- No input: nothing is done.
  Takes-nothing : length input ≡ 0 → Takes s input s
  Takes-nothing e =
      let stop = absorb_stop s.chain (pending s ++ input) (omega (arith, total, v.within)) in
      let empty : pending s ++ input ≡ pending s =
        ap (◌++◌ (pending s)) (nil_of input e) ∙ append-nil _ in
      record {
        valid = v;
        chain = rw stop refl;
        left = rw (stop, empty) refl;
        same_outlen = refl;
        same_last_node = refl;
      }
    where
      nil_of : (xs : List ℕ) → length xs ≡ 0 → xs ≡ []
      nil_of [] e = refl
      nil_of (x ∷ xs) e = absurd (omega arith)

  -- Input that fits the buffer is copied behind what it holds.
  Takes-copy :
      s.buflen + length input ≤ 128
      → Takes s input
          (record s { buf = memcpy s.buf s.buflen input; buflen = s.buflen + length input })
  Takes-copy fits =
      let stop = absorb_stop s.chain (pending s ++ input) (omega (arith, total)) in
      record {
        valid = record {
          size = length-memcpy s.buf input s.buflen (omega (arith, v.size)) ∙ v.size;
          within = fits;
        };
        chain = rw stop refl;
        left = rw stop (take-memcpy s.buf input s.buflen _ (omega (arith, v.size, v.within)) refl);
        same_outlen = refl;
        same_last_node = refl;
      }

  abbrev fill : ℕ
  fill = 128 - s.buflen

  abbrev filled : List ℕ
  filled = memcpy s.buf s.buflen (take fill input)

  abbrev out : Chain × List ℕ
  out = update_loop (length input) (absorb_block s.chain filled) (drop fill input)

  module _ (over : fill < length input) where
    -- The filled buffer is the first block.
    filled_lem : filled ≡ take 128 (pending s ++ input)
    filled_lem =
        let used = length-pending s v in
        let tail_done =
          drop_all (s.buflen + length (take fill input)) s.buf
            (omega (arith, v.size, v.within, length-take fill input)) in
        rw
          (
            tail_done,
            append-nil (take fill input),
            take-append 128 (pending s) input,
            take_all 128 (pending s) (omega (arith, used, v.within)),
            used,
          )
          refl

    rest_lem : drop fill input ≡ drop 128 (pending s ++ input)
    rest_lem =
        let used = length-pending s v in
        rw
          (
            drop-append 128 (pending s) input,
            drop_all 128 (pending s) (omega (arith, used, v.within)),
            used,
          )
          refl

    out_lem : out ≡ absorb s.chain (pending s ++ input)
    out_lem =
        absorb_fuel (length input) (absorb_block s.chain filled) (drop fill input)
          (omega (arith, length-drop fill input))
        ∙ rw (filled_lem, rest_lem)
            (sym (absorb_step s.chain (pending s ++ input) (omega (arith, total))))

    Takes-blocks :
        Takes s input
          (record s { chain = out.0; buf = memcpy filled 0 out.1; buflen = length out.1 })
    Takes-blocks =
        let full : length filled ≡ 128 =
          length-memcpy s.buf (take fill input) s.buflen
            (omega (arith, v.size, v.within, length-take fill input))
          ∙ v.size in
        let short : length out.1 ≤ 128 = rw out_lem (absorb_left s.chain (pending s ++ input)) in
        record {
          valid = record {
            size = length-memcpy filled out.1 0 (omega (arith, full, short)) ∙ full;
            within = short;
          };
          chain = ap (λ (o : Chain × List ℕ). o.0) out_lem;
          left =
              take-memcpy filled out.1 0 (length out.1) (omega arith) (omega arith)
              ∙ ap (λ (o : Chain × List ℕ). o.1) out_lem;
          same_outlen = refl;
          same_last_node = refl;
        }

-- On a valid state `blake2b_update` leaves a valid state whose chaining value and pending bytes
-- are what taking in the pending bytes and the input gives; nothing else changes.
pub update-Takes : (s : State) (input : List ℕ) → IsValid s → Takes s input (update s input)
unfolding update
update-Takes s input v = elim (Bool-cases (length input == 0)) [
  | inl none_given ↦ rw none_given (Takes-nothing s input v (ground arith))
  | inr given ↦ elim (Bool-cases (ltb (128 - s.buflen) (length input))) [
    | inl over ↦ rw (given, over) (Takes-blocks s input v (ground arith))
    | inr fits ↦ rw (given, fits) (Takes-copy s input v (ground (arith, v.within)))
  ]
]

-- What a state promises to later calls: all but the stale bytes of its buffer.
pub record SameView (s t : State) : Type 0 where
  pub chain : s.chain ≡ t.chain
  pub left : pending s ≡ pending t
  pub buflen : s.buflen ≡ t.buflen
  pub outlen : s.outlen ≡ t.outlen
  pub last_node : s.last_node ≡ t.last_node

buflen_of_pending :
    (s t : State) → IsValid s → IsValid t → pending s ≡ pending t → s.buflen ≡ t.buflen
buflen_of_pending s t v w e =
    sym (length-pending s v) ∙ (ap (λ (xs : List ℕ). length xs) e ∙ length-pending t w)

-- From a valid state, two calls of `blake2b_update` leave what one call on the concatenated input
-- leaves, up to the stale bytes of the buffer.
pub update-update :
    (s : State) (a b : List ℕ) → IsValid s → SameView (update (update s a) b) (update s (a ++ b))
update-update s a b v =
    let first = update-Takes s a v in
    let second = update-Takes (update s a) b first.valid in
    let once = update-Takes s (a ++ b) v in
    let joined : absorb (update s a).chain (pending (update s a) ++ b)
        ≡ absorb s.chain (pending s ++ (a ++ b)) =
      rw (first.chain, first.left, ← append_assoc (pending s) a b)
        (sym (absorb-append s.chain (pending s ++ a) b)) in
    let same_left = second.left ∙ (ap (λ (o : Chain × List ℕ). o.1) joined ∙ sym once.left) in
    record {
      chain = second.chain ∙ (ap (λ (o : Chain × List ℕ). o.0) joined ∙ sym once.chain);
      left = same_left;
      buflen = buflen_of_pending _ _ second.valid once.valid same_left;
      outlen = second.same_outlen ∙ (first.same_outlen ∙ sym once.same_outlen);
      last_node = second.same_last_node ∙ (first.same_last_node ∙ sym once.same_last_node);
    }
