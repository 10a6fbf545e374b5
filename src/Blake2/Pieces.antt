-- ===== src/Blake2/Pieces.antt =====
-- The streaming interface (blake2b-ref.c lines 98-151 and 221-270) against the one-shot `blake2b`: a
-- message in pieces, and what happens to a state that is finished.
use ligo.Prelude.{
  ℕ, ◌≤◌, ◌<◌, ◌≡◌, refl, ◌∙◌, arith, List, [], ◌∷◌, ◌++◌, true, false, inl, inr, Bool-cases, ltb,
  if◌then◌else◌, length, Option, some,
}
use ligo.Prelude.Int.{pos, negsuc}
use mathlib.Core.List.{append-nil, append_assoc}
use ligo.Blake2.Compress.{compress}
use ligo.Blake2.State.{
  State, init, init_key, update, final, close, set_lastblock, blake2b, bytes_of, is_lastblock,
}
use ligo.Blake2.Stream.Update.{update-Takes}
use ligo.Blake2.Stream.Rfc.{Started, update-Started, not_lastblock}
use ligo.Blake2.Hash.{key_prefix, finished, starts, blake2b-digest}

-- `blake2b_init`, or `blake2b_init_key` with a key.
abbrev pub initialised : ℕ → Option (List ℕ) → Option State
initialised outlen key = if ltb 0 (length (bytes_of key)) then init_key outlen key else init outlen

-- A call of `blake2b_update` for each piece.
abbrev pub update_all : State → List (List ℕ) → State
update_all s [] = s
update_all s (piece ∷ pieces) = update_all (update s piece) pieces

abbrev pub joined : List (List ℕ) → List ℕ
joined [] = []
joined (piece ∷ pieces) = piece ++ joined pieces

update_all-Started :
    (h before : List ℕ) (pieces : List (List ℕ)) (s : State)
    → Started h before s
    → Started h (before ++ joined pieces) (update_all s pieces)
      × ((update_all s pieces).outlen ≡ s.outlen)
update_all-Started h before [] s st = (rw (append-nil before) st, refl)
update_all-Started h before (piece ∷ pieces) s st =
    let t =
      update_all-Started h (before ++ piece) pieces (update s piece)
        (update-Started h before piece s st) in
    (
      rw (← append_assoc before piece (joined pieces)) t.0,
      t.1 ∙ (update-Takes s piece st.valid).same_outlen,
    )

-- `blake2b_final` on a state that has hashed its last block.
final-closed :
    (s : State) (out : List ℕ) (n : ℕ)
    → is_lastblock s ≡ true
    → final s (some out) n ≡ record { status = negsuc 0; state = s; out = some out }
unfolding final
final-closed s out n closed = elim (Bool-cases (ltb n s.outlen)) [
  | inl short ↦ rw short refl
  | inr fits ↦ rw (fits, closed) refl
]

-- `blake2b_final` on a state that has not.
final-closes :
    (h before out : List ℕ) (n : ℕ) (s : State)
    → Started h before s
    → s.outlen ≡ n
    → ((final s (some out) n).status ≡ pos 0) × (is_lastblock ((final s (some out) n).state) ≡ true)
unfolding final close compress set_lastblock
final-closes h before out n s st e =
    let fits : ltb n s.outlen ≡ false = ground arith in
    let still_open : is_lastblock s ≡ false = ground (arith, not_lastblock h before s st) in
    rw (fits, still_open) (refl, refl)

-- What the calls on a message in pieces give: `blake2b_final` returns 0 and writes what `blake2b`
-- does for the whole message, and then every other call of it returns -1 and changes nothing.
pub record IsOneShot (outlen : ℕ) (key : Option (List ℕ)) (pieces : List (List ℕ)) (out : List ℕ)
    (s : State) : Type 0 where
  pub initial : initialised outlen key ≡ some s
  pub status : (final (update_all s pieces) (some out) outlen).status ≡ pos 0
  pub same :
      blake2b (some out) outlen (joined pieces) key
      ≡ (pos 0, (final (update_all s pieces) (some out) outlen).out)
  pub once :
      (again : List ℕ) (n : ℕ)
      → final ((final (update_all s pieces) (some out) outlen).state) (some again) n ≡ record {
        status = negsuc 0;
        state = (final (update_all s pieces) (some out) outlen).state;
        out = some again;
      }

-- For a digest length of 1 to 64 and a key of at most 64 bytes, the initialisation returns a state,
-- and after `blake2b_update` with any pieces of a message in turn, empty ones too, `blake2b_final`
-- returns 0 and writes what `blake2b` writes for the whole message; every further `blake2b_final`
-- on that state, into any buffer, returns -1 and leaves state and buffer as they are.
pub final-blake2b :
    (outlen : ℕ) (key : Option (List ℕ)) (pieces : List (List ℕ)) (out : List ℕ)
    → 0 < outlen
    → outlen ≤ 64
    → length (bytes_of key) ≤ 64
    → (s : State) × IsOneShot outlen key pieces out s
final-blake2b outlen key pieces out p q k =
    let st = starts outlen key p q k in
    let (all, kept) = update_all-Started _ (key_prefix key) pieces st.state st.started in
    let size = kept ∙ st.same_outlen in
    let (status, closed) = final-closes _ _ out outlen (update_all st.state pieces) all size in
    let written = finished outlen key (joined pieces) out (update_all st.state pieces) all size in
    (
      st.state,
      record {
        initial = st.is;
        status = status;
        same = rw written (blake2b-digest outlen key (joined pieces) out p q k);
        once = λ again n. final-closed _ again n closed;
      },
    )
