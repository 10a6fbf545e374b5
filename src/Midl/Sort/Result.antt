-- ===== src/Midl/Sort/Result.antt =====
-- `mdb_midl_sort` (midl.c lines 220-279) ends, and leaves the IDs in descending order.
use ligo.Prelude.{
  ℕ, zero, suc, ◌+◌, ◌*◌, ◌≤◌, ◌<◌, ◌≡◌, inl, refl, sym, arith, List, [], ◌∷◌, some, none, true,
  false, ◌%◌, ltb, if◌then◌else◌, get_or, length,
}
use mathlib.Core.Path.{subst}
use native.Mathlib.Nat.{pow-zero}
use ligo.Midl.Merge.Order.{IsDescending, tally}
use ligo.Midl.Sort.{
  Part, Next, sorted, more, overflowed, pop_part, insertion_loop, sort_round, sort_loop, stack_room,
  midl_sort,
}
use ligo.Midl.Sort.Rearrange.{Rearranges, Rearranges-refl, Rearranges-trans}
use ligo.Midl.Sort.Parts.{IsBetween, weight, part_lem, AreFitting}
use ligo.Midl.Sort.Rounds.{IsNext, round_lem}

-- The list that the sort of `ids` gives: the same IDs in descending order.
pub record IsSorted (ids out : List ℕ) : Type 0 where
  pub size : length out ≡ length ids
  pub counted : get_or out 0 0 ≡ get_or ids 0 0
  pub ordered : IsDescending 0 (get_or ids 0 0) out
  pub same : (v : ℕ) → tally v 0 (get_or ids 0 0) out ≡ tally v 0 (get_or ids 0 0) ids

sort_loop-sorted :
    (k total : ℕ) (s : Part) (stack : List Part) (ids : List ℕ)
    → weight (s ∷ stack) < k
    → total ≤ 0x4000_0000
    → IsBetween total (s ∷ stack) ids
    → AreFitting total (s ∷ stack)
    → length stack ≤ 31
    → (out : List ℕ) × (sort_loop k s stack ids ≡ some out)
      × IsDescending 0 total out
      × Rearranges 0 total ids out
unfolding sort_loop
sort_loop-sorted zero total s stack ids fuel small h fit shallow = absurd (omega arith)
sort_loop-sorted (suc k) total s stack ids fuel small h fit shallow =
    let (a, n, some_ids, e) = part_lem total s h.apart.0 in
    let round : IsNext total (weight (s ∷ stack)) ids (sort_round s stack ids) =
      subst (λ (t : Part). IsNext total (weight (t ∷ stack)) ids (sort_round t stack ids)) (sym e)
        (round_lem total a n stack ids some_ids
          (subst (λ (t : Part). IsBetween total (t ∷ stack) ids) e h)
          (subst (λ (t : Part). AreFitting total (t ∷ stack)) e fit) shallow small) in
    go (sort_round s stack ids) round (λ s' stack' ids' fuel' h' fit' shallow'.
      sort_loop-sorted k total s' stack' ids' fuel' small h' fit' shallow')
  where
    go :
        (next : Next)
        → IsNext total (weight (s ∷ stack)) ids next
        → ((s' : Part) (stack' : List Part) (ids' : List ℕ)
            → weight (s' ∷ stack') < k
            → IsBetween total (s' ∷ stack') ids'
            → AreFitting total (s' ∷ stack')
            → length stack' ≤ 31
            → (out : List ℕ) × (sort_loop k s' stack' ids' ≡ some out)
              × IsDescending 0 total out
              × Rearranges 0 total ids' out)
        → (out : List ℕ) × (elim next [
          | sorted ids' ↦ some ids'
          | more s' stack' ids' ↦
              if ltb stack_room (length stack') then none else sort_loop k s' stack' ids'
          | overflowed ↦ none
        ]
            ≡ some out)
          × IsDescending 0 total out
          × Rearranges 0 total ids out
    go overflowed impossible rest = absurd (omega (arith, impossible))
    go (sorted ids') (ordered, moved) rest = (ids', refl, ordered, moved)
    go (more s' stack' ids') (between, moved, less, fits, shallow') rest =
        let (out, returns, ordered, later) =
          rest s' stack' ids' (omega (arith, less, fuel)) between fits shallow' in
        let room : ltb stack_room (length stack') ≡ false = ground (arith, shallow') in
        (out, rw room returns, ordered, Rearranges-trans moved later)

-- For a list with room for the IDs that it counts, at most 2^30, `mdb_midl_sort` ends within the fuel
-- without running out of its stack or overflowing an `int`, and leaves a list of the same size and count, with the same
-- IDs, each as often as before, in descending order.
pub midl_sort-IsSorted :
    (ids : List ℕ)
    → get_or ids 0 0 < length ids
    → get_or ids 0 0 ≤ 0x4000_0000
    → (out : List ℕ) × (midl_sort ids ≡ some out) × IsSorted ids out
unfolding midl_sort
midl_sort-IsSorted ids room small =
    let converted : get_or ids 0 0 % 0x1_0000_0000 ≡ get_or ids 0 0 = omega (arith, small) in
    let nonnegative : ltb (get_or ids 0 0) 0x8000_0000 ≡ true = ground (arith, small) in
    rw (converted, nonnegative) (by_count (get_or ids 0 0) refl)
  where
    finish :
        (out : List ℕ)
        → IsDescending 0 (get_or ids 0 0) out
        → Rearranges 0 (get_or ids 0 0) ids out
        → IsSorted ids out
    finish out ordered moved = record {
      size = moved.size;
      counted = moved.outside 0 (inl (omega arith));
      ordered = ordered;
      same = moved.same;
    }

    by_count :
        (n : ℕ)
        → get_or ids 0 0 ≡ n
        → (out : List ℕ) × (sort_loop
              (2 * get_or ids 0 0 + 1)
              (record { l = 1; ir = get_or ids 0 0 })
              []
              ids
            ≡ some out)
          × IsSorted ids out
    by_count zero e = (
      ids,
      rw e (unfold sort_loop sort_round pop_part insertion_loop in refl),
      finish ids (λ p q l le u. absurd (omega (arith, e, l, le, u)))
          (Rearranges-refl 0 (get_or ids 0 0) ids),
    )
    by_count (suc n) e =
        let total = get_or ids 0 0 in
        let (out, returns, ordered, moved) =
          sort_loop-sorted (2 * total + 1) total (record { l = 1; ir = total }) [] ids
            (omega (arith, e)) small
            (record {
              room = room;
              apart = ((omega arith, omega (arith, e), omega arith), omega arith, omega arith);
              ordered = λ p q pos le high. inl (inl (omega arith, high));
            })
            (omega (arith, pow-zero 2), omega arith) (omega arith) in
        (out, returns, finish out ordered moved)
