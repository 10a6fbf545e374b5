-- ===== src/Midl/Merge/Loop.antt =====
-- The loops of `mdb_midl_xmerge` (midl.c lines 206-211): what holds after each step.
use ligo.Prelude.{
  ℕ, zero, suc, ◌+◌, ◌-◌, ◌≤◌, ◌<◌, ◌≡◌, ◌≢◌, refl, sym, ap, ◌∙◌, arith, List, ltb, get_or, set,
  length, length-set, get_or-set_ne, Bool-cases, inl, inr,
}
use ligo.Midl.Merge.{delimiter, Merging, shift_smaller, merge_loop}
use ligo.Midl.Merge.Order.{
  IsDescending, tally, matches, tally-last_first, set-IsDescending, set-bound, tally-set,
}

-- A state of the merge of `idl0` and `merge` with `i` IDs of `merge` left: the IDs above `k` are
-- in order, none is above those that are left, and every ID is there or left as often as `goal` says.
pub record IsMerging (idl0 merge : List ℕ) (total : ℕ) (goal : ℕ → ℕ) (i : ℕ) (s : Merging)
    : Type 0 where
  pub n : ℕ
  pub whole : s.k + n ≡ total
  pub place : s.k ≡ s.j + i
  pub room : total < length s.idl
  pub old : s.old_id ≡ get_or s.idl s.j 0
  pub start : get_or s.idl 0 0 ≡ delimiter
  pub kept : (p : ℕ) → 1 ≤ p → p ≤ s.j → get_or s.idl p 0 ≡ get_or idl0 p 0
  pub below_old : (q : ℕ) → s.k < q → q ≤ s.k + n → get_or s.idl q 0 ≤ s.old_id
  pub below_merge : (q : ℕ) → 1 ≤ i → s.k < q → q ≤ s.k + n → get_or s.idl q 0 ≤ get_or merge i 0
  pub ordered : IsDescending s.k n s.idl
  pub counted : (v : ℕ) → tally v s.k n s.idl + tally v 0 s.j idl0 + tally v 0 i merge ≡ goal v

module _ (idl0 merge : List ℕ) (i0 j0 : ℕ) (goal : ℕ → ℕ) (total : ℕ)
    (idl_ordered : IsDescending 0 j0 idl0) (merge_ordered : IsDescending 0 i0 merge)
    (merge_words : (p : ℕ) → get_or merge p 0 ≤ delimiter) where
  abbrev State : ℕ → Merging → Type 0
  State i s = IsMerging idl0 merge total goal i s

  -- An ID of `idl` is moved up.
  moved_lem :
      (i j k' : ℕ) (idl : List ℕ) (old_id : ℕ)
      → suc j ≤ j0
      → old_id < get_or merge (suc i) 0
      → State (suc i) (record { idl = idl; old_id = old_id; j = suc j; k = suc k' })
      → State (suc i) (record {
        idl = set idl (suc k') old_id;
        old_id = get_or (set idl (suc k') old_id) j 0;
        j = j;
        k = k';
      })
  moved_lem i j k' idl old_id within less h =
      let ne : suc k' ≢ j = omega (arith, h.place) in
      let same = get_or-set_ne idl (suc k') j old_id ne in
      let bound : old_id ≤ get_or idl j 0 = next_bound j refl in
      let up = set-bound k' h.n idl old_id (omega (arith, h.whole, h.room)) in
      record {
        n = suc h.n;
        whole = omega (arith, h.whole);
        place = omega (arith, h.place);
        room = omega (arith, h.room, length-set idl (suc k') old_id);
        old = refl;
        start = get_or-set_ne idl (suc k') 0 old_id (omega arith) ∙ h.start;
        kept = λ p l m.
            get_or-set_ne idl (suc k') p old_id (omega (arith, h.place)) ∙ h.kept p l (omega arith);
        below_old = λ q l m.
            rw same (up (get_or idl j 0) bound (λ p a b. omega (arith, h.below_old p a b)) q l m);
        below_merge = λ q l a b.
            up (get_or merge (suc i) 0) (omega arith) (λ p c d. h.below_merge p l c d) q a b;
        ordered =
            set-IsDescending k' h.n idl old_id (omega (arith, h.whole, h.room)) h.below_old
              h.ordered;
        counted = λ v. omega (
          arith,
          h.counted v,
          tally-set k' h.n idl old_id (omega (arith, h.whole, h.room)) v,
          tally-last_first v j idl0,
          ap (λ (x : ℕ). matches v x) (h.old ∙ h.kept (suc j) (omega arith) (omega arith)),
        );
      }
    where
      next_bound : (t : ℕ) → t ≡ j → old_id ≤ get_or idl t 0
      next_bound zero e = omega (arith, h.start, merge_words (suc i))
      next_bound (suc t) e =
          let here = h.kept (suc t) (omega arith) (omega (arith, e)) in
          let above = h.kept (suc j) (omega arith) (omega arith) in
          omega (
            arith,
            here,
            above,
            h.old,
            idl_ordered (suc t) (suc j) (omega arith) (omega (arith, e)) (omega arith),
          )

  -- The inner loop moves the IDs that are below the next one of `merge`.
  shift_smaller-IsMerging :
      (i j k : ℕ) (idl : List ℕ) (old_id : ℕ)
      → j ≤ j0
      → State (suc i) (record { idl = idl; old_id = old_id; j = j; k = k })
      → State (suc i) (shift_smaller j idl old_id k (get_or merge (suc i) 0))
        × (get_or merge (suc i) 0
            ≤ Merging.old_id (shift_smaller j idl old_id k (get_or merge (suc i) 0)))
        × (Merging.j (shift_smaller j idl old_id k (get_or merge (suc i) 0)) ≤ j0)
  unfolding shift_smaller
  shift_smaller-IsMerging i zero k idl old_id within h =
      (h, omega (arith, h.old, h.start, merge_words (suc i)), omega arith)
  shift_smaller-IsMerging i (suc j) zero idl old_id within h = absurd (omega (arith, h.place))
  shift_smaller-IsMerging i (suc j) (suc k') idl old_id within h =
      let less : suc k' - 1 ≡ k' = omega arith in
      elim (Bool-cases (ltb old_id (get_or merge (suc i) 0))) [
        | inl smaller ↦
            rw (smaller, less)
              (shift_smaller-IsMerging i j k' _ _ (omega arith)
                (moved_lem i j k' idl old_id within (ground (arith, smaller)) h))
        | inr larger ↦ rw larger (h, ground (arith, larger), within)
      ]

  -- Then the next one is put in front of them.
  put_lem :
      (i k' : ℕ) (t : Merging)
      → t.k ≡ suc k'
      → get_or merge (suc i) 0 ≤ t.old_id
      → suc i ≤ i0
      → State (suc i) t
      → State i (record {
        idl = set t.idl t.k (get_or merge (suc i) 0);
        old_id = t.old_id;
        j = t.j;
        k = t.k - 1;
      })
  put_lem i k' t e above within h =
      let less : suc k' - 1 ≡ k' = omega arith in
      let m = get_or merge (suc i) 0 in
      let room : suc k' < length t.idl = omega (arith, e, h.whole, h.room) in
      let below : (q : ℕ) → suc k' < q → q ≤ suc k' + h.n → get_or t.idl q 0 ≤ m =
        λ q a b. h.below_merge q (omega arith) (omega (arith, e)) (omega (arith, e)) in
      let up = set-bound k' h.n t.idl m room in
      rw (e, less)
        (record {
          n = suc h.n;
          whole = omega (arith, e, h.whole);
          place = omega (arith, e, h.place);
          room = omega (arith, h.room, length-set t.idl (suc k') m);
          old = h.old ∙ sym (get_or-set_ne t.idl (suc k') t.j m (omega (arith, e, h.place)));
          start = get_or-set_ne t.idl (suc k') 0 m (omega arith) ∙ h.start;
          kept =
              λ p l b. get_or-set_ne t.idl (suc k') p m (omega (arith, e, h.place)) ∙ h.kept p l b;
          below_old =
              up t.old_id above (λ q a b. h.below_old q (omega (arith, e)) (omega (arith, e)));
          below_merge = λ q some_left a b.
              let next = merge_ordered i (suc i) some_left (omega arith) (omega arith) in
              up (get_or merge i 0) next (λ p c d. omega (arith, next, below p c d)) q a b;
          ordered = set-IsDescending k' h.n t.idl m room below (rw (← e) h.ordered);
          counted = λ v. omega (
            arith,
            h.counted v,
            ap (λ (a : ℕ). tally v a h.n t.idl) e,
            tally-set k' h.n t.idl m room v,
            tally-last_first v i merge,
          );
        })

  pub merge_loop-IsMerging :
      (i : ℕ) (s : Merging)
      → i ≤ i0
      → s.j ≤ j0
      → State i s
      → State 0 (merge_loop i s merge) × (Merging.j (merge_loop i s merge) ≤ j0)
  unfolding merge_loop
  merge_loop-IsMerging zero s within_i within_j h = (h, within_j)
  merge_loop-IsMerging (suc i) s within_i within_j h =
      let (t, above, within) = shift_smaller-IsMerging i s.j s.k s.idl s.old_id within_j h in
      merge_loop-IsMerging i _ (omega arith) within (put_lem i _ _ (positive t) above within_i t)
    where
      positive : {t : Merging} (h : State (suc i) t) → t.k ≡ suc (t.k - 1)
      positive h = omega (arith, h.place)
