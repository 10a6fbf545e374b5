-- ===== src/Midl/Growing/Many/Copied.antt =====
-- `mdb_midl_append_list` (midl.c lines 171-183) puts the IDs of a list behind the others, or has no
-- memory to.
use ligo.Prelude.{ℕ, ◌+◌, ◌-◌, ◌≤◌, ◌<◌, ◌≡◌, ◌⊎◌, inl, inr, refl, ap, ◌∙◌, arith, none, some, List}
use ligo.Prelude.{
  leb, get_or, set, length-set, get_or-set_self, get_or-set_ne, Bool-cases, Option-cases,
}
use ligo.Midl.Growing.{u64, capacity, count, ReallocType, IsRealloc, add_capacity, midl_grow}
use ligo.Midl.Growing.Append.{IsIdl}
use ligo.Midl.Growing.Many.{copy_ids, put_list, midl_append_list}
use ligo.Midl.Growing.Many.Loops.{copy_ids-outside, length-copy_ids, copy_ids-inside}
use ligo.Midl.Growing.Many.Room.{
  HasAppended, HasRoomFor, of_int_small, grown-HasRoomFor, roomy-HasRoomFor,
}

module _ (realloc : ReallocType) (block : List ℕ) (h : IsIdl block) where
  put_list-HasAppended :
      (app b : List ℕ)
      → HasRoomFor block (get_or app 0 0) b
      → (out : List ℕ) × (put_list realloc app (some b) ≡ some out)
        × HasAppended block (get_or app 0 0) (λ i. get_or app i 0) out
  unfolding put_list
  put_list-HasAppended app b r =
      let n = get_or app 0 0 in
      let same_count : count b ≡ count block = r.same 1 (omega arith) (omega arith) in
      let to = count b + 2 in
      let copied = copy_ids n b to app 1 in
      let size = length-copy_ids n b to app 1 in
      let out = set copied 1 (u64 (count copied + n)) in
      let kept : count copied ≡ count b = copy_ids-outside n b to app 1 1 (inl (omega arith)) in
      let capacity_eq : capacity out ≡ capacity b =
        get_or-set_ne copied 1 0 (u64 (count copied + n)) (omega arith)
        ∙ copy_ids-outside n b to app 1 0 (inl (omega arith)) in
      let count_eq : count out ≡ count block + n =
        get_or-set_self copied 1 (u64 (count copied + n)) (omega (arith, size, r.size))
        ∙ omega (arith, kept, same_count, r.room, r.small) in
      (
        out,
        refl,
        record {
          counted = count_eq;
          new = λ i p q.
              let place : count block + i + 1 ≡ to + (i - 1) = omega (arith, same_count) in
              let there : 1 + (i - 1) ≡ i = omega arith in
              ap (λ (t : ℕ). get_or out t 0) place
              ∙ get_or-set_ne copied 1 (to + (i - 1)) (u64 (count copied + n)) (omega arith)
              ∙ copy_ids-inside n b to app 1 (i - 1) (omega (arith, r.size, r.room, same_count))
                  (omega arith)
              ∙ ap (λ (t : ℕ). get_or app t 0) there;
          others = λ i p q.
              get_or-set_ne copied 1 (i + 1) (u64 (count copied + n)) (omega arith)
              ∙ copy_ids-outside n b to app 1 (i + 1) (inl (omega (arith, same_count)))
              ∙ r.same (i + 1) (omega arith) (omega arith);
          size =
              omega
                (arith, length-set copied 1 (u64 (count copied + n)), size, r.size, capacity_eq);
          within = omega (arith, count_eq, capacity_eq, r.room);
        },
      )

  -- For a list within its capacity, a `realloc` that keeps its promises and a list of fewer than 2^30
  -- IDs, `mdb_midl_append_list` reports ENOMEM, which it does only where there is no room for more
  -- than the IDs and `realloc` fails, or returns a list with these IDs behind the others in their
  -- order; the others are left alone, and the list is within its capacity.
  pub midl_append_list-outcomes :
      (app : List ℕ)
      → IsRealloc realloc
      → get_or app 0 0 < 0x4000_0000
      → ((capacity block ≤ count block + get_or app 0 0)
          × (realloc block (u64 (capacity block + get_or app 0 0 + 2)) ≡ none)
          × (midl_append_list realloc block app ≡ none))
        ⊎ ((out : List ℕ) × (midl_append_list realloc block app ≡ some out)
            × HasAppended block (get_or app 0 0) (λ i. get_or app i 0) out)
  unfolding midl_append_list midl_grow
  midl_append_list-outcomes app law few =
      let n = get_or app 0 0 in
      let int = of_int_small n (omega arith) in
      let sum : u64 (count block + n) ≡ count block + n = omega (arith, h.small, h.within) in
      elim (Bool-cases (leb (capacity block) (u64 (count block + n)))) [
        | inr room ↦ inr (
            rw room (
              put_list-HasAppended app block
                (roomy-HasRoomFor realloc block h n (ground (arith, room, sum)))))
        | inl full ↦ elim (Option-cases (realloc block (u64 (capacity block + n + 2)))) [
          | inl e ↦ inl (
            ground (arith, full, sum),
            e,
            rw (full, int, e) (unfold add_capacity put_list in refl),
          )
          | inr (idn, e) ↦ inr (
              rw (full, int, e)
                (unfold add_capacity in
                  put_list-HasAppended app _
                    (grown-HasRoomFor realloc block h n n idn law (omega arith) (omega arith) e)))
        ]
      ]
