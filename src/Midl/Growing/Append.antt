-- ===== src/Midl/Growing/Append.antt =====
-- `mdb_midl_append` (midl.c lines 157-169) puts an ID behind the others, or has no memory to.
use ligo.Prelude.{ℕ, ◌+◌, ◌≤◌, ◌<◌, ◌≡◌, ◌⊎◌, inl, inr, refl, ◌∙◌, arith, none, some, List}
use ligo.Prelude.{
  leb, get_or, set, length, length-set, get_or-set_self, get_or-set_ne, Bool-cases, Option-cases,
}
use ligo.Midl.Insert.{idl_um_max}
use ligo.Midl.Growing.{
  u64, capacity, count, ReallocType, IsRealloc, add_capacity, midl_grow, put_last, midl_append,
}

-- A block has the words of its capacity and two more, and counts no more IDs than these.
pub record IsIdl (block : List ℕ) : Type 0 where
  pub size : length block ≡ capacity block + 2
  pub within : count block ≤ capacity block
  pub small : capacity block < 0x1000_0000_0000_0000

-- `out` is `block` with `id` behind the other IDs.
pub record IsAppended (block : List ℕ) (id : ℕ) (out : List ℕ) : Type 0 where
  pub counted : count out ≡ count block + 1
  pub new : get_or out (count block + 2) 0 ≡ id
  pub others : (i : ℕ) → 1 ≤ i → i ≤ count block → get_or out (i + 1) 0 ≡ get_or block (i + 1) 0
  pub size : length out ≡ capacity out + 2
  pub within : count out ≤ capacity out

-- A block with room for one more ID, and the IDs of another.
record HasRoom (block out : List ℕ) : Type 0 where
  size : length out ≡ capacity out + 2
  room : count block < capacity out
  same : (i : ℕ) → 1 ≤ i → i ≤ count block + 1 → get_or out i 0 ≡ get_or block i 0

module _ (realloc : ReallocType) (block : List ℕ) (id : ℕ) (h : IsIdl block) where
  put_last-IsAppended :
      (b : List ℕ)
      → HasRoom block b
      → (out : List ℕ) × (put_last realloc id (some b) ≡ some out) × IsAppended block id out
  unfolding put_last
  put_last-IsAppended b r =
      let same_count : count b ≡ count block = r.same 1 (omega arith) (omega arith) in
      let counted = set b 1 (u64 (count b + 1)) in
      let size = length-set b 1 (u64 (count b + 1)) in
      let one : count counted ≡ count block + 1 =
        get_or-set_self b 1 _ (omega (arith, r.size, r.room))
        ∙ omega (arith, same_count, h.within, h.small) in
      let place = count counted + 1 in
      let capacity_eq : capacity (set counted place id) ≡ capacity b =
        get_or-set_ne counted place 0 id (omega arith) ∙ get_or-set_ne b 1 0 _ (omega arith) in
      let count_eq : count (set counted place id) ≡ count block + 1 =
        get_or-set_ne counted place 1 id (omega (arith, one)) ∙ one in
      let where_new : count block + 2 ≡ place = omega (arith, one) in
      (
        set counted place id,
        refl,
        record {
          counted = count_eq;
          new =
              rw where_new
                (get_or-set_self counted place id (omega (arith, size, r.size, r.room, one)));
          others = λ i p q.
              get_or-set_ne counted place (i + 1) id (omega (arith, one))
              ∙ (get_or-set_ne b 1 (i + 1) _ (omega arith)
                  ∙ r.same (i + 1) (omega arith) (omega arith));
          size = omega (arith, length-set counted place id, size, r.size, capacity_eq);
          within = omega (arith, count_eq, capacity_eq, r.room);
        },
      )

  -- A block that `mdb_midl_grow` returns.
  grown-HasRoom :
      (idn : List ℕ)
      → IsRealloc realloc
      → realloc block (u64 (capacity block + idl_um_max + 2)) ≡ some idn
      → HasRoom block (set idn 0 (u64 (capacity idn + idl_um_max)))
  grown-HasRoom idn law e =
      let size = law.size block _ idn e in
      let same = law.same block _ idn e in
      let old_capacity : capacity idn ≡ capacity block =
        same 0 (omega (arith, h.size)) (omega (arith, h.small)) in
      let new_capacity : capacity (set idn 0 (u64 (capacity idn + idl_um_max)))
          ≡ capacity block + idl_um_max =
        get_or-set_self idn 0 _ (omega (arith, size, h.small))
        ∙ omega (arith, old_capacity, h.small) in
      record {
        size = omega (
          arith,
          length-set idn 0 (u64 (capacity idn + idl_um_max)),
          size,
          new_capacity,
          h.small,
        );
        room = omega (arith, new_capacity, h.within);
        same = λ i p q.
            get_or-set_ne idn 0 i _ (omega arith)
            ∙ same i (omega (arith, h.size, h.within)) (omega (arith, h.small, h.within));
      }

  -- For a list within its capacity and a `realloc` that keeps its promises, `mdb_midl_append`
  -- reports ENOMEM, which it does only for a full list and when `realloc` fails, or returns a list
  -- with the ID behind the others, which are left alone, still within the capacity of its block.
  pub midl_append-outcomes :
      IsRealloc realloc
      → ((capacity block ≤ count block)
          × (realloc block (u64 (capacity block + idl_um_max + 2)) ≡ none)
          × (midl_append realloc block id ≡ none))
        ⊎ ((out : List ℕ) × (midl_append realloc block id ≡ some out) × IsAppended block id out)
  unfolding midl_append midl_grow
  midl_append-outcomes law = elim (Bool-cases (leb (capacity block) (count block))) [
    | inr room ↦ inr (
        rw room (
          put_last-IsAppended block
            (record { size = h.size; room = ground arith; same = λ i p q. refl })))
    | inl full ↦ elim (Option-cases (realloc block (u64 (capacity block + idl_um_max + 2)))) [
      | inl e ↦ inl (ground arith, e, rw (full, e) (unfold add_capacity put_last in refl))
      | inr (idn, e) ↦
          inr
            (rw (full, e) (unfold add_capacity in put_last-IsAppended _ (grown-HasRoom idn law e)))
    ]
  ]
