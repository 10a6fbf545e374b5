-- ===== src/Midl/Growing/Many/Range.antt =====
-- `mdb_midl_append_range` (midl.c lines 185-199) puts a range of IDs behind the others, or has no
-- memory to.
use ligo.Prelude.{
  ℕ, ◌+◌, ◌-◌, ◌≤◌, ◌<◌, ◌≡◌, ◌⊎◌, inl, inr, refl, ◌∙◌, arith, none, some, List, bit_or,
}
use ligo.Prelude.{ltb, set, length-set, get_or-set_self, get_or-set_ne, Bool-cases, Option-cases}
use ligo.Prelude.Bits.{bit_or-ge, bit_or-le_sum}
use ligo.Midl.Insert.{idl_um_max}
use ligo.Midl.Growing.{u64, capacity, count, ReallocType, IsRealloc, add_capacity, midl_grow}
use ligo.Midl.Growing.Append.{IsIdl}
use ligo.Midl.Growing.Many.{range_loop, put_range, midl_append_range}
use ligo.Midl.Growing.Many.Loops.{range_loop-outside, length-range_loop, range_loop-inside}
use ligo.Midl.Growing.Many.Room.{
  HasAppended, HasRoomFor, of_int_small, grown-HasRoomFor, roomy-HasRoomFor,
}

module _ (realloc : ReallocType) (block : List ℕ) (h : IsIdl block) where
  put_range-HasAppended :
      (id n : ℕ) (b : List ℕ)
      → id + n ≤ 0x1_0000_0000_0000_0000
      → HasRoomFor block n b
      → (out : List ℕ) × (put_range realloc (count block) id n (some b) ≡ some out)
        × HasAppended block n (λ i. id + (n - i)) out
  unfolding put_range
  put_range-HasAppended id n b below r =
      let len = count block in
      let counted = set b 1 (u64 (len + n)) in
      let size = length-set b 1 (u64 (len + n)) in
      let out = range_loop n counted len id in
      let capacity_eq : capacity out ≡ capacity b =
        range_loop-outside n counted len id 0 (inl (omega arith))
        ∙ get_or-set_ne b 1 0 (u64 (len + n)) (omega arith) in
      let count_eq : count out ≡ len + n =
        range_loop-outside n counted len id 1 (inl (omega arith))
        ∙ get_or-set_self b 1 (u64 (len + n)) (omega (arith, r.size))
        ∙ omega (arith, r.room, r.small) in
      (
        out,
        refl,
        record {
          counted = count_eq;
          new = λ i p q.
              range_loop-inside n counted len id i (omega (arith, size, r.size, r.room)) below p q;
          others = λ i p q.
              range_loop-outside n counted len id (i + 1) (inl (omega arith))
              ∙ get_or-set_ne b 1 (i + 1) (u64 (len + n)) (omega arith)
              ∙ r.same (i + 1) (omega arith) (omega arith);
          size = omega (arith, length-range_loop n counted len id, size, r.size, capacity_eq);
          within = omega (arith, count_eq, capacity_eq, r.room);
        },
      )

  -- For a list within its capacity, a `realloc` that keeps its promises and fewer than 2^30 IDs
  -- that do not pass 2^64, `mdb_midl_append_range` reports ENOMEM, which it does only where there is
  -- no room for them and `realloc` fails, or returns a list with the IDs from `id` on behind the
  -- others in descending order; the others are left alone, and the list is within its capacity.
  pub midl_append_range-outcomes :
      (id n : ℕ)
      → IsRealloc realloc
      → n < 0x4000_0000
      → id + n ≤ 0x1_0000_0000_0000_0000
      → ((capacity block < count block + n)
          × (realloc block (u64 (capacity block + bit_or n idl_um_max + 2)) ≡ none)
          × (midl_append_range realloc block id n ≡ none))
        ⊎ ((out : List ℕ) × (midl_append_range realloc block id n ≡ some out)
            × HasAppended block n (λ i. id + (n - i)) out)
  unfolding midl_append_range midl_grow
  midl_append_range-outcomes id n law few below =
      let num = bit_or n idl_um_max in
      let small : num < 0x8000_0000 = omega (arith, bit_or-le_sum n idl_um_max) in
      let int = of_int_small num small in
      let sum : u64 (count block + n) ≡ count block + n = omega (arith, h.small, h.within) in
      elim (Bool-cases (ltb (capacity block) (u64 (count block + n)))) [
        | inr room ↦ inr (
            rw room (
              put_range-HasAppended id n block below
                (roomy-HasRoomFor realloc block h n (ground (arith, room, sum)))))
        | inl full ↦ elim (Option-cases (realloc block (u64 (capacity block + num + 2)))) [
          | inl e ↦ inl (
            ground (arith, full, sum),
            e,
            rw (full, int, e) (unfold add_capacity put_range in refl),
          )
          | inr (idn, e) ↦ inr (
              rw (full, int, e)
                (unfold add_capacity in
                  put_range-HasAppended id n _ below (
                    grown-HasRoomFor realloc block h n num idn law small (bit_or-ge n idl_um_max)
                      e)))
        ]
      ]
