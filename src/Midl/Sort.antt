-- ===== src/Midl/Sort.antt =====
-- midl.c lines 215-279: `mdb_midl_sort`, a quicksort in descending order with an explicit stack, and
-- an insertion sort for small parts.
pub mod Rearrange
pub mod Insertion
pub mod Scan
pub mod Partition
pub mod Parts
pub mod Split
pub mod Rounds
pub mod Result
mod Tests
use ligo.Prelude.{ℕ, zero, suc, ◌+◌, ◌-◌, ◌*◌, ◌/◌, ◌%◌, List, [], ◌∷◌, Option, none, some}
use ligo.Prelude.{ltb, leb, ◌==◌, if◌then◌else◌, get_or, set, length}

-- `MIDL_SWAP(ids[p], ids[q])`
pub swap_ids : ℕ → ℕ → List ℕ → List ℕ
swap_ids p q ids = set (set ids p (get_or ids q 0)) q (get_or ids p 0)

-- `for (i=j-1;i>=1;i--) …` and `ids[i+1] = a`
pub insert_id : ℕ → List ℕ → ℕ → List ℕ
insert_id zero ids a = set ids 1 a
insert_id (suc i) ids a =
    let rest = insert_id i (set ids (suc (suc i)) (get_or ids (suc i) 0)) a in
    if leb a (get_or ids (suc i) 0) then set ids (suc (suc i)) a else rest

-- `for (j=l+1;j<=ir;j++)`, with the number of rounds left.
pub insertion_loop : ℕ → ℕ → List ℕ → List ℕ
insertion_loop zero j ids = ids
insertion_loop (suc n) j ids = insertion_loop n (suc j) (insert_id (j - 1) ids (get_or ids j 0))

-- `(l + ir) >> 1`; `none` is a sum that an `int` does not hold, which C leaves undefined.
pub middle : ℕ → ℕ → Option ℕ
middle l ir = if ltb (l + ir) 0x8000_0000 then some ((l + ir) / 2) else none

-- The median of three to `ids[l+1]`, between `ids[l]` and `ids[ir]`.
pub order_three : ℕ → ℕ → ℕ → List ℕ → List ℕ
order_three k l ir ids =
    let ids1 = swap_ids k (l + 1) ids in
    let ids2 = if ltb (get_or ids1 l 0) (get_or ids1 ir 0) then swap_ids l ir ids1 else ids1 in
    let ids3 =
      if ltb (get_or ids2 (l + 1) 0) (get_or ids2 ir 0) then swap_ids (l + 1) ir ids2 else ids2 in
    if ltb (get_or ids3 l 0) (get_or ids3 (l + 1) 0) then swap_ids l (l + 1) ids3 else ids3

-- `do i++; while(ids[i] > a);`, in at most the first argument's number of rounds.
pub scan_up : ℕ → List ℕ → ℕ → ℕ → ℕ
scan_up zero ids i a = i
scan_up (suc n) ids i a =
    let rest = scan_up n ids (suc i) a in if ltb a (get_or ids (suc i) 0) then rest else suc i

-- `do j--; while(ids[j] < a);`
pub scan_down : List ℕ → ℕ → ℕ → ℕ
scan_down ids zero a = zero
scan_down ids (suc j) a = let rest = scan_down ids j a in if ltb (get_or ids j 0) a then rest else j

pub record Parted : Type 0 where
  pub ids : List ℕ
  pub i : ℕ
  pub j : ℕ

-- The inner `for(;;)`, in at most the first argument's number of rounds.
pub partition : ℕ → List ℕ → ℕ → ℕ → ℕ → Parted
partition zero ids i j a = record { ids = ids; i = i; j = j }
partition (suc n) ids i j a =
    let i' = scan_up (length ids) ids i a in
    let j' = scan_down ids j a in
    let rest = partition n (swap_ids i' j' ids) i' j' a in
    if ltb j' i' then record { ids = ids; i = i'; j = j' } else rest

-- A part of the list to sort, from `ids[l]` to `ids[ir]`: two entries of `istack`.
pub record Part : Type 0 where
  pub l : ℕ
  pub ir : ℕ

pub data Next : Type 0 where
  sorted : List ℕ → Next
  more : Part → List Part → List ℕ → Next
  overflowed : Next

-- `if (jstack == 0) break; …`
pub pop_part : List Part → List ℕ → Next
pop_part [] ids = sorted ids
pop_part (part ∷ stack) ids = more part stack ids

-- The parts on both sides: the larger one is put on the stack.
pub push_part : Part → List Part → ℕ → ℕ → List ℕ → Next
push_part s stack i j ids =
    let left : Part = record { l = s.l; ir = j - 1 } in
    let right : Part = record { l = i; ir = s.ir } in
    if leb (j - s.l) (s.ir - i + 1)
    then more left (right ∷ stack) ids
    else more right (left ∷ stack) ids

-- The `else` branch, with the middle `k` of the part.
pub split_at : ℕ → Part → List Part → List ℕ → Next
split_at k s stack ids =
    let ordered = order_three k s.l s.ir ids in
    let a = get_or ordered (s.l + 1) 0 in
    let t = partition (length ids) ordered (s.l + 1) s.ir a in
    let ids' = set (set t.ids (s.l + 1) (get_or t.ids t.j 0)) t.j a in
    push_part s stack t.i t.j ids'

-- The `else` branch.
pub split_part : Part → List Part → List ℕ → Next
split_part s stack ids = elim (middle s.l s.ir) [
  | some k ↦ split_at k s stack ids
  | none ↦ overflowed
]

-- One round of the outer `for(;;)`.
pub sort_round : Part → List Part → List ℕ → Next
sort_round s stack ids =
    if ltb (s.ir - s.l) 8
    then pop_part stack (insertion_loop (s.ir - s.l) (s.l + 1) ids)
    else split_part s stack ids

-- `istack` has 64 entries, and the first is not used: two for each of at most 31 parts.
abbrev pub stack_room : ℕ
stack_room = 31

-- `none` is the lack of fuel or of room on the stack, or a sum that overflows.
pub sort_loop : ℕ → Part → List Part → List ℕ → Option (List ℕ)
sort_loop zero s stack ids = none
sort_loop (suc n) s stack ids = elim (sort_round s stack ids) [
  | sorted ids' ↦ some ids'
  | more s' stack' ids' ↦
      let rest = sort_loop n s' stack' ids' in if ltb stack_room (length stack') then none else rest
  | overflowed ↦ none
]

-- `mdb_midl_sort`; every round but the last splits a part or ends one. The count is converted to an
-- `int`: where that is negative, `ir - l` is below SMALL and no ID is moved, but it overflows for
-- the least `int`.
pub midl_sort : List ℕ → Option (List ℕ)
midl_sort ids =
    let n = get_or ids 0 0 % 0x1_0000_0000 in
    let out = sort_loop (2 * n + 1) (record { l = 1; ir = n }) [] ids in
    if ltb n 0x8000_0000 then out else if n == 0x8000_0000 then none else some ids
