-- ===== src/Midl/Growing/Many.antt =====
-- midl.c lines 97-155 and 171-199, and the macro of midl.h lines 80-83: allocating an ID list,
-- shrinking it, and making room for or appending several IDs. `malloc` is a parameter as `realloc` is.
pub mod Loops
pub mod Room
pub mod Range
pub mod Copied
use ligo.Prelude.{ℕ, zero, suc, ◌+◌, ◌-◌, ◌*◌, ◌/◌, ◌%◌, Option, none, some, List, [], ◌∷◌}
use ligo.Prelude.{ltb, leb, if◌then◌else◌, get_or, set, bit_and, bit_or}
use ligo.Midl.Search.{u32}
use ligo.Midl.Insert.{idl_um_max}
use ligo.Midl.Growing.{u64, capacity, count, ReallocType, midl_grow}

-- Both words are set if there is a block.
pub set_up : ℕ → Option (List ℕ) → Option (List ℕ)
set_up num none = none
set_up num (some block) = some (set (set block 0 num) 1 0)

-- `mdb_midl_alloc`, for an `int` that is not negative.
pub midl_alloc : (ℕ → Option (List ℕ)) → ℕ → Option (List ℕ)
midl_alloc malloc num = set_up num (malloc (num + 2))

-- A number passed as an `int` and added to a 64-bit one.
abbrev pub of_int : ℕ → ℕ
of_int n = if ltb (u32 n) 0x8000_0000 then u32 n else u32 n + 0xffff_ffff_0000_0000

-- `mdb_midl_xappend`, on a block.
pub midl_xappend : List ℕ → ℕ → List ℕ
midl_xappend block id = let xlen = u64 (count block + 1) in set (set block 1 xlen) (xlen + 1) id

-- `memcpy(&ids[at], &app[from], n * sizeof(MDB_ID))`, on a block and a list; an ID
-- behind the end of `app`, which C must not read, is 0.
pub copy_ids : ℕ → List ℕ → ℕ → List ℕ → ℕ → List ℕ
copy_ids zero block to app from = block
copy_ids (suc n) block to app from =
    copy_ids n (set block to (get_or app from 0)) (to + 1) app (from + 1)

-- `while (n) ids[n--] = id++;`
pub range_loop : ℕ → List ℕ → ℕ → ℕ → List ℕ
range_loop zero block len id = block
range_loop (suc n) block len id = range_loop n (set block (len + suc n + 1) id) len (u64 (id + 1))

module _ (realloc : ReallocType) where
  -- The capacity of a block that was moved, if there is one; otherwise the old block stays.
  pub with_capacity : ℕ → List ℕ → Option (List ℕ) → List ℕ
  with_capacity num block none = block
  with_capacity num block (some ids) = set ids 0 num

  -- `mdb_midl_shrink`
  pub midl_shrink : List ℕ → List ℕ
  midl_shrink block =
      if ltb idl_um_max (capacity block)
      then with_capacity idl_um_max block (realloc block (idl_um_max + 2))
      else block

  -- `(num + num/4 + (256 + 2)) & -256`, for an `unsigned`.
  pub rounded : ℕ → ℕ
  rounded num = bit_and (u32 (num + num / 4 + (256 + 2))) 0xffff_ff00

  pub needed : ℕ → Option (List ℕ) → Option (List ℕ)
  needed num none = none
  needed num (some ids) = some (set ids 0 (u32 (num + 0xffff_fffe)))

  -- `mdb_midl_need`
  pub midl_need : List ℕ → ℕ → Option (List ℕ)
  midl_need block num =
      let num' = u32 (num + count block) in
      let n = rounded num' in
      if ltb (capacity block) num' then needed n (realloc block n) else some block

  put_list : List ℕ → Option (List ℕ) → Option (List ℕ)
  put_list app none = none
  put_list app (some block) =
      let n = get_or app 0 0 in
      let copied = copy_ids n block (count block + 2) app 1 in
      some (set copied 1 (u64 (count copied + n)))

  -- `mdb_midl_append_list`; `app` is a list, with its count at index 0.
  pub midl_append_list : List ℕ → List ℕ → Option (List ℕ)
  midl_append_list block app =
      let n = get_or app 0 0 in
      put_list app (
        if leb (capacity block) (u64 (count block + n))
        then midl_grow realloc block (of_int n)
        else some block)

  put_range : ℕ → ℕ → ℕ → Option (List ℕ) → Option (List ℕ)
  put_range len id n none = none
  put_range len id n (some block) = some (range_loop n (set block 1 (u64 (len + n))) len id)

  -- `mdb_midl_append_range`
  pub midl_append_range : List ℕ → ℕ → ℕ → Option (List ℕ)
  midl_append_range block id n =
      let len = count block in
      put_range len id n (
        if ltb (capacity block) (u64 (len + n))
        then midl_grow realloc block (of_int (bit_or n idl_um_max))
        else some block)
