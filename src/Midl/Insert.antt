-- ===== src/Midl/Insert.antt =====
-- midl.h lines 149-161 and midl.c lines 281-356: lists of IDs with pointers (`MDB_ID2L`), in
-- ascending order of their IDs.
pub mod Ascending
pub mod Outcomes
use ligo.Prelude.{ℕ, zero, suc, ◌+◌, ◌-◌, ◌%◌, List, ◌&&◌}
use ligo.Prelude.{ltb, leb, ◌==◌, if◌then◌else◌, get_or, set}
use ligo.Prelude.Int.{ℤ, pos, negsuc}
use ligo.Midl.Search.{u32, compare_ids, search_loop, start}

-- `MDB_ID2`; the pointer is an address.
pub record Id2 : Type 0 where
  pub mid : ℕ
  pub mptr : ℕ

abbrev pub no_id2 : Id2
no_id2 = record { mid = 0; mptr = 0 }

-- `ids[i].mid`
abbrev pub mid_at : List Id2 → ℕ → ℕ
mid_at ids i = Id2.mid (get_or ids i no_id2)

-- `MDB_IDL_UM_MAX`, without MDB_VL32.
abbrev pub idl_um_max : ℕ
idl_um_max = 131071

-- `mdb_mid2l_search`
pub mid2l_search : List Id2 → ℕ → ℕ
mid2l_search ids id =
    search_loop 33 (λ cursor. compare_ids id (mid_at ids cursor)) (start (mid_at ids 0))

-- `for (i = …; i > x; i--) ids[i] = ids[i - 1]`, with `rounds` = `i - x`.
pub shift_up : ℕ → ℕ → List Id2 → List Id2
shift_up zero i ids = ids
shift_up (suc rounds) i ids = shift_up rounds (i - 1) (set ids i (get_or ids (i - 1) no_id2))

-- `ids[0].mid++`
abbrev pub bump_count : List Id2 → List Id2
bump_count ids =
    set ids 0 (record (get_or ids 0 no_id2) { mid = (mid_at ids 0 + 1) % 0x1_0000_0000_0000_0000 })

-- `mdb_mid2l_insert`: the status and the array.
pub mid2l_insert : List Id2 → Id2 → ℤ × List Id2
unfolding shift_up
mid2l_insert ids id =
    let x = mid2l_search ids id.mid in
    let counted = bump_count ids in
    let i = u32 (mid_at counted 0) in
    if ltb x 1
    then (negsuc 1, ids)
    else if leb x (mid_at ids 0) && (mid_at ids x == id.mid)
    then (negsuc 0, ids)
    else if leb idl_um_max (mid_at ids 0)
    then (negsuc 1, ids)
    else (pos 0, set (shift_up (i - x) i counted) x id)

-- `mdb_mid2l_append`: the status and the array.
pub mid2l_append : List Id2 → Id2 → ℤ × List Id2
mid2l_append ids id =
    let counted = bump_count ids in
    if leb idl_um_max (mid_at ids 0)
    then (negsuc 1, ids)
    else (pos 0, set counted (mid_at counted 0) id)
