-- ===== src/Midl/Merge.antt =====
-- midl.c lines 201-213: merging one descending ID list into another, from the end. `ids[0]` counts
-- the IDs, which stand from index 1 on. Cells behind the end of `merge`, which C must not read, are 0.
pub mod Order
pub mod Loop
pub mod Result
mod Tests
use ligo.Prelude.{ℕ, zero, suc, ◌+◌, ◌-◌, List}
use ligo.Prelude.{ltb, if◌then◌else◌, get_or, set}
use ligo.Midl.Growing.{u64}

-- `(MDB_ID)-1`
abbrev pub delimiter : ℕ
delimiter = 0xffff_ffff_ffff_ffff

pub record Merging : Type 0 where
  pub idl : List ℕ
  pub old_id : ℕ
  pub j : ℕ
  pub k : ℕ

-- `for (; old_id < merge_id; old_id = idl[--j]) idl[k--] = old_id;`, which ends at the delimiter.
pub shift_smaller : ℕ → List ℕ → ℕ → ℕ → ℕ → Merging
shift_smaller zero idl old_id k merge_id = record { idl = idl; old_id = old_id; j = 0; k = k }
shift_smaller (suc j) idl old_id k merge_id =
    let idl' = set idl k old_id in
    let rest = shift_smaller j idl' (get_or idl' j 0) (k - 1) merge_id in
    if ltb old_id merge_id then rest else record { idl = idl; old_id = old_id; j = suc j; k = k }

-- `while (i)`
pub merge_loop : ℕ → Merging → List ℕ → Merging
merge_loop zero s merge = s
merge_loop (suc i) s merge =
    let merge_id = get_or merge (suc i) 0 in
    let t = shift_smaller s.j s.idl s.old_id s.k merge_id in
    merge_loop i (record { idl = set t.idl t.k merge_id; old_id = t.old_id; j = t.j; k = t.k - 1 })
      merge

-- `mdb_midl_xmerge`
pub midl_xmerge : List ℕ → List ℕ → List ℕ
midl_xmerge idl merge =
    let i = get_or merge 0 0 in
    let j = get_or idl 0 0 in
    let total = u64 (i + j) in
    let delimited = set idl 0 delimiter in
    let s =
      merge_loop i (record { idl = delimited; old_id = get_or delimited j 0; j = j; k = total })
        merge in
    set s.idl 0 total
