-- ===== src/Midl/Search.antt =====
-- midl.c lines 32-67 and 281-314: the two binary searches, over IDs in descending and in ascending
-- order. `unsigned` is 32 bits wide, `MDB_ID` 64.
pub mod Loop
use ligo.Prelude.{ℕ, zero, suc, ◌+◌, ◌-◌, ◌/◌, ◌%◌, List}
use ligo.Prelude.{ltb, if◌then◌else◌, get_or}
use ligo.Prelude.Int.{ℤ, pos, negsuc}

abbrev pub u32 : ℕ → ℕ
u32 n = n % 0x1_0000_0000

-- The macro `CMP`.
abbrev pub compare_ids : ℕ → ℕ → ℤ
compare_ids x y = if ltb x y then negsuc 0 else if ltb y x then pos 1 else pos 0

-- The locals of a search: `n` elements behind index `base` are left.
pub record Locals : Type 0 where
  pub base : ℕ
  pub cursor : ℕ
  pub val : ℤ
  pub n : ℕ

pub data Outcome : Type 0 where
  found : ℕ → Outcome
  continue : Locals → Outcome

-- The branches on `val`, for the pivot and cursor of the round.
branch : ℤ → ℕ → Locals → Outcome
branch (negsuc k) pivot s = continue (record s { val = negsuc k; n = pivot })
branch (pos (suc k)) pivot s = continue (record s {
  base = s.cursor;
  val = pos (suc k);
  n = u32 (s.n + 0x1_0000_0000 - u32 (pivot + 1));
})
branch (pos zero) pivot s = found s.cursor

-- The body of the loop; `order` compares the element at an index with the ID.
pub search_round : (ℕ → ℤ) → Locals → Outcome
unfolding branch
search_round order s =
    let pivot = s.n / 2 in
    let cursor = u32 (u32 (s.base + pivot) + 1) in
    branch (order cursor) pivot (record s { cursor = cursor })

-- `if (val > 0) ++cursor; return cursor;`
leave : Locals → ℕ
leave s = elim s.val [
  | pos k ↦ (if ltb 0 k then u32 (s.cursor + 1) else s.cursor)
  | negsuc k ↦ s.cursor
]

-- The loop: `n` at least halves, and 33 rounds see a 32-bit `n` to 0.
pub search_loop : ℕ → (ℕ → ℤ) → Locals → ℕ
unfolding leave
search_loop zero order s = leave s
search_loop (suc fuel) order s =
    let next : ℕ = elim (search_round order s) [
      | found cursor ↦ cursor
      | continue s' ↦ search_loop fuel order s'
    ] in
    if ltb 0 s.n then next else leave s

abbrev pub start : ℕ → Locals
start n = record { base = 0; cursor = 1; val = pos 0; n = u32 n }

-- `mdb_midl_search`
pub midl_search : List ℕ → ℕ → ℕ
midl_search ids id =
    search_loop 33 (λ cursor. compare_ids (get_or ids cursor 0) id) (start (get_or ids 0 0))
