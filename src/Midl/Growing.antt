-- ===== src/Midl/Growing.antt =====
-- midl.c lines 104-169: ID lists that grow. The block of an IDL starts one word before the list:
-- word 0 is its capacity, word 1 the count `ids[0]`, and `ids[i]` is word i + 1. `realloc` is a
-- parameter, and `none` stands for a null pointer and for ENOMEM.
pub mod Append
pub mod Many
mod Tests
use ligo.Prelude.{ℕ, zero, suc, ◌+◌, ◌%◌, ◌<◌, ◌≡◌, Option, none, some, List}
use ligo.Prelude.{leb, if◌then◌else◌, get_or, set, length}
use ligo.Midl.Insert.{idl_um_max}

abbrev pub u64 : ℕ → ℕ
u64 n = n % 0x1_0000_0000_0000_0000

abbrev pub capacity : List ℕ → ℕ
capacity block = get_or block 0 0

abbrev pub count : List ℕ → ℕ
count block = get_or block 1 0

abbrev pub ReallocType : Type 0
ReallocType = List ℕ → ℕ → Option (List ℕ)

-- `realloc(block, n)`: what C promises of a block that it returns.
pub record IsRealloc (realloc : ReallocType) : Type 0 where
  pub size : (block : List ℕ) (n : ℕ) (out : List ℕ) → realloc block n ≡ some out → length out ≡ n
  pub same :
      (block : List ℕ) (n : ℕ) (out : List ℕ)
      → realloc block n ≡ some out
      → (i : ℕ) → i < length block
      → i < n
      → get_or out i 0 ≡ get_or block i 0

module _ (realloc : ReallocType) where
  -- `*idn++ += num`, if there is a block.
  pub add_capacity : ℕ → Option (List ℕ) → Option (List ℕ)
  add_capacity num none = none
  add_capacity num (some idn) = some (set idn 0 (u64 (capacity idn + num)))

  -- `mdb_midl_grow`
  pub midl_grow : List ℕ → ℕ → Option (List ℕ)
  midl_grow block num = add_capacity num (realloc block (u64 (capacity block + num + 2)))

  -- `ids[0]++; ids[ids[0]] = id`
  pub put_last : ℕ → Option (List ℕ) → Option (List ℕ)
  put_last id none = none
  put_last id (some block) =
      let counted = set block 1 (u64 (count block + 1)) in some (set counted (count counted + 1) id)

  -- `mdb_midl_append`
  pub midl_append : List ℕ → ℕ → Option (List ℕ)
  midl_append block id =
      put_last id
        (if leb (capacity block) (count block) then midl_grow block idl_um_max else some block)
