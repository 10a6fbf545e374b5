-- ===== src/Midl/Growing/Tests.antt =====
-- One or several IDs appended to a full list, with a `realloc` that fills up with zeros.
use ligo.Prelude.{
  ℕ, zero, suc, ◌+◌, ◌-◌, bit_or, ◌≤◌, ◌<◌, ◌≡◌, ◌⊎◌, refl, ap, sym, ◌∙◌, arith, none, some, List,
  [], ◌∷◌, length, get_or,
}
use ligo.Midl.Insert.{idl_um_max}
use ligo.Midl.Growing.{u64, capacity, count, ReallocType, IsRealloc, midl_append}
use ligo.Midl.Growing.Append.{IsIdl, IsAppended, midl_append-outcomes}
use ligo.Midl.Growing.Many.{midl_append_list, midl_append_range}
use ligo.Midl.Growing.Many.Room.{HasAppended}
use ligo.Midl.Growing.Many.Range.{midl_append_range-outcomes}
use ligo.Midl.Growing.Many.Copied.{midl_append_list-outcomes}

abbrev resize : List ℕ → ℕ → List ℕ
resize block zero = []
resize [] (suc n) = 0 ∷ resize [] n
resize (x ∷ block) (suc n) = x ∷ resize block n

abbrev resizing : ReallocType
resizing block n = some (resize block n)

length-resize : (block : List ℕ) (n : ℕ) → length (resize block n) ≡ n
length-resize block zero = refl
length-resize [] (suc n) = ap suc (length-resize [] n)
length-resize (x ∷ block) (suc n) = ap suc (length-resize block n)

get_or-resize :
    (block : List ℕ) (n i : ℕ)
    → i < length block
    → i < n
    → get_or (resize block n) i 0 ≡ get_or block i 0
get_or-resize [] n i p q = absurd (omega arith)
get_or-resize (x ∷ block) zero i p q = absurd (omega arith)
get_or-resize (x ∷ block) (suc n) zero p q = refl
get_or-resize (x ∷ block) (suc n) (suc i) p q = get_or-resize block n i (omega arith) (omega arith)

same_block : {a b : List ℕ} → some a ≡ some b → a ≡ b
same_block e = cc

resizing-IsRealloc : IsRealloc resizing
resizing-IsRealloc = record {
  size =
      λ block n out e. ap (λ (xs : List ℕ). length xs) (sym (same_block e)) ∙ length-resize block n;
  same = λ block n out e i p q.
      ap (λ (xs : List ℕ). get_or xs i 0) (sym (same_block e)) ∙ get_or-resize block n i p q;
}

-- Capacity 1, one ID.
abbrev full_block : List ℕ
full_block = 1 ∷ 1 ∷ 9 ∷ []

full_block-IsIdl : IsIdl full_block
full_block-IsIdl = record { size = refl; within = omega arith; small = omega arith }

midl_append-outcomes_example :
    ((capacity full_block ≤ count full_block)
      × (resizing full_block (u64 (capacity full_block + idl_um_max + 2)) ≡ none)
      × (midl_append resizing full_block 7 ≡ none))
    ⊎ ((out : List ℕ) × (midl_append resizing full_block 7 ≡ some out)
        × IsAppended full_block 7 out)
midl_append-outcomes_example =
    midl_append-outcomes resizing full_block 7 full_block-IsIdl resizing-IsRealloc

-- The IDs 7, 6 and 5.
midl_append_range-outcomes_example :
    ((capacity full_block < count full_block + 3)
      × (resizing full_block (u64 (capacity full_block + bit_or 3 idl_um_max + 2)) ≡ none)
      × (midl_append_range resizing full_block 5 3 ≡ none))
    ⊎ ((out : List ℕ) × (midl_append_range resizing full_block 5 3 ≡ some out)
        × HasAppended full_block 3 (λ i. 5 + (3 - i)) out)
midl_append_range-outcomes_example =
    midl_append_range-outcomes resizing full_block full_block-IsIdl 5 3 resizing-IsRealloc
      (omega arith) (omega arith)

abbrev two_more : List ℕ
two_more = 2 ∷ 8 ∷ 4 ∷ []

midl_append_list-outcomes_example :
    ((capacity full_block ≤ count full_block + get_or two_more 0 0)
      × (resizing full_block (u64 (capacity full_block + get_or two_more 0 0 + 2)) ≡ none)
      × (midl_append_list resizing full_block two_more ≡ none))
    ⊎ ((out : List ℕ) × (midl_append_list resizing full_block two_more ≡ some out)
        × HasAppended full_block (get_or two_more 0 0) (λ i. get_or two_more i 0) out)
midl_append_list-outcomes_example =
    midl_append_list-outcomes resizing full_block full_block-IsIdl two_more resizing-IsRealloc
      (omega arith)
