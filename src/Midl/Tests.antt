-- ===== src/Midl/Tests.antt =====
-- Runs of the searches and insertions, and the theorems at small lists.
use ligo.Prelude.{
  ℕ, zero, suc, ◌+◌, ◌<◌, ◌≤◌, ◌≡◌, ◌⊎◌, arith, List, [], ◌∷◌, ◌++◌, replicate, get_or,
  length-replicate,
}
use ligo.Midl.Search.{midl_search}
use ligo.Midl.Search.Loop.{IsDescending, midl_search-Splits}
use ligo.Midl.Insert.{Id2, no_id2, mid_at, mid2l_search}
use ligo.Midl.Insert.Ascending.{IsAscending, IsPlace, mid2l_search-IsPlace}
use ligo.Midl.Insert.Outcomes.{Lacks, Inserts, mid2l_insert-Inserts}

-- 9, 7, 4
abbrev descending_ids : List ℕ
descending_ids = 3 ∷ 9 ∷ 7 ∷ 4 ∷ []

descending_ids-IsDescending : IsDescending descending_ids
descending_ids-IsDescending = record { descending = order }
  where
    order :
        (i j : ℕ) → 1 ≤ i → i ≤ j → j ≤ 3 → get_or descending_ids j 0 ≤ get_or descending_ids i 0
    order zero j p q r = absurd (omega arith)
    order (suc i) zero p q r = absurd (omega arith)
    order (suc zero) (suc zero) p q r = omega arith
    order (suc zero) (suc (suc zero)) p q r = omega arith
    order (suc zero) (suc (suc (suc zero))) p q r = omega arith
    order (suc (suc i)) (suc zero) p q r = absurd (omega arith)
    order (suc (suc zero)) (suc (suc zero)) p q r = omega arith
    order (suc (suc zero)) (suc (suc (suc zero))) p q r = omega arith
    order (suc (suc (suc i))) (suc (suc zero)) p q r = absurd (omega arith)
    order (suc (suc (suc zero))) (suc (suc (suc zero))) p q r = omega arith
    order (suc (suc (suc (suc i)))) (suc (suc (suc zero))) p q r = absurd (omega arith)
    order (suc i) (suc (suc (suc (suc j)))) p q r = absurd (omega arith)

midl_search-Splits_example :
    ((1 ≤ midl_search descending_ids 5)
      × (midl_search descending_ids 5 ≤ 3)
      × (get_or descending_ids (midl_search descending_ids 5) 0 ≡ 5))
    ⊎ ((1 ≤ midl_search descending_ids 5)
        × (midl_search descending_ids 5 ≤ 3 + 1)
        × ((i : ℕ) → 1 ≤ i → i < midl_search descending_ids 5 → 5 < get_or descending_ids i 0)
        × ((i : ℕ) → midl_search descending_ids 5 ≤ i → i ≤ 3 → get_or descending_ids i 0 < 5))
midl_search-Splits_example =
    midl_search-Splits descending_ids 5 descending_ids-IsDescending (omega arith) (omega arith)

-- A list of `n` IDs in an array of 131072 cells, by its cells from index 1.
abbrev array : ℕ → List Id2 → List Id2
array n cells = record { mid = n; mptr = 0 } ∷ cells ++ replicate 131071 no_id2

abbrev id2 : ℕ → Id2
id2 n = record { mid = n; mptr = n }

-- 4, 8
abbrev two : List Id2
two = array 2 (id2 4 ∷ id2 8 ∷ [])

two-IsAscending : IsAscending two
two-IsAscending = record {
  bounded = omega arith;
  room = omega (arith, length-replicate 131071 no_id2);
  ascending = order;
}
  where
    order : (i j : ℕ) → 1 ≤ i → i < j → j ≤ 2 → mid_at two i < mid_at two j
    order zero j p q r = absurd (omega arith)
    order (suc i) zero p q r = absurd (omega arith)
    order (suc i) (suc zero) p q r = absurd (omega arith)
    order (suc zero) (suc (suc zero)) p q r = omega arith
    order (suc (suc i)) (suc (suc zero)) p q r = absurd (omega arith)
    order (suc i) (suc (suc (suc j))) p q r = absurd (omega arith)

two-Lacks_six : Lacks two 6
two-Lacks_six zero p q = absurd (omega arith)
two-Lacks_six (suc zero) p q = λ e. absurd (omega arith)
two-Lacks_six (suc (suc zero)) p q = λ e. absurd (omega arith)
two-Lacks_six (suc (suc (suc i))) p q = absurd (omega arith)

mid2l_search-IsPlace_example : IsPlace two 6 (mid2l_search two 6)
mid2l_search-IsPlace_example = mid2l_search-IsPlace two 6 two-IsAscending

mid2l_insert-Inserts_example : Inserts two (id2 6) two-IsAscending
mid2l_insert-Inserts_example =
    mid2l_insert-Inserts two (id2 6) two-IsAscending two-Lacks_six (omega arith)
