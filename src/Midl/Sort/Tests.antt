-- ===== src/Midl/Sort/Tests.antt =====
-- Sorting twelve IDs.
use ligo.Prelude.{ℕ, ◌≡◌, refl, arith, List, [], ◌∷◌, some}
use ligo.Midl.Sort.{
  midl_sort, sort_loop, sort_round, pop_part, push_part, split_part, insertion_loop, insert_id,
  middle, split_at, order_three, swap_ids, scan_up, scan_down, partition,
}
use ligo.Midl.Sort.Result.{IsSorted, midl_sort-IsSorted}

abbrev twelve_ids : List ℕ
twelve_ids = 12 ∷ 3 ∷ 9 ∷ 1 ∷ 9 ∷ 7 ∷ 20 ∷ 4 ∷ 0 ∷ 11 ∷ 6 ∷ 2 ∷ 8 ∷ 77 ∷ []

abbrev twelve_sorted : List ℕ
twelve_sorted = 12 ∷ 20 ∷ 11 ∷ 9 ∷ 9 ∷ 8 ∷ 7 ∷ 6 ∷ 4 ∷ 3 ∷ 2 ∷ 1 ∷ 0 ∷ 77 ∷ []

sort_run : midl_sort twelve_ids ≡ some twelve_sorted
unfolding midl_sort sort_loop sort_round pop_part push_part split_part insertion_loop insert_id
    middle split_at order_three swap_ids scan_up scan_down partition
sort_run = refl

midl_sort-IsSorted_example :
    (out : List ℕ) × (midl_sort twelve_ids ≡ some out) × IsSorted twelve_ids out
midl_sort-IsSorted_example = midl_sort-IsSorted twelve_ids (omega arith) (omega arith)
