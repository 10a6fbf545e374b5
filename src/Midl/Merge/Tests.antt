-- ===== src/Midl/Merge/Tests.antt =====
-- Merging 8, 5, 5 and 7, 5.
use ligo.Prelude.{ℕ, zero, suc, ◌≤◌, ◌≡◌, arith, List, [], ◌∷◌, get_or}
use native.Mathlib.Decide.{dec_le}
use ligo.Midl.Merge.{delimiter, midl_xmerge}
use ligo.Midl.Merge.Order.{IsDescending}
use ligo.Midl.Merge.Result.{IsMerged, midl_xmerge-IsMerged}

abbrev three_ids : List ℕ
three_ids = 3 ∷ 8 ∷ 5 ∷ 5 ∷ 0 ∷ 0 ∷ []

abbrev two_ids : List ℕ
two_ids = 2 ∷ 7 ∷ 5 ∷ []

IsDescending-one : (a : ℕ) (ids : List ℕ) → IsDescending a 1 ids
IsDescending-one a ids p q l le m = let same : q ≡ p = omega arith in rw same (omega arith)

IsDescending-cons :
    (a n : ℕ) (ids : List ℕ)
    → get_or ids (suc (suc a)) 0 ≤ get_or ids (suc a) 0
    → IsDescending (suc a) (suc n) ids
    → IsDescending a (suc (suc n)) ids
IsDescending-cons a n ids h rest p q l le m = elim (dec_le p (suc a)) [
  | no later ↦ rest p q (omega arith) le (omega arith)
  | yes first ↦
      let here : p ≡ suc a = omega arith in
      elim (dec_le q (suc a)) [
        | yes same ↦ let e : q ≡ suc a = omega arith in rw (here, e) (omega arith)
        | no above ↦
            rw here
              (omega (arith, h, rest (suc (suc a)) q (omega arith) (omega arith) (omega arith)))
      ]
]

three_ids-IsDescending : IsDescending 0 3 three_ids
three_ids-IsDescending =
    IsDescending-cons 0 1 three_ids (omega arith)
      (IsDescending-cons 1 0 three_ids (omega arith) (IsDescending-one 2 three_ids))

two_ids-IsDescending : IsDescending 0 2 two_ids
two_ids-IsDescending = IsDescending-cons 0 0 two_ids (omega arith) (IsDescending-one 1 two_ids)

two_ids_small : (p : ℕ) → get_or two_ids p 0 ≤ delimiter
two_ids_small zero = omega arith
two_ids_small (suc zero) = omega arith
two_ids_small (suc (suc zero)) = omega arith
two_ids_small (suc (suc (suc p))) = omega arith

midl_xmerge-IsMerged_example : IsMerged three_ids two_ids (midl_xmerge three_ids two_ids)
midl_xmerge-IsMerged_example =
    midl_xmerge-IsMerged three_ids two_ids (omega arith) (omega arith) three_ids-IsDescending
      two_ids-IsDescending two_ids_small
