-- ===== src/Midl/Insert/Ascending.antt =====
-- `mdb_mid2l_search`, `mdb_mid2l_insert` and `mdb_mid2l_append` on lists in strictly ascending order.
use ligo.Prelude.{
  ℕ, zero, suc, ◌+◌, ◌-◌, ◌≤◌, ◌<◌, ◌≡◌, ◌≢◌, ◌⊎◌, inl, inr, refl, ap, sym, ◌∙◌, arith, List, [],
  ◌∷◌,
}
use ligo.Prelude.{get_or, set, length, length-set}
use native.Mathlib.Decide.{ℕ_discrete}
use ligo.Midl.Search.{u32, compare_ids}
use ligo.Midl.Search.Loop.{
  IsMonotone, search-Splits, IsBefore-lt, lt-IsBefore, IsAfter-lt, lt-IsAfter, hit_eq,
}
use ligo.Midl.Insert.{Id2, no_id2, mid_at, idl_um_max, mid2l_search, shift_up, bump_count}

-- The count of a list is at most the maximum, the array has cells for as many elements, and their
-- IDs ascend strictly.
pub record IsAscending (ids : List Id2) : Type 0 where
  pub bounded : mid_at ids 0 ≤ idl_um_max
  pub room : idl_um_max < length ids
  pub ascending : (i j : ℕ) → 1 ≤ i → i < j → j ≤ mid_at ids 0 → mid_at ids i < mid_at ids j

get_or-set_self :
    (ids : List Id2) (i : ℕ) (v : Id2) → i < length ids → get_or (set ids i v) i no_id2 ≡ v
get_or-set_self [] i v h = absurd (omega arith)
get_or-set_self (x ∷ ids) zero v h = refl
get_or-set_self (x ∷ ids) (suc i) v h = get_or-set_self ids i v (omega arith)

get_or-set_ne :
    (ids : List Id2) (i j : ℕ) (v : Id2)
    → i ≢ j
    → get_or (set ids i v) j no_id2 ≡ get_or ids j no_id2
get_or-set_ne [] i j v h = refl
get_or-set_ne (x ∷ ids) zero zero v h = absurd (h refl)
get_or-set_ne (x ∷ ids) zero (suc j) v h = refl
get_or-set_ne (x ∷ ids) (suc i) zero v h = refl
get_or-set_ne (x ∷ ids) (suc i) (suc j) v h = get_or-set_ne ids i j v (λ e. h (ap suc e))

-- Where `x` is the place of the ID: it is there, or the IDs below `x` are less and the others
-- greater.
abbrev pub IsPlace : List Id2 → ℕ → ℕ → Type 0
IsPlace ids id x =
    ((1 ≤ x) × (x ≤ mid_at ids 0) × (mid_at ids x ≡ id))
    ⊎ ((1 ≤ x)
        × (x ≤ mid_at ids 0 + 1)
        × ((i : ℕ) → 1 ≤ i → i < x → mid_at ids i < id)
        × ((i : ℕ) → x ≤ i → i ≤ mid_at ids 0 → id < mid_at ids i))

weakly :
    (ids : List Id2)
    → IsAscending ids
    → (i j : ℕ) → 1 ≤ i
    → i ≤ j
    → j ≤ mid_at ids 0
    → mid_at ids i ≤ mid_at ids j
weakly ids h i j p q r = elim (ℕ_discrete i j) [
  | yes e ↦ rw e (omega arith)
  | no ne ↦ omega (arith, h.ascending i j p (omega arith) r)
]

-- On a list in order, `mdb_mid2l_search` returns the index of the ID, or else the index at which
-- it has to stand.
pub mid2l_search-IsPlace :
    (ids : List Id2) (id : ℕ) → IsAscending ids → IsPlace ids id (mid2l_search ids id)
unfolding mid2l_search
mid2l_search-IsPlace ids id h =
    let count = mid_at ids 0 in
    let order = λ (c : ℕ). compare_ids id (mid_at ids c) in
    let mono : IsMonotone order count = record {
      before = λ i j p q r b.
          lt-IsBefore id _ (omega (arith, IsBefore-lt id _ b, weakly ids h i j p q r));
      after =
          λ i j p q r a. lt-IsAfter id _ (omega (arith, IsAfter-lt id _ a, weakly ids h i j p q r));
    } in
    elim (search-Splits order count mono (omega (arith, h.bounded))) [
      | inl (a, b, e) ↦ inl (a, b, sym (hit_eq id _ e))
      | inr (a, b, lo, hi) ↦
          inr (a, b, λ i p q. IsBefore-lt id _ (lo i p q), λ i p q. IsAfter-lt id _ (hi i p q))
    ]

-- The loop moves the elements from `x` to `x + rounds - 1` up by one.
record IsShifted (rounds x : ℕ) (ids out : List Id2) : Type 0 where
  same_length : length out ≡ length ids
  below : (j : ℕ) → j ≤ x → get_or out j no_id2 ≡ get_or ids j no_id2
  moved : (j : ℕ) → x < j → j ≤ x + rounds → get_or out j no_id2 ≡ get_or ids (j - 1) no_id2
  above : (j : ℕ) → x + rounds < j → get_or out j no_id2 ≡ get_or ids j no_id2

shift_up-IsShifted :
    (rounds x i : ℕ) (ids : List Id2)
    → i ≡ x + rounds
    → i < length ids
    → IsShifted rounds x ids (shift_up rounds i ids)
unfolding shift_up
shift_up-IsShifted zero x i ids e h = record {
  same_length = refl;
  below = λ j p. refl;
  moved = λ j p q. absurd (omega arith);
  above = λ j p. refl;
}
shift_up-IsShifted (suc rounds) x i ids e h =
    let v = get_or ids (i - 1) no_id2 in
    let ids' = set ids i v in
    let rest =
      shift_up-IsShifted rounds x (i - 1) ids' (omega arith) (omega (arith, length-set ids i v)) in
    record {
      same_length = rest.same_length ∙ length-set ids i v;
      below = λ j p. rest.below j p ∙ get_or-set_ne ids i j v (omega arith);
      moved = λ j p q. elim (ℕ_discrete j i) [
        | yes last ↦ rw last (rest.above i (omega arith) ∙ get_or-set_self ids i v h)
        | no other ↦ rest.moved j p (omega arith) ∙ get_or-set_ne ids i (j - 1) v (omega arith)
      ];
      above = λ j p. rest.above j (omega arith) ∙ get_or-set_ne ids i j v (omega arith);
    }

-- `out` is `ids` with `id` put in at index `x`.
pub record IsInserted (ids : List Id2) (id : Id2) (x : ℕ) (out : List Id2) : Type 0 where
  pub place : (1 ≤ x) × (x ≤ mid_at ids 0 + 1)
  pub same_length : length out ≡ length ids
  pub count : mid_at out 0 ≡ mid_at ids 0 + 1
  pub below : (j : ℕ) → 1 ≤ j → j < x → get_or out j no_id2 ≡ get_or ids j no_id2
  pub new : get_or out x no_id2 ≡ id
  pub above :
      (j : ℕ) → x < j → j ≤ mid_at ids 0 + 1 → get_or out j no_id2 ≡ get_or ids (j - 1) no_id2

module _ (ids : List Id2) (id : Id2) (h : IsAscending ids) where
  abbrev count : ℕ
  count = mid_at ids 0

  bump_count_lem :
      count < idl_um_max
      → (mid_at (bump_count ids) 0 ≡ count + 1)
        × (length (bump_count ids) ≡ length ids)
        × ((j : ℕ) → 1 ≤ j → get_or (bump_count ids) j no_id2 ≡ get_or ids j no_id2)
  bump_count_lem lt = (
    ap Id2.mid (get_or-set_self ids 0 _ (omega (arith, h.room))) ∙ omega arith,
    length-set ids 0 _,
    λ j p. get_or-set_ne ids 0 j _ (omega arith),
  )

  pub put-IsInserted :
      (x : ℕ)
      → count < idl_um_max
      → 1 ≤ x
      → x ≤ count + 1
      → IsInserted ids id x (
          set
            (shift_up
              (u32 (mid_at (bump_count ids) 0) - x)
              (u32 (mid_at (bump_count ids) 0))
              (bump_count ids))
            x
            id)
  put-IsInserted x lt p q =
      let c = bump_count_lem lt in
      let counted = bump_count ids in
      let i = u32 (mid_at counted 0) in
      let last : i ≡ count + 1 = omega (arith, c.0) in
      let moved =
        shift_up-IsShifted (i - x) x i counted (omega arith) (omega (arith, c.1, h.room)) in
      let shifted = shift_up (i - x) i counted in
      record {
        place = (p, q);
        same_length = length-set shifted x id ∙ (moved.same_length ∙ c.1);
        count =
            ap Id2.mid (get_or-set_ne shifted x 0 id (omega arith) ∙ moved.below 0 (omega arith))
            ∙ c.0;
        below = λ j r t.
            get_or-set_ne shifted x j id (omega arith) ∙ (moved.below j (omega arith) ∙ c.2 j r);
        new = get_or-set_self shifted x id (omega (arith, moved.same_length, c.1, h.room));
        above = λ j r t.
            get_or-set_ne shifted x j id (omega arith)
            ∙ (moved.moved j r (omega arith) ∙ c.2 (j - 1) (omega arith));
      }
