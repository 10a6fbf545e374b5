-- ===== src/Midl/Search/Loop.antt =====
-- The loop of both searches: it ends, and its result splits the elements at the ID.
use ligo.Prelude.{ℕ, zero, suc, ◌+◌, ◌-◌, ◌/◌, ◌^◌, ◌≤◌, ◌<◌, ◌≡◌, ◌⊎◌, inl, inr, refl, arith, List}
use ligo.Prelude.{length, ltb, get_or, true, false, Bool-cases}
use ligo.Prelude.Int.{ℤ, pos, negsuc}
use native.Mathlib.Nat.{pow-suc}
use ligo.Midl.Search.{
  u32, compare_ids, Locals, Outcome, found, continue, branch, search_round, leave, search_loop,
  start, midl_search,
}

-- An element that stands before the ID, and one that stands after it.
abbrev pub IsBefore : ℤ → Type 0
IsBefore (pos zero) = ⊥
IsBefore (pos (suc k)) = Unit
IsBefore (negsuc k) = ⊥

abbrev pub IsAfter : ℤ → Type 0
IsAfter (pos k) = ⊥
IsAfter (negsuc k) = Unit

-- The elements 1 to `count` are in order: those before the ID come first, those after it last.
pub record IsMonotone (order : ℕ → ℤ) (count : ℕ) : Type 0 where
  pub before : (i j : ℕ) → 1 ≤ i → i ≤ j → j ≤ count → IsBefore (order j) → IsBefore (order i)
  pub after : (i j : ℕ) → 1 ≤ i → i ≤ j → j ≤ count → IsAfter (order i) → IsAfter (order j)

-- Index `p` holds the ID, or the elements below `p` are before the ID and all others after it.
abbrev pub Splits : (ℕ → ℤ) → ℕ → ℕ → Type 0
Splits order count p =
    ((1 ≤ p) × (p ≤ count) × (order p ≡ pos 0))
    ⊎ ((1 ≤ p)
        × (p ≤ count + 1)
        × ((i : ℕ) → 1 ≤ i → i < p → IsBefore (order i))
        × ((i : ℕ) → p ≤ i → i ≤ count → IsAfter (order i)))

-- Where the cursor stands, by the last comparison.
abbrev Placed : ℤ → Locals → Type 0
Placed (pos zero) s = (s.base ≡ 0) × (s.cursor ≡ 1)
Placed (pos (suc k)) s = s.cursor ≡ s.base
Placed (negsuc k) s = s.cursor ≡ s.base + s.n + 1

record IsInv (order : ℕ → ℤ) (count : ℕ) (s : Locals) : Type 0 where
  inside : s.base + s.n ≤ count
  below : (i : ℕ) → 1 ≤ i → i ≤ s.base → IsBefore (order i)
  above : (i : ℕ) → s.base + s.n < i → i ≤ count → IsAfter (order i)
  placed : Placed s.val s

leave_base :
    (v : ℤ) (s : Locals) (count : ℕ)
    → s.val ≡ v
    → Placed v s
    → s.n ≡ 0
    → s.base ≤ count
    → count < 0x8000_0000
    → leave s ≡ s.base + 1
unfolding leave
leave_base (pos zero) s count e p z le small = rw e (omega arith)
leave_base (pos (suc k)) s count e p z le small =
    let positive : ltb 0 (suc k) ≡ true = ground arith in rw (e, positive) (omega arith)
leave_base (negsuc k) s count e p z le small = rw e (omega arith)

module _ (order : ℕ → ℤ) (count : ℕ) (mono : IsMonotone order count)
    (small : count < 0x8000_0000) where
  leave-Splits : (s : Locals) → IsInv order count s → s.n ≡ 0 → Splits order count (leave s)
  leave-Splits s h z =
      rw (leave_base s.val s count refl h.placed z (omega (arith, h.inside)) small) (
        inr (
          omega arith,
          omega (arith, h.inside),
          λ i p q. h.below i p (omega arith),
          λ i p q. h.above i (omega arith) q,
        ))

  -- What a round leads to.
  Goes : Locals → Outcome → Type 0
  Goes s (found p) = Splits order count p
  Goes s (continue t) = IsInv order count t × (t.n ≤ s.n / 2)

  branch-Goes :
      (v : ℤ) (s : Locals) (cursor : ℕ)
      → 0 < s.n
      → IsInv order count s
      → cursor ≡ s.base + s.n / 2 + 1
      → order cursor ≡ v
      → Goes s (branch v (s.n / 2) (record s { cursor = cursor }))
  unfolding branch Goes
  branch-Goes (pos zero) s cursor p h e o = inl (omega arith, omega (arith, h.inside), o)
  branch-Goes (pos (suc k)) s cursor p h e o =
      let left : u32 (s.n + 0x1_0000_0000 - u32 (s.n / 2 + 1)) ≡ s.n - (s.n / 2 + 1) =
        omega (arith, h.inside) in
      rw left (
        record {
          inside = omega (arith, h.inside);
          below = λ i q r. mono.before i cursor q r (omega (arith, h.inside)) (rw o tt);
          above = λ i q r. h.above i (omega arith) r;
          placed = refl;
        },
        omega arith,
      )
  branch-Goes (negsuc k) s cursor p h e o = (
    record {
      inside = omega (arith, h.inside);
      below = h.below;
      above = λ i q r. mono.after cursor i (omega arith) (omega arith) r (rw o tt);
      placed = e;
    },
    omega arith,
  )

  search_round-Goes : (s : Locals) → 0 < s.n → IsInv order count s → Goes s (search_round order s)
  unfolding search_round
  search_round-Goes s p h =
      branch-Goes (order (u32 (u32 (s.base + s.n / 2) + 1))) s _ p h (omega (arith, h.inside)) refl

  search_loop-Splits :
      (k : ℕ) (s : Locals)
      → s.n < 2 ^ k
      → IsInv order count s
      → Splits order count (search_loop (suc k) order s)
  unfolding search_loop Goes
  search_loop-Splits zero s fits h =
      let done : ltb 0 s.n ≡ false = ground arith in rw done (leave-Splits s h (omega arith))
  search_loop-Splits (suc k) s fits h = elim (Bool-cases (ltb 0 s.n)) [
    | inr done ↦ rw done (leave-Splits s h (ground arith))
    | inl more ↦
        let goes = search_round-Goes s (ground arith) h in
        rw more (
          (elim (search_round order s)
              as (λ o.
                Goes s o
                → Splits order count
                    (elim o [ found cursor ↦ cursor | continue t ↦ search_loop (suc k) order t ])) [
                      | found p ↦ λ g. g
                      | continue t ↦
                          λ g. search_loop-Splits k t (omega (arith, g.1, pow-suc 2 k)) g.0
                    ])
            goes)
  ]

  -- A search over at most 2^31 - 1 elements in order ends, and its result splits them.
  pub search-Splits : Splits order count (search_loop 33 order (start count))
  search-Splits = search_loop-Splits 32 (start count) (omega arith) (record {
    inside = omega arith;
    below = λ i p q. absurd (omega arith);
    above = λ i p q. absurd (omega arith);
    placed = (refl, refl);
  })

-- The count of a list, and its elements in descending order.
pub record IsDescending (ids : List ℕ) : Type 0 where
  pub descending : (i j : ℕ) → 1 ≤ i → i ≤ j → j ≤ get_or ids 0 0 → get_or ids j 0 ≤ get_or ids i 0

pub IsBefore-lt : (x y : ℕ) → IsBefore (compare_ids x y) → y < x
IsBefore-lt x y h = elim (Bool-cases (ltb x y)) [
  | inl e ↦ absurd (rw e at h)
  | inr e ↦ elim (Bool-cases (ltb y x)) [ inl f ↦ ground arith | inr f ↦ absurd (rw (e, f) at h) ]
]

pub lt-IsBefore : (x y : ℕ) → y < x → IsBefore (compare_ids x y)
lt-IsBefore x y h =
    let not_less : ltb x y ≡ false = ground arith in
    let greater : ltb y x ≡ true = ground arith in rw (not_less, greater) tt

pub IsAfter-lt : (x y : ℕ) → IsAfter (compare_ids x y) → x < y
IsAfter-lt x y h = elim (Bool-cases (ltb x y)) [
  | inl e ↦ ground arith
  | inr e ↦ elim (Bool-cases (ltb y x)) [
    | inl f ↦ absurd (rw (e, f) at h)
    | inr f ↦ absurd (rw (e, f) at h)
  ]
]

pub lt-IsAfter : (x y : ℕ) → x < y → IsAfter (compare_ids x y)
lt-IsAfter x y h = let less : ltb x y ≡ true = ground arith in rw less tt

pub hit_eq : (x y : ℕ) → compare_ids x y ≡ pos 0 → x ≡ y
hit_eq x y h = ground arith

-- On a list that holds the IDs it counts, fewer than 2^31, in descending order, `mdb_midl_search` returns an index that
-- holds the ID, or else the first index whose ID is less (the elements before it are greater).
pub midl_search-Splits :
    (ids : List ℕ) (id : ℕ)
    → IsDescending ids
    → get_or ids 0 0 < length ids
    → get_or ids 0 0 < 0x8000_0000
    → let p = midl_search ids id in
      ((1 ≤ p) × (p ≤ get_or ids 0 0) × (get_or ids p 0 ≡ id))
      ⊎ ((1 ≤ p)
          × (p ≤ get_or ids 0 0 + 1)
          × ((i : ℕ) → 1 ≤ i → i < p → id < get_or ids i 0)
          × ((i : ℕ) → p ≤ i → i ≤ get_or ids 0 0 → get_or ids i 0 < id))
unfolding midl_search
midl_search-Splits ids id d room small =
    let count = get_or ids 0 0 in
    let order = λ (c : ℕ). compare_ids (get_or ids c 0) id in
    let mono : IsMonotone order count = record {
      before = λ i j p q r h.
          lt-IsBefore _ id (omega (arith, IsBefore-lt _ id h, d.descending i j p q r));
      after =
          λ i j p q r h. lt-IsAfter _ id (omega (arith, IsAfter-lt _ id h, d.descending i j p q r));
    } in
    elim (search-Splits order count mono small) [
      | inl (a, b, e) ↦ inl (a, b, hit_eq _ _ e)
      | inr (a, b, lo, hi) ↦
          inr (a, b, λ i p q. IsBefore-lt _ _ (lo i p q), λ i p q. IsAfter-lt _ _ (hi i p q))
    ]
