-- ===== src/Midl/Sort/Rounds.antt =====
-- One round of `mdb_midl_sort` (midl.c lines 233-278) sorts a small part or splits a large one.
use ligo.Prelude.{
  ℕ, suc, ◌+◌, ◌-◌, ◌*◌, ◌≤◌, ◌<◌, ◌≡◌, inl, inr, refl, ap, arith, List, [], ◌∷◌, ◌^◌, ◌/◌, true,
  ltb, leb, get_or, length, Bool-cases,
}
use mathlib.Core.Path.{subst}
use ligo.Midl.Merge.Order.{IsDescending}
use ligo.Midl.Sort.{
  Part, Next, sorted, more, overflowed, pop_part, push_part, insertion_loop, middle, split_at,
  split_part, sort_round,
}
use ligo.Midl.Sort.Rearrange.{Rearranges}
use ligo.Midl.Sort.Insertion.{insertion_loop-IsDescending}
use ligo.Midl.Sort.Parts.{
  IsInside, IsApart, IsBetween, weight, part_of, apart_lem, AreFitting, fit_lem, half_fit_lem,
  depth_lem, IsBetween-replaced, whole_lem,
}
use ligo.Midl.Sort.Split.{IsSplit, split_lem}

ltb_of_lt : (x y : ℕ) → x < y → ltb x y ≡ true
ltb_of_lt x y h = ground arith

-- What a round leaves: the sorted list, or less to sort.
abbrev pub IsNext : ℕ → ℕ → List ℕ → Next → Type 0
IsNext total bound ids overflowed = 1 ≤ 0
IsNext total bound ids (sorted ids') = IsDescending 0 total ids' × Rearranges 0 total ids ids'
IsNext total bound ids (more s stack ids') =
    IsBetween total (s ∷ stack) ids'
    × Rearranges 0 total ids ids'
    × (weight (s ∷ stack) < bound)
    × AreFitting total (s ∷ stack)
    × (length stack ≤ 31)

-- A smaller part.
IsApart-within :
    (s s' : Part) (stack : List Part)
    → s.l ≤ s'.l
    → s'.ir ≤ s.ir
    → IsApart s stack
    → IsApart s' stack
IsApart-within s s' [] low high h = omega arith
IsApart-within s s' (t ∷ ts) low high (here, rest) =
    (ground (arith, here, low, high), IsApart-within s s' ts low high rest)

module _ (total a n : ℕ) (stack : List Part) (ids : List ℕ) (some_ids : 1 ≤ n)
    (h : IsBetween total (part_of a n ∷ stack) ids) (fit : AreFitting total (part_of a n ∷ stack))
    (shallow : length stack ≤ 31) (small : total ≤ 0x4000_0000) where
  within : a + n ≤ total
  within = h.apart.0.2

  -- A small part is sorted.
  insertion-IsNext :
      (ids' : List ℕ)
      → IsDescending a n ids'
      → Rearranges a n ids ids'
      → IsNext total (weight (part_of a n ∷ stack)) ids (pop_part stack ids')
  unfolding pop_part
  insertion-IsNext ids' ordered moved =
      popped stack refl
        (IsBetween-replaced total a n stack ids ids' h moved stack h.apart.2 (λ p q t. t)
          (λ p q l le u. inr (ordered p q l le u)))
        (whole_lem total a n stack ids ids' h moved within) fit.1
    where
      popped :
          (ts : List Part)
          → ts ≡ stack
          → IsBetween total ts ids'
          → Rearranges 0 total ids ids'
          → AreFitting total ts
          → IsNext total (weight (part_of a n ∷ stack)) ids (pop_part ts ids')
      popped [] e between whole fits = (
        λ p q l le u. elim (between.ordered p q l le (omega arith)) [
          | inl together ↦ absurd (omega (arith, together))
          | inr ordered ↦ ordered
        ],
        whole,
      )
      popped (t ∷ ts) e between whole fits = (
        between,
        whole,
        omega (arith, ap (λ (us : List Part). weight us) e),
        fits,
        omega (arith, shallow, ap (λ (us : List Part). length us) e),
      )

  -- The IDs before the part are not below those in it.
  before_lem : 1 ≤ a → (q : ℕ) → a < q → q ≤ a + n → get_or ids q 0 ≤ get_or ids a 0
  before_lem some_before q l u =
      elim (h.ordered a q some_before (omega arith) (omega (arith, within))) [
        | inl together ↦ elim together [
          | inl both ↦ absurd (omega (arith, both.0))
          | inr later ↦ absurd (
              omega (
                arith,
                apart_lem (part_of a n) stack a q q h.apart.1 l u (omega arith) (omega arith) later,
              ))
        ]
        | inr ordered ↦ ordered
      ]

  inserted_lem :
      IsDescending a n (insertion_loop (a + n - suc a) (suc a + 1) ids)
      × Rearranges a n ids (insertion_loop (a + n - suc a) (suc a + 1) ids)
  inserted_lem =
      let rounds : a + n - suc a ≡ n - 1 = omega arith in
      let start : suc a + 1 ≡ suc (a + 1) = omega arith in
      let sum : 1 + (n - 1) ≡ n = omega (arith, some_ids) in
      let one : IsDescending a 1 ids =
        λ p q l le u. let e : q ≡ p = omega arith in rw e (omega arith) in
      rw (rounds, start)
        (subst
          (λ (m : ℕ).
            IsDescending a m (insertion_loop (n - 1) (suc (a + 1)) ids)
            × Rearranges a m ids (insertion_loop (n - 1) (suc (a + 1)) ids))
          sum
          (insertion_loop-IsDescending (n - 1) a 1 ids (omega (arith, sum, within, h.room)) one
            (λ some_before q l u. before_lem some_before q l (omega (arith, sum)))))

  -- A large part is split.
  split-IsNext :
      (ids' : List ℕ) (i j : ℕ)
      → IsSplit a n ids ids' i j
      → IsNext total (weight (part_of a n ∷ stack)) ids (push_part (part_of a n) stack i j ids')
  unfolding push_part
  split-IsNext ids' i j s =
      let whole = whole_lem total a n stack ids ids' h s.rearranged within in
      let left : Part = record { l = suc a; ir = j - 1 } in
      let right : Part = record { l = i; ir = a + n } in
      let left_in : IsInside total left =
        (omega arith, omega (arith, s.low), omega (arith, s.crossed, s.high, within)) in
      let right_in : IsInside total right = (omega (arith, s.crossed), s.high, within) in
      let left_apart =
        IsApart-within (part_of a n) left stack (omega arith) (omega (arith, s.crossed, s.high))
          h.apart.1 in
      let right_apart =
        IsApart-within (part_of a n) right stack (omega (arith, s.low, s.crossed)) (omega arith)
          h.apart.1 in
      let smaller : 2 * (j - 1 - suc a) + 1 + (2 * (a + n - i) + 1) < 2 * (a + n - suc a) + 1 =
        omega (arith, s.low, s.crossed, s.high) in
      let size : a + n + 1 - suc a ≡ n = omega arith in
      let whole_fits : n * 2 ^ length stack ≤ total = rw (← size) fit.0 in
      let deep = depth_lem n (length stack) total some_ids (omega (arith, small)) whole_fits in
      elim (Bool-cases (leb (j - suc a) (a + n - i + 1))) [
        | inl left_first ↦ rw left_first (
          IsBetween-replaced total a n stack ids ids' h s.rearranged (left ∷ right ∷ stack)
              (
                left_in,
                (inl (omega (arith, s.crossed, s.low)), left_apart),
                (right_in, right_apart, h.apart.2),
              )
              (λ p q t. inr (inr t))
              (λ p q l le u. elim (s.ordered p q l le u) [
                | inl before ↦ inl (inl (omega arith, omega arith))
                | inr rest ↦ elim rest [
                  | inl after ↦ inl (inr (inl (after, u)))
                  | inr ordered ↦ inr ordered
                ]
              ]),
          whole,
          omega (arith, smaller),
          (
            half_fit_lem (j - 1 + 1 - suc a) n (length stack) total
                (ground (arith, left_first, s.low, s.crossed, s.high)) whole_fits,
            (
              fit_lem (a + n + 1 - i) n (2 ^ length stack) total (omega (arith, s.low, s.crossed))
                  whole_fits,
              fit.1,
            ),
          ),
          deep,
        )
        | inr right_first ↦ rw right_first (
          IsBetween-replaced total a n stack ids ids' h s.rearranged (right ∷ left ∷ stack)
              (
                right_in,
                (inr (omega (arith, s.crossed, s.low)), right_apart),
                (left_in, left_apart, h.apart.2),
              )
              (λ p q t. inr (inr t))
              (λ p q l le u. elim (s.ordered p q l le u) [
                | inl before ↦ inl (inr (inl (omega arith, omega arith)))
                | inr rest ↦ elim rest [
                  | inl after ↦ inl (inl (after, u))
                  | inr ordered ↦ inr ordered
                ]
              ]),
          whole,
          omega (arith, smaller),
          (
            half_fit_lem (a + n + 1 - i) n (length stack) total
                (ground (arith, right_first, s.low, s.crossed, s.high)) whole_fits,
            (
              fit_lem (j - 1 + 1 - suc a) n (2 ^ length stack) total
                  (omega (arith, s.low, s.crossed, s.high)) whole_fits,
              fit.1,
            ),
          ),
          deep,
        )
      ]

  -- The sum of the part's bounds is an `int`.
  split_part-split_at :
      2 ≤ n
      → split_part (part_of a n) stack ids
        ≡ split_at ((suc a + (a + n)) / 2) (part_of a n) stack ids
  unfolding split_part middle
  split_part-split_at two =
      let sum : suc a + (a + n) < 0x8000_0000 = omega (arith, within, small, two) in
      let fits : ltb (suc a + (a + n)) 0x8000_0000 ≡ true = ltb_of_lt _ _ sum in
      rw (split_part, fits) refl

  pub round_lem :
      IsNext total (weight (part_of a n ∷ stack)) ids (sort_round (part_of a n) stack ids)
  unfolding sort_round split_at
  round_lem = elim (Bool-cases (ltb (a + n - suc a) 8)) [
    | inl short ↦ rw short (insertion-IsNext _ inserted_lem.0 inserted_lem.1)
    | inr long ↦
        rw (long, split_part-split_at (ground (arith, long)))
          (split-IsNext _ _ _ (
            split_lem ((suc a + (a + n)) / 2) a n ids (suc a + 1) _ _
              (omega (arith, within, h.room)) (ground (arith, long)) (omega arith)
              (ground (arith, long)) (omega arith) refl refl))
  ]
