-- ===== src/Midl/Sort/Insertion.antt =====
-- The insertion sort of `mdb_midl_sort` (midl.c lines 233-240) puts a part of the list in descending
-- order, where the ID before the part is not below those in it.
use ligo.Prelude.{
  ℕ, zero, suc, ◌+◌, ◌-◌, ◌≤◌, ◌<◌, ◌≡◌, ◌≢◌, ◌⊎◌, inl, inr, sym, ap, ◌∙◌, arith, List, leb, get_or,
  set, length, length-set, get_or-set_self, get_or-set_ne, Bool-cases,
}
use mathlib.Core.Path.{subst}
use ligo.Midl.Merge.Order.{IsDescending, matches, tally}
use ligo.Midl.Sort.{insert_id, insertion_loop}
use ligo.Midl.Sort.Rearrange.{
  same_or_not, tally_write, Rearranges, Rearranges-refl, Rearranges-trans, Rearranges-extend,
  came_from,
}

-- The IDs at a + 1 to a + m are in order but for a hole at i + 1, and those above it are not above x.
record HasHole (a m i : ℕ) (ids : List ℕ) (x : ℕ) : Type 0 where
  room : a + m < length ids
  low : a ≤ i
  high : suc i ≤ a + m
  ordered :
      (p q : ℕ)
      → a < p
      → p ≤ q
      → q ≤ a + m
      → p ≢ suc i
      → q ≢ suc i
      → get_or ids q 0 ≤ get_or ids p 0
  above : (q : ℕ) → suc i < q → q ≤ a + m → get_or ids q 0 ≤ x
  before : 1 ≤ a → x ≤ get_or ids a 0

-- `x` is put where the hole is or before it.
record Inserts (a m i : ℕ) (ids : List ℕ) (x : ℕ) (out : List ℕ) : Type 0 where
  size : length out ≡ length ids
  ordered : IsDescending a m out
  outside : (p : ℕ) → (p ≤ a) ⊎ (a + m < p) → get_or out p 0 ≡ get_or ids p 0
  counted :
      (v : ℕ) → tally v a m out + matches v (get_or ids (suc i) 0) ≡ tally v a m ids + matches v x

fill_lem :
    (a m i : ℕ) (ids : List ℕ) (x : ℕ)
    → HasHole a m i ids x
    → ((p : ℕ) → a < p → p ≤ i → x ≤ get_or ids p 0)
    → Inserts a m i ids x (set ids (suc i) x)
fill_lem a m i ids x h below = record {
  size = length-set ids (suc i) x;
  ordered = order;
  outside = λ p o. get_or-set_ne ids (suc i) p x (ground (arith, o, h.low, h.high));
  counted = λ v.
      tally_write v a m ids (suc i) x (omega (arith, h.room, h.high)) (omega (arith, h.low)) h.high;
}
  where
    here : get_or (set ids (suc i) x) (suc i) 0 ≡ x
    here = get_or-set_self ids (suc i) x (omega (arith, h.room, h.high))

    order : IsDescending a m (set ids (suc i) x)
    order p q l le u = elim (same_or_not p (suc i)) [
      | inl p_here ↦ elim (same_or_not q (suc i)) [
        | inl q_here ↦ rw (p_here, q_here) (omega arith)
        | inr q_there ↦
            rw (p_here, here, get_or-set_ne ids (suc i) q x (λ e. q_there (sym e)))
              (h.above q (omega (arith, p_here, q_there)) u)
      ]
      | inr p_there ↦ elim (same_or_not q (suc i)) [
        | inl q_here ↦
            rw (q_here, here, get_or-set_ne ids (suc i) p x (λ e. p_there (sym e)))
              (below p l (omega (arith, q_here, p_there)))
        | inr q_there ↦
            rw
              (
                get_or-set_ne ids (suc i) p x (λ e. p_there (sym e)),
                get_or-set_ne ids (suc i) q x (λ e. q_there (sym e)),
              )
              (h.ordered p q l le u p_there q_there)
      ]
    ]

-- An ID that is below `x` moves up into the hole.
shift_lem :
    (a m i : ℕ) (ids : List ℕ) (x : ℕ)
    → HasHole a m (suc i) ids x
    → get_or ids (suc i) 0 < x
    → HasHole a m i (set ids (suc (suc i)) (get_or ids (suc i) 0)) x
shift_lem a m i ids x h less = record {
  room = omega (arith, h.room, length-set ids (suc (suc i)) y);
  low = low_lem a h.low h.before;
  high = omega (arith, h.high);
  ordered = order;
  above = λ q l u. elim (same_or_not q (suc (suc i))) [
    | inl e ↦ rw (e, here) (omega arith)
    | inr ne ↦ omega (arith, there q ne, h.above q (omega (arith, ne)) u)
  ];
  before = λ some_before.
      omega (arith, h.before some_before, there a (λ e. absurd (omega (arith, e, h.low))));
}
  where
    y : ℕ
    y = get_or ids (suc i) 0

    here :
        get_or (set ids (suc (suc i)) (get_or ids (suc i) 0)) (suc (suc i)) 0 ≡ get_or ids (suc i) 0
    here = get_or-set_self ids (suc (suc i)) _ (omega (arith, h.room, h.high))

    there :
        (p : ℕ)
        → p ≢ suc (suc i)
        → get_or (set ids (suc (suc i)) (get_or ids (suc i) 0)) p 0 ≡ get_or ids p 0
    there p ne = get_or-set_ne ids (suc (suc i)) p _ (λ e. ne (sym e))

    low_lem : (a : ℕ) → a ≤ suc i → (1 ≤ a → x ≤ get_or ids a 0) → a ≤ i
    low_lem a le before = elim (same_or_not a (suc i)) [
      | inl e ↦
          absurd (omega (arith, before (omega (arith, e)), less, ap (λ (t : ℕ). get_or ids t 0) e))
      | inr ne ↦ omega (arith, le, ne)
    ]

    low_lem' : a ≤ suc i → (1 ≤ a → x ≤ get_or ids a 0) → a < suc i
    low_lem' le before = omega (arith, low_lem a le before)

    order :
        (p q : ℕ)
        → a < p
        → p ≤ q
        → q ≤ a + m
        → p ≢ suc i
        → q ≢ suc i
        → get_or (set ids (suc (suc i)) (get_or ids (suc i) 0)) q 0
          ≤ get_or (set ids (suc (suc i)) (get_or ids (suc i) 0)) p 0
    order p q l le u p_ne q_ne = elim (same_or_not p (suc (suc i))) [
      | inl p_here ↦ elim (same_or_not q (suc (suc i))) [
        | inl q_here ↦ rw (p_here, q_here) (omega arith)
        | inr q_there ↦
            let moved =
              h.ordered (suc i) q (low_lem' h.low h.before) (omega (arith, p_here)) u
                (λ e. absurd (omega (arith, e))) q_there in
            rw (p_here, here, there q q_there) moved
      ]
      | inr p_there ↦ elim (same_or_not q (suc (suc i))) [
        | inl q_here ↦
            let moved =
              h.ordered p (suc i) l (omega (arith, q_here, p_there, p_ne)) (omega (arith, h.high))
                p_there (λ e. absurd (omega (arith, e))) in
            rw (q_here, here, there p p_there) moved
        | inr q_there ↦ rw (there p p_there, there q q_there) (h.ordered p q l le u p_there q_there)
      ]
    ]

insert_id-Inserts :
    (a m i : ℕ) (ids : List ℕ) (x : ℕ)
    → HasHole a m i ids x
    → Inserts a m i ids x (insert_id i ids x)
unfolding insert_id
insert_id-Inserts a m zero ids x h =
    fill_lem a m zero ids x h (λ p l u. absurd (omega (arith, l, u)))
insert_id-Inserts a m (suc i) ids x h = elim (Bool-cases (leb x (get_or ids (suc i) 0))) [
  | inl stop ↦ rw stop (
      fill_lem a m (suc i) ids x h (λ p l u.
        let next =
          h.ordered p (suc i) l u (omega (arith, h.high)) (λ e. absurd (omega (arith, e, u)))
            (λ e. absurd (omega (arith, e))) in
        ground (arith, next, stop)))
  | inr go ↦
      let moved = get_or ids (suc i) 0 in
      let ids' = set ids (suc (suc i)) moved in
      let next = insert_id-Inserts a m i ids' x (shift_lem a m i ids x h (ground (arith, go))) in
      rw go (record {
        size = next.size ∙ length-set ids (suc (suc i)) moved;
        ordered = next.ordered;
        outside = λ p o.
            next.outside p o
            ∙ get_or-set_ne ids (suc (suc i)) p moved (ground (arith, o, h.low, h.high));
        counted = λ v.
            let write =
              tally_write v a m ids (suc (suc i)) moved (omega (arith, h.room, h.high))
                (omega (arith, h.low)) h.high in
            let kept =
              ap (λ (t : ℕ). matches v t)
                (get_or-set_ne ids (suc (suc i)) (suc i) moved (λ e. absurd (omega (arith, e)))) in
            omega (arith, next.counted v, write, kept);
      })
]

-- The first m IDs after a are in order; the loop adds n more.
pub insertion_loop-IsDescending :
    (n a m : ℕ) (ids : List ℕ)
    → a + (m + n) < length ids
    → IsDescending a m ids
    → (1 ≤ a → (q : ℕ) → a < q → q ≤ a + (m + n) → get_or ids q 0 ≤ get_or ids a 0)
    → IsDescending a (m + n) (insertion_loop n (suc (a + m)) ids)
      × Rearranges a (m + n) ids (insertion_loop n (suc (a + m)) ids)
unfolding insertion_loop
insertion_loop-IsDescending zero a m ids room ordered before =
    let total : m + 0 ≡ m = omega arith in rw total (ordered, Rearranges-refl a m ids)
insertion_loop-IsDescending (suc n) a m ids room ordered before =
    let less : suc (a + m) - 1 ≡ a + m = omega arith in
    let x = get_or ids (suc (a + m)) 0 in
    let place : suc (a + m) ≡ a + suc m = omega arith in
    let total : suc m + n ≡ m + suc n = omega arith in
    let inserted = insert_id-Inserts a (suc m) (a + m) ids x hole in
    let step : Rearranges a (suc m) ids (insert_id (a + m) ids x) = record {
      size = inserted.size;
      outside = inserted.outside;
      same = λ v. omega (arith, inserted.counted v);
    } in
    let wide = Rearranges-extend a (suc m) n step in
    let ids' = insert_id (a + m) ids x in
    let (order, rest) =
      subst
        (λ (j : ℕ).
          IsDescending a (suc m + n) (insertion_loop n (suc j) ids')
          × Rearranges a (suc m + n) ids' (insertion_loop n (suc j) ids'))
        (sym place)
        (insertion_loop-IsDescending n a (suc m) (insert_id (a + m) ids x)
          (omega (arith, inserted.size, room)) inserted.ordered
          (λ some_before q l u.
            let (p, p_low, p_high, e) = came_from wide q l u in
            let start = wide.outside a (inl (omega arith)) in
            omega (arith, e, start, before some_before p p_low (omega (arith, p_high))))) in
    rw (less, ← total) (order, Rearranges-trans wide rest)
  where
    hole : HasHole a (suc m) (a + m) ids (get_or ids (suc (a + m)) 0)
    hole = record {
      room = omega (arith, room);
      low = omega arith;
      high = omega arith;
      ordered = λ p q l le u p_ne q_ne. ordered p q l le (omega (arith, u, q_ne));
      above = λ q l u. absurd (omega (arith, l, u));
      before = λ some_before. before some_before (suc (a + m)) (omega arith) (omega arith);
    }
