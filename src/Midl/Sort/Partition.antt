-- ===== src/Midl/Sort/Partition.antt =====
-- The partition of `mdb_midl_sort` (midl.c lines 256-264): the IDs that are not below the pivot come
-- before those that are not above it.
use ligo.Prelude.{
  ℕ, zero, suc, ◌+◌, ◌-◌, ◌≤◌, ◌<◌, ◌≡◌, inl, inr, refl, ◌∙◌, arith, List, ltb, get_or, length,
  Bool-cases,
}
use native.Mathlib.Decide.{dec_le, dec_lt}
use ligo.Midl.Sort.{swap_ids, scan_up, scan_down, Parted, partition}
use ligo.Midl.Sort.Rearrange.{
  same_or_not, Rearranges, Rearranges-refl, Rearranges-trans, swap_ids-Rearranges,
}
use ligo.Midl.Sort.Scan.{
  IsFirst, IsLast, scan_up-IsFirst, scan_down-IsLast, swap_ids-first, swap_ids-second,
  swap_ids-other,
}

-- The IDs from a + 1 to i are not below x, and those from j to a + n are not above it.
record IsSplitting (a n x : ℕ) (ids : List ℕ) (i j : ℕ) : Type 0 where
  room : a + n < length ids
  low : suc (suc a) ≤ i
  order : i ≤ j
  high : j ≤ a + n
  inside : i < a + n
  far : j ≤ i → suc (suc (suc a)) ≤ i
  not_below : (p : ℕ) → a < p → p ≤ i → x ≤ get_or ids p 0
  not_above : (p : ℕ) → j ≤ p → p ≤ a + n → get_or ids p 0 ≤ x

-- The outcome: i and j have crossed.
pub record IsParted (a n x : ℕ) (ids out : List ℕ) (i j : ℕ) : Type 0 where
  pub crossed : j < i
  pub low : suc (suc a) ≤ j
  pub high : i ≤ a + n
  pub not_below : (p : ℕ) → a < p → p < i → x ≤ get_or out p 0
  pub not_above : (p : ℕ) → j < p → p ≤ a + n → get_or out p 0 ≤ x
  pub pivot : get_or out (suc (suc a)) 0 ≡ get_or ids (suc (suc a)) 0
  pub rearranged : Rearranges a n ids out

module _ (a n x : ℕ) (ids : List ℕ) (i j i' j' : ℕ) (h : IsSplitting a n x ids i j)
    (up : IsFirst ids i x i') (down : IsLast ids j x j') where
  stop_lem : j' < i' → i' ≤ a + n → suc (suc a) ≤ j' → IsParted a n x ids ids i' j'
  stop_lem crossed high low = record {
    crossed = crossed;
    low = low;
    high = high;
    not_below = λ p l u. elim (dec_le p i) [
      | yes before ↦ h.not_below p l before
      | no after ↦ omega (arith, up.passed p (omega arith) u)
    ];
    not_above = λ p l u. elim (dec_le j p) [
      | yes after ↦ h.not_above p after u
      | no before ↦ omega (arith, down.passed p l (omega arith))
    ];
    pivot = refl;
    rearranged = Rearranges-refl a n ids;
  }

  swap_lem : i' ≤ j' → IsSplitting a n x (swap_ids i' j' ids) i' j'
  swap_lem order =
      let moved =
        swap_ids-Rearranges a n i' j' ids h.room (omega (arith, h.low, up.after))
          (omega (arith, h.high, down.before)) (omega (arith, h.low, up.after))
          (omega (arith, h.high, down.before)) in
      let room = h.room in
      let first =
        swap_ids-first i' j' ids (omega (arith, h.room, h.high, down.before))
          (omega (arith, h.room, h.high, down.before)) in
      let second = swap_ids-second i' j' ids (omega (arith, h.room, h.high, down.before)) in
      record {
        room = omega (arith, moved.size, h.room);
        low = omega (arith, h.low, up.after);
        order = order;
        high = omega (arith, h.high, down.before);
        inside = omega (arith, h.high, down.before);
        far = λ o. omega (arith, h.low, up.after);
        not_below = λ p l u. elim (same_or_not i' p) [
          | inl e ↦ rw (← e, first) down.stops
          | inr ne ↦
              let kept = swap_ids-other i' j' p ids ne (λ e. absurd (omega (arith, e, ne, u))) in
              elim (dec_le p i) [
                | yes before ↦ rw kept (h.not_below p l before)
                | no after ↦ omega (arith, kept, up.passed p (omega arith) (omega (arith, ne, u)))
              ]
        ];
        not_above = λ p l u. elim (same_or_not j' p) [
          | inl e ↦ rw (← e, second) up.stops
          | inr ne ↦
              let kept = swap_ids-other i' j' p ids (λ e. absurd (omega (arith, e, ne, l))) ne in
              elim (dec_le j p) [
                | yes after ↦ rw kept (h.not_above p after u)
                | no before ↦
                    omega (arith, kept, down.passed p (omega (arith, ne, l)) (omega arith))
              ]
        ];
      }

-- Where the scans stop at the latest.
up_stop :
    (a n x : ℕ) (ids : List ℕ) (i j : ℕ)
    → IsSplitting a n x ids i j
    → (s : ℕ) × (i < s) × (s ≤ a + n) × (get_or ids s 0 ≤ x)
up_stop a n x ids i j h = elim (dec_lt i j) [
  | yes before ↦ (j, before, h.high, h.not_above j (omega arith) h.high)
  | no met ↦ (
    suc i,
    omega arith,
    omega (arith, h.inside),
    h.not_above (suc i) (omega (arith, h.order)) (omega (arith, h.inside)),
  )
]

down_stop :
    (a n x : ℕ) (ids : List ℕ) (i j : ℕ)
    → IsSplitting a n x ids i j
    → (s : ℕ) × (s < j) × (suc (suc a) ≤ s) × (x ≤ get_or ids s 0)
down_stop a n x ids i j h = elim (dec_lt i j) [
  | yes before ↦ (i, before, h.low, h.not_below i (omega (arith, h.low)) (omega arith))
  | no met ↦
      let far = h.far (omega (arith, met)) in
      (
        i - 1,
        omega (arith, h.order, far),
        omega (arith, far),
        h.not_below (i - 1) (omega (arith, far)) (omega arith),
      )
]

partition_lem :
    (k a n x : ℕ) (ids : List ℕ) (i j : ℕ)
    → j < k
    → IsSplitting a n x ids i j
    → IsParted a n x ids
        (Parted.ids (partition k ids i j x))
        (Parted.i (partition k ids i j x))
        (Parted.j (partition k ids i j x))
unfolding partition
partition_lem zero a n x ids i j fuel h = absurd (omega arith)
partition_lem (suc k) a n x ids i j fuel h =
    let (s, s_low, s_high, s_stop) = up_stop a n x ids i j h in
    let (t, t_low, t_high, t_stop) = down_stop a n x ids i j h in
    let (up, up_reach) =
      scan_up-IsFirst (length ids) ids i x s s_low (omega (arith, h.room, s_high)) s_stop in
    let (down, down_reach) = scan_down-IsLast ids j x t t_low t_stop in
    let i' = scan_up (length ids) ids i x in
    let j' = scan_down ids j x in
    elim (Bool-cases (ltb j' i')) [
      | inl crossed ↦ rw crossed (
          stop_lem a n x ids i j i' j' h up down (ground (arith, crossed))
            (omega (arith, up_reach, s_high)) (omega (arith, down_reach, t_high)))
      | inr again ↦
          let order : i' ≤ j' = ground (arith, again) in
          let next =
            partition_lem k a n x (swap_ids i' j' ids) i' j' (omega (arith, down.before, fuel))
              (swap_lem a n x ids i j i' j' h up down order) in
          let moved =
            swap_ids-Rearranges a n i' j' ids h.room (omega (arith, h.low, up.after))
              (omega (arith, h.high, down.before)) (omega (arith, h.low, up.after, order))
              (omega (arith, h.high, down.before)) in
          let kept =
            swap_ids-other i' j' (suc (suc a)) ids (λ e. absurd (omega (arith, e, h.low, up.after)))
              (λ e. absurd (omega (arith, e, h.low, up.after, order))) in
          rw again (record {
            crossed = next.crossed;
            low = next.low;
            high = next.high;
            not_below = next.not_below;
            not_above = next.not_above;
            pivot = next.pivot ∙ kept;
            rearranged = Rearranges-trans moved next.rearranged;
          })
    ]

-- From the order that the median of three leaves, with the pivot second.
pub partition-IsParted :
    (a n : ℕ) (ids : List ℕ)
    → a + n < length ids
    → 3 ≤ n
    → get_or ids (suc (suc a)) 0 ≤ get_or ids (suc a) 0
    → get_or ids (a + n) 0 ≤ get_or ids (suc (suc a)) 0
    → IsParted a n
        (get_or ids (suc (suc a)) 0)
        ids
        (Parted.ids (partition (length ids) ids (suc (suc a)) (a + n) (get_or ids (suc (suc a)) 0)))
        (Parted.i (partition (length ids) ids (suc (suc a)) (a + n) (get_or ids (suc (suc a)) 0)))
        (Parted.j (partition (length ids) ids (suc (suc a)) (a + n) (get_or ids (suc (suc a)) 0)))
partition-IsParted a n ids room long first last =
    partition_lem (length ids) a n _ ids (suc (suc a)) (a + n) room (record {
      room = room;
      low = omega arith;
      order = omega arith;
      high = omega arith;
      inside = omega arith;
      far = λ o. absurd (omega arith);
      not_below = λ p l u. elim (same_or_not p (suc a)) [
        | inl e ↦ rw e first
        | inr ne ↦ let e : p ≡ suc (suc a) = omega (arith, ne) in rw e (omega arith)
      ];
      not_above = λ p l u. let e : p ≡ a + n = omega arith in rw e last;
    })
