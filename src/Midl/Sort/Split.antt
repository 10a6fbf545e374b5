-- ===== src/Midl/Sort/Split.antt =====
-- What the `else` branch of `mdb_midl_sort` (midl.c lines 245-266) does to a part of the list.
use ligo.Prelude.{
  ℕ, suc, ◌+◌, ◌≤◌, ◌<◌, ◌≡◌, ◌⊎◌, inl, inr, refl, sym, ap, ap₂, ◌∙◌, arith, List, get_or, set,
  length,
}
use mathlib.Core.Path.{subst}
use native.Mathlib.Decide.{dec_lt}
use ligo.Midl.Sort.{swap_ids, order_three, partition, Parted}
use ligo.Midl.Sort.Rearrange.{same_or_not, Rearranges, Rearranges-trans, swap_ids-Rearranges}
use ligo.Midl.Sort.Scan.{order_three-ordered, swap_ids-first, swap_ids-second, swap_ids-other}
use ligo.Midl.Sort.Partition.{IsParted, partition-IsParted}

-- The IDs before `j`, those from `i` on and those between are in order among each other.
pub record IsSplit (a n : ℕ) (ids ids' : List ℕ) (i j : ℕ) : Type 0 where
  pub crossed : j < i
  pub low : suc (suc a) ≤ j
  pub high : i ≤ a + n
  pub rearranged : Rearranges a n ids ids'
  pub ordered :
      (p q : ℕ)
      → a < p
      → p ≤ q
      → q ≤ a + n
      → (q < j) ⊎ ((i ≤ p) ⊎ (get_or ids' q 0 ≤ get_or ids' p 0))

-- The list after `ids[l+1] = ids[j]; ids[j] = a;`.
abbrev pub place_pivot : ℕ → ℕ → Parted → List ℕ
place_pivot at x t = set (set t.ids at (get_or t.ids t.j 0)) t.j x

placed_lem :
    (a n x : ℕ) (ids out : List ℕ) (i j : ℕ)
    → a + n < length out
    → get_or ids (suc (suc a)) 0 ≡ x
    → IsParted a n x ids out i j
    → IsSplit a n ids (swap_ids (suc (suc a)) j out) i j
placed_lem a n x ids out i j room pivot h =
    let second : suc (suc a) ≤ a + n = omega (arith, h.low, h.crossed, h.high) in
    let first_read =
      swap_ids-first (suc (suc a)) j out (omega (arith, room, second))
        (omega (arith, room, h.crossed, h.high)) in
    let second_read =
      swap_ids-second (suc (suc a)) j out (omega (arith, room, h.crossed, h.high)) in
    let pivot_read = h.pivot ∙ pivot in
    let not_below : (p : ℕ) → a < p → p < i → x ≤ get_or (swap_ids (suc (suc a)) j out) p 0 =
      λ p l u. elim (same_or_not (suc (suc a)) p) [
        | inl e ↦ rw (← e, first_read) (h.not_below j (omega (arith, h.low)) h.crossed)
        | inr ne ↦ elim (same_or_not j p) [
          | inl e ↦ rw (← e, second_read) (omega (arith, pivot_read))
          | inr other ↦ rw (swap_ids-other (suc (suc a)) j p out ne other) (h.not_below p l u)
        ]
      ] in
    let not_above : (q : ℕ) → j ≤ q → q ≤ a + n → get_or (swap_ids (suc (suc a)) j out) q 0 ≤ x =
      λ q l u. elim (same_or_not j q) [
        | inl e ↦ rw (← e, second_read) (omega (arith, pivot_read))
        | inr ne ↦
            rw
              (swap_ids-other (suc (suc a)) j q out (λ e. absurd (omega (arith, e, l, ne, h.low)))
                ne)
              (h.not_above q (omega (arith, l, ne)) u)
      ] in
    record {
      crossed = h.crossed;
      low = h.low;
      high = h.high;
      rearranged = Rearranges-trans h.rearranged (
          swap_ids-Rearranges a n (suc (suc a)) j out room (omega arith) second
            (omega (arith, h.low)) (omega (arith, h.crossed, h.high)));
      ordered = λ p q l le u. elim (dec_lt q j) [
        | yes before ↦ inl before
        | no q_after ↦ elim (dec_lt p i) [
          | no after ↦ inr (inl (omega arith))
          | yes p_before ↦
              inr (inr (omega (arith, not_below p l p_before, not_above q (omega arith) u)))
        ]
      ];
    }

-- The branch, from the list to the one with the pivot in its place.
pub split_lem :
    (k a n : ℕ) (ids : List ℕ) (at x : ℕ) (t : Parted)
    → a + n < length ids
    → 3 ≤ n
    → a < k
    → k ≤ a + n
    → at ≡ suc (suc a)
    → x ≡ get_or (order_three k (suc a) (a + n) ids) at 0
    → t ≡ partition (length ids) (order_three k (suc a) (a + n) ids) at (a + n) x
    → IsSplit a n ids (place_pivot at x t) t.i t.j
unfolding swap_ids
split_lem k a n ids at x t room long from_a to_end at_eq x_eq t_eq =
    let ordered = order_three k (suc a) (a + n) ids in
    let (moved, first, last) = order_three-ordered k a n ids room long from_a to_end in
    let second : suc a + 1 ≡ suc (suc a) = omega arith in
    let ss = suc (suc a) in
    let y = get_or ordered ss 0 in
    let out = partition (length ids) ordered ss (a + n) y in
    let parted : IsParted a n y ordered out.ids out.i out.j =
      subst
        (λ (m : ℕ).
          IsParted a n y ordered (Parted.ids (partition m ordered ss (a + n) y))
            (Parted.i (partition m ordered ss (a + n) y))
            (Parted.j (partition m ordered ss (a + n) y)))
        moved.size
        (partition-IsParted a n ordered (omega (arith, moved.size, room)) long
          (subst (λ (m : ℕ). get_or ordered m 0 ≤ get_or ordered (suc a) 0) second first)
          (subst (λ (m : ℕ). get_or ordered (a + n) 0 ≤ get_or ordered m 0) second last)) in
    let placed =
      placed_lem a n y ordered out.ids out.i out.j
        (omega (arith, parted.rearranged.size, moved.size, room)) refl parted in
    let same : place_pivot ss y out ≡ swap_ids ss out.j out.ids =
      ap (λ (v : ℕ). set (set out.ids ss (get_or out.ids out.j 0)) out.j v) (sym parted.pivot) in
    let x_same : x ≡ y = x_eq ∙ ap (λ (m : ℕ). get_or ordered m 0) at_eq in
    let t_same : t ≡ out =
      t_eq ∙ ap₂ (λ (m v : ℕ). partition (length ids) ordered m (a + n) v) at_eq x_same in
    rw (t_same, at_eq, x_same, same)
      (record {
        crossed = placed.crossed;
        low = placed.low;
        high = placed.high;
        rearranged = Rearranges-trans moved placed.rearranged;
        ordered = placed.ordered;
      })
