-- ===== src/Midl/Sort/Scan.antt =====
-- The scans of the partition and the median of three in `mdb_midl_sort` (midl.c lines 245-261).
use ligo.Prelude.{
  ℕ, zero, suc, ◌+◌, ◌≤◌, ◌<◌, ◌≡◌, ◌≢◌, inl, inr, refl, ap, ◌∙◌, arith, List, ltb, if◌then◌else◌,
  get_or, set, length, length-set, get_or-set_self, get_or-set_ne, Bool-cases,
}
use ligo.Midl.Sort.{swap_ids, order_three, scan_up, scan_down}
use ligo.Midl.Sort.Rearrange.{
  same_or_not, Rearranges, Rearranges-refl, Rearranges-trans, swap_ids-Rearranges,
}

-- The first ID after `i` that is not above `x`.
pub record IsFirst (ids : List ℕ) (i x i' : ℕ) : Type 0 where
  pub after : i < i'
  pub stops : get_or ids i' 0 ≤ x
  pub passed : (p : ℕ) → i < p → p < i' → x < get_or ids p 0

pub scan_up-IsFirst :
    (n : ℕ) (ids : List ℕ) (i x s : ℕ)
    → i < s
    → s ≤ i + n
    → get_or ids s 0 ≤ x
    → IsFirst ids i x (scan_up n ids i x) × (scan_up n ids i x ≤ s)
unfolding scan_up
scan_up-IsFirst zero ids i x s low high stop = absurd (omega arith)
scan_up-IsFirst (suc n) ids i x s low high stop = elim (Bool-cases (ltb x (get_or ids (suc i) 0))) [
  | inl pass ↦
      let apart : s ≢ suc i =
        λ e. absurd (ground (arith, pass, stop, ap (λ (t : ℕ). get_or ids t 0) e)) in
      let (rest, reach) =
        scan_up-IsFirst n ids (suc i) x s (omega (arith, apart, low)) (omega arith) stop in
      rw pass (
        record {
          after = omega (arith, rest.after);
          stops = rest.stops;
          passed = λ p l u. elim (same_or_not p (suc i)) [
            | inl e ↦ rw e (ground (arith, pass))
            | inr ne ↦ rest.passed p (omega (arith, l, ne)) u
          ];
        },
        reach,
      )
  | inr halt ↦ rw halt (
    record {
      after = omega arith;
      stops = ground (arith, halt);
      passed = λ p l u. absurd (omega (arith, l, u));
    },
    omega arith,
  )
]

-- The last ID before `j` that is not below `x`.
pub record IsLast (ids : List ℕ) (j x j' : ℕ) : Type 0 where
  pub before : j' < j
  pub stops : x ≤ get_or ids j' 0
  pub passed : (p : ℕ) → j' < p → p < j → get_or ids p 0 < x

pub scan_down-IsLast :
    (ids : List ℕ) (j x s : ℕ)
    → s < j
    → x ≤ get_or ids s 0
    → IsLast ids j x (scan_down ids j x) × (s ≤ scan_down ids j x)
unfolding scan_down
scan_down-IsLast ids zero x s low stop = absurd (omega arith)
scan_down-IsLast ids (suc j) x s low stop = elim (Bool-cases (ltb (get_or ids j 0) x)) [
  | inl pass ↦
      let apart : s ≢ j =
        λ e. absurd (ground (arith, pass, stop, ap (λ (t : ℕ). get_or ids t 0) e)) in
      let (rest, reach) = scan_down-IsLast ids j x s (omega (arith, apart, low)) stop in
      rw pass (
        record {
          before = omega (arith, rest.before);
          stops = rest.stops;
          passed = λ p l u. elim (same_or_not p j) [
            | inl e ↦ rw e (ground (arith, pass))
            | inr ne ↦ rest.passed p l (omega (arith, u, ne))
          ];
        },
        reach,
      )
  | inr halt ↦ rw halt (
    record {
      before = omega arith;
      stops = ground (arith, halt);
      passed = λ p l u. absurd (omega (arith, l, u));
    },
    omega arith,
  )
]

-- What a swap reads.
pub swap_ids-first :
    (p q : ℕ) (xs : List ℕ)
    → p < length xs
    → q < length xs
    → get_or (swap_ids p q xs) p 0 ≡ get_or xs q 0
unfolding swap_ids
swap_ids-first p q xs p_in q_in = elim (same_or_not q p) [
  | inl e ↦ rw e (
      get_or-set_self (set xs p (get_or xs p 0)) p (get_or xs p 0)
        (omega (arith, p_in, length-set xs p (get_or xs p 0))))
  | inr ne ↦
      get_or-set_ne (set xs p (get_or xs q 0)) q p (get_or xs p 0) ne
      ∙ get_or-set_self xs p (get_or xs q 0) p_in
]

pub swap_ids-second :
    (p q : ℕ) (xs : List ℕ) → q < length xs → get_or (swap_ids p q xs) q 0 ≡ get_or xs p 0
unfolding swap_ids
swap_ids-second p q xs q_in =
    get_or-set_self (set xs p (get_or xs q 0)) q (get_or xs p 0)
      (omega (arith, q_in, length-set xs p (get_or xs q 0)))

pub swap_ids-other :
    (p q t : ℕ) (xs : List ℕ) → p ≢ t → q ≢ t → get_or (swap_ids p q xs) t 0 ≡ get_or xs t 0
unfolding swap_ids
swap_ids-other p q t xs p_ne q_ne =
    get_or-set_ne (set xs p (get_or xs q 0)) q t (get_or xs p 0) q_ne
    ∙ get_or-set_ne xs p t (get_or xs q 0) p_ne

-- The larger of two IDs comes first.
abbrev larger_first : ℕ → ℕ → List ℕ → List ℕ
larger_first p q xs = if ltb (get_or xs p 0) (get_or xs q 0) then swap_ids p q xs else xs

record IsOrdered (a n p q : ℕ) (xs ys : List ℕ) : Type 0 where
  rearranged : Rearranges a n xs ys
  ordered : get_or ys q 0 ≤ get_or ys p 0
  at_least : (b : ℕ) → b ≤ get_or xs p 0 → b ≤ get_or xs q 0 → b ≤ get_or ys q 0
  at_most : get_or ys q 0 ≤ get_or xs q 0
  other : (t : ℕ) → p ≢ t → q ≢ t → get_or ys t 0 ≡ get_or xs t 0

larger_first-IsOrdered :
    (a n p q : ℕ) (xs : List ℕ)
    → a + n < length xs
    → a < p
    → p ≤ a + n
    → a < q
    → q ≤ a + n
    → IsOrdered a n p q xs (larger_first p q xs)
larger_first-IsOrdered a n p q xs room pl ph ql qh =
    elim (Bool-cases (ltb (get_or xs p 0) (get_or xs q 0))) [
      | inl less ↦
          let first = swap_ids-first p q xs (omega (arith, room, ph)) (omega (arith, room, qh)) in
          let second = swap_ids-second p q xs (omega (arith, room, qh)) in
          rw less (record {
            rearranged = swap_ids-Rearranges a n p q xs room pl ph ql qh;
            ordered = ground (arith, first, second, less);
            at_least = λ b hp hq. omega (arith, second, hp);
            at_most = ground (arith, second, less);
            other = λ t p_ne q_ne. swap_ids-other p q t xs p_ne q_ne;
          })
      | inr rest ↦ rw rest (record {
        rearranged = Rearranges-refl a n xs;
        ordered = ground (arith, rest);
        at_least = λ b hp hq. hq;
        at_most = omega arith;
        other = λ t p_ne q_ne. refl;
      })
    ]

-- The median of three stands second, between the two others.
pub order_three-ordered :
    (k a n : ℕ) (xs : List ℕ)
    → a + n < length xs
    → 3 ≤ n
    → a < k
    → k ≤ a + n
    → Rearranges a n xs (order_three k (suc a) (a + n) xs)
      × (get_or (order_three k (suc a) (a + n) xs) (suc a + 1) 0
          ≤ get_or (order_three k (suc a) (a + n) xs) (suc a) 0)
      × (get_or (order_three k (suc a) (a + n) xs) (a + n) 0
          ≤ get_or (order_three k (suc a) (a + n) xs) (suc a + 1) 0)
unfolding order_three
order_three-ordered k a n xs room long low high =
    let l = suc a in
    let r = a + n in
    let xs1 = swap_ids k (l + 1) xs in
    let xs2 = larger_first l r xs1 in
    let xs3 = larger_first (l + 1) r xs2 in
    let s1 = swap_ids-Rearranges a n k (l + 1) xs room low high (omega arith) (omega arith) in
    let h2 =
      larger_first-IsOrdered a n l r xs1 (omega (arith, s1.size, room)) (omega arith) (omega arith)
        (omega arith) (omega arith) in
    let h3 =
      larger_first-IsOrdered a n (l + 1) r xs2 (omega (arith, s1.size, h2.rearranged.size, room))
        (omega arith) (omega arith) (omega arith) (omega arith) in
    let h4 =
      larger_first-IsOrdered a n l (l + 1) xs3
        (omega (arith, s1.size, h2.rearranged.size, h3.rearranged.size, room)) (omega arith)
        (omega arith) (omega arith) (omega arith) in
    let first_kept =
      h3.other l (λ e. absurd (omega (arith, e))) (λ e. absurd (omega (arith, e, long))) in
    let last_kept =
      h4.other r (λ e. absurd (omega (arith, e, long))) (λ e. absurd (omega (arith, e, long))) in
    (
      Rearranges-trans s1
          (Rearranges-trans h2.rearranged (Rearranges-trans h3.rearranged h4.rearranged)),
      h4.ordered,
      omega (
        arith,
        last_kept,
        h4.at_least _ (omega (arith, first_kept, h3.at_most, h2.ordered)) h3.ordered,
      ),
    )
