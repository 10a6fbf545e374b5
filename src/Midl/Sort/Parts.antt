-- ===== src/Midl/Sort/Parts.antt =====
-- The parts of a list that `mdb_midl_sort` has still to sort, and the order of the rest.
use ligo.Prelude.{
  ℕ, suc, ◌+◌, ◌-◌, ◌*◌, ◌^◌, ◌≤◌, ◌<◌, ◌≡◌, ◌⊎◌, inl, inr, ap, ap₂, arith, List, [], ◌∷◌, get_or,
  length,
}
use native.Mathlib.Nat.{pow-succ', pow-le-pow_right}
use native.Mathlib.Decide.{dec_le}
use ligo.Midl.Sort.{Part}
use ligo.Midl.Sort.Rearrange.{Rearranges, Rearranges-widen, came_from}

abbrev pub IsInside : ℕ → Part → Type 0
IsInside total s = (1 ≤ s.l) × (s.l ≤ s.ir) × (s.ir ≤ total)

-- The part has no index in common with the others.
abbrev pub IsApart : Part → List Part → Type 0
IsApart s [] = 0 ≤ 0
IsApart s (t ∷ ts) = ((s.ir < t.l) ⊎ (t.ir < s.l)) × IsApart s ts

abbrev pub AreParts : ℕ → List Part → Type 0
AreParts total [] = 0 ≤ 0
AreParts total (s ∷ ss) = IsInside total s × IsApart s ss × AreParts total ss

-- Both indices are in one of the parts.
abbrev pub AreTogether : ℕ → ℕ → List Part → Type 0
AreTogether p q [] = 1 ≤ 0
AreTogether p q (s ∷ ss) = ((s.l ≤ p) × (q ≤ s.ir)) ⊎ AreTogether p q ss

-- Twice the number of IDs in the parts, less one for each of them.
abbrev pub weight : List Part → ℕ
weight [] = 0
weight (s ∷ ss) = 2 * (s.ir - s.l) + 1 + weight ss

-- A part has at most 1 / 2^d of the IDs where d parts are below it.
abbrev pub AreFitting : ℕ → List Part → Type 0
AreFitting total [] = 0 ≤ 0
AreFitting total (s ∷ ss) = ((s.ir + 1 - s.l) * 2 ^ length ss ≤ total) × AreFitting total ss

-- A part that is not larger, and one of at most half the size.
pub fit_lem : (x s p total : ℕ) → x ≤ s → s * p ≤ total → x * p ≤ total
fit_lem x s p total le h =
    let parts : s ≡ x + (s - x) = omega arith in omega (arith, h, ap (λ (t : ℕ). t * p) parts)

pub half_fit_lem : (x s d total : ℕ) → 2 * x ≤ s → s * 2 ^ d ≤ total → x * 2 ^ suc d ≤ total
half_fit_lem x s d total le h =
    let twice = ap (λ (t : ℕ). x * t) (pow-succ' 2 d) in
    omega (arith, twice, fit_lem (2 * x) s (2 ^ d) total le h)

-- Where a part has an ID, there are fewer than 31 below it.
pub depth_lem : (s d total : ℕ) → 1 ≤ s → total < 0x8000_0000 → s * 2 ^ d ≤ total → suc d ≤ 31
depth_lem s d total some small h = elim (dec_le d 30) [
  | yes shallow ↦ omega (arith, shallow)
  | no deep ↦
      let large : 2 ^ 31 ≤ 2 ^ d = pow-le-pow_right (omega arith) {i = 31} {j = d} (omega arith) in
      absurd (omega (arith, large, fit_lem 1 s (2 ^ d) total some h))
]

-- The IDs that are not in one part are in order.
pub record IsBetween (total : ℕ) (parts : List Part) (ids : List ℕ) : Type 0 where
  pub room : total < length ids
  pub apart : AreParts total parts
  pub ordered :
      (p q : ℕ)
      → 0 < p
      → p ≤ q
      → q ≤ total
      → AreTogether p q parts ⊎ (get_or ids q 0 ≤ get_or ids p 0)

-- The part at the indices a + 1 to a + n.
abbrev pub part_of : ℕ → ℕ → Part
part_of a n = record { l = suc a; ir = a + n }

pub part_lem :
    (total : ℕ) (s : Part) → IsInside total s → (a : ℕ) × (n : ℕ) × (1 ≤ n) × (s ≡ part_of a n)
part_lem total s (low, some, high) =
    let first : s.l ≡ suc (s.l - 1) = omega (arith, low) in
    let last : s.ir ≡ s.l - 1 + (s.ir + 1 - s.l) = omega (arith, low, some) in
    (
      s.l - 1,
      s.ir + 1 - s.l,
      omega (arith, some),
      ap₂ (λ (l ir : ℕ). record { l = l; ir = ir }) first last,
    )

-- An index of a part lies in no other.
pub apart_lem :
    (s : Part) (stack : List Part) (p q w : ℕ)
    → IsApart s stack
    → s.l ≤ w
    → w ≤ s.ir
    → p ≤ w
    → w ≤ q
    → AreTogether p q stack
    → 1 ≤ 0
apart_lem s [] p q w h l u below above t = t
apart_lem s (t ∷ ts) p q w (here, rest) l u below above together = elim together [
  | inl both ↦ ground (arith, here, both)
  | inr later ↦ apart_lem s ts p q w rest l u below above later
]

module _ (total a n : ℕ) (stack : List Part) (ids ids' : List ℕ)
    (h : IsBetween total (part_of a n ∷ stack) ids) (moved : Rearranges a n ids ids') where
  -- What an ID of the part and one outside it have to do with each other does not change.
  exchange_lem :
      (p q : ℕ)
      → 0 < p
      → p ≤ q
      → q ≤ total
      → ((a < p) × (q ≤ a + n)) ⊎ (AreTogether p q stack ⊎ (get_or ids' q 0 ≤ get_or ids' p 0))
  exchange_lem p q pos le high = elim (dec_le p a) [
    | yes p_before ↦ elim (dec_le q a) [
      | yes q_before ↦
          let p_kept = moved.outside p (inl p_before) in
          let q_kept = moved.outside q (inl q_before) in
          elim (h.ordered p q pos le high) [
            | inl together ↦ elim together [
              | inl both ↦ absurd (omega (arith, both.0, p_before))
              | inr later ↦ inr (inl later)
            ]
            | inr ordered ↦ inr (inr (omega (arith, ordered, p_kept, q_kept)))
          ]
      | no q_after ↦ elim (dec_le q (a + n)) [
        | yes q_in ↦
            let p_kept = moved.outside p (inl p_before) in
            let (w, low, up, e) = came_from moved q (omega arith) q_in in
            elim (h.ordered p w pos (omega arith) (omega (arith, h.apart.0.2, up))) [
              | inl together ↦ elim together [
                | inl both ↦ absurd (omega (arith, both.0, p_before))
                | inr later ↦ absurd (
                    omega (
                      arith,
                      apart_lem (part_of a n) stack p w w h.apart.1 low up (omega arith)
                          (omega arith) later,
                    ))
              ]
              | inr ordered ↦ inr (inr (omega (arith, ordered, p_kept, e)))
            ]
        | no q_out ↦
            let p_kept = moved.outside p (inl p_before) in
            let q_kept = moved.outside q (inr (omega arith)) in
            elim (h.ordered p q pos le high) [
              | inl together ↦ elim together [
                | inl both ↦ absurd (omega (arith, both.0, p_before))
                | inr later ↦ inr (inl later)
              ]
              | inr ordered ↦ inr (inr (omega (arith, ordered, p_kept, q_kept)))
            ]
      ]
    ]
    | no p_after ↦ elim (dec_le q (a + n)) [
      | yes q_in ↦ inl (omega arith, q_in)
      | no q_out ↦
          let q_kept = moved.outside q (inr (omega arith)) in
          elim (dec_le p (a + n)) [
            | yes p_in ↦
                let (w, low, up, e) = came_from moved p (omega arith) p_in in
                elim (h.ordered w q (omega arith) (omega arith) high) [
                  | inl together ↦ elim together [
                    | inl both ↦ absurd (omega (arith, both.1, q_out))
                    | inr later ↦ absurd (
                        omega (
                          arith,
                          apart_lem (part_of a n) stack w q w h.apart.1 low up (omega arith)
                              (omega arith) later,
                        ))
                  ]
                  | inr ordered ↦ inr (inr (omega (arith, ordered, q_kept, e)))
                ]
            | no p_out ↦
                let p_kept = moved.outside p (inr (omega arith)) in
                elim (h.ordered p q pos le high) [
                  | inl together ↦ elim together [
                    | inl both ↦ absurd (omega (arith, both.1, q_out))
                    | inr later ↦ inr (inl later)
                  ]
                  | inr ordered ↦ inr (inr (omega (arith, ordered, p_kept, q_kept)))
                ]
          ]
    ]
  ]

  -- The rearranged list, with other parts in place of the first.
  pub IsBetween-replaced :
      (parts : List Part)
      → AreParts total parts
      → ((p q : ℕ) → AreTogether p q stack → AreTogether p q parts)
      → ((p q : ℕ)
          → a < p
          → p ≤ q
          → q ≤ a + n
          → AreTogether p q parts ⊎ (get_or ids' q 0 ≤ get_or ids' p 0))
      → IsBetween total parts ids'
  IsBetween-replaced parts apart kept inner = record {
    room = omega (arith, moved.size, h.room);
    apart = apart;
    ordered = λ p q pos le high. elim (exchange_lem p q pos le high) [
      | inl both ↦ inner p q both.0 le both.1
      | inr rest ↦ elim rest [ inl together ↦ inl (kept p q together) | inr ordered ↦ inr ordered ]
    ];
  }

  -- The whole list is rearranged.
  pub whole_lem : a + n ≤ total → Rearranges 0 total ids ids'
  whole_lem within =
      let start : 0 + a ≡ a = omega arith in
      let sum : a + n + (total - (a + n)) ≡ total = omega arith in
      let part : Rearranges (0 + a) n ids ids' = rw start moved in
      rw (← sum) (Rearranges-widen 0 n a (total - (a + n)) part)
