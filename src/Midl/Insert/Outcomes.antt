-- ===== src/Midl/Insert/Outcomes.antt =====
-- The three outcomes of `mdb_mid2l_insert` (midl.c lines 316-345).
use ligo.Prelude.{ℕ, ◌+◌, ◌-◌, ◌≤◌, ◌<◌, ◌≡◌, ◌≢◌, inl, inr, refl, arith, List, ◌&&◌, ◌==◌}
use ligo.Prelude.{ltb, leb, true, false, Bool-cases}
use ligo.Prelude.Int.{pos, negsuc}
use native.Mathlib.Decide.{dec_lt, ℕ_discrete}
use ligo.Midl.Insert.{Id2, mid_at, idl_um_max, mid2l_search, mid2l_insert}
use ligo.Midl.Insert.Ascending.{IsAscending, mid2l_search-IsPlace, IsInserted, put-IsInserted}

-- An element with the ID, and none.
abbrev pub Holds : List Id2 → ℕ → Type 0
Holds ids id = (i : ℕ) × (1 ≤ i) × (i ≤ mid_at ids 0) × (mid_at ids i ≡ id)

abbrev pub Lacks : List Id2 → ℕ → Type 0
Lacks ids id = (i : ℕ) → 1 ≤ i → i ≤ mid_at ids 0 → mid_at ids i ≢ id

-- The place of an ID that is not there.
record IsGap (ids : List Id2) (id x : ℕ) : Type 0 where
  place : (1 ≤ x) × (x ≤ mid_at ids 0 + 1)
  less : (i : ℕ) → 1 ≤ i → i < x → mid_at ids i < id
  greater : (i : ℕ) → x ≤ i → i ≤ mid_at ids 0 → id < mid_at ids i

module _ (ids : List Id2) (id : Id2) (h : IsAscending ids) where
  abbrev x : ℕ
  x = mid2l_search ids id.mid

  gap : Lacks ids id.mid → IsGap ids id.mid x
  gap none_there = elim (mid2l_search-IsPlace ids id.mid h) [
    | inl (p, q, e) ↦ absurd (none_there x p q e)
    | inr (p, q, lo, hi) ↦ record { place = (p, q); less = lo; greater = hi }
  ]

  no_match : IsGap ids id.mid x → (leb x (mid_at ids 0) && (mid_at ids x == id.mid)) ≡ false
  no_match g = elim (Bool-cases (leb x (mid_at ids 0))) [
    | inr e ↦ rw e refl
    | inl e ↦
        let other : (mid_at ids x == id.mid) ≡ false =
          ground (arith, g.greater x (omega arith) (ground arith)) in
        rw (e, other) refl
  ]

  at_least_one : 1 ≤ x → ltb x 1 ≡ false
  at_least_one p = ground arith

  -- Inserting keeps the order.
  IsInserted-ascending :
      (out : List Id2) (k : ℕ)
      → IsGap ids id.mid k
      → IsInserted ids id k out
      → (i j : ℕ) → 1 ≤ i
      → i < j
      → j ≤ mid_at out 0
      → mid_at out i < mid_at out j
  IsInserted-ascending out k g n i j p q r = elim (dec_lt j k) [
    | yes jk ↦
        rw (n.below i p (omega arith), n.below j (omega arith) jk)
          (h.ascending i j p q (omega (arith, g.place)))
    | no jk ↦ elim (ℕ_discrete j k) [
      | yes e ↦ rw (e, n.new, n.below i p (omega arith)) (g.less i p (omega arith))
      | no ne ↦
          let moved = n.above j (omega arith) (omega (arith, n.count)) in
          elim (dec_lt i k) [
            | yes ik ↦
                rw (moved, n.below i p ik)
                  (h.ascending i (j - 1) p (omega arith) (omega (arith, n.count)))
            | no ik ↦ elim (ℕ_discrete i k) [
              | yes e ↦
                  rw (moved, e, n.new) (g.greater (j - 1) (omega arith) (omega (arith, n.count)))
              | no ne' ↦
                  rw (moved, n.above i (omega arith) (omega (arith, n.count)))
                    (h.ascending (i - 1) (j - 1) (omega (arith, g.place)) (omega arith)
                      (omega (arith, n.count)))
            ]
          ]
    ]
  ]

  -- An ID that the list holds is refused with -1, and the list is left alone.
  pub mid2l_insert-duplicate : Holds ids id.mid → mid2l_insert ids id ≡ (negsuc 0, ids)
  unfolding mid2l_insert
  mid2l_insert-duplicate (i, p, q, e) = elim (mid2l_search-IsPlace ids id.mid h) [
    | inl (p', q', e') ↦
        let inside : leb x (mid_at ids 0) ≡ true = ground arith in
        let same : (mid_at ids x == id.mid) ≡ true = ground arith in
        rw (at_least_one p', inside, same) refl
    | inr (p', q', lo, hi) ↦ elim (dec_lt i x) [
      | yes less ↦ absurd (omega (arith, lo i p less))
      | no not_less ↦ absurd (omega (arith, hi i (omega arith) q))
    ]
  ]

  -- A new ID for a full list is refused with -2, and the list is left alone.
  pub mid2l_insert-full :
      Lacks ids id.mid → mid_at ids 0 ≡ idl_um_max → mid2l_insert ids id ≡ (negsuc 1, ids)
  unfolding mid2l_insert
  mid2l_insert-full none_there full =
      let g = gap none_there in
      let max : leb idl_um_max (mid_at ids 0) ≡ true = ground arith in
      rw (at_least_one g.place.0, no_match g, max) refl

  -- A list with a new element, at the place that keeps the order.
  pub record Inserts : Type 0 where
    pub out : List Id2
    pub place : ℕ
    pub returns : mid2l_insert ids id ≡ (pos 0, out)
    pub inserted : IsInserted ids id place out
    pub in_order : IsAscending out

  -- A new ID for a list with room is accepted: the status is 0, the element stands between the
  -- smaller and the greater ones, the others keep their order, and the list stays in strictly
  -- ascending order.
  pub mid2l_insert-Inserts : Lacks ids id.mid → mid_at ids 0 < idl_um_max → Inserts
  unfolding mid2l_insert
  mid2l_insert-Inserts none_there lt =
      let g = gap none_there in
      let room : leb idl_um_max (mid_at ids 0) ≡ false = ground arith in
      let n = put-IsInserted ids id h x lt g.place.0 g.place.1 in
      record {
        out = _;
        place = x;
        returns = rw (at_least_one g.place.0, no_match g, room) refl;
        inserted = n;
        in_order = record {
          bounded = omega (arith, n.count);
          room = omega (arith, n.same_length, h.room);
          ascending = IsInserted-ascending _ x g n;
        };
      }
