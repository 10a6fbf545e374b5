-- ===== src/Midl/Merge/Result.antt =====
-- `mdb_midl_xmerge` (midl.c lines 201-213) leaves the IDs of both lists in descending order.
use ligo.Prelude.{
  ℕ, ◌+◌, ◌≤◌, ◌<◌, ◌≡◌, refl, ap, ◌∙◌, arith, List, get_or, set, length, length-set,
  get_or-set_self, get_or-set_ne,
}
use native.Mathlib.Decide.{dec_le}
use ligo.Midl.Growing.{u64}
use ligo.Midl.Merge.{delimiter, Merging, midl_xmerge}
use ligo.Midl.Merge.Order.{IsDescending, tally, tally-same, tally_split}
use ligo.Midl.Merge.Loop.{IsMerging, merge_loop-IsMerging}

-- `out` holds as many IDs as both lists, in descending order, each as often as in both.
pub record IsMerged (idl merge out : List ℕ) : Type 0 where
  pub counted : get_or out 0 0 ≡ get_or idl 0 0 + get_or merge 0 0
  pub ordered : IsDescending 0 (get_or out 0 0) out
  pub same :
      (v : ℕ)
      → tally v 0 (get_or out 0 0) out
        ≡ tally v 0 (get_or idl 0 0) idl + tally v 0 (get_or merge 0 0) merge

-- What the loops leave.
merged_lem :
    (idl merge : List ℕ) (s : Merging)
    → IsDescending 0 (get_or idl 0 0) idl
    → s.j ≤ get_or idl 0 0
    → IsMerging idl merge
        (get_or merge 0 0 + get_or idl 0 0)
        (λ v. tally v 0 (get_or idl 0 0) idl + tally v 0 (get_or merge 0 0) merge)
        0
        s
    → IsMerged idl merge (set s.idl 0 (get_or merge 0 0 + get_or idl 0 0))
merged_lem idl merge s ordered within h =
    let total = get_or merge 0 0 + get_or idl 0 0 in
    let out = set s.idl 0 total in
    let first : get_or out 0 0 ≡ total = get_or-set_self s.idl 0 total (omega (arith, h.room)) in
    record {
      counted = omega (arith, first);
      ordered = rw first descending;
      same = λ v. rw first (count_lem v);
    }
  where
    rest :
        (p : ℕ)
        → 0 < p
        → get_or (set s.idl 0 (get_or merge 0 0 + get_or idl 0 0)) p 0 ≡ get_or s.idl p 0
    rest p l = get_or-set_ne s.idl 0 p (get_or merge 0 0 + get_or idl 0 0) (omega arith)

    last_old : (p : ℕ) → 0 < p → p ≤ s.j → s.old_id ≤ get_or s.idl p 0
    last_old p l m = omega (
      arith,
      h.old,
      h.kept p l m,
      h.kept s.j (omega arith) (omega arith),
      ordered p s.j l m (omega arith),
    )

    descending :
        IsDescending 0
          (get_or merge 0 0 + get_or idl 0 0)
          (set s.idl 0 (get_or merge 0 0 + get_or idl 0 0))
    descending p q l le m = elim (dec_le q s.j) [
      | yes low ↦ omega (
        arith,
        rest p l,
        rest q (omega arith),
        h.kept p l (omega arith),
        h.kept q (omega arith) low,
        ordered p q l le (omega arith),
      )
      | no high ↦ elim (dec_le p s.j) [
        | yes low ↦ omega (
          arith,
          rest p l,
          rest q (omega arith),
          last_old p l low,
          h.below_old q (omega (arith, h.place)) (omega (arith, h.whole)),
        )
        | no above ↦ omega (
          arith,
          rest p l,
          rest q (omega arith),
          h.ordered p q (omega (arith, h.place)) le (omega (arith, h.whole)),
        )
      ]
    ]

    count_lem :
        (v : ℕ)
        → tally v 0
            (get_or merge 0 0 + get_or idl 0 0)
            (set s.idl 0 (get_or merge 0 0 + get_or idl 0 0))
          ≡ tally v 0 (get_or idl 0 0) idl + tally v 0 (get_or merge 0 0) merge
    count_lem v =
        let total = get_or merge 0 0 + get_or idl 0 0 in
        let parts : s.k + h.n ≡ total = h.whole in
        let first : s.k ≡ s.j = omega (arith, h.place) in
        let none : 0 + s.k ≡ s.k = omega arith in
        omega (
          arith,
          ap (λ (t : ℕ). tally v 0 t (set s.idl 0 total)) parts,
          tally_split v 0 s.k h.n (set s.idl 0 total),
          ap (λ (t : ℕ). tally v t h.n (set s.idl 0 total)) none,
          tally-same v s.k h.n (set s.idl 0 total) s.idl (λ p a b. rest p (omega arith)),
          tally-same v 0 s.k (set s.idl 0 total) idl
              (λ p a b. rest p a ∙ h.kept p a (omega (arith, first))),
          ap (λ (t : ℕ). tally v 0 t idl) first,
          h.counted v,
        )

-- For two ID lists in descending order, of 64-bit IDs, where the first has room for the IDs of both
-- and no more than 2^64 - 1 words, `mdb_midl_xmerge` leaves in the first as many IDs as both had, in
-- descending order, each as often as in both.
pub midl_xmerge-IsMerged :
    (idl merge : List ℕ)
    → get_or merge 0 0 + get_or idl 0 0 < length idl
    → length idl ≤ delimiter
    → IsDescending 0 (get_or idl 0 0) idl
    → IsDescending 0 (get_or merge 0 0) merge
    → ((p : ℕ) → get_or merge p 0 ≤ delimiter)
    → IsMerged idl merge (midl_xmerge idl merge)
unfolding midl_xmerge
midl_xmerge-IsMerged idl merge room small ordered merge_ordered words =
    let i = get_or merge 0 0 in
    let j = get_or idl 0 0 in
    let total : u64 (i + j) ≡ i + j = omega (arith, room, small) in
    let delimited = set idl 0 delimiter in
    let (h, within) =
      merge_loop-IsMerging idl merge i j (λ v. tally v 0 j idl + tally v 0 i merge) (i + j) ordered
        merge_ordered words i
        (record { idl = delimited; old_id = get_or delimited j 0; j = j; k = i + j }) (omega arith)
        (omega arith)
        (record {
          n = 0;
          whole = omega arith;
          place = omega arith;
          room = omega (arith, room, length-set idl 0 delimiter);
          old = refl;
          start = get_or-set_self idl 0 delimiter (omega (arith, room));
          kept = λ p a b. get_or-set_ne idl 0 p delimiter (omega arith);
          below_old = λ q a b. absurd (omega arith);
          below_merge = λ q l a b. absurd (omega arith);
          ordered = λ p q a b c. absurd (omega arith);
          counted = λ v. omega arith;
        }) in
    rw total (merged_lem idl merge _ ordered within h)
