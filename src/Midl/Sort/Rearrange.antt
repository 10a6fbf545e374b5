-- ===== src/Midl/Sort/Rearrange.antt =====
-- Rearranging the IDs of a part of a list: what is outside stays, and every ID is there as often.
use ligo.Prelude.{
  ℕ, zero, suc, ◌+◌, ◌≤◌, ◌<◌, ◌≡◌, ◌≢◌, ◌⊎◌, inl, inr, refl, sym, ap, ◌∙◌, arith, List, get_or,
  set, length, length-set, get_or-set_self, get_or-set_ne,
}
use native.Mathlib.Decide.{dec_lt}
use ligo.Midl.Merge.Order.{matches, tally, tally-same, tally_split}
use ligo.Midl.Sort.{swap_ids}

pub same_or_not : (p q : ℕ) → (p ≡ q) ⊎ (p ≢ q)
same_or_not p q = elim (dec_lt p q) [
  | yes below ↦ inr (λ e. absurd (omega (arith, e)))
  | no h ↦ elim (dec_lt q p) [
    | yes above ↦ inr (λ e. absurd (omega (arith, e)))
    | no k ↦ inl (omega arith)
  ]
]

-- A write changes the count by what it writes and overwrites.
pub tally_write :
    (v a n : ℕ) (xs : List ℕ) (p x : ℕ)
    → p < length xs
    → a < p
    → p ≤ a + n
    → tally v a n (set xs p x) + matches v (get_or xs p 0) ≡ tally v a n xs + matches v x
tally_write v a zero xs p x room low high = absurd (omega arith)
tally_write v a (suc n) xs p x room low high = elim (same_or_not p (suc a)) [
  | inl e ↦
      let rest =
        tally-same v (suc a) n (set xs p x) xs
          (λ q l m. get_or-set_ne xs p q x (omega (arith, e))) in
      let here : matches v (get_or (set xs p x) (suc a) 0) ≡ matches v x =
        ap (λ (t : ℕ). matches v (get_or (set xs p x) t 0)) (sym e)
        ∙ ap (λ (t : ℕ). matches v t) (get_or-set_self xs p x room) in
      let old = ap (λ (t : ℕ). matches v (get_or xs t 0)) e in omega (arith, rest, here, old)
  | inr ne ↦
      let rest = tally_write v (suc a) n xs p x room (omega (arith, ne)) (omega arith) in
      let here = ap (λ (t : ℕ). matches v t) (get_or-set_ne xs p (suc a) x ne) in
      omega (arith, rest, here)
]

pub record Rearranges (a n : ℕ) (xs ys : List ℕ) : Type 0 where
  pub size : length ys ≡ length xs
  pub outside : (p : ℕ) → (p ≤ a) ⊎ (a + n < p) → get_or ys p 0 ≡ get_or xs p 0
  pub same : (v : ℕ) → tally v a n ys ≡ tally v a n xs

pub Rearranges-refl : (a n : ℕ) (xs : List ℕ) → Rearranges a n xs xs
Rearranges-refl a n xs = record { size = refl; outside = λ p h. refl; same = λ v. refl }

pub Rearranges-trans :
    {a n : ℕ} {xs ys zs : List ℕ}
    → Rearranges a n xs ys
    → Rearranges a n ys zs
    → Rearranges a n xs zs
Rearranges-trans h k = record {
  size = k.size ∙ h.size;
  outside = λ p o. k.outside p o ∙ h.outside p o;
  same = λ v. k.same v ∙ h.same v;
}

-- A part of a larger part.
pub Rearranges-widen :
    (a n m k : ℕ) {xs ys : List ℕ} → Rearranges (a + m) n xs ys → Rearranges a (m + n + k) xs ys
Rearranges-widen a n m k {xs = xs} {ys = ys} h = record {
  size = h.size;
  outside = λ p o. h.outside p (ground (arith, o));
  same = λ v.
      let before = tally-same v a m ys xs (λ p l u. h.outside p (inl (omega arith))) in
      let after = tally-same v (a + m + n) k ys xs (λ p l u. h.outside p (inr (omega arith))) in
      let place : a + (m + n) ≡ a + m + n = omega arith in
      let split : (zs : List ℕ)
          → tally v a (m + n + k) zs
            ≡ tally v a m zs + tally v (a + m) n zs + tally v (a + m + n) k zs =
        λ zs.
          tally_split v a (m + n) k zs
          ∙ omega (arith, tally_split v a m n zs, ap (λ (t : ℕ). tally v t k zs) place) in
      omega (arith, split xs, split ys, before, after, h.same v);
}

pub swap_ids-Rearranges :
    (a n p q : ℕ) (xs : List ℕ)
    → a + n < length xs
    → a < p
    → p ≤ a + n
    → a < q
    → q ≤ a + n
    → Rearranges a n xs (swap_ids p q xs)
unfolding swap_ids
swap_ids-Rearranges a n p q xs room p_low p_high q_low q_high =
    let x = get_or xs p 0 in
    let y = get_or xs q 0 in
    let ys = set xs p y in
    let size = length-set xs p y in
    record {
      size = length-set ys q x ∙ size;
      outside = λ t o.
          get_or-set_ne ys q t x (ground (arith, o)) ∙ get_or-set_ne xs p t y (ground (arith, o));
      same = λ v. omega (
        arith,
        tally_write v a n xs p y (omega arith) p_low p_high,
        tally_write v a n ys q x (omega (arith, size)) q_low q_high,
        ap (λ (t : ℕ). matches v t) (second_lem p q xs (omega arith)),
      );
    }
  where
    second_lem :
        (p q : ℕ) (xs : List ℕ)
        → p < length xs
        → get_or (set xs p (get_or xs q 0)) q 0 ≡ get_or xs q 0
    second_lem p q xs h = elim (same_or_not p q) [
      | inl e ↦
          ap (λ (t : ℕ). get_or (set xs p (get_or xs q 0)) t 0) (sym e)
          ∙ get_or-set_self xs p (get_or xs q 0) h
      | inr ne ↦ get_or-set_ne xs p q (get_or xs q 0) ne
    ]

-- What is counted stands somewhere.
pub tally_found :
    (v a n : ℕ) (xs : List ℕ)
    → 1 ≤ tally v a n xs
    → (p : ℕ) × (a < p) × (p ≤ a + n) × (get_or xs p 0 ≡ v)
tally_found v a zero xs h = absurd (omega arith)
tally_found v a (suc n) xs h = elim (same_or_not (get_or xs (suc a) 0) v) [
  | inl e ↦ (suc a, omega arith, omega arith, e)
  | inr ne ↦
      let (p, l, u, e) = tally_found v (suc a) n xs (ground (arith, ne, h)) in
      (p, omega arith, omega arith, e)
]

pub tally_here :
    (a n : ℕ) (xs : List ℕ) (p : ℕ) → a < p → p ≤ a + n → 1 ≤ tally (get_or xs p 0) a n xs
tally_here a zero xs p l u = absurd (omega arith)
tally_here a (suc n) xs p l u = elim (same_or_not p (suc a)) [
  | inl e ↦ rw e (ground arith)
  | inr ne ↦ omega (arith, tally_here (suc a) n xs p (omega (arith, ne)) (omega arith))
]

-- Where an ID of the rearranged part stood before.
pub came_from :
    {a n : ℕ} {xs ys : List ℕ}
    → Rearranges a n xs ys
    → (p : ℕ) → a < p
    → p ≤ a + n
    → (q : ℕ) × (a < q) × (q ≤ a + n) × (get_or xs q 0 ≡ get_or ys p 0)
came_from {a = a} {n = n} {xs = xs} {ys = ys} h p l u =
    tally_found (get_or ys p 0) a n xs
      (omega (arith, h.same (get_or ys p 0), tally_here a n ys p l u))

pub Rearranges-extend :
    (a n k : ℕ) {xs ys : List ℕ} → Rearranges a n xs ys → Rearranges a (n + k) xs ys
Rearranges-extend a n k {xs = xs} {ys = ys} h =
    let start : a + 0 ≡ a = omega arith in
    let part : Rearranges (a + 0) n xs ys = rw start h in
    let total : 0 + n + k ≡ n + k = omega arith in rw (← total) (Rearranges-widen a n 0 k part)
