-- ===== src/Midl/Merge/Order.antt =====
-- Order and count of the IDs in a part of an array, and what a write in front of the part does to
-- them.
use ligo.Prelude.{
  ℕ, zero, suc, ◌+◌, ◌≤◌, ◌<◌, ◌≡◌, refl, ap, arith, List, ◌==◌, if◌then◌else◌, get_or, set, length,
  get_or-set_self, get_or-set_ne,
}
use native.Mathlib.Decide.{dec_le}

abbrev pub matches : ℕ → ℕ → ℕ
matches v x = if x == v then 1 else 0

-- How often `v` stands at the indices a + 1 to a + n.
abbrev pub tally : ℕ → ℕ → ℕ → List ℕ → ℕ
tally v a zero ids = 0
tally v a (suc n) ids = matches v (get_or ids (suc a) 0) + tally v (suc a) n ids

-- The IDs at the indices a + 1 to a + n do not increase.
abbrev pub IsDescending : ℕ → ℕ → List ℕ → Type 0
IsDescending a n ids = (p q : ℕ) → a < p → p ≤ q → q ≤ a + n → get_or ids q 0 ≤ get_or ids p 0

pub tally-same :
    (v a n : ℕ) (xs ys : List ℕ)
    → ((p : ℕ) → a < p → p ≤ a + n → get_or xs p 0 ≡ get_or ys p 0)
    → tally v a n xs ≡ tally v a n ys
tally-same v a zero xs ys h = refl
tally-same v a (suc n) xs ys h =
    let first = h (suc a) (omega arith) (omega arith) in
    let rest = tally-same v (suc a) n xs ys (λ p l m. h p (omega arith) (omega arith)) in
    rw (first, rest) refl

-- The indices in two parts.
pub tally_split :
    (v a m n : ℕ) (xs : List ℕ) → tally v a (m + n) xs ≡ tally v a m xs + tally v (a + m) n xs
tally_split v a zero n xs =
    let total : 0 + n ≡ n = omega arith in
    let place : a + 0 ≡ a = omega arith in rw (total, place) (omega arith)
tally_split v a (suc m) n xs =
    let total : suc m + n ≡ suc (m + n) = omega arith in
    let place : suc a + m ≡ a + suc m = omega arith in
    rw (total, ← place) (omega (arith, tally_split v (suc a) m n xs))

-- The last of the indices.
tally-last :
    (v a n : ℕ) (xs : List ℕ)
    → tally v a (suc n) xs ≡ tally v a n xs + matches v (get_or xs (a + suc n) 0)
tally-last v a zero xs = let place : a + 1 ≡ suc a = omega arith in rw place (omega arith)
tally-last v a (suc n) xs =
    let place : suc a + suc n ≡ a + suc (suc n) = omega arith in
    omega (arith, tally-last v (suc a) n xs, ap (λ (p : ℕ). matches v (get_or xs p 0)) place)

pub tally-last_first :
    (v n : ℕ) (xs : List ℕ)
    → tally v 0 (suc n) xs ≡ tally v 0 n xs + matches v (get_or xs (suc n) 0)
tally-last_first v n xs =
    let place : 0 + suc n ≡ suc n = omega arith in rw (← place) (tally-last v 0 n xs)

module _ (k n : ℕ) (xs : List ℕ) (x : ℕ) (room : suc k < length xs) where
  read_lem : (q : ℕ) → suc k < q → get_or (set xs (suc k) x) q 0 ≡ get_or xs q 0
  read_lem q l = get_or-set_ne xs (suc k) q x (omega arith)

  pub set-bound :
      (b : ℕ)
      → x ≤ b
      → ((q : ℕ) → suc k < q → q ≤ suc k + n → get_or xs q 0 ≤ b)
      → (q : ℕ) → k < q
      → q ≤ k + suc n
      → get_or (set xs (suc k) x) q 0 ≤ b
  set-bound b le h q l m = elim (dec_le q (suc k)) [
    | yes here ↦
        let e : suc k ≡ q = omega arith in
        omega (
          arith,
          le,
          ap (λ (p : ℕ). get_or (set xs (suc k) x) p 0) e,
          get_or-set_self xs (suc k) x room,
        )
    | no above ↦ omega (arith, read_lem q (omega arith), h q (omega arith) (omega arith))
  ]

  pub set-IsDescending :
      ((q : ℕ) → suc k < q → q ≤ suc k + n → get_or xs q 0 ≤ x)
      → IsDescending (suc k) n xs
      → IsDescending k (suc n) (set xs (suc k) x)
  set-IsDescending below h p q l le m = elim (dec_le p (suc k)) [
    | yes here ↦
        let e : suc k ≡ p = omega arith in
        omega (
          arith,
          ap (λ (t : ℕ). get_or (set xs (suc k) x) t 0) e,
          get_or-set_self xs (suc k) x room,
          set-bound x (omega arith) below q (omega arith) m,
        )
    | no above ↦ omega (
      arith,
      read_lem p (omega arith),
      read_lem q (omega arith),
      h p q (omega arith) le (omega arith),
    )
  ]

  pub tally-set :
      (v : ℕ) → tally v k (suc n) (set xs (suc k) x) ≡ matches v x + tally v (suc k) n xs
  tally-set v =
      rw
        (
          get_or-set_self xs (suc k) x room,
          tally-same v (suc k) n (set xs (suc k) x) xs (λ p l m. read_lem p l),
        )
        refl
