-- ===== src/Midl/Growing/Many/Loops.antt =====
-- The loops that write several IDs into a block (midl.c lines 180 and 196-197).
use ligo.Prelude.{ℕ, zero, suc, ◌+◌, ◌-◌, ◌≤◌, ◌<◌, ◌≡◌, ◌⊎◌, inl, inr, refl, ◌∙◌, arith, List}
use ligo.Prelude.{get_or, length, length-set, get_or-set_self, get_or-set_ne}
use native.Mathlib.Decide.{dec_le}
use ligo.Midl.Growing.{u64}
use ligo.Midl.Growing.Many.{copy_ids, range_loop}

-- The descending range of `n` IDs.
pub range_loop-outside :
    (n : ℕ) (block : List ℕ) (len id p : ℕ)
    → (p ≤ len + 1) ⊎ (len + n + 1 < p)
    → get_or (range_loop n block len id) p 0 ≡ get_or block p 0
unfolding range_loop
range_loop-outside zero block len id p h = refl
range_loop-outside (suc n) block len id p h =
    range_loop-outside n _ len _ p (ground (arith, h))
    ∙ get_or-set_ne block (len + suc n + 1) p id (ground (arith, h))

pub length-range_loop :
    (n : ℕ) (block : List ℕ) (len id : ℕ) → length (range_loop n block len id) ≡ length block
unfolding range_loop
length-range_loop zero block len id = refl
length-range_loop (suc n) block len id =
    length-range_loop n _ len _ ∙ length-set block (len + suc n + 1) id

pub range_loop-inside :
    (n : ℕ) (block : List ℕ) (len id i : ℕ)
    → len + n + 1 < length block
    → id + n ≤ 0x1_0000_0000_0000_0000
    → 1 ≤ i
    → i ≤ n
    → get_or (range_loop n block len id) (len + i + 1) 0 ≡ id + (n - i)
unfolding range_loop
range_loop-inside zero block len id i room small low high = absurd (omega arith)
range_loop-inside (suc n) block len id i room small low high = elim (dec_le i n) [
  | yes below ↦
      let next : u64 (id + 1) ≡ id + 1 = omega arith in
      rw next (
        range_loop-inside n _ len (id + 1) i (omega (arith, length-set block (len + suc n + 1) id))
          (omega arith) low below
        ∙ omega arith)
  | no last ↦
      let e : i ≡ suc n = omega arith in
      rw e (
        range_loop-outside n _ len _ (len + suc n + 1) (inr (omega arith))
        ∙ get_or-set_self block (len + suc n + 1) id room
        ∙ omega arith)
]

-- The copied IDs.
pub copy_ids-outside :
    (n : ℕ) (block : List ℕ) (to : ℕ) (app : List ℕ) (from p : ℕ)
    → (p < to) ⊎ (to + n ≤ p)
    → get_or (copy_ids n block to app from) p 0 ≡ get_or block p 0
unfolding copy_ids
copy_ids-outside zero block to app from p h = refl
copy_ids-outside (suc n) block to app from p h =
    copy_ids-outside n _ (to + 1) app (from + 1) p (ground (arith, h))
    ∙ get_or-set_ne block to p (get_or app from 0) (ground (arith, h))

pub length-copy_ids :
    (n : ℕ) (block : List ℕ) (to : ℕ) (app : List ℕ) (from : ℕ)
    → length (copy_ids n block to app from) ≡ length block
unfolding copy_ids
length-copy_ids zero block to app from = refl
length-copy_ids (suc n) block to app from =
    length-copy_ids n _ (to + 1) app (from + 1) ∙ length-set block to (get_or app from 0)

pub copy_ids-inside :
    (n : ℕ) (block : List ℕ) (to : ℕ) (app : List ℕ) (from i : ℕ)
    → to + n ≤ length block
    → i < n
    → get_or (copy_ids n block to app from) (to + i) 0 ≡ get_or app (from + i) 0
unfolding copy_ids
copy_ids-inside zero block to app from i room h = absurd (omega arith)
copy_ids-inside (suc n) block to app from zero room h =
    let here : to + 0 ≡ to = omega arith in
    let there : from + 0 ≡ from = omega arith in
    rw (here, there)
      (copy_ids-outside n _ (to + 1) app (from + 1) to (inl (omega arith))
        ∙ get_or-set_self block to (get_or app from 0) (omega arith))
copy_ids-inside (suc n) block to app from (suc i) room h =
    let here : to + suc i ≡ to + 1 + i = omega arith in
    let there : from + suc i ≡ from + 1 + i = omega arith in
    rw (here, there)
      (copy_ids-inside n _ (to + 1) app (from + 1) i
        (omega (arith, length-set block to (get_or app from 0))) (omega arith))
