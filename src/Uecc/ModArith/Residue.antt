-- ===== src/Uecc/ModArith/Residue.antt =====
-- `uECC_vli_modAdd` and `uECC_vli_modSub` (uECC.c lines 524-551) on reduced operands.
use ligo.Prelude.{
  ℕ, zero, suc, ◌+◌, ◌-◌, ◌*◌, ◌%◌, ◌≤◌, ◌<◌, ◌≡◌, ◌≢◌, ◌⊎◌, inl, inr, refl, List, arith, length,
  ◌==◌, true, false, Bool-cases, ◌∙◌, sym, ap,
}
use ligo.Prelude.Int.{ℤ, pos, negsuc}
use ligo.Uecc.Word.{IsWords, val}
use ligo.Uecc.Vli.{add, sub, cmp_unsafe}
use ligo.Uecc.Vli.Carry.{
  IsSum, IsDifference, add-IsSum, sub_borrow, sub-IsDifference, span, val-lt-span,
  span-eq_of_length,
}
use ligo.Uecc.Vli.Compare.{IsOrder, cmp_unsafe-IsOrder}
use ligo.Uecc.ModArith.{is_one, mod_add, mod_sub}

-- A VLI that stands for `v` modulo `m`, of the length of `like`.
pub record IsResidue (like : List ℕ) (v m : ℕ) (out : List ℕ) : Type 0 where
  pub same_length : length out ≡ length like
  pub words : IsWords out
  pub residue : val out ≡ v % m
  pub reduced : val out < m

pub is_one-lt : (r : ℤ) (a b : ℕ) → IsOrder r a b → is_one r ≡ true → b < a
is_one-lt (pos zero) a b h e = absurd (cc)
is_one-lt (pos (suc zero)) a b h e = h.1
is_one-lt (pos (suc (suc n))) a b h e = absurd (cc)
is_one-lt (negsuc n) a b h e = absurd (cc)

pub not_one-le : (r : ℤ) (a b : ℕ) → IsOrder r a b → is_one r ≡ false → a ≤ b
not_one-le (pos zero) a b h e = omega arith
not_one-le (pos (suc zero)) a b h e = absurd (cc)
not_one-le (pos (suc (suc n))) a b h e = absurd (omega arith)
not_one-le (negsuc n) a b h e = omega arith

-- The sum with its carry `c`, less the modulus with the borrow `b`: one of the two wraps cancels
-- the other.
pub sum_less_modulus :
    (m l r s sum c d b : ℕ)
    → l < s
    → r < m
    → m < s
    → c ≤ 1
    → b ≤ 1
    → sum + s * c ≡ l + r + 0
    → d + m + 0 ≡ sum + s * b
    → d < s
    → (c ≢ 0) ⊎ (m ≤ sum)
    → d + m ≡ l + r
sum_less_modulus m l r s sum zero d zero p q w hc hb e f g o = omega arith
sum_less_modulus m l r s sum zero d (suc zero) p q w hc hb e f g (inl nz) = absurd (nz refl)
sum_less_modulus m l r s sum zero d (suc zero) p q w hc hb e f g (inr le) = omega arith
sum_less_modulus m l r s sum (suc zero) d zero p q w hc hb e f g o = omega arith
sum_less_modulus m l r s sum (suc zero) d (suc zero) p q w hc hb e f g o = omega arith
sum_less_modulus m l r s sum zero d (suc (suc b)) p q w hc hb e f g o = absurd (omega arith)
sum_less_modulus m l r s sum (suc zero) d (suc (suc b)) p q w hc hb e f g o = absurd (omega arith)
sum_less_modulus m l r s sum (suc (suc c)) d b p q w hc hb e f g o = absurd (omega arith)

mod_of_excess : (d m v : ℕ) → d + m ≡ v → d < m → d ≡ v % m
mod_of_excess d m v e h = grind arith

mod_of_small : (v m : ℕ) → v < m → v ≡ v % m
mod_of_small v m h = grind arith

-- The difference, plus the modulus if there was a borrow `b`.
difference_mod :
    (m l r s diff : ℕ) → l < m → r < m → diff + r + 0 ≡ l + s * 0 → diff ≡ (l + m - r) % m
difference_mod m l r s diff p q e = mod_of_excess diff m (l + m - r) (omega arith) (omega arith)

wrapped_difference_mod :
    (m l r s diff d c : ℕ)
    → l < m
    → r < m
    → m < s
    → c ≤ 1
    → diff + r + 0 ≡ l + s * 1
    → diff < s
    → l < r
    → d + s * c ≡ diff + m + 0
    → d < s
    → (d ≡ l + m - r) × (d < m)
wrapped_difference_mod m l r s diff d zero p q w hc e h lt f g = absurd (omega arith)
wrapped_difference_mod m l r s diff d (suc zero) p q w hc e h lt f g = (omega arith, omega arith)
wrapped_difference_mod m l r s diff d (suc (suc c)) p q w hc e h lt f g = absurd (omega arith)

-- Operands of one length, reduced modulo `mod'`.
pub record AreReduced (left right mod' : List ℕ) : Type 0 where
  pub same : length left ≡ length right
  pub same_mod : length left ≡ length mod'
  pub left_words : IsWords left
  pub right_words : IsWords right
  pub mod_words : IsWords mod'
  pub left_reduced : val left < val mod'
  pub right_reduced : val right < val mod'

module _ (left right mod' : List ℕ) (h : AreReduced left right mod') where
  mod-lt-span : val mod' < span left
  mod-lt-span = rw (span-eq_of_length left mod' h.same_mod) (val-lt-span mod' h.mod_words)

  abbrev sum : List ℕ
  sum = (add left right).0

  sum_lem : IsSum left right 0 (add left right)
  sum_lem = add-IsSum left right h.same h.left_words h.right_words

  add-less_modulus :
      ((add left right).1 ≢ 0) ⊎ (val mod' ≤ val sum)
      → IsResidue left (val left + val right) (val mod') (sub sum mod').0
  add-less_modulus o =
      let s = sum_lem in
      let d = sub-IsDifference sum mod' (s.same_length ∙ h.same_mod) s.words h.mod_words in
      let same_span = span-eq_of_length sum left s.same_length in
      let small : val (sub sum mod').0 < span left =
        rw (← span-eq_of_length _ left (d.same_length ∙ s.same_length)) (val-lt-span _ d.words) in
      let excess : val (sub sum mod').0 + val mod' ≡ val left + val right =
        sum_less_modulus (val mod') (val left) (val right) (span left) (val sum) (add left right).1
          (val (sub sum mod').0) (sub sum mod').1 (val-lt-span left h.left_words) h.right_reduced
          mod-lt-span s.last_bit d.last_bit s.total (rw same_span at d.total) small o in
      let below : val (sub sum mod').0 < val mod' =
        omega (arith, excess, h.left_reduced, h.right_reduced) in
      record {
        same_length = d.same_length ∙ s.same_length;
        words = d.words;
        residue = mod_of_excess _ (val mod') _ excess below;
        reduced = below;
      }

  sum_kept :
      (add left right).1 ≡ 0
      → val sum < val mod'
      → IsResidue left (val left + val right) (val mod') sum
  sum_kept z lt =
      let s = sum_lem in
      let total : val sum ≡ val left + val right =
        omega (arith, s.total, ap (λ (t : ℕ). span left * t) z) in
      record {
        same_length = s.same_length;
        words = s.words;
        residue = rw (← total) (mod_of_small (val sum) (val mod') lt);
        reduced = lt;
      }

  -- For reduced operands `uECC_vli_modAdd` returns the reduced sum modulo `mod`, also where the
  -- plain sum does not fit the words.
  pub mod_add-IsResidue : IsResidue left (val left + val right) (val mod') (mod_add left right mod')
  unfolding mod_add
  mod_add-IsResidue =
      let s = sum_lem in
      let order =
        cmp_unsafe-IsOrder mod' sum (sym (s.same_length ∙ h.same_mod)) h.mod_words s.words in
      elim (Bool-cases ((add left right).1 == 0)) [
        | inr carry ↦ rw carry (add-less_modulus (inl (ground arith)))
        | inl no_carry ↦ elim (Bool-cases (is_one (cmp_unsafe mod' sum))) [
          | inl less ↦
              rw (no_carry, less)
                (sum_kept (ground arith) (is_one-lt (cmp_unsafe mod' sum) _ _ order less))
          | inr no_less ↦
              rw (no_carry, no_less)
                (add-less_modulus (inr (not_one-le (cmp_unsafe mod' sum) _ _ order no_less)))
        ]
      ]

  abbrev diff : List ℕ
  diff = (sub left right).0

  diff_lem : IsDifference left right 0 (sub left right)
  diff_lem = sub-IsDifference left right h.same h.left_words h.right_words

  diff_kept :
      (sub left right).1 ≡ 0 → IsResidue left (val left + val mod' - val right) (val mod') diff
  diff_kept z =
      let d = diff_lem in
      let total : val diff + val right + 0 ≡ val left + span left * 0 = rw z at d.total in
      record {
        same_length = d.same_length;
        words = d.words;
        residue =
            difference_mod (val mod') (val left) (val right) (span left) (val diff) h.left_reduced
              h.right_reduced total;
        reduced = omega (arith, total, h.left_reduced);
      }

  add-wrapped_diff :
      (sub left right).1 ≢ 0
      → IsResidue left (val left + val mod' - val right) (val mod') (add diff mod').0
  add-wrapped_diff nz =
      let d = diff_lem in
      let one : (sub left right).1 ≡ 1 = omega (arith, d.last_bit) in
      let a = add-IsSum diff mod' (d.same_length ∙ h.same_mod) d.words h.mod_words in
      let same_span = span-eq_of_length diff left d.same_length in
      let result : (val (add diff mod').0 ≡ val left + val mod' - val right)
          × (val (add diff mod').0 < val mod') =
        wrapped_difference_mod (val mod') (val left) (val right) (span left) (val diff)
          (val (add diff mod').0) (add diff mod').1 h.left_reduced h.right_reduced mod-lt-span
          a.last_bit (rw one at d.total) (rw (← same_span) (val-lt-span diff d.words))
          ((sub_borrow left right h.same h.left_words h.right_words).1 nz) (rw same_span at a.total)
          (rw (← span-eq_of_length _ left (a.same_length ∙ d.same_length))
            (val-lt-span _ a.words)) in
      record {
        same_length = a.same_length ∙ d.same_length;
        words = a.words;
        residue = rw (← result.0) (mod_of_small _ (val mod') result.1);
        reduced = result.1;
      }

  -- For reduced operands `uECC_vli_modSub` returns the reduced difference modulo `mod`.
  pub mod_sub-IsResidue :
      IsResidue left (val left + val mod' - val right) (val mod') (mod_sub left right mod')
  unfolding mod_sub
  mod_sub-IsResidue = elim (Bool-cases ((sub left right).1 == 0)) [
    | inl none_borrowed ↦ rw none_borrowed (diff_kept (ground arith))
    | inr borrowed ↦ rw borrowed (add-wrapped_diff (ground arith))
  ]
