-- ===== src/Uecc/ModArith/Excess.antt =====
-- `uECC_vli_modAdd` (uECC.c lines 524-538) where the left operand is not reduced.
use ligo.Prelude.{
  ℕ, ◌+◌, ◌*◌, ◌<◌, ◌≤◌, ◌≡◌, ◌≢◌, ◌⊎◌, inl, inr, List, arith, length, ◌==◌, Bool-cases, ◌∙◌, sym,
  ap,
}
use ligo.Uecc.Word.{IsWords, val}
use ligo.Uecc.Vli.{add, sub, cmp_unsafe}
use ligo.Uecc.Vli.Carry.{IsSum, add-IsSum, sub-IsDifference, span, val-lt-span, span-eq_of_length}
use ligo.Uecc.Vli.Compare.{cmp_unsafe-IsOrder}
use ligo.Uecc.ModArith.{is_one, mod_add}
use ligo.Uecc.ModArith.Residue.{not_one-le, sum_less_modulus}
use ligo.Uecc.ModArith.Congruence.{Congruent}

-- Words of the length of `like` that are congruent to `v`.
pub record IsCongruent (like : List ℕ) (v m : ℕ) (out : List ℕ) : Type 0 where
  pub same_length : length out ≡ length like
  pub words : IsWords out
  pub congruent : Congruent m (val out) v

module _ (left right mod' : List ℕ) (same : length left ≡ length right)
    (same_mod : length left ≡ length mod') (lw : IsWords left) (rws : IsWords right)
    (mw : IsWords mod') (reduced : val right < val mod') where
  abbrev sum : List ℕ
  sum = (add left right).0

  sum_lem : IsSum left right 0 (add left right)
  sum_lem = add-IsSum left right same lw rws

  less_modulus :
      ((add left right).1 ≢ 0) ⊎ (val mod' ≤ val sum)
      → IsCongruent left (val left + val right) (val mod') (sub sum mod').0
  less_modulus o =
      let s = sum_lem in
      let d = sub-IsDifference sum mod' (s.same_length ∙ same_mod) s.words mw in
      let same_span = span-eq_of_length sum left s.same_length in
      let small : val (sub sum mod').0 < span left =
        rw (← span-eq_of_length _ left (d.same_length ∙ s.same_length)) (val-lt-span _ d.words) in
      let mod_small : val mod' < span left =
        rw (span-eq_of_length left mod' same_mod) (val-lt-span mod' mw) in
      let excess : val (sub sum mod').0 + val mod' ≡ val left + val right =
        sum_less_modulus (val mod') (val left) (val right) (span left) (val sum) (add left right).1
          (val (sub sum mod').0) (sub sum mod').1 (val-lt-span left lw) reduced mod_small s.last_bit
          d.last_bit s.total (rw same_span at d.total) small o in
      record {
        same_length = d.same_length ∙ s.same_length;
        words = d.words;
        congruent = record {
          left_multiple = 1;
          right_multiple = 0;
          balance = omega (arith, excess);
        };
      }

  kept : (add left right).1 ≡ 0 → IsCongruent left (val left + val right) (val mod') sum
  kept z =
      let s = sum_lem in
      record {
        same_length = s.same_length;
        words = s.words;
        congruent = record {
          left_multiple = 0;
          right_multiple = 0;
          balance = omega (arith, s.total, ap (λ (t : ℕ). span left * t) z);
        };
      }

  -- For a right operand that is reduced, whatever the left one is, `uECC_vli_modAdd` returns words
  -- that are congruent to the sum.
  pub mod_add-IsCongruent :
      IsCongruent left (val left + val right) (val mod') (mod_add left right mod')
  unfolding mod_add
  mod_add-IsCongruent =
      let s = sum_lem in
      let order = cmp_unsafe-IsOrder mod' sum (sym (s.same_length ∙ same_mod)) mw s.words in
      elim (Bool-cases ((add left right).1 == 0)) [
        | inr carry ↦ rw carry (less_modulus (inl (ground arith)))
        | inl no_carry ↦ elim (Bool-cases (is_one (cmp_unsafe mod' sum))) [
          | inl less ↦ rw (no_carry, less) (kept (ground arith))
          | inr no_less ↦
              rw (no_carry, no_less)
                (less_modulus (inr (not_one-le (cmp_unsafe mod' sum) _ _ order no_less)))
        ]
      ]
