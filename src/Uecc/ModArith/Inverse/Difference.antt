-- ===== src/Uecc/ModArith/Inverse/Difference.antt =====
-- The subtractions in the loop of `uECC_vli_modInv` (uECC.c lines 706-722): the exact one of `a` and
-- `b`, and the one of the cofactors modulo `mod`.
use ligo.Prelude.{
  ℕ, zero, suc, ◌+◌, ◌*◌, ◌≤◌, ◌<◌, ◌≡◌, ◌⊎◌, inl, inr, List, arith, length, true, false,
  Bool-cases, ◌∙◌, sym,
}
use ligo.Prelude.Int.{ℤ, pos, negsuc}
use ligo.Uecc.Word.{IsWords, val}
use ligo.Uecc.Vli.{add, sub, cmp_unsafe}
use ligo.Uecc.Vli.Carry.{add-IsSum, sub-IsDifference, span, val-lt-span, span-eq_of_length}
use ligo.Uecc.Vli.Compare.{IsOrder, cmp_unsafe-IsOrder}
use ligo.Uecc.ModArith.{is_negative, sub_reduced}

-- `out` is `w - z` modulo `m`.
pub record IsReducedDifference (w z m : ℕ) (like out : List ℕ) : Type 0 where
  pub same_length : length out ≡ length like
  pub words : IsWords out
  pub reduced : val out < m
  pub difference : (val out + z ≡ w) ⊎ (val out + z ≡ w + m)

is_negative_lt : (r : ℤ) (a b : ℕ) → IsOrder r a b → is_negative r ≡ true → a < b
is_negative_lt (pos n) a b h e = absurd (cc)
is_negative_lt (negsuc n) a b h e = h.1

not_negative_le : (r : ℤ) (a b : ℕ) → IsOrder r a b → is_negative r ≡ false → b ≤ a
not_negative_le (pos zero) a b h e = omega arith
not_negative_le (pos (suc n)) a b h e = omega arith
not_negative_le (negsuc n) a b h e = absurd (cc)

-- The carry of `w + m` and the borrow of the subtraction cancel.
wraps_cancel :
    (w z m s sum c d b : ℕ)
    → w < z
    → z < m
    → m < s
    → c ≤ 1
    → b ≤ 1
    → sum + s * c ≡ w + m + 0
    → d + z + 0 ≡ sum + s * b
    → sum < s
    → d < s
    → d + z ≡ w + m
wraps_cancel w z m s sum zero d zero p q r hc hb e f g k = omega arith
wraps_cancel w z m s sum zero d (suc zero) p q r hc hb e f g k = absurd (omega arith)
wraps_cancel w z m s sum (suc zero) d zero p q r hc hb e f g k = absurd (omega arith)
wraps_cancel w z m s sum (suc zero) d (suc zero) p q r hc hb e f g k = omega arith
wraps_cancel w z m s sum zero d (suc (suc b)) p q r hc hb e f g k = absurd (omega arith)
wraps_cancel w z m s sum (suc zero) d (suc (suc b)) p q r hc hb e f g k = absurd (omega arith)
wraps_cancel w z m s sum (suc (suc c)) d b p q r hc hb e f g k = absurd (omega arith)

no_borrow : (w z s d b : ℕ) → z ≤ w → w < s → d + z + 0 ≡ w + s * b → d < s → b ≤ 1 → d + z ≡ w
no_borrow w z s d zero p q e f h = omega arith
no_borrow w z s d (suc zero) p q e f h = absurd (omega arith)
no_borrow w z s d (suc (suc b)) p q e f h = absurd (omega arith)

-- Words of a VLI of the modulus' length.
pub record IsBuffer (mod' x : List ℕ) : Type 0 where
  pub same_length : length x ≡ length mod'
  pub words : IsWords x

module _ {mod' : List ℕ} (mw : IsWords mod') where
  buffer-lt-span : (x : List ℕ) → IsBuffer mod' x → val x < span mod'
  buffer-lt-span x h = rw (← span-eq_of_length x mod' h.same_length) (val-lt-span x h.words)

  difference :
      (x y : List ℕ)
      → IsBuffer mod' x
      → IsBuffer mod' y
      → IsBuffer mod' (sub x y).0
        × ((sub x y).1 ≤ 1)
        × (val (sub x y).0 + val y + 0 ≡ val x + span mod' * (sub x y).1)
  difference x y hx hy =
      let d = sub-IsDifference x y (hx.same_length ∙ sym hy.same_length) hx.words hy.words in
      (
        record { same_length = d.same_length ∙ hx.same_length; words = d.words },
        d.last_bit,
        rw (← span-eq_of_length x mod' hx.same_length) d.total,
      )

  pub exact_difference :
      (x y : List ℕ)
      → IsBuffer mod' x
      → IsBuffer mod' y
      → val y ≤ val x
      → IsBuffer mod' (sub x y).0 × (val (sub x y).0 + val y ≡ val x)
  exact_difference x y hx hy le =
      let d = difference x y hx hy in
      (
        d.0,
        no_borrow (val x) (val y) (span mod') _ (sub x y).1 le (buffer-lt-span x hx) d.2
            (buffer-lt-span _ d.0) d.1,
      )

  pub sub_reduced-IsReducedDifference :
      (w z : List ℕ)
      → IsBuffer mod' w
      → IsBuffer mod' z
      → val w < val mod'
      → val z < val mod'
      → IsReducedDifference (val w) (val z) (val mod') mod' (sub_reduced w z mod')
  unfolding sub_reduced
  sub_reduced-IsReducedDifference w z hw hz wm zm =
      let order = cmp_unsafe-IsOrder w z (hw.same_length ∙ sym hz.same_length) hw.words hz.words in
      elim (Bool-cases (is_negative (cmp_unsafe w z))) [
        | inl less ↦
            let a = add-IsSum w mod' hw.same_length hw.words mw in
            let sum = (add w mod').0 in
            let hs : IsBuffer mod' sum = record {
              same_length = a.same_length ∙ hw.same_length;
              words = a.words;
            } in
            let d = difference sum z hs hz in
            let lt = is_negative_lt (cmp_unsafe w z) _ _ order less in
            let total : val (sub sum z).0 + val z ≡ val w + val mod' =
              wraps_cancel (val w) (val z) (val mod') (span mod') (val sum) (add w mod').1
                (val (sub sum z).0) (sub sum z).1 lt zm (val-lt-span mod' mw) a.last_bit d.1
                (rw (← span-eq_of_length w mod' hw.same_length) a.total) d.2 (buffer-lt-span sum hs)
                (buffer-lt-span _ d.0) in
            rw (less, sub_reduced)
              (record {
                same_length = d.0.same_length;
                words = d.0.words;
                reduced = omega (arith, total, lt);
                difference = inr total;
              })
        | inr no_less ↦
            let d =
              exact_difference w z hw hz (not_negative_le (cmp_unsafe w z) _ _ order no_less) in
            rw (no_less, sub_reduced)
              (record {
                same_length = d.0.same_length;
                words = d.0.words;
                reduced = omega (arith, d.1);
                difference = inl d.1;
              })
      ]
