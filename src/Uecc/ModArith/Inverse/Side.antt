-- ===== src/Uecc/ModArith/Inverse/Side.antt =====
-- One side of the loop of `uECC_vli_modInv`: a number `x` (`a` or `b`) with its cofactor `w` (`u` or
-- `v`), and what a halving and a subtraction make of it.
use ligo.Prelude.{
  ℕ, ◌+◌, ◌*◌, ◌%◌, ◌<◌, ◌≡◌, ◌⊎◌, inl, inr, List, arith, length, ◌==◌, Bool-cases, ◌∙◌, ap,
}
use ligo.Uecc.Word.{IsWords, val}
use ligo.Uecc.Vli.{sub, rshift1}
use ligo.Uecc.Vli.Shift.{rshift1-half}
use ligo.Uecc.ModArith.{sub_reduced, mod_inv_update}
use ligo.Uecc.ModArith.Inverse.Difference.{
  IsBuffer, exact_difference, sub_reduced-IsReducedDifference,
}
use ligo.Uecc.ModArith.Halve.{mod_inv_update-IsHalf}
use ligo.Uecc.ModArith.Congruence.{
  Congruent, Congruent-trans, Congruent-cancel, Congruent-mul, Congruent-half,
}

-- The invariant of a side: the cofactor times the input is congruent to the number.
pub record IsSide (mod' : List ℕ) (input : ℕ) (x w : List ℕ) : Type 0 where
  pub number : IsBuffer mod' x
  pub cofactor : IsBuffer mod' w
  pub positive : 0 < val x
  pub reduced : val w < val mod'
  pub congruent : Congruent (val mod') (val w * input) (val x)

-- `w'` is half of `w` modulo `m`, and `x'` half of `x`.
halved-Congruent :
    (m w w' x x' e input : ℕ)
    → m % 2 ≡ 1
    → 2 * w' ≡ w + e * m
    → x ≡ 2 * x'
    → Congruent m (w * input) x
    → Congruent m (w' * input) x'
halved-Congruent m w w' x x' e input o h k c = Congruent-half m (w' * input) x' o (
    Congruent-trans m (2 * (w' * input)) (w * input) (2 * x')
      (rw double (Congruent-mul m (2 * w') w e input h)) (rw (← k) c))
  where
    double : 2 * (w' * input) ≡ 2 * w' * input
    double = omega arith

Congruent-sum :
    (m d z w k input : ℕ) → d + z ≡ w + k * m → Congruent m (d * input + z * input) (w * input)
Congruent-sum m d z w k input e = rw spread (Congruent-mul m (d + z) w k input e)
  where
    spread : d * input + z * input ≡ (d + z) * input
    spread = omega arith

module _ (mod' : List ℕ) (input : ℕ) (mw : IsWords mod') (nonempty : 0 < length mod')
    (odd : val mod' % 2 ≡ 1) where
  halve_cofactor :
      (w : List ℕ)
      → IsBuffer mod' w
      → val w < val mod'
      → IsBuffer mod' (mod_inv_update w mod')
        × (val (mod_inv_update w mod') < val mod')
        × (2 * val (mod_inv_update w mod') ≡ val w + val w % 2 * val mod')
  halve_cofactor w hw lt =
      let h =
        mod_inv_update-IsHalf w mod' (rw hw.same_length nonempty) hw.same_length hw.words mw odd in
      (
        record { same_length = h.same_length ∙ hw.same_length; words = h.words },
        half_lt (val w) (val mod') _ h.half lt,
        h.half,
      )
    where
      half_lt : (w m d : ℕ) → 2 * d ≡ w + w % 2 * m → w < m → d < m
      half_lt w m d e lt = elim (Bool-cases (w % 2 == 0)) [
        | inl z ↦ let z' : w % 2 ≡ 0 = ground arith in omega (arith, ap (λ (t : ℕ). t * m) z')
        | inr nz ↦ let o' : w % 2 ≡ 1 = ground arith in omega (arith, ap (λ (t : ℕ). t * m) o')
      ]

  -- The branches `EVEN(a)` and `EVEN(b)`.
  pub halve-IsSide :
      (x w : List ℕ)
      → val x % 2 ≡ 0
      → IsSide mod' input x w
      → IsSide mod' input (rshift1 x) (mod_inv_update w mod') × (val x ≡ 2 * val (rshift1 x))
  halve-IsSide x w even s =
      let r = rshift1-half x s.number.words in
      let c = halve_cofactor w s.cofactor s.reduced in
      let twice : val x ≡ 2 * val (rshift1 x) = omega (arith, r.2) in
      (
        record {
          number = record { same_length = r.0 ∙ s.number.same_length; words = r.1 };
          cofactor = c.0;
          positive = omega (arith, twice, s.positive);
          reduced = c.1;
          congruent =
              halved-Congruent (val mod') (val w) _ (val x) _ (val w % 2) input odd c.2 twice
                s.congruent;
        },
        twice,
      )

  -- `x - y` over 2, with the reduced difference of the cofactors over 2.
  minus-Congruent :
      (w z x y d : ℕ)
      → (d + z ≡ w) ⊎ (d + z ≡ w + val mod')
      → Congruent (val mod') (w * input) (x + y)
      → Congruent (val mod') (z * input) y
      → Congruent (val mod') (d * input) x
  minus-Congruent w z x y d o p q =
      Congruent-cancel (val mod') (d * input) x (z * input) y
        (Congruent-trans (val mod') (d * input + z * input) (w * input) (x + y) (shifted o) p) q
    where
      shifted :
          (d + z ≡ w) ⊎ (d + z ≡ w + val mod')
          → Congruent (val mod') (d * input + z * input) (w * input)
      shifted (inl e) = Congruent-sum (val mod') d z w 0 input (omega (arith, e))
      shifted (inr e) = Congruent-sum (val mod') d z w 1 input (omega (arith, e))

  -- The branches that subtract: both numbers are odd, and `y` is the smaller.
  pub minus-IsSide :
      (x w y z : List ℕ)
      → val x % 2 ≡ 1
      → val y % 2 ≡ 1
      → val y < val x
      → IsSide mod' input x w
      → IsSide mod' input y z
      → IsSide mod' input (rshift1 (sub x y).0) (mod_inv_update (sub_reduced w z mod') mod')
        × (val x ≡ val y + 2 * val (rshift1 (sub x y).0))
  minus-IsSide x w y z xo yo lt sx sy =
      let d = exact_difference mw x y sx.number sy.number (omega arith) in
      let r =
        sub_reduced-IsReducedDifference mw w z sx.cofactor sy.cofactor sx.reduced sy.reduced in
      let diff = (sub x y).0 in
      let rest = halve-IsSide diff (sub_reduced w z mod') (omega (arith, d.1)) (record {
        number = d.0;
        cofactor = record { same_length = r.same_length; words = r.words };
        positive = omega (arith, d.1);
        reduced = r.reduced;
        congruent =
            minus-Congruent (val w) (val z) (val diff) (val y) _ r.difference (rw d.1 sx.congruent)
              sy.congruent;
      }) in
      (rest.0, omega (arith, rest.1, d.1))
