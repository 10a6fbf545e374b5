-- ===== src/Uecc/ModArith/Tests.antt =====
-- Runs of modular arithmetic, and the theorems at operands of one word modulo 7.
use ligo.Prelude.{length, ℕ, zero, suc, ◌+◌, ◌*◌, ◌%◌, ◌<◌, ◌≡◌, refl, arith, List, [], ◌∷◌, some}
use ligo.Uecc.Word.{IsWords, val}
use ligo.Uecc.ModArith.{mod_add, mod_inv_update, mod_inv}
use ligo.Uecc.ModArith.Residue.{AreReduced, IsResidue, mod_add-IsResidue}
use ligo.Uecc.ModArith.Halve.{IsHalf, mod_inv_update-IsHalf}
use ligo.Uecc.ModArith.Inverse.Round.{Divides}
use ligo.Uecc.ModArith.Inverse.Loop.{Finds, mod_inv-Finds, mod_inv-inverse}

abbrev three : List ℕ
three = 3 ∷ []

abbrev six : List ℕ
six = 6 ∷ []

abbrev seven : List ℕ
seven = 7 ∷ []

-- The largest prime below 2^64.
abbrev top_prime : List ℕ
top_prime = 0xffff_ffff_ffff_ffc5 ∷ []

word : (x : ℕ) → x < 0x1_0000_0000_0000_0000 → IsWords (x ∷ [])
word x p = (p, tt)

six-three : AreReduced six three seven
six-three = record {
  same = refl;
  same_mod = refl;
  left_words = word 6 (omega arith);
  right_words = word 3 (omega arith);
  mod_words = word 7 (omega arith);
  left_reduced = omega arith;
  right_reduced = omega arith;
}

divisor_of_three_seven : (g p q : ℕ) → p * g ≡ 3 → q * g ≡ 7 → g ≡ 1
divisor_of_three_seven zero p q e f = absurd (omega arith)
divisor_of_three_seven (suc zero) p q e f = refl
divisor_of_three_seven (suc (suc zero)) p q e f = absurd (omega arith)
divisor_of_three_seven (suc (suc (suc zero))) p q e f = absurd (omega arith)
divisor_of_three_seven (suc (suc (suc (suc g)))) zero q e f = absurd (omega arith)
divisor_of_three_seven (suc (suc (suc (suc g)))) (suc p) q e f = absurd (omega arith)

coprime : (g : ℕ) → Divides g (val three) → Divides g (val seven) → g ≡ 1
coprime g d e =
    divisor_of_three_seven g d.quotient e.quotient (omega (arith, d.product))
      (omega (arith, e.product))

mod_add-IsResidue_example :
    IsResidue six (val six + val three) (val seven) (mod_add six three seven)
mod_add-IsResidue_example = mod_add-IsResidue six three seven six-three

mod_inv_update-IsHalf_example :
    IsHalf top_prime (val top_prime) (val top_prime) (mod_inv_update top_prime top_prime)
mod_inv_update-IsHalf_example =
    mod_inv_update-IsHalf top_prime top_prime (omega arith) refl (word _ (omega arith))
      (word _ (omega arith)) (omega arith)

mod_inv-Finds_example : Finds seven (val three) (val three) (val seven) (mod_inv three seven)
mod_inv-Finds_example =
    mod_inv-Finds three seven refl (omega arith) (word 3 (omega arith)) (word 7 (omega arith))
      (omega arith) (omega arith) (omega arith)

mod_inv-inverse_example :
    (result : List ℕ) × (mod_inv three seven ≡ some result)
    × (length result ≡ length seven)
    × IsWords result
    × (val result < val seven)
    × (val result * val three % val seven ≡ 1)
mod_inv-inverse_example =
    mod_inv-inverse three seven refl (omega arith) (word 3 (omega arith)) (word 7 (omega arith))
      (omega arith) (omega arith) (omega arith) coprime
