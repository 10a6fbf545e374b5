-- ===== src/Uecc/Ecdsa/Signature.antt =====
-- The number s of a signature (uECC.c lines 1223-1295).
use ligo.Prelude.{ℕ, ◌+◌, ◌-◌, ◌*◌, ◌^◌, ◌<◌, ◌≤◌, ◌≡◌, sym, ◌∙◌, arith, List, length}
use native.Mathlib.Nat.{mod-lt}
use ligo.Uecc.Word.{IsWords, val}
use ligo.Uecc.Vli.{clear}
use ligo.Uecc.ModArith.{mod_add}
use ligo.Uecc.ModArith.Congruence.{Congruent}
use ligo.Uecc.ModArith.Algebra.{congruent_of_mod, congruent_combine}
use ligo.Uecc.ModArith.Excess.{mod_add-IsCongruent}
use ligo.Uecc.Point.Chord.{◌⊕◌, ◌⊗◌}
use ligo.Uecc.Reduce.Remainder.{mod_mult-IsRemainder}
use ligo.Uecc.Ecdsa.{mod_times, signature_s}

-- A modulus whose highest word is not 0, of 1 to 63 words.
pub record IsGroupOrder (n : List ℕ) : Type 0 where
  pub positive : 0 < length n
  pub small : length n ≤ 63
  pub words : IsWords n
  pub top : 2 ^ (64 * (length n - 1)) ≤ val n
  pub big : 0 < val n

-- Words of the order's length.
pub record IsScalar (n x : List ℕ) : Type 0 where
  pub size : length x ≡ length n
  pub words : IsWords x

mod_times_lem :
    (n x y : List ℕ)
    → IsGroupOrder n
    → IsScalar n x
    → IsScalar n y
    → IsScalar n (mod_times x y n)
      × (val (mod_times x y n) < val n)
      × Congruent (val n) (val (mod_times x y n)) (val x * val y)
mod_times_lem n x y o xs ys =
    let r =
      mod_mult-IsRemainder (clear (2 * length n)) x y n (xs.size ∙ sym ys.size) xs.size o.positive
        o.small xs.words ys.words o.words o.top in
    (
      record { size = r.same_length; words = r.words },
      rw r.remainder (mod-lt (val x * val y) o.big),
      congruent_of_mod r.remainder,
    )

-- For a private key `d`, a number `r`, a hash `e` that need not be reduced, and an inverse of `k`
-- modulo the order, the number s of the signature is below the order, and s k is congruent to e + r d.
pub signature_s-IsSignature :
    (n d r e inverse : List ℕ) (k : ℕ)
    → IsGroupOrder n
    → IsScalar n d
    → IsScalar n r
    → IsScalar n e
    → IsScalar n inverse
    → Congruent (val n) (val inverse * k) 1
    → (val (signature_s d r e inverse n) < val n)
      × Congruent (val n) (val (signature_s d r e inverse n) * k) (val e + val r * val d)
unfolding signature_s
signature_s-IsSignature n d r e inverse k o ds rs es is h =
    let (ps, below, product) = mod_times_lem n d r o ds rs in
    let a =
      mod_add-IsCongruent e (mod_times d r n) n (es.size ∙ sym ps.size) es.size es.words ps.words
        o.words below in
    let (ss, s_below, s) =
      mod_times_lem n _ inverse o (record { size = a.same_length ∙ es.size; words = a.words }) is in
    let sum = val (mod_add e (mod_times d r n) n) in
    (s_below, congruent_combine (k ⊗ s ⊕ sum ⊗ h ⊕ a.congruent ⊕ product) (omega arith))
