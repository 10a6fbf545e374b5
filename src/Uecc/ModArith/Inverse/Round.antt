-- ===== src/Uecc/ModArith/Inverse/Round.antt =====
-- One round of the loop of `uECC_vli_modInv` (uECC.c lines 698-724).
use ligo.Prelude.{
  ℕ, zero, suc, ◌+◌, ◌*◌, ◌%◌, ◌≤◌, ◌<◌, ◌≡◌, ◌⊎◌, inl, inr, refl, List, arith, length, true, false,
  Bool-cases, ◌∙◌, sym,
}
use ligo.Prelude.Int.{ℤ, pos, negsuc}
use ligo.Uecc.Word.{IsWords, val}
use ligo.Uecc.Vli.{cmp_unsafe}
use ligo.Uecc.Vli.Compare.{IsOrder, cmp_unsafe-IsOrder}
use ligo.Uecc.ModArith.{even, is_positive, is_same, InvState, mod_inv_step}
use ligo.Uecc.ModArith.Halve.{even_iff}
use ligo.Uecc.ModArith.Inverse.Side.{IsSide, halve-IsSide, minus-IsSide}

-- `g` divides `n`.
pub record Divides (g n : ℕ) : Type 0 where
  pub quotient : ℕ
  pub product : quotient * g ≡ n

pub record IsInv (mod' : List ℕ) (input : ℕ) (s : InvState) : Type 0 where
  pub left : IsSide mod' input s.a s.u
  pub right : IsSide mod' input s.b s.v

positive_lt : (r : ℤ) (a b : ℕ) → IsOrder r a b → is_positive r ≡ true → b < a
positive_lt (pos zero) a b h e = absurd (cc)
positive_lt (pos (suc n)) a b h e = h.1
positive_lt (negsuc n) a b h e = absurd (cc)

other_lt : (r : ℤ) (a b : ℕ) → IsOrder r a b → is_same r ≡ false → is_positive r ≡ false → a < b
other_lt (pos zero) a b h e f = absurd (cc)
other_lt (pos (suc n)) a b h e f = absurd (cc)
other_lt (negsuc n) a b h e f = h.1

-- A round takes a bit off one of the numbers, and a divisor of the new numbers divides the old.
pub record IsRound (mod' : List ℕ) (input : ℕ) (s t : InvState) : Type 0 where
  pub inv : IsInv mod' input t
  pub shrinks :
      ((2 * val t.a ≤ val s.a) × (val t.b ≡ val s.b))
      ⊎ ((2 * val t.b ≤ val s.b) × (val t.a ≡ val s.a))
  pub left : (g : ℕ) → Divides g (val t.a) → Divides g (val t.b) → Divides g (val s.a)
  pub right : (g : ℕ) → Divides g (val t.a) → Divides g (val t.b) → Divides g (val s.b)

double-Divides : (g x y : ℕ) → x ≡ 2 * y → Divides g y → Divides g x
double-Divides g x y e d = record { quotient = 2 * d.quotient; product = omega (arith, d.product) }

sum-Divides : (g x y z : ℕ) → x ≡ z + 2 * y → Divides g z → Divides g y → Divides g x
sum-Divides g x y z e d d' = record {
  quotient = d.quotient + 2 * d'.quotient;
  product = omega (arith, d.product, d'.product);
}

module _ (mod' : List ℕ) (input : ℕ) (mw : IsWords mod') (nonempty : 0 < length mod')
    (odd : val mod' % 2 ≡ 1) where
  parity : (x : List ℕ) → even x ≡ false → val x % 2 ≡ 1
  parity x e = ground (arith, even_iff x)

  pub mod_inv_step-IsRound :
      (s : InvState)
      → IsInv mod' input s
      → is_same (cmp_unsafe s.a s.b) ≡ false
      → IsRound mod' input s (mod_inv_step (cmp_unsafe s.a s.b) s mod')
  unfolding mod_inv_step
  mod_inv_step-IsRound s h ne =
      let order =
        cmp_unsafe-IsOrder s.a s.b (h.left.number.same_length ∙ sym h.right.number.same_length)
          h.left.number.words h.right.number.words in
      elim (Bool-cases (even s.a)) [
        | inl ea ↦
            let t =
              halve-IsSide mod' input mw nonempty odd s.a s.u (ground (arith, even_iff s.a))
                h.left in
            rw ea (record {
              inv = record { left = t.0; right = h.right };
              shrinks = inl (omega (arith, t.1), refl);
              left = λ g da db. double-Divides g _ _ t.1 da;
              right = λ g da db. db;
            })
        | inr oa ↦ elim (Bool-cases (even s.b)) [
          | inl eb ↦
              let t =
                halve-IsSide mod' input mw nonempty odd s.b s.v (ground (arith, even_iff s.b))
                  h.right in
              rw (oa, eb)
                (record {
                  inv = record { left = h.left; right = t.0 };
                  shrinks = inr (omega (arith, t.1), refl);
                  left = λ g da db. da;
                  right = λ g da db. double-Divides g _ _ t.1 db;
                })
          | inr ob ↦ elim (Bool-cases (is_positive (cmp_unsafe s.a s.b))) [
            | inl more ↦
                let t =
                  minus-IsSide mod' input mw nonempty odd s.a s.u s.b s.v (parity s.a oa)
                    (parity s.b ob) (positive_lt (cmp_unsafe s.a s.b) _ _ order more) h.left
                    h.right in
                rw (oa, ob, more)
                  (record {
                    inv = record { left = t.0; right = h.right };
                    shrinks = inl (omega (arith, t.1), refl);
                    left = λ g da db. sum-Divides g _ _ _ t.1 db da;
                    right = λ g da db. db;
                  })
            | inr less ↦
                let t =
                  minus-IsSide mod' input mw nonempty odd s.b s.v s.a s.u (parity s.b ob)
                    (parity s.a oa) (other_lt (cmp_unsafe s.a s.b) _ _ order ne less) h.right
                    h.left in
                rw (oa, ob, less)
                  (record {
                    inv = record { left = h.left; right = t.0 };
                    shrinks = inr (omega (arith, t.1), refl);
                    left = λ g da db. da;
                    right = λ g da db. sum-Divides g _ _ _ t.1 da db;
                  })
          ]
        ]
      ]
