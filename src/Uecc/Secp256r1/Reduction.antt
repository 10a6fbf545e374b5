-- ===== src/Uecc/Secp256r1/Reduction.antt =====
-- `vli_mmod_fast_secp256r1` (curve-specific.h lines 981-1054) computes the remainder modulo the
-- prime.
use ligo.Prelude.{ℕ, suc, ◌+◌, ◌*◌, ◌≤◌, ◌<◌, ◌≡◌, refl, sym, ◌∙◌, arith, List, [], ◌∷◌, length}
use ligo.Prelude.Int.{ℤ, pos, negsuc}
use native.Mathlib.Nat.{mod-eq_of_lt, mod-lt}
use ligo.Uecc.Word.{word_mod, IsWords, val}
use ligo.Uecc.ModArith.Congruence.{Congruent, Congruent-mod}
use ligo.Uecc.Curve.Element.{IsField}
use ligo.Uecc.Reduce.Remainder.{IsRemainder}
use ligo.Uecc.Secp256r1.{
  Reducing, secp256r1_p, s1, s2, s3, s4, d1, d2, d3, d4, plus, minus, plus_twice, combine, raise,
  lower, mmod_fast_secp256r1, secp256r1_data,
}
use ligo.Uecc.Secp256r1.Halves.{
  IsFour, s1-IsFour, s2-IsFour, s3-IsFour, s4-IsFour, d1-IsFour, d2-IsFour, d3-IsFour, d4-IsFour,
  quotient, identity,
}
use ligo.Uecc.Secp256r1.Loops.{
  four_mod, p_val, p_val_lem, secp256r1_p-IsWords, IsTotal, plus-IsTotal, minus-IsTotal,
  plus_twice-IsTotal,
}
use ligo.Uecc.Secp256r1.Final.{
  IsReduced, val-lt_four, IsBalance-at, raise-IsReduced, lower-IsReduced,
}

-- A total with at most `i` carries and `j` borrows.
record IsCombined (i j v w : ℕ) (s : Reducing) : Type 0 where
  pub carries : ℕ
  pub borrows : ℕ
  pub few_carries : carries ≤ i
  pub few_borrows : borrows ≤ j
  pub is_total : IsTotal v w carries borrows s

module _ {i j v w x : ℕ} {s : Reducing} {tmp : List ℕ} (h : IsCombined i j v w s)
    (f : IsFour x tmp) where
  plus-IsCombined : IsCombined (i + 1) j (v + val tmp) w (plus tmp s)
  plus-IsCombined =
      let (k, le, t) = plus-IsTotal v w _ _ tmp s h.is_total f.size f.words in
      record {
        carries = h.carries + k;
        borrows = h.borrows;
        few_carries = omega (arith, h.few_carries);
        few_borrows = h.few_borrows;
        is_total = t;
      }

  plus_twice-IsCombined : IsCombined (i + 2) j (v + 2 * val tmp) w (plus_twice tmp s)
  plus_twice-IsCombined =
      let (k, le, t) = plus_twice-IsTotal v w _ _ tmp s h.is_total f.size f.words in
      record {
        carries = h.carries + k;
        borrows = h.borrows;
        few_carries = omega (arith, h.few_carries);
        few_borrows = h.few_borrows;
        is_total = t;
      }

  minus-IsCombined : IsCombined i (j + 1) v (w + val tmp) (minus tmp s)
  minus-IsCombined =
      let (k, le, t) = minus-IsTotal v w _ _ tmp s h.is_total f.size f.words in
      record {
        carries = h.carries;
        borrows = h.borrows + k;
        few_carries = h.few_carries;
        few_borrows = omega (arith, h.few_borrows);
        is_total = t;
      }

-- A reduced number that is `v - w` up to multiples of the prime.
record IsResult (v w : ℕ) (out : List ℕ) : Type 0 where
  pub from : ℕ
  pub less : ℕ
  pub is_reduced : IsReduced from less out
  pub same : from + w ≡ v + less

-- The final loops bring a combination into range.
finish_lem :
    (v w : ℕ) (s : Reducing)
    → IsCombined 6 4 v w s
    → IsResult v w (elim s.carry [
      | pos k ↦ Reducing.result (lower 8 s)
      | negsuc k ↦ Reducing.result (raise 5 s)
    ])
finish_lem v w s h = by_carry s.carry refl
  where
    t : IsTotal v w h.carries h.borrows s
    t = h.is_total

    below : val s.result < four_mod
    below = val-lt_four s.result t.size t.words

    by_carry :
        (z : ℤ)
        → s.carry ≡ z
        → IsResult v w (elim z [
          | pos k ↦ Reducing.result (lower 8 s)
          | negsuc k ↦ Reducing.result (raise 5 s)
        ])
    by_carry (pos k) e =
        let b : k + h.borrows ≡ h.carries = IsBalance-at s.carry (pos k) _ _ e t.balance in
        record {
          from = val s.result + four_mod * k;
          less = 0;
          is_reduced =
              lower-IsReduced 8 k s e t.size t.words (omega (arith, b, h.few_carries, below));
          same = omega (arith, t.total, b);
        }
    by_carry (negsuc k) e =
        let b : h.carries + suc k ≡ h.borrows = IsBalance-at s.carry (negsuc k) _ _ e t.balance in
        record {
          from = val s.result;
          less = four_mod * suc k;
          is_reduced = raise-IsReduced 5 k s e t.size t.words (omega (arith, b, h.few_borrows));
          same = omega (arith, t.total, b);
        }

IsRemainder-of :
    (v low high sums diffs q : ℕ) (out : List ℕ)
    → IsResult (low + sums) diffs out
    → v ≡ low + four_mod * high
    → four_mod * high + diffs ≡ sums + p_val * q
    → IsRemainder secp256r1_p v out
IsRemainder-of v low high sums diffs q out h e i =
    let r = h.is_reduced in
    let c : Congruent p_val (val out) v = record {
      left_multiple = r.down + q;
      right_multiple = r.up;
      balance = omega (arith, r.total, h.same, e, i);
    } in
    record {
      same_length = r.size;
      words = r.words;
      remainder = rw p_val_lem (sym (mod-eq_of_lt r.reduced) ∙ Congruent-mod _ _ _ c);
    }

module _ (p0 p1 p2 p3 p4 p5 p6 p7 : ℕ) (w0 : p0 < word_mod) (w1 : p1 < word_mod)
    (w2 : p2 < word_mod) (w3 : p3 < word_mod) (w4 : p4 < word_mod) (w5 : p5 < word_mod)
    (w6 : p6 < word_mod) (w7 : p7 < word_mod) where
  abbrev low : List ℕ
  low = p0 ∷ p1 ∷ p2 ∷ p3 ∷ []

  abbrev start : Reducing
  start = record { result = low; carry = pos 0 }

  start-IsCombined : IsCombined 0 0 (val low) 0 start
  start-IsCombined = record {
    carries = 0;
    borrows = 0;
    few_carries = omega arith;
    few_borrows = omega arith;
    is_total = record {
      size = refl;
      words = (w0, (w1, (w2, (w3, tt))));
      balance = refl;
      total = omega arith;
    };
  }

  -- The sums, and then the differences.
  abbrev sums : ℕ
  sums =
      2 * val (s1 p4 p5 p6 p7)
      + 2 * val (s2 p4 p5 p6 p7)
      + val (s3 p4 p5 p6 p7)
      + val (s4 p4 p5 p6 p7)

  abbrev diffs : ℕ
  diffs = val (d1 p4 p5 p6 p7) + val (d2 p4 p5 p6 p7) + val (d3 p4 p5 p6 p7) + val (d4 p4 p5 p6 p7)

  combine-IsCombined :
      IsCombined 6 4
        (val low
          + 2 * val (s1 p4 p5 p6 p7)
          + 2 * val (s2 p4 p5 p6 p7)
          + val (s3 p4 p5 p6 p7)
          + val (s4 p4 p5 p6 p7))
        (0
          + val (d1 p4 p5 p6 p7)
          + val (d2 p4 p5 p6 p7)
          + val (d3 p4 p5 p6 p7)
          + val (d4 p4 p5 p6 p7))
        (combine (p0 ∷ p1 ∷ p2 ∷ p3 ∷ p4 ∷ p5 ∷ p6 ∷ p7 ∷ []))
  unfolding combine
  combine-IsCombined =
      let added =
        plus-IsCombined
          (plus-IsCombined
            (plus_twice-IsCombined
              (plus_twice-IsCombined start-IsCombined (s1-IsFour p4 p5 p6 p7 w4 w5 w6 w7))
              (s2-IsFour p4 p5 p6 p7 w4 w5 w6 w7))
            (s3-IsFour p4 p5 p6 p7 w4 w5 w6 w7))
          (s4-IsFour p4 p5 p6 p7 w4 w5 w6 w7) in
      minus-IsCombined
        (minus-IsCombined
          (minus-IsCombined (minus-IsCombined added (d1-IsFour p4 p5 p6 p7 w4 w5 w6 w7))
            (d2-IsFour p4 p5 p6 p7 w4 w5 w6 w7))
          (d3-IsFour p4 p5 p6 p7 w4 w5 w6 w7))
        (d4-IsFour p4 p5 p6 p7 w4 w5 w6 w7)

  eight_lem :
      IsRemainder secp256r1_p
        (val (p0 ∷ p1 ∷ p2 ∷ p3 ∷ p4 ∷ p5 ∷ p6 ∷ p7 ∷ []))
        (mmod_fast_secp256r1 (p0 ∷ p1 ∷ p2 ∷ p3 ∷ p4 ∷ p5 ∷ p6 ∷ p7 ∷ []))
  unfolding mmod_fast_secp256r1
  eight_lem =
      let balance = identity p4 p5 p6 p7 w4 w5 w6 w7 in
      IsRemainder-of _ (val low) (val (p4 ∷ p5 ∷ p6 ∷ p7 ∷ [])) sums diffs
        (quotient p4 p5 p6 p7 w4 w5 w6 w7) _ (regroup _ (finish_lem _ _ _ combine-IsCombined))
        (omega arith) balance
    where
      regroup :
          (out : List ℕ)
          → IsResult
              (val low
                + 2 * val (s1 p4 p5 p6 p7)
                + 2 * val (s2 p4 p5 p6 p7)
                + val (s3 p4 p5 p6 p7)
                + val (s4 p4 p5 p6 p7))
              (0
                + val (d1 p4 p5 p6 p7)
                + val (d2 p4 p5 p6 p7)
                + val (d3 p4 p5 p6 p7)
                + val (d4 p4 p5 p6 p7))
              out
          → IsResult (val low + sums) diffs out
      regroup out r = record {
        from = r.from;
        less = r.less;
        is_reduced = r.is_reduced;
        same = omega (arith, r.same);
      }

-- `vli_mmod_fast_secp256r1` computes the remainder of every eight-word VLI modulo the prime.
pub mmod_fast_secp256r1-IsRemainder :
    (product : List ℕ)
    → length product ≡ 8
    → IsWords product
    → IsRemainder secp256r1_p (val product) (mmod_fast_secp256r1 product)
mmod_fast_secp256r1-IsRemainder (p0 ∷ p1 ∷ p2 ∷ p3 ∷ p4 ∷ p5 ∷ p6 ∷ p7 ∷ []) e
      (w0, (w1, (w2, (w3, (w4, (w5, (w6, (w7, _)))))))) =
    eight_lem p0 p1 p2 p3 p4 p5 p6 p7 w0 w1 w2 w3 w4 w5 w6 w7
mmod_fast_secp256r1-IsRemainder [] e w = absurd (omega (arith, e))
mmod_fast_secp256r1-IsRemainder (p0 ∷ []) e w = absurd (omega (arith, e))
mmod_fast_secp256r1-IsRemainder (p0 ∷ p1 ∷ []) e w = absurd (omega (arith, e))
mmod_fast_secp256r1-IsRemainder (p0 ∷ p1 ∷ p2 ∷ []) e w = absurd (omega (arith, e))
mmod_fast_secp256r1-IsRemainder (p0 ∷ p1 ∷ p2 ∷ p3 ∷ []) e w = absurd (omega (arith, e))
mmod_fast_secp256r1-IsRemainder (p0 ∷ p1 ∷ p2 ∷ p3 ∷ p4 ∷ []) e w = absurd (omega (arith, e))
mmod_fast_secp256r1-IsRemainder (p0 ∷ p1 ∷ p2 ∷ p3 ∷ p4 ∷ p5 ∷ []) e w = absurd (omega (arith, e))
mmod_fast_secp256r1-IsRemainder (p0 ∷ p1 ∷ p2 ∷ p3 ∷ p4 ∷ p5 ∷ p6 ∷ []) e w =
    absurd (omega (arith, e))
mmod_fast_secp256r1-IsRemainder (p0 ∷ p1 ∷ p2 ∷ p3 ∷ p4 ∷ p5 ∷ p6 ∷ p7 ∷ x ∷ xs) e w =
    absurd (omega (arith, e))

-- The field of the curve.
pub secp256r1-IsField : IsField secp256r1_data
secp256r1-IsField = record {
  positive = omega arith;
  small = omega arith;
  p_size = refl;
  p_words = secp256r1_p-IsWords;
  p_odd = refl;
  p_big = omega arith;
  reduces = λ product size words below.
      let r = mmod_fast_secp256r1-IsRemainder product size words in
      record {
        element = record {
          size = r.same_length;
          words = r.words;
          reduced = rw r.remainder (mod-lt (val product) (omega arith));
        };
        value = r.remainder;
      };
}
