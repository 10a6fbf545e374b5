-- ===== src/Uecc/Point/Scalar.antt =====
-- `regularize_k` (uECC.c lines 893-904): a scalar of one fixed length.
use ligo.Prelude.{
  ℕ, zero, suc, ◌+◌, ◌-◌, ◌*◌, ◌/◌, ◌%◌, ◌^◌, ◌<◌, ◌≤◌, ◌≡◌, refl, sym, ap, ◌∙◌, arith, List,
  length, Bool, true, false, not, ◌||◌, Bool-cases, inl, inr, ltb, ◌==◌, if◌then◌else◌,
}
use native.Mathlib.Nat.{
  mod-eq_of_lt, mod-eq-sub-mod, div-eq_of_lt, div-eq_of_lt-le, pow-le-pow_right, pow-succ',
}
use native.Mathlib.Decide.{dec_le}
use ligo.Uecc.Word.{IsWords, val}
use ligo.Uecc.Vli.{add}
use ligo.Uecc.Vli.Bit.{digit, test_bit-zero}
use ligo.Uecc.Vli.Carry.{add-IsSum, span, val-lt-span, span-eq_of_length}
use ligo.Uecc.ModArith.Inverse.Loop.{span-pow}
use ligo.Uecc.Curve.{CurveData, bits_to_words}
use ligo.Uecc.Point.{regularize_k, regular_scalar}

-- The low `b` digits of the scalar, with a digit 1 above them, are `k` plus once or twice `n`.
pub record IsRegular (k n b v : ℕ) : Type 0 where
  pub times : ℕ
  pub at_least : 1 ≤ times
  pub at_most : times ≤ 2
  pub total : v % 2 ^ b + 2 ^ b ≡ k + times * n

mod_over : (v m : ℕ) → m ≤ v → v < m + m → v % m + m ≡ v
mod_over v m le lt = omega (arith, mod-eq-sub-mod le, mod-eq_of_lt (rest-lt v m le lt))
  where
    rest-lt : (v m : ℕ) → m ≤ v → v < m + m → v - m < m
    rest-lt v m le lt = omega arith

digit_below : (v b : ℕ) → v < 2 ^ b → (digit v b == 0) ≡ true
digit_below v b lt = let e = div-eq_of_lt lt in ground (arith, e)

digit_above : (v b : ℕ) → 2 ^ b ≤ v → v < 2 ^ b + 2 ^ b → (digit v b == 0) ≡ false
digit_above v b le lt =
    let e = div-eq_of_lt-le {k = 1} (2 ^ b) {m = v} (omega (arith, le)) (omega (arith, lt)) in
    ground (arith, e)

carry_zero : (v s c t : ℕ) → v + s * c ≡ t → c ≤ 1 → t < s → c ≡ 0
carry_zero v s zero t e le h = refl
carry_zero v s (suc zero) t e le h = absurd (omega (arith, e))
carry_zero v s (suc (suc c)) t e le h = absurd (omega arith)

carry_one : (v s c t : ℕ) → v + s * c ≡ t → c ≤ 1 → v < s → s ≤ t → c ≡ 1
carry_one v s zero t e le h g = absurd (omega (arith, e))
carry_one v s (suc zero) t e le h g = refl
carry_one v s (suc (suc c)) t e le h g = absurd (omega arith)

-- What the two additions leave: the sums, with the carries.
record AreSums (k n s v0 c0 v1 c1 : ℕ) : Type 0 where
  pub first : v0 + s * c0 ≡ k + n
  pub second : v1 + s * c1 ≡ v0 + n
  pub first_fits : v0 < s
  pub second_fits : v1 < s
  pub first_bit : c0 ≤ 1
  pub second_bit : c1 ≤ 1

module _ (k n b s v0 c0 v1 c1 : ℕ) (h : AreSums k n s v0 c0 v1 c1) (small : n < 2 ^ b)
    (large : 2 ^ b ≤ n + n) (below : k < n) where
  -- The words have room for one more digit.
  roomy-IsRegular :
      2 ^ b + 2 ^ b ≤ s
      → IsRegular k n b (if not (c0 == 0) || not (digit v0 b == 0) then v0 else v1)
  roomy-IsRegular room =
      let none : c0 ≡ 0 = carry_zero v0 s c0 _ h.first h.first_bit (omega arith) in
      let sum : v0 ≡ k + n = omega (arith, h.first, ap (λ (t : ℕ). s * t) none) in
      elim (dec_le (2 ^ b) v0) [
        | yes long ↦
            let fits : v0 < 2 ^ b + 2 ^ b = omega arith in
            rw (none, digit_above v0 b long fits)
              (record {
                times = 1;
                at_least = omega arith;
                at_most = omega arith;
                total = mod_over v0 (2 ^ b) long fits ∙ sum ∙ omega arith;
              })
        | no short ↦
            let none' : c1 ≡ 0 = carry_zero v1 s c1 _ h.second h.second_bit (omega arith) in
            let sum' : v1 ≡ k + 2 * n = omega (arith, sum, h.second, ap (λ (t : ℕ). s * t) none') in
            rw (none, digit_below v0 b (omega arith))
              (record {
                times = 2;
                at_least = omega arith;
                at_most = omega arith;
                total = mod_over v1 (2 ^ b) (omega arith) (omega arith) ∙ sum';
              })
      ]

  -- The order fills the words.
  full-IsRegular : 2 ^ b ≡ s → IsRegular k n b (if not (c0 == 0) || false then v0 else v1)
  full-IsRegular e = elim (dec_le s (k + n)) [
    | yes long ↦
        let one : c0 ≡ 1 = carry_one v0 s c0 _ h.first h.first_bit h.first_fits long in
        rw one (record {
          times = 1;
          at_least = omega arith;
          at_most = omega arith;
          total =
              ap (λ (t : ℕ). t + 2 ^ b) (mod-eq_of_lt (omega (arith, h.first_fits)))
              ∙ omega (arith, h.first, ap (λ (t : ℕ). s * t) one);
        })
    | no short ↦
        let none : c0 ≡ 0 = carry_zero v0 s c0 _ h.first h.first_bit (omega arith) in
        let sum : v0 ≡ k + n = omega (arith, h.first, ap (λ (t : ℕ). s * t) none) in
        let one : c1 ≡ 1 = carry_one v1 s c1 _ h.second h.second_bit h.second_fits (omega arith) in
        rw none (record {
          times = 2;
          at_least = omega arith;
          at_most = omega arith;
          total =
              ap (λ (t : ℕ). t + 2 ^ b) (mod-eq_of_lt (omega (arith, h.second_fits)))
              ∙ omega (arith, sum, h.second, ap (λ (t : ℕ). s * t) one);
        })
  ]

-- For a scalar `k` below an order of exactly `num_n_bits` binary digits, in as many words as these
-- take, the scalar that `regularize_k` chooses has the `num_n_bits` low digits of `k` plus once or
-- twice the order, and that number has one digit more, whatever `k` is.
pub regularize_k-IsRegular :
    (c : CurveData) (k : List ℕ)
    → length c.n ≡ bits_to_words c.num_n_bits
    → length k ≡ length c.n
    → IsWords c.n
    → IsWords k
    → val c.n < 2 ^ c.num_n_bits
    → 2 ^ c.num_n_bits ≤ val c.n + val c.n
    → val k < val c.n
    → IsRegular (val k) (val c.n) c.num_n_bits (val (regular_scalar (regularize_k k c)))
unfolding regularize_k
regularize_k-IsRegular c k size same nw kw small large below =
    let b = c.num_n_bits in
    let s1 = add-IsSum k c.n same kw nw in
    let k0 = (add k c.n).0 in
    let s2 = add-IsSum k0 c.n (s1.same_length ∙ same) s1.words nw in
    let k1 = (add k0 c.n).0 in
    let span0 = span-eq_of_length k0 k s1.same_length in
    let span1 = span-eq_of_length k1 k (s2.same_length ∙ s1.same_length) in
    let sums : AreSums (val k) (val c.n) (span k) (val k0) (add k c.n).1 (val k1) (add k0 c.n).1 =
      record {
        first = omega (arith, s1.total);
        second = omega (arith, s2.total, ap (λ (t : ℕ). t * (add k0 c.n).1) span0);
        first_fits = rw (← span0) (val-lt-span k0 s1.words);
        second_fits = rw (← span1) (val-lt-span k1 s2.words);
        first_bit = s1.last_bit;
        second_bit = s2.last_bit;
      } in
    let whole = span-pow k in
    let words : length k ≡ (b + 63) / 64 = same ∙ size in
    elim (Bool-cases (ltb b ((b + 63) / 64 * 64))) [
      | inl roomy ↦
          let exponent : suc b ≤ 64 * length k = ground (arith, words, roomy) in
          let reach : 2 ^ suc b ≤ 2 ^ (64 * length k) = pow-le-pow_right (omega arith) exponent in
          let room : 2 ^ b + 2 ^ b ≤ span k = omega (arith, whole, reach, pow-succ' 2 b) in
          rw (roomy, test_bit-zero k0 b s1.words)
            (IsRegular-if k0 k1 _ (roomy-IsRegular _ _ b _ _ _ _ _ sums small large below room))
      | inr full ↦
          let exponent : b ≡ 64 * length k = ground (arith, words, full) in
          let fills : 2 ^ b ≡ span k = ap (λ (t : ℕ). 2 ^ t) exponent ∙ sym whole in
          rw full
            (IsRegular-if k0 k1 _ (full-IsRegular _ _ b _ _ _ _ _ sums small large below fills))
    ]
  where
    IsRegular-if :
        {n v b : ℕ} (x y : List ℕ) (q : Bool)
        → IsRegular v n b (if q then val x else val y)
        → IsRegular v n b (val (if q then x else y))
    IsRegular-if x y true h = h
    IsRegular-if x y false h = h
