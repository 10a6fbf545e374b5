-- ===== src/Uecc/Secp256r1/Loops.antt =====
-- The carry of the reduction modulo the prime of secp256r1: the number is `result + 2^256 carry`,
-- and the final loops bring it into range.
use ligo.Prelude.{ℕ, ◌+◌, ◌*◌, ◌^◌, ◌≤◌, ◌≡◌, refl, sym, ap, ◌∙◌, arith, List, length}
use ligo.Prelude.Int.{add_nat, IsBalance, add_nat-IsBalance, sub_nat-IsBalance}
use ligo.Uecc.Word.{IsWords, val}
use ligo.Uecc.Vli.{add, sub}
use ligo.Uecc.Vli.Carry.{span, add-IsSum, sub-IsDifference, span-eq_of_length}
use ligo.Uecc.Secp256r1.{Reducing, plus, minus, plus_twice, secp256r1_p}

abbrev pub four_mod : ℕ
four_mod = 2 ^ 256

abbrev pub p_val : ℕ
p_val = 0xffff_ffff_0000_0001_0000_0000_0000_0000_0000_0000_ffff_ffff_ffff_ffff_ffff_ffff

pub p_val_lem : val secp256r1_p ≡ p_val
p_val_lem = refl

pub secp256r1_p-IsWords : IsWords secp256r1_p
secp256r1_p-IsWords = (omega arith, (omega arith, (omega arith, (omega arith, tt))))

pub span_four : (xs : List ℕ) → length xs ≡ 4 → span xs ≡ four_mod
span_four xs e = span-eq_of_length xs secp256r1_p e ∙ refl

-- `v` is what was added and `w` what was subtracted; `a` and `b` count the carries and borrows.
pub record IsTotal (v w a b : ℕ) (s : Reducing) : Type 0 where
  pub size : length s.result ≡ 4
  pub words : IsWords s.result
  pub balance : IsBalance s.carry a b
  pub total : val s.result + four_mod * a + w ≡ v + four_mod * b

pub plus-IsTotal :
    (v w a b : ℕ) (tmp : List ℕ) (s : Reducing)
    → IsTotal v w a b s
    → length tmp ≡ 4
    → IsWords tmp
    → (k : ℕ) × (k ≤ 1) × IsTotal (v + val tmp) w (a + k) b (plus tmp s)
unfolding plus
plus-IsTotal v w a b tmp s h e tw =
    let t = add-IsSum s.result tmp (h.size ∙ sym e) h.words tw in
    let k = (add s.result tmp).1 in
    (
      k,
      t.last_bit,
      record {
        size = t.same_length ∙ h.size;
        words = t.words;
        balance = add_nat-IsBalance s.carry k a b h.balance;
        total = omega (arith, t.total, h.total, ap (λ (x : ℕ). x * k) (span_four s.result h.size));
      },
    )

pub minus-IsTotal :
    (v w a b : ℕ) (tmp : List ℕ) (s : Reducing)
    → IsTotal v w a b s
    → length tmp ≡ 4
    → IsWords tmp
    → (k : ℕ) × (k ≤ 1) × IsTotal v (w + val tmp) a (b + k) (minus tmp s)
unfolding minus
minus-IsTotal v w a b tmp s h e tw =
    let t = sub-IsDifference s.result tmp (h.size ∙ sym e) h.words tw in
    let k = (sub s.result tmp).1 in
    (
      k,
      t.last_bit,
      record {
        size = t.same_length ∙ h.size;
        words = t.words;
        balance = sub_nat-IsBalance s.carry k a b h.balance;
        total = omega (arith, t.total, h.total, ap (λ (x : ℕ). x * k) (span_four s.result h.size));
      },
    )

pub plus_twice-IsTotal :
    (v w a b : ℕ) (tmp : List ℕ) (s : Reducing)
    → IsTotal v w a b s
    → length tmp ≡ 4
    → IsWords tmp
    → (k : ℕ) × (k ≤ 2) × IsTotal (v + 2 * val tmp) w (a + k) b (plus_twice tmp s)
unfolding plus_twice
plus_twice-IsTotal v w a b tmp s h e tw =
    let t = add-IsSum tmp tmp refl tw tw in
    let k = (add tmp tmp).1 in
    let twice = ap (λ (x : ℕ). x * k) (span_four tmp e) in
    let h' : IsTotal (v + four_mod * k) w (a + k) b (record s { carry = add_nat s.carry k }) =
      record {
        size = h.size;
        words = h.words;
        balance = add_nat-IsBalance s.carry k a b h.balance;
        total = omega (arith, h.total);
      } in
    let (j, le, r) =
      plus-IsTotal (v + four_mod * k) w (a + k) b (add tmp tmp).0 _ h' (t.same_length ∙ e)
        t.words in
    let value : v + four_mod * k + val (add tmp tmp).0 ≡ v + 2 * val tmp =
      omega (arith, t.total, twice) in
    let carries : a + k + j ≡ a + (k + j) = omega arith in
    (k + j, omega (arith, t.last_bit), rw (← value, ← carries) r)
