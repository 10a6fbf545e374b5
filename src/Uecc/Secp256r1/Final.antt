-- ===== src/Uecc/Secp256r1/Final.antt =====
-- The final loops of `vli_mmod_fast_secp256r1` (curve-specific.h lines 1045-1053).
use ligo.Prelude.{
  ℕ, zero, suc, ◌+◌, ◌*◌, ◌≤◌, ◌<◌, ◌≡◌, refl, sym, arith, List, inl, inr, length, Bool-cases,
  if◌then◌else◌,
}
use ligo.Prelude.Int.{ℤ, pos, negsuc, IsBalance}
use ligo.Uecc.Word.{IsWords, val}
use ligo.Uecc.Vli.{cmp_unsafe}
use ligo.Uecc.Vli.Carry.{val-lt-span}
use ligo.Uecc.Vli.Compare.{IsOrder, cmp_unsafe-IsOrder}
use ligo.Uecc.ModArith.{is_one}
use ligo.Uecc.ModArith.Residue.{is_one-lt, not_one-le}
use ligo.Uecc.Secp256r1.{Reducing, plus, minus, secp256r1_p, raise, lower}
use ligo.Uecc.Secp256r1.Loops.{
  four_mod, p_val, secp256r1_p-IsWords, span_four, IsTotal, plus-IsTotal, minus-IsTotal,
}

-- A reduced result that differs from a number, `v` less `w`, by multiples of the prime.
pub record IsReduced (v w : ℕ) (out : List ℕ) : Type 0 where
  pub size : length out ≡ 4
  pub words : IsWords out
  pub reduced : val out < p_val
  pub up : ℕ
  pub down : ℕ
  pub total : val out + w + down * p_val ≡ v + up * p_val

pub val-lt_four : (xs : List ℕ) → length xs ≡ 4 → IsWords xs → val xs < four_mod
val-lt_four xs e w = rw (← span_four xs e) (val-lt-span xs w)

start :
    (s : Reducing) (a b : ℕ)
    → length s.result ≡ 4
    → IsWords s.result
    → IsBalance s.carry a b
    → IsTotal (val s.result + four_mod * a) (four_mod * b) a b s
start s a b e w h = record { size = e; words = w; balance = h; total = omega arith }

pub IsBalance-at : (z z' : ℤ) (a b : ℕ) → z ≡ z' → IsBalance z a b → IsBalance z' a b
IsBalance-at z z' a b e h = rw (← e) h

-- Enough rounds up, from a negative carry.
abbrev pub Raises : ℕ → Type 0
Raises fuel =
    (k : ℕ) (s : Reducing)
    → s.carry ≡ negsuc k
    → length s.result ≡ 4
    → IsWords s.result
    → four_mod * suc k ≤ val s.result + fuel * p_val
    → IsReduced (val s.result) (four_mod * suc k) (Reducing.result (raise fuel s))

raise_step : (fuel : ℕ) → Raises fuel → Raises (suc fuel)
unfolding raise
raise_step fuel more k s e size w enough = by_carry (plus secp256r1_p s).carry refl
  where
    next : Reducing
    next = plus secp256r1_p s

    stepped :
        (c : ℕ) × (c ≤ 1)
        × IsTotal
            (val s.result + four_mod * 0 + val secp256r1_p)
            (four_mod * suc k)
            (0 + c)
            (suc k)
            (plus secp256r1_p s)
    stepped =
        plus-IsTotal _ _ 0 (suc k) secp256r1_p s
          (start s 0 (suc k) size w
            (IsBalance-at (negsuc k) s.carry 0 (suc k) (sym e) (omega arith)))
          refl secp256r1_p-IsWords

    by_carry :
        (z : ℤ)
        → next.carry ≡ z
        → IsReduced
            (val s.result)
            (four_mod * suc k)
            (Reducing.result (elim z [ pos n ↦ next | negsuc n ↦ raise fuel next ]))
    by_carry (pos n) e' =
        let (c, le, t) = stepped in
        let b : n + suc k ≡ 0 + c = IsBalance-at next.carry (pos n) _ _ e' t.balance in
        let below = val-lt_four s.result size w in
        record {
          size = t.size;
          words = t.words;
          reduced = omega (arith, t.total, b);
          up = 1;
          down = 0;
          total = omega (arith, t.total, b);
        }
    by_carry (negsuc n) e' =
        let (c, le, t) = stepped in
        let b : 0 + c + suc n ≡ suc k = IsBalance-at next.carry (negsuc n) _ _ e' t.balance in
        let rest = more n next e' t.size t.words (omega (arith, t.total, b, enough)) in
        record {
          size = rest.size;
          words = rest.words;
          reduced = rest.reduced;
          up = suc rest.up;
          down = rest.down;
          total = omega (arith, rest.total, t.total, b);
        }

pub raise-IsReduced : (fuel : ℕ) → Raises fuel
unfolding raise
raise-IsReduced zero k s e size w enough = absurd (omega (arith, val-lt_four s.result size w))
raise-IsReduced (suc fuel) k s e size w enough =
    raise_step fuel (raise-IsReduced fuel) k s e size w enough

-- Enough rounds down, from a carry that is not negative.
abbrev pub Lowers : ℕ → Type 0
Lowers fuel =
    (k : ℕ) (s : Reducing)
    → s.carry ≡ pos k
    → length s.result ≡ 4
    → IsWords s.result
    → val s.result + four_mod * k < suc fuel * p_val
    → IsReduced (val s.result + four_mod * k) 0 (Reducing.result (lower fuel s))

lower_step : (fuel : ℕ) → Lowers fuel → Lowers (suc fuel)
unfolding lower
lower_step fuel more k s e size w enough = by_carry s.carry e
  where
    next : Reducing
    next = minus secp256r1_p s

    order : IsOrder (cmp_unsafe secp256r1_p s.result) (val secp256r1_p) (val s.result)
    order = cmp_unsafe-IsOrder secp256r1_p s.result (sym size) secp256r1_p-IsWords w

    again :
        p_val ≤ val s.result + four_mod * k
        → IsReduced (val s.result + four_mod * k) 0 (Reducing.result (lower fuel next))
    again large =
        let (c, le, t) =
          minus-IsTotal _ _ k 0 secp256r1_p s
            (start s k 0 size w (IsBalance-at (pos k) s.carry k 0 (sym e) (omega arith))) refl
            secp256r1_p-IsWords in
        let fits = val-lt_four next.result t.size t.words in after c le t fits next.carry refl
      where
        after :
            (c : ℕ)
            → c ≤ 1
            → IsTotal (val s.result + four_mod * k) (four_mod * 0 + val secp256r1_p) k (0 + c) next
            → val next.result < four_mod
            → (z : ℤ) → next.carry ≡ z
            → IsReduced (val s.result + four_mod * k) 0 (Reducing.result (lower fuel next))
        after c le t fits (negsuc n) e' =
            let b : k + suc n ≡ 0 + c = IsBalance-at next.carry (negsuc n) _ _ e' t.balance in
            absurd (omega (arith, t.total, b, large, fits))
        after c le t fits (pos n) e' =
            let b : n + (0 + c) ≡ k = IsBalance-at next.carry (pos n) _ _ e' t.balance in
            let rest = more n next e' t.size t.words (omega (arith, t.total, b, enough)) in
            record {
              size = rest.size;
              words = rest.words;
              reduced = rest.reduced;
              up = rest.up;
              down = suc rest.down;
              total = omega (arith, rest.total, t.total, b);
            }

    by_number : (n : ℕ) → suc n ≡ k → p_val ≤ val s.result + four_mod * k
    by_number n z = omega (arith, z)

    by_carry :
        (z : ℤ)
        → z ≡ pos k
        → IsReduced (val s.result + four_mod * k) 0 (
            Reducing.result (elim z [
              | pos zero ↦ (if is_one (cmp_unsafe secp256r1_p s.result) then s else lower fuel next)
              | pos (suc k) ↦ lower fuel next
              | negsuc k ↦ lower fuel next
            ]))
    by_carry (negsuc n) z = cc z
    by_carry (pos (suc n)) z = again (by_number n (cc z))
    by_carry (pos zero) z = elim (Bool-cases (is_one (cmp_unsafe secp256r1_p s.result))) [
      | inl less ↦ rw less (record {
        size = size;
        words = w;
        reduced = is_one-lt (cmp_unsafe secp256r1_p s.result) _ _ order less;
        up = 0;
        down = 0;
        total = let z' : zero ≡ k = cc z in omega (arith, z');
      })
      | inr not_less ↦
          rw not_less
            (again (omega (arith, not_one-le (cmp_unsafe secp256r1_p s.result) _ _ order not_less)))
    ]

pub lower-IsReduced : (fuel : ℕ) → Lowers fuel
unfolding lower
lower-IsReduced zero k s e size w enough = record {
  size = size;
  words = w;
  reduced = omega arith;
  up = 0;
  down = 0;
  total = omega (arith, val-lt_four s.result size w);
}
lower-IsReduced (suc fuel) k s e size w enough =
    lower_step fuel (lower-IsReduced fuel) k s e size w enough
