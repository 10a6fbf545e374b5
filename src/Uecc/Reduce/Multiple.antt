-- ===== src/Uecc/Reduce/Multiple.antt =====
-- The first multiple of the modulus in `uECC_vli_mmod`, and how it is halved.
use ligo.Prelude.{
  ℕ, zero, suc, ◌+◌, ◌-◌, ◌*◌, ◌/◌, ◌%◌, ◌^◌, ◌≤◌, ◌<◌, ◌≡◌, refl, sym, ap, ◌∙◌, arith, List, [],
  ◌∷◌, bit_or,
}
use ligo.Prelude.{
  length, length-append, length-take, length-drop, get_or, set, take, drop, take-append-drop,
}
use ligo.Prelude.Bits.{bit_or_low_high, bit_or_high_low}
use native.Mathlib.Nat.{
  pow-suc, pow-zero, mul-le-mul_right, lt_of_mul-lt-mul_right, div-add-mod', mod-lt,
}
use ligo.Prelude.Pow.{pow_add}
use ligo.Uecc.Word.{word_mod, IsWords, val}
use ligo.Uecc.Vli.{rshift1}
use ligo.Uecc.Vli.Carry.{span, val-lt-span, span-eq_of_length}
use ligo.Uecc.Vli.Shift.{rshift1-half}
use ligo.Uecc.Mult.Product.{val-append, IsWords-append}
use ligo.Uecc.Reduce.{shift_left, halve_multiple}

-- Setting the highest bit to `b`, where it was 0.
record HasTop (vli : List ℕ) (b : ℕ) (out : List ℕ) : Type 0 where
  same_length : length out ≡ length vli
  words : IsWords out
  high : 2 * val out ≡ 2 * val vli + b * span vli

or_bit : (x b : ℕ) → x < 2 ^ 63 → bit_or x (b * 2 ^ 63) ≡ x + b * 2 ^ 63
or_bit x b h = bit_or_low_high 63 x b h

set_top-HasTop :
    (n b : ℕ) (vli : List ℕ)
    → b < 2
    → length vli ≡ suc n
    → IsWords vli
    → 2 * val vli < span vli
    → HasTop vli b (set vli n (bit_or (get_or vli n 0) (b * 2 ^ 63)))
set_top-HasTop n b [] bl e w h = absurd (omega arith)
set_top-HasTop zero b (x ∷ []) bl e w h =
    let top = or_bit x b (omega arith) in
    record { same_length = refl; words = (omega (arith, top), tt); high = omega (arith, top) }
set_top-HasTop zero b (x ∷ y ∷ vli) bl e w h = absurd (omega arith)
set_top-HasTop (suc n) b (x ∷ vli) bl e w h =
    let rest = set_top-HasTop n b vli bl (omega arith) w.1 (omega arith) in
    record {
      same_length = omega (arith, rest.same_length);
      words = (w.0, rest.words);
      high = omega (arith, rest.high);
    }

-- A shift by `k` bits, 0 < k < 64: what leaves the last word is `dropped`.
pub record IsShifted (mod' : List ℕ) (k carry : ℕ) (out : List ℕ) : Type 0 where
  pub same_length : length out ≡ length mod'
  pub words : IsWords out
  pub dropped : ℕ
  pub total : val out + span mod' * dropped ≡ val mod' * 2 ^ k + carry

pub pow_pos : (n : ℕ) → 0 < 2 ^ n
pow_pos zero = omega (arith, pow-zero 2)
pow_pos (suc n) = omega (arith, pow-suc 2 n, pow_pos n)

-- A word shifted left by `k` bits: `p` is 2^k and `q` is 2^(64 - k).
record IsSplit (p q x carry : ℕ) : Type 0 where
  kept : x * p % word_mod ≡ x % q * p
  fits : x % q * p + carry < word_mod
  out_of_word : x / q < p
  total : x % q * p + word_mod * (x / q) ≡ x * p

IsSplit-word :
    (p q x carry : ℕ) → p * q ≡ word_mod → 0 < q → x < word_mod → carry < p → IsSplit p q x carry
IsSplit-word p q x carry e pos h c =
    let parts : x / q * q + x % q ≡ x = div-add-mod' x q in
    let less : x % q < q = mod-lt x pos in
    let below : suc (x % q) * p ≤ q * p = mul-le-mul_right p less in
    let whole : x % q * p + word_mod * (x / q) ≡ x * p =
      omega (arith, ap (λ (t : ℕ). t * p) parts, ap (λ (t : ℕ). x / q * t) e) in
    record {
      kept = omega (arith, whole, below, e);
      fits = omega (arith, below, e);
      out_of_word = lt_of_mul-lt-mul_right q (omega (arith, parts, e));
      total = whole;
    }

pub shift_left-IsShifted :
    (k carry : ℕ) (mod' : List ℕ)
    → k ≤ 64
    → carry < 2 ^ k
    → IsWords mod'
    → IsShifted mod' k carry (shift_left k carry mod')
unfolding shift_left
shift_left-IsShifted k carry [] le c w = record {
  same_length = refl;
  words = tt;
  dropped = carry;
  total = omega arith;
}
shift_left-IsShifted k carry (x ∷ mod') le c w =
    let next = x / 2 ^ (64 - k) in
    let all : k + (64 - k) ≡ 64 = omega arith in
    let factors : 2 ^ k * 2 ^ (64 - k) ≡ word_mod =
      sym (pow_add 2 k (64 - k)) ∙ ap (λ (t : ℕ). 2 ^ t) all in
    let s = IsSplit-word (2 ^ k) (2 ^ (64 - k)) x carry factors (pow_pos (64 - k)) w.0 c in
    let rest = shift_left-IsShifted k next mod' le s.out_of_word w.1 in
    let joined : bit_or (x * 2 ^ k % word_mod) carry ≡ x % 2 ^ (64 - k) * 2 ^ k + carry =
      rw s.kept (bit_or_high_low k carry (x % 2 ^ (64 - k)) c) in
    record {
      same_length = omega (arith, rest.same_length);
      words = (rw joined s.fits, rest.words);
      dropped = rest.dropped;
      total = rw joined (omega (arith, rest.total, s.total));
    }

-- Halving 2 n words in two parts.
pub record IsHalved (n : ℕ) (multiple out : List ℕ) : Type 0 where
  pub same_length : length out ≡ n + n
  pub words : IsWords out
  pub half : val out ≡ val multiple / 2

parity : (xs : List ℕ) → val xs % 2 ≡ get_or xs 0 0 % 2
parity [] = refl
parity (x ∷ xs) = omega arith

pub IsWords-take : (n : ℕ) (xs : List ℕ) → IsWords xs → IsWords (take n xs)
IsWords-take zero xs w = tt
IsWords-take (suc n) [] w = tt
IsWords-take (suc n) (x ∷ xs) w = (w.0, IsWords-take n xs w.1)

pub IsWords-drop : (n : ℕ) (xs : List ℕ) → IsWords xs → IsWords (drop n xs)
IsWords-drop zero xs w = w
IsWords-drop (suc n) [] w = tt
IsWords-drop (suc n) (x ∷ xs) w = IsWords-drop n xs w.1

-- 2 * low' = 2 * (low / 2) + b * p, and the parts are low + p * high and low' + p * (high / 2).
half_lem :
    (p low high b low' half_p : ℕ)
    → p ≡ 2 * half_p
    → high % 2 ≡ b
    → 2 * low' ≡ 2 * (low / 2) + b * p
    → low' + p * (high / 2) ≡ (low + p * high) / 2
half_lem p low high b low' half_p e f g =
    let parts : p * (2 * (high / 2) + b) ≡ p * high = ap (λ (t : ℕ). p * t) (omega arith) in
    omega (arith, parts, ap (λ (t : ℕ). t * b) e)

pub span-word_pow : (xs : List ℕ) → span xs ≡ word_mod ^ length xs
span-word_pow [] = sym (pow-zero word_mod)
span-word_pow (x ∷ xs) = rw (pow-suc word_mod (length xs)) (omega (arith, span-word_pow xs))

span_even : (xs : List ℕ) → 0 < length xs → span xs % 2 ≡ 0
span_even [] p = absurd (omega arith)
span_even (x ∷ xs) p = omega arith

module _ (n : ℕ) (multiple : List ℕ) (pos : 0 < n) (size : length multiple ≡ n + n)
    (w : IsWords multiple) where
  abbrev low : List ℕ
  low = take n multiple

  abbrev high : List ℕ
  high = drop n multiple

  low-length : length low ≡ n
  low-length = omega (arith, length-take n multiple)

  parts : val multiple ≡ val low + span low * val high
  parts =
      ap val (sym (take-append-drop n multiple))
      ∙ (val-append low high ∙ rw (span-word_pow low) refl)

  pub halve_multiple-IsHalved : IsHalved n multiple (halve_multiple n multiple)
  unfolding halve_multiple
  halve_multiple-IsHalved =
      let b = get_or high 0 0 % 2 in
      let bit : get_or high 0 0 * 2 ^ 63 % word_mod ≡ b * 2 ^ 63 = omega arith in
      let lw = IsWords-take n multiple w in
      let l = rshift1-half low lw in
      let h = rshift1-half high (IsWords-drop n multiple w) in
      let same_span = span-eq_of_length (rshift1 low) low l.0 in
      let t =
        set_top-HasTop (n - 1) b (rshift1 low) (omega arith) (omega (arith, l.0, low-length)) l.1
          (omega (arith, l.2, val-lt-span low lw, same_span)) in
      let even = span_even low (omega (arith, low-length)) in
      rw bit (record {
        same_length = omega (
          arith,
          length-append _ (rshift1 high),
          t.same_length,
          l.0,
          h.0,
          low-length,
          length-drop n multiple,
        );
        words = IsWords-append _ (rshift1 high) t.words h.1;
        half =
            val-append _ (rshift1 high)
            ∙ (rw (t.same_length, l.0, ← span-word_pow low, h.2, parts)
                (half_lem (span low) (val low) (val high) b _ (span low / 2) (omega (arith, even))
                  (parity high) (rw (← same_span, ← l.2) (omega (arith, t.high)))));
      })
