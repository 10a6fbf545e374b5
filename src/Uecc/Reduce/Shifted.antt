-- ===== src/Uecc/Reduce/Shifted.antt =====
-- The multiple of the modulus that the loop of `uECC_vli_mmod` starts from (uECC.c lines 563-577).
use ligo.Prelude.{
  ℕ, zero, suc, ◌+◌, ◌-◌, ◌*◌, ◌/◌, ◌%◌, ◌^◌, ◌≤◌, ◌<◌, ◌≡◌, refl, ◌∙◌, arith, List, ◌++◌,
}
use ligo.Prelude.{length, length-append, take_all, ltb, if◌then◌else◌, true}
use native.Mathlib.Nat.{pow-zero, pow-le-pow_right, mul-le-mul_right, mul-lt-mul_of_pos_right}
use native.Mathlib.Decide.{dec_lt}
use ligo.Prelude.Pow.{pow_add}
use ligo.Uecc.Word.{IsWords, val}
use ligo.Uecc.Vli.{num_bits, clear}
use ligo.Uecc.Vli.Carry.{span, val-lt-span}
use ligo.Uecc.Vli.Count.{IsLength, num_bits-IsLength}
use ligo.Uecc.ModArith.Inverse.Loop.{span-pow, clear_lem}
use ligo.Uecc.Mult.Product.{val-append, IsWords-append}
use ligo.Uecc.Reduce.{shift_left, mmod_shift, shifted_mod}
use ligo.Uecc.Reduce.Multiple.{pow_pos, shift_left-IsShifted, span-word_pow}

exponent-lt : (a b v : ℕ) → 2 ^ a ≤ v → v < 2 ^ b → a < b
exponent-lt a b v p q = elim (dec_lt a b) [
  | yes lt ↦ lt
  | no ge ↦
      let le : b ≤ a = omega arith in
      let powers : 2 ^ b ≤ 2 ^ a = pow-le-pow_right (omega arith) le in absurd (omega arith)
]

-- The modulus is shifted by its length and `bits` more, up to the highest bit.
pub record IsAligned (n v shift : ℕ) : Type 0 where
  pub bits : ℕ
  pub small : bits < 64
  pub shift_eq : shift ≡ 64 * n + bits
  pub fits : v * 2 ^ bits < 2 ^ (64 * n)
  pub filled : 2 ^ (64 * n) ≤ v * 2 ^ suc bits

aligned :
    (n v b : ℕ)
    → 0 < n
    → 2 ^ (64 * (n - 1)) ≤ v
    → v < 2 ^ (64 * n)
    → IsLength b v
    → IsAligned n v (n * 2 * 64 - b)
aligned n v zero p lo hi h = absurd (omega (arith, pow_pos (64 * (n - 1))))
aligned n v (suc b) p lo hi h =
    let above : 64 * (n - 1) < suc b = exponent-lt _ _ v lo h.1 in
    let below : b < 64 * n = exponent-lt _ _ v h.0 hi in
    let bits = 64 * n - suc b in
    let whole : suc b + bits ≡ 64 * n = omega arith in
    let whole' : b + suc bits ≡ 64 * n = omega arith in
    record {
      bits = bits;
      small = omega arith;
      shift_eq = omega arith;
      fits = room (suc b) bits v (64 * n) whole h.1;
      filled = reach b (suc bits) v (64 * n) whole' h.0;
    }
  where
    room : (a c v m : ℕ) → a + c ≡ m → v < 2 ^ a → v * 2 ^ c < 2 ^ m
    room a c v m e h = rw (← e, pow_add 2 a c) (mul-lt-mul_of_pos_right h (pow_pos c))

    reach : (a c v m : ℕ) → a + c ≡ m → 2 ^ a ≤ v → 2 ^ m ≤ v * 2 ^ c
    reach a c v m e h = rw (← e, pow_add 2 a c) (mul-le-mul_right (2 ^ c) h)

-- The words of the modulus after the shift within words.
abbrev aligned_words : List ℕ → ℕ → List ℕ
aligned_words mod' bits = if ltb 0 bits then shift_left bits 0 mod' else mod'

aligned_words_lem :
    (mod' : List ℕ) (bits : ℕ)
    → IsWords mod'
    → bits < 64
    → val mod' * 2 ^ bits < span mod'
    → (length (aligned_words mod' bits) ≡ length mod')
      × IsWords (aligned_words mod' bits)
      × (val (aligned_words mod' bits) ≡ val mod' * 2 ^ bits)
aligned_words_lem mod' zero w p h = (refl, w, rw (pow-zero 2) (omega arith))
aligned_words_lem mod' (suc k) w p h =
    let s = shift_left-IsShifted (suc k) 0 mod' (omega arith) (pow_pos (suc k)) w in
    let shifted : ltb 0 (suc k) ≡ true = ground arith in
    rw shifted (s.same_length, s.words, none_dropped (span mod') s.dropped _ _ s.total h)
  where
    none_dropped : (p d out v : ℕ) → out + p * d ≡ v + 0 → v < p → out ≡ v
    none_dropped p zero out v e h = omega arith
    none_dropped p (suc d) out v e h = absurd (omega arith)

pub record IsMultiple (mod' : List ℕ) (shift : ℕ) (out : List ℕ) : Type 0 where
  pub same_length : length out ≡ length mod' + length mod'
  pub words : IsWords out
  pub multiple : val out ≡ val mod' * 2 ^ shift

module _ (mod' : List ℕ) (w : IsWords mod') (pos : 0 < length mod')
    (top : 2 ^ (64 * (length mod' - 1)) ≤ val mod') where
  abbrev n : ℕ
  n = length mod'

  pub mmod_shift-IsAligned : IsAligned n (val mod') (mmod_shift mod')
  unfolding mmod_shift
  mmod_shift-IsAligned =
      aligned n (val mod') (num_bits mod') pos top (rw (← span-pow mod') (val-lt-span mod' w))
        (num_bits-IsLength mod' w)

  pub shifted_mod-IsMultiple : IsMultiple mod' (mmod_shift mod') (shifted_mod mod')
  unfolding shifted_mod
  shifted_mod-IsMultiple =
      let a = mmod_shift-IsAligned in
      let words_shift : mmod_shift mod' / 64 ≡ n = omega (arith, a.shift_eq, a.small) in
      let bit_shift : mmod_shift mod' % 64 ≡ a.bits = omega (arith, a.shift_eq, a.small) in
      let zeros = clear_lem n in
      let l = aligned_words_lem mod' a.bits w a.small (rw (span-pow mod') a.fits) in
      let whole : length (clear n ++ aligned_words mod' a.bits) ≡ n + n =
        omega (arith, length-append (clear n) (aligned_words mod' a.bits), zeros.0, l.0) in
      let all = take_all (n * 2) (clear n ++ aligned_words mod' a.bits) (omega (arith, whole)) in
      rw (words_shift, bit_shift, all)
        (record {
          same_length = whole;
          words = IsWords-append (clear n) _ zeros.1 l.1;
          multiple =
              val-append (clear n) (aligned_words mod' a.bits)
              ∙ (rw
                  (
                    zeros.0,
                    zeros.2,
                    l.2,
                    a.shift_eq,
                    pow_add 2 (64 * n) a.bits,
                    ← span-pow mod',
                    ← span-word_pow mod',
                  )
                  (omega arith));
        })
