-- ===== src/Uecc/Reduce.antt =====
-- ocaml-uecc/src/uECC.c, lines 553-632: reduction of a product of 2 n words modulo a VLI of n words,
-- by subtracting halved multiples of the modulus.
pub mod Multiple
pub mod Shifted
pub mod Rounds
pub mod Remainder
mod Tests
use ligo.Prelude.{ℕ, zero, suc, ◌+◌, ◌-◌, ◌*◌, ◌/◌, ◌%◌, ◌^◌, bit_or, bit_xor, List, [], ◌∷◌, ◌++◌}
use ligo.Prelude.{ltb, ◌==◌, if◌then◌else◌, length, get_or, set, take, drop}
use ligo.Uecc.Word.{word_mod, of_bool}
use ligo.Uecc.Vli.{clear, num_bits, rshift1, sub}
use ligo.Uecc.Mult.{mult, square}

-- The loop that shifts `mod` left by less than a word; what leaves the last word is dropped.
pub shift_left : ℕ → ℕ → List ℕ → List ℕ
shift_left bit_shift carry [] = []
shift_left bit_shift carry (x ∷ mod') =
    bit_or (x * 2 ^ bit_shift % word_mod) carry
    ∷ shift_left bit_shift (x / 2 ^ (64 - bit_shift)) mod'

-- The bits that `mod` is shifted by.
pub mmod_shift : List ℕ → ℕ
mmod_shift mod' = length mod' * 2 * 64 - num_bits mod'

-- The 2 n words of `mod_multiple` before the loop. A modulus whose highest word is 0 has its
-- words stored beyond them.
pub shifted_mod : List ℕ → List ℕ
shifted_mod mod' =
    let bit_shift = mmod_shift mod' % 64 in
    let words = if ltb 0 bit_shift then shift_left bit_shift 0 mod' else mod' in
    take (length mod' * 2) (clear (mmod_shift mod' / 64) ++ words)

-- `v` holds `tmp` and `product`.
pub record MmodState : Type 0 where
  pub tmp : List ℕ
  pub product : List ℕ
  pub index : ℕ
  pub mod_multiple : List ℕ

-- `v[index]`
abbrev pub current : MmodState → List ℕ
current s = if s.index == 0 then s.tmp else s.product

-- The two calls of `uECC_vli_rshift1` and the bit between the halves.
pub halve_multiple : ℕ → List ℕ → List ℕ
halve_multiple num_words mod_multiple =
    let low = rshift1 (take num_words mod_multiple) in
    let high = drop num_words mod_multiple in
    let top = num_words - 1 in
    set low top (bit_or (get_or low top 0) (get_or high 0 0 * 2 ^ 63 % word_mod)) ++ rshift1 high

-- The body of the loop; its inner loop is that of `uECC_vli_sub`, on 2 n words.
pub mmod_step : ℕ → MmodState → MmodState
mmod_step num_words s =
    let (diff, borrow) = sub (current s) s.mod_multiple in
    record {
      tmp = if s.index == 0 then s.tmp else diff;
      product = if s.index == 0 then diff else s.product;
      index = of_bool (bit_xor s.index borrow == 0);
      mod_multiple = halve_multiple num_words s.mod_multiple;
    }

pub mmod_loop : ℕ → ℕ → MmodState → MmodState
mmod_loop zero num_words s = s
mmod_loop (suc rounds) num_words s = mmod_loop rounds num_words (mmod_step num_words s)

-- `uECC_vli_mmod`; `tmp` has 2 n words, whatever they are.
pub mmod : List ℕ → List ℕ → List ℕ → List ℕ
mmod tmp product mod' =
    let num_words = length mod' in
    take num_words (
      current (
        mmod_loop (suc (mmod_shift mod')) num_words
          (record { tmp = tmp; product = product; index = 1; mod_multiple = shifted_mod mod' })))

-- `uECC_vli_modMult`
pub mod_mult : List ℕ → List ℕ → List ℕ → List ℕ → List ℕ
mod_mult tmp left right mod' = mmod tmp (mult left right) mod'

-- `uECC_vli_modSquare`
pub mod_square : List ℕ → List ℕ → List ℕ → List ℕ
mod_square tmp left mod' = mmod tmp (square left) mod'
