-- ===== src/Uecc/Vli/Shift.antt =====
-- `uECC_vli_rshift1` (uECC.c lines 304-317) halves the number.
use ligo.Prelude.{ℕ, ◌+◌, ◌*◌, ◌/◌, ◌%◌, ◌^◌, ◌≡◌, List, [], ◌∷◌, arith, length}
use ligo.Prelude.Bits.{bit_or_low_high}
use ligo.Uecc.Word.{IsWords, val}
use ligo.Uecc.Vli.{rshift1_loop, rshift1}

-- The words above, halved, with the bit that falls out at the top of the carry.
record IsHalved (vli : List ℕ) (out : List ℕ × ℕ) : Type 0 where
  same_length : length out.0 ≡ length vli
  words : IsWords out.0
  half : 2 * val out.0 + val vli % 2 ≡ val vli
  carry : out.1 ≡ val vli % 2 * 2 ^ 63

rshift1_loop-IsHalved : (vli : List ℕ) → IsWords vli → IsHalved vli (rshift1_loop vli)
unfolding rshift1_loop
rshift1_loop-IsHalved [] h = omega arith
rshift1_loop-IsHalved (x ∷ vli) h =
    let rest = rshift1_loop-IsHalved vli h.1 in
    let joined = bit_or_low_high 63 (x / 2) (val vli % 2) (omega arith) in
    record {
      same_length = omega (arith, rest.same_length);
      words = (rw rest.carry (omega (arith, joined)), rest.words);
      half = rw rest.carry (omega (arith, joined, rest.half));
      carry = omega arith;
    }

-- `uECC_vli_rshift1` keeps the length and halves the number, rounding down.
pub rshift1-half :
    (vli : List ℕ)
    → IsWords vli
    → (length (rshift1 vli) ≡ length vli)
      × IsWords (rshift1 vli)
      × (val (rshift1 vli) ≡ val vli / 2)
unfolding rshift1
rshift1-half vli h =
    let out = rshift1_loop-IsHalved vli h in (out.same_length, out.words, omega (arith, out.half))
