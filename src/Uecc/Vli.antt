-- ===== src/Uecc/Vli.antt =====
-- ocaml-uecc/src/uECC.c, lines 197-355: tests, comparisons, shift, addition and subtraction of big
-- integers. A VLI of `num_words` words is the list of its words, lowest first; the operands of a
-- call have one length. Results that C writes through a pointer are returned.
pub mod Carry
pub mod Compare
pub mod Shift
pub mod Count
pub mod Bit
pub mod Value
mod Tests
use ligo.Prelude.{
  ℕ, zero, suc, ◌+◌, ◌-◌, ◌*◌, ◌/◌, ◌%◌, ◌^◌, bit_and, bit_or, bit_xor, Bool, not, List, [], ◌∷◌,
}
use ligo.Prelude.{ltb, ◌==◌, if◌then◌else◌, length, get_or, replicate}
use ligo.Prelude.Int.{ℤ, pos, negsuc}
use ligo.Uecc.Word.{word_mod, high_bit_set, of_bool, to_int8}

-- `uECC_vli_clear`: the loop leaves `num_words` zeros.
unfoldable pub clear : ℕ → List ℕ
clear num_words = replicate num_words 0

is_zero_loop : ℕ → List ℕ → Bool
is_zero_loop bits [] = bits == 0
is_zero_loop bits (x ∷ xs) = is_zero_loop (bit_or bits x) xs

-- `uECC_vli_isZero`
pub is_zero : List ℕ → Bool
unfolding is_zero_loop
is_zero vli = is_zero_loop 0 vli

-- `uECC_vli_testBit`
pub test_bit : List ℕ → ℕ → ℕ
test_bit vli bit = bit_and (get_or vli (bit / 2 ^ 6) 0) (2 ^ bit_and bit 0x3f % word_mod)

-- `vli_numDigits`, with `i + 1` for the loop's `i`.
pub num_digits : ℕ → List ℕ → ℕ
num_digits zero vli = 0
num_digits (suc i) vli = if get_or vli i 0 == 0 then num_digits i vli else suc i

-- `for (i = 0; digit; ++i) digit >>= 1`: a word is 0 after 64 rounds.
bits_loop : ℕ → ℕ → ℕ → ℕ
bits_loop zero i digit = i
bits_loop (suc fuel) i digit =
    let rest = bits_loop fuel (suc i) (digit / 2) in if digit == 0 then i else rest

num_bits_at : ℕ → List ℕ → ℕ
num_bits_at digits vli =
    if digits == 0 then 0 else (digits - 1) * 2 ^ 6 + bits_loop 64 0 (get_or vli (digits - 1) 0)

-- `uECC_vli_numBits`
pub num_bits : List ℕ → ℕ
num_bits vli = num_bits_at (num_digits (length vli) vli) vli

-- `uECC_vli_cmp_unsafe`, with `i + 1` for the loop's `i`.
pub cmp_unsafe_loop : ℕ → List ℕ → List ℕ → ℤ
cmp_unsafe_loop zero left right = pos 0
cmp_unsafe_loop (suc i) left right =
    if ltb (get_or right i 0) (get_or left i 0)
    then pos 1
    else if ltb (get_or left i 0) (get_or right i 0)
    then negsuc 0
    else cmp_unsafe_loop i left right

pub cmp_unsafe : List ℕ → List ℕ → ℤ
cmp_unsafe left right = cmp_unsafe_loop (length left) left right

equal_loop : ℕ → ℕ → List ℕ → List ℕ → Bool
equal_loop diff zero left right = diff == 0
equal_loop diff (suc i) left right =
    equal_loop (bit_or diff (bit_xor (get_or left i 0) (get_or right i 0))) i left right

-- `uECC_vli_equal`
pub equal : List ℕ → List ℕ → Bool
unfolding equal_loop
equal left right = equal_loop 0 (length left) left right

-- The loop of `uECC_vli_rshift1`, from the highest word down; the second part is `carry`.
rshift1_loop : List ℕ → List ℕ × ℕ
rshift1_loop [] = ([], 0)
rshift1_loop (temp ∷ vli) =
    let (high, carry) = rshift1_loop vli in
    (bit_or (temp / 2) carry ∷ high, temp * 2 ^ 63 % word_mod)

-- `uECC_vli_rshift1`
pub rshift1 : List ℕ → List ℕ
unfolding rshift1_loop
rshift1 vli = (rshift1_loop vli).0

-- The body of the loop of `uECC_vli_add`: the sum word and the next carry.
add_word : ℕ → ℕ → ℕ → ℕ × ℕ
add_word left right carry =
    let sum = (left + right + carry) % word_mod in
    (sum, if sum == left then carry else of_bool (ltb sum left))

add_loop : ℕ → List ℕ → List ℕ → List ℕ × ℕ
add_loop carry [] right = ([], carry)
add_loop carry (x ∷ left) [] = ([], carry)
add_loop carry (x ∷ left) (y ∷ right) =
    let (sum, carry') = add_word x y carry in
    let (result, last) = add_loop carry' left right in (sum ∷ result, last)

-- `uECC_vli_add`: the result and the carry.
pub add : List ℕ → List ℕ → List ℕ × ℕ
unfolding add_word add_loop
add left right = add_loop 0 left right

-- The body of the loop of `uECC_vli_sub`: the difference word and the next borrow.
sub_word : ℕ → ℕ → ℕ → ℕ × ℕ
sub_word left right borrow =
    let diff = (left + 2 * word_mod - right - borrow) % word_mod in
    (diff, if diff == left then borrow else of_bool (ltb left diff))

sub_loop : ℕ → List ℕ → List ℕ → List ℕ × ℕ
sub_loop borrow [] right = ([], borrow)
sub_loop borrow (x ∷ left) [] = ([], borrow)
sub_loop borrow (x ∷ left) (y ∷ right) =
    let (diff, borrow') = sub_word x y borrow in
    let (result, last) = sub_loop borrow' left right in (diff ∷ result, last)

-- `uECC_vli_sub`: the result and the borrow.
pub sub : List ℕ → List ℕ → List ℕ × ℕ
unfolding sub_word sub_loop
sub left right = sub_loop 0 left right

-- `uECC_vli_cmp`: the subtraction of words is unsigned, and its result is cut to 8 bits.
pub cmp : List ℕ → List ℕ → ℤ
cmp left right =
    let (tmp, borrow) = sub left right in
    let neg = of_bool (not (borrow == 0)) in
    let equal = of_bool (is_zero tmp) in
    to_int8 ((of_bool (equal == 0) + word_mod - 2 * neg) % word_mod)
