-- ===== src/Uecc/Word.antt =====
-- ocaml-uecc/src/types.h: the word types of the 64-bit build (uECC_WORD_SIZE 8). A `uECC_word_t`
-- is a number below `word_mod`, and arithmetic on it is written out modulo `word_mod`.
use ligo.Prelude.{ℕ, ◌+◌, ◌-◌, ◌*◌, ◌%◌, ◌<◌, Bool, true, false, List, [], ◌∷◌}
use ligo.Prelude.{ltb, if◌then◌else◌}
use ligo.Prelude.Int.{ℤ, pos, negsuc}

abbrev pub word_bits : ℕ
word_bits = 64

abbrev pub word_mod : ℕ
word_mod = 0x1_0000_0000_0000_0000

abbrev pub high_bit_set : ℕ
high_bit_set = 0x8000_0000_0000_0000

-- A C comparison as a number.
abbrev pub of_bool : Bool → ℕ
of_bool true = 1
of_bool false = 0

-- The conversion of a word to `int8_t` (`cmpresult_t`).
abbrev pub to_int8 : ℕ → ℤ
to_int8 x = let b = x % 256 in if ltb b 128 then pos b else negsuc (255 - b)

-- Every word is in range.
abbrev pub IsWords : List ℕ → Type 0
IsWords [] = Unit
IsWords (x ∷ xs) = (x < word_mod) × IsWords xs

-- The number that a little-endian list of words stands for.
abbrev pub val : List ℕ → ℕ
val [] = 0
val (x ∷ xs) = x + word_mod * val xs
