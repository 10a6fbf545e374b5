-- ===== src/Uecc/Reduce/Tests.antt =====
-- The theorems modulo a prime of two words.
use ligo.Prelude.{ℕ, ◌*◌, refl, arith, List, [], ◌∷◌}
use ligo.Uecc.Word.{IsWords, val}
use ligo.Uecc.Reduce.{mmod, mod_mult}
use ligo.Uecc.Reduce.Remainder.{IsRemainder, mmod-IsRemainder, mod_mult-IsRemainder}

-- 2^127 - 1
abbrev prime : List ℕ
prime = 0xffff_ffff_ffff_ffff ∷ 0x7fff_ffff_ffff_ffff ∷ []

abbrev operand : List ℕ
operand = 0x1234_5678_9abc_def0 ∷ 0x0fed_cba9_8765_4321 ∷ []

abbrev product : List ℕ
product = 1 ∷ 2 ∷ 3 ∷ 0xffff_ffff_ffff_ffff ∷ []

abbrev buffer : List ℕ
buffer = 0 ∷ 0 ∷ 0 ∷ 0 ∷ []

prime-IsWords : IsWords prime
prime-IsWords = (omega arith, (omega arith, tt))

operand-IsWords : IsWords operand
operand-IsWords = (omega arith, (omega arith, tt))

product-IsWords : IsWords product
product-IsWords = (omega arith, (omega arith, (omega arith, (omega arith, tt))))

mmod-IsRemainder_example : IsRemainder prime (val product) (mmod buffer product prime)
mmod-IsRemainder_example =
    mmod-IsRemainder buffer product prime prime-IsWords (omega arith) (omega arith) refl
      product-IsWords

mod_mult-IsRemainder_example :
    IsRemainder prime (val operand * val operand) (mod_mult buffer operand operand prime)
mod_mult-IsRemainder_example =
    mod_mult-IsRemainder buffer operand operand prime refl refl (omega arith) (omega arith)
      operand-IsWords operand-IsWords prime-IsWords (omega arith)
