-- ===== src/Uecc/Mult/Tests.antt =====
-- Products and squares of full words.
use ligo.Prelude.{List, [], ◌∷◌, ℕ, ◌-◌, ◌≡◌, refl, arith, [], ◌∷◌}
use ligo.Uecc.Word.{IsWords}
use ligo.Uecc.Mult.Product.{IsProduct, mult-IsProduct}
use ligo.Uecc.Mult.Square.{square-IsProduct}
use ligo.Uecc.Mult.{square, muladd, mult, column, low_columns, high_columns, shift_acc}

abbrev full : ℕ
full = 0xffff_ffff_ffff_ffff

square_of_full : mult (full ∷ full ∷ []) (full ∷ full ∷ []) ≡ 1 ∷ 0 ∷ (full - 1) ∷ full ∷ []
unfolding mult column low_columns high_columns muladd shift_acc
square_of_full = refl

abbrev full_words : List ℕ
full_words = full ∷ full ∷ []

full_words-IsWords : IsWords full_words
full_words-IsWords = (omega arith, (omega arith, tt))

mult-IsProduct_example : IsProduct full_words full_words (mult full_words full_words)
mult-IsProduct_example =
    mult-IsProduct full_words full_words refl (omega arith) (omega arith) full_words-IsWords
      full_words-IsWords

square-IsProduct_example : IsProduct full_words full_words (square full_words)
square-IsProduct_example =
    square-IsProduct full_words (omega arith) (omega arith) full_words-IsWords
