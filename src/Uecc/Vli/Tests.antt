-- ===== src/Uecc/Vli/Tests.antt =====
-- Runs of the VLI primitives, and the theorems at concrete operands of two words.
use ligo.Prelude.{ℕ, ◌≡◌, refl, arith, List, [], ◌∷◌}
use ligo.Uecc.Word.{IsWords}
use ligo.Uecc.Vli.{num_bits_at, num_digits, bits_loop, num_bits, cmp_unsafe, add, sub, cmp}
use ligo.Uecc.Vli.Carry.{IsSum, add-IsSum}
use ligo.Uecc.Vli.Compare.{cmp-cmp_unsafe}

abbrev low_full : List ℕ
low_full = 0xffff_ffff_ffff_ffff ∷ 0 ∷ []

abbrev small : List ℕ
small = 2 ∷ 5 ∷ []

low_full-IsWords : IsWords low_full
low_full-IsWords = (omega arith, (omega arith, tt))

small-IsWords : IsWords small
small-IsWords = (omega arith, (omega arith, tt))

add_carries : add low_full small ≡ (1 ∷ 6 ∷ [], 0)
unfolding add
add_carries = refl

sub_borrows : sub small low_full ≡ (3 ∷ 4 ∷ [], 0)
unfolding sub
sub_borrows = refl

num_bits-small : num_bits small ≡ 67
unfolding num_bits num_bits_at num_digits bits_loop
num_bits-small = refl

add-IsSum_example : IsSum low_full small 0 (add low_full small)
add-IsSum_example = add-IsSum low_full small refl low_full-IsWords small-IsWords

cmp-cmp_unsafe_example : cmp low_full small ≡ cmp_unsafe low_full small
cmp-cmp_unsafe_example = cmp-cmp_unsafe low_full small refl low_full-IsWords small-IsWords
