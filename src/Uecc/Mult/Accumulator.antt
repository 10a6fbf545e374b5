-- ===== src/Uecc/Mult/Accumulator.antt =====
-- `muladd` and `mul2add` (uECC.c lines 357-399 and 435-482) add a product to the accumulator.
use ligo.Prelude.{ℕ, ◌+◌, ◌*◌, ◌≤◌, ◌<◌, ◌≡◌, arith}
use ligo.Uecc.Word.{word_mod}
use ligo.Uecc.Mult.{Acc3, muladd, mul2add, dword_mod}

-- The number in the accumulator.
abbrev pub acc_val : Acc3 → ℕ
acc_val r = r.r0 + word_mod * r.r1 + dword_mod * r.r2

abbrev pub IsAcc : Acc3 → Type 0
IsAcc r = (r.r0 < word_mod) × (r.r1 < word_mod) × (r.r2 < word_mod)

product-lt : (a b : ℕ) → a < word_mod → b < word_mod → a * b < dword_mod
product-lt a b p q = grind arith

-- While the top word has room, `muladd` adds the product of two words exactly.
pub muladd-acc_val :
    (a b : ℕ) (r : Acc3)
    → a < word_mod
    → b < word_mod
    → IsAcc r
    → r.r2 + 1 < word_mod
    → (acc_val (muladd a b r) ≡ acc_val r + a * b)
      × IsAcc (muladd a b r)
      × ((muladd a b r).r2 ≤ r.r2 + 1)
unfolding muladd
muladd-acc_val a b r p q w room = ground (arith, product-lt a b p q)

-- While the top word has room, `mul2add` adds twice the product of two words exactly.
pub mul2add-acc_val :
    (a b : ℕ) (r : Acc3)
    → a < word_mod
    → b < word_mod
    → IsAcc r
    → r.r2 + 2 < word_mod
    → (acc_val (mul2add a b r) ≡ acc_val r + 2 * (a * b))
      × IsAcc (mul2add a b r)
      × ((mul2add a b r).r2 ≤ r.r2 + 2)
unfolding mul2add
mul2add-acc_val a b r p q w room = ground (arith, product-lt a b p q)
