-- ===== src/Prelude/Int.antt =====
-- The small signed results of C functions (`int`, `int8_t`): 0, 1, and the negative error codes.
use Prim.Native.Nat.{ℕ, suc, ◌+◌, ◌-◌}
use mathlib.Core.Path.{◌≡◌}
use mathlib.Core.Bool.{true, false}
use native.Mathlib.Decide.{dec_lt}
use native.Mathlib.Omega.{arith}
use ligo.Prelude.Tests.{ltb, if◌then◌else◌}

-- `negsuc n` is -(n + 1).
pub data ℤ : Type 0 where
  pos : ℕ → ℤ
  negsuc : ℕ → ℤ

-- Adding and subtracting a number.
abbrev pub add_nat : ℤ → ℕ → ℤ
add_nat (pos n) k = pos (n + k)
add_nat (negsuc n) k = if ltb n k then pos (k - suc n) else negsuc (n - k)

abbrev pub sub_nat : ℤ → ℕ → ℤ
sub_nat (pos n) k = if ltb n k then negsuc (k - suc n) else pos (n - k)
sub_nat (negsuc n) k = negsuc (n + k)

-- The number is `a - b`.
abbrev pub IsBalance : ℤ → ℕ → ℕ → Type 0
IsBalance (pos n) a b = n + b ≡ a
IsBalance (negsuc n) a b = a + suc n ≡ b

pub add_nat-IsBalance : (z : ℤ) (k a b : ℕ) → IsBalance z a b → IsBalance (add_nat z k) (a + k) b
add_nat-IsBalance (pos n) k a b h = omega arith
add_nat-IsBalance (negsuc n) k a b h = elim (dec_lt n k) [
  | yes lt ↦ let e : ltb n k ≡ true = ground arith in rw e (omega arith)
  | no ge ↦ let e : ltb n k ≡ false = ground arith in rw e (omega arith)
]

pub sub_nat-IsBalance : (z : ℤ) (k a b : ℕ) → IsBalance z a b → IsBalance (sub_nat z k) a (b + k)
sub_nat-IsBalance (negsuc n) k a b h = omega arith
sub_nat-IsBalance (pos n) k a b h = elim (dec_lt n k) [
  | yes lt ↦ let e : ltb n k ≡ true = ground arith in rw e (omega arith)
  | no ge ↦ let e : ltb n k ≡ false = ground arith in rw e (omega arith)
]
