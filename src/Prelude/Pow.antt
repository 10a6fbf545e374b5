-- ===== src/Prelude/Pow.antt =====
-- Powers.
use Prim.Native.Nat.{ℕ, zero, suc, ◌+◌, ◌*◌, ◌^◌, ◌<◌}
use mathlib.Core.Path.{◌≡◌, refl}
use native.Mathlib.Nat.{pow-suc, pow-zero, zero-add, suc-add, mul-suc, mul-zero}
use native.Mathlib.Omega.{arith}

pub pow_add : (b m n : ℕ) → b ^ (m + n) ≡ b ^ m * b ^ n
pow_add b zero n = rw (zero-add n, pow-zero b) (omega arith)
pow_add b (suc m) n = rw (suc-add m n, pow-suc b (m + n), pow-suc b m, pow_add b m n) (omega arith)

pub pow_mul : (b m n : ℕ) → b ^ (m * n) ≡ (b ^ m) ^ n
pow_mul b m zero = rw (mul-zero m, pow-zero b, pow-zero (b ^ m)) refl
pow_mul b m (suc n) = rw (mul-suc m n, pow_add b (m * n) m, pow-suc (b ^ m) n, pow_mul b m n) refl

pub pow-pos : (b n : ℕ) → 0 < b → 0 < b ^ n
pow-pos b zero h = rw (pow-zero b) (omega arith)
pow-pos b (suc n) h = rw (pow-suc b n) (grind (arith, pow-pos b n h))
