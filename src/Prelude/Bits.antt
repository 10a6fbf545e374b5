-- ===== src/Prelude/Bits.antt =====
-- Laws of `|`, `&` and `^` on words of any width, from the digit recursion that the native
-- operations stand for.
use Prim.Native.Nat.{
  ℕ, zero, suc, ◌+◌, ◌-◌, ◌*◌, ◌/◌, ◌%◌, ◌^◌, ◌≤◌, ◌<◌, min, max, bit_and, bit_or, bit_xor, digits,
  bitwise, differ, bit_and-bitwise, bit_or-bitwise, bit_xor-bitwise,
}
use mathlib.Core.Path.{◌≡◌, refl, ap, sym, ◌∙◌}
use mathlib.Core.Logic.{◌⊎◌, inl, inr}
use native.Mathlib.Nat.{
  le_refl, pow-suc, pow-zero, div-add-mod, mod-lt, add-mul-mod_self_left, mod-eq_of_lt,
  div-div-eq-div-mul,
}
use native.Mathlib.Omega.{arith}

module _ (z : ℕ → ℕ) (op : ℕ → ℕ → ℕ) where
  -- Fuel beyond the number's size changes nothing.
  digits_enough : (n m a b : ℕ) → a ≤ n → a ≤ m → digits z op n a b ≡ digits z op m a b
  digits_enough zero zero a b p q = refl
  digits_enough zero (suc m) zero b p q = refl
  digits_enough zero (suc m) (suc a) b p q = absurd (omega arith)
  digits_enough (suc n) zero zero b p q = refl
  digits_enough (suc n) zero (suc a) b p q = absurd (omega arith)
  digits_enough (suc n) (suc m) zero b p q = refl
  digits_enough (suc n) (suc m) (suc a) b p q =
      rw (digits_enough n m (suc a / 2) (b / 2) (omega arith) (omega arith))

  bitwise_next :
      (a b : ℕ)
      → bitwise z op (suc a) b ≡ bitwise z op (suc a / 2) (b / 2) * 2 + op (suc a % 2) (b % 2)
  bitwise_next a b =
      omega (arith, digits_enough a (suc a / 2) (suc a / 2) (b / 2) (omega arith) (le_refl _))

-- `differ` on binary digits, in linear terms.
abbrev IsDiffer : ℕ → ℕ → ℕ → Type 0
IsDiffer x y d = (d ≤ x + y) × (x ≤ d + y) × (y ≤ d + x) × (d + x + y ≤ 2)

differ_digits : (x y : ℕ) → x < 2 → y < 2 → IsDiffer x y (differ x y)
differ_digits zero y p q = omega arith
differ_digits (suc zero) zero p q = omega arith
differ_digits (suc zero) (suc zero) p q = omega arith
differ_digits (suc zero) (suc (suc y)) p q = absurd (omega arith)
differ_digits (suc (suc x)) y p q = absurd (omega arith)

differ_bounds : (a b : ℕ) → IsDiffer (a % 2) (b % 2) (differ (a % 2) (b % 2))
differ_bounds a b = differ_digits (a % 2) (b % 2) (omega arith) (omega arith)

pub bit_or_next : (a b : ℕ) → bit_or a b ≡ bit_or (a / 2) (b / 2) * 2 + max (a % 2) (b % 2)
bit_or_next zero b = simp bit_or-bitwise (omega arith)
bit_or_next (suc a) b = simp bit_or-bitwise (bitwise_next (λ b. b) max a b)

pub bit_and_next : (a b : ℕ) → bit_and a b ≡ bit_and (a / 2) (b / 2) * 2 + min (a % 2) (b % 2)
bit_and_next zero b = simp bit_and-bitwise (omega arith)
bit_and_next (suc a) b = simp bit_and-bitwise (bitwise_next (λ b. 0) min a b)

pub bit_xor_next : (a b : ℕ) → bit_xor a b ≡ bit_xor (a / 2) (b / 2) * 2 + differ (a % 2) (b % 2)
bit_xor_next zero b = simp bit_xor-bitwise (omega arith)
bit_xor_next (suc a) b = simp bit_xor-bitwise (bitwise_next (λ b. b) differ a b)

-- Induction on both operands' digits: `n` bounds their sum.
bit_or_zero_fuel : (n a : ℕ) → a ≤ n → bit_or a 0 ≡ a
bit_or_zero_fuel n zero h = refl
bit_or_zero_fuel zero (suc a) h = absurd (omega arith)
bit_or_zero_fuel (suc n) (suc a) h =
    omega (arith, bit_or_next (suc a) 0, bit_or_zero_fuel n (suc a / 2) (omega arith))

pub bit_or-zero : (a : ℕ) → bit_or a 0 ≡ a
bit_or-zero a = bit_or_zero_fuel a a (omega arith)

pub zero-bit_or : (b : ℕ) → bit_or 0 b ≡ b
zero-bit_or b = bit_or-bitwise 0 b

mul-pow-suc : (q k : ℕ) → q * 2 ^ suc k ≡ 2 * (q * 2 ^ k)
mul-pow-suc q k = omega (arith, ap (λ (t : ℕ). q * t) (pow-suc 2 k))

-- `|` of a low part and of a part shifted above it is their sum, in either order.
pub bit_or_low_high : (k x y : ℕ) → x < 2 ^ k → bit_or x (y * 2 ^ k) ≡ x + y * 2 ^ k
bit_or_low_high zero x y h = ground (arith, zero-bit_or y)
bit_or_low_high (suc k) x y h = ground (
  arith,
  bit_or_next x (y * 2 ^ suc k),
  mul-pow-suc y k,
  pow-suc 2 k,
  bit_or_low_high k (x / 2) y (omega (arith, pow-suc 2 k)),
)

pub bit_or_high_low : (k x y : ℕ) → x < 2 ^ k → bit_or (y * 2 ^ k) x ≡ y * 2 ^ k + x
bit_or_high_low zero x y h = ground (arith, bit_or-zero y)
bit_or_high_low (suc k) x y h = ground (
  arith,
  bit_or_next (y * 2 ^ suc k) x,
  mul-pow-suc y k,
  pow-suc 2 k,
  bit_or_high_low k (x / 2) y (omega (arith, pow-suc 2 k)),
)

-- A word of ors is 0 exactly when each operand is.
bit_or_eq_zero_fuel : (n a b : ℕ) → a + b ≤ n → bit_or a b ≡ 0 → (a ≡ 0) × (b ≡ 0)
bit_or_eq_zero_fuel zero a b h e = omega arith
bit_or_eq_zero_fuel (suc n) zero b h e = omega (arith, zero-bit_or b)
bit_or_eq_zero_fuel (suc n) (suc a) zero h e = omega (arith, bit_or-zero (suc a))
bit_or_eq_zero_fuel (suc n) (suc a) (suc b) h e =
    let rest : (suc a / 2 ≡ 0) × (suc b / 2 ≡ 0) =
      bit_or_eq_zero_fuel n (suc a / 2) (suc b / 2) (omega arith)
        (omega (arith, bit_or_next (suc a) (suc b))) in
    omega (arith, bit_or_next (suc a) (suc b), rest)

pub bit_or-eq_zero : (a b : ℕ) → bit_or a b ≡ 0 → (a ≡ 0) × (b ≡ 0)
bit_or-eq_zero a b = bit_or_eq_zero_fuel (a + b) a b (omega arith)

-- Two words differ in no bit exactly when they are equal.
bit_xor_eq_zero_fuel : (n a b : ℕ) → a + b ≤ n → bit_xor a b ≡ 0 → a ≡ b
bit_xor_eq_zero_fuel zero a b h e = omega arith
bit_xor_eq_zero_fuel (suc n) a b h e = elim (half_smaller a b) [
  | inl small ↦ omega arith
  | inr less ↦
      let rest : a / 2 ≡ b / 2 =
        bit_xor_eq_zero_fuel n (a / 2) (b / 2) (omega arith) (omega (arith, bit_xor_next a b)) in
      omega (arith, bit_xor_next a b, differ_bounds a b)
]
  where
    half_smaller : (a b : ℕ) → ((a ≡ 0) × (b ≡ 0)) ⊎ (a / 2 + b / 2 < a + b)
    half_smaller a b = grind arith

pub bit_xor-eq_zero : (a b : ℕ) → bit_xor a b ≡ 0 → a ≡ b
bit_xor-eq_zero a b = bit_xor_eq_zero_fuel (a + b) a b (omega arith)

bit_xor_self_fuel : (n a : ℕ) → a ≤ n → bit_xor a a ≡ 0
bit_xor_self_fuel n zero h = bit_xor-bitwise 0 0
bit_xor_self_fuel zero (suc a) h = absurd (omega arith)
bit_xor_self_fuel (suc n) (suc a) h = omega (
  arith,
  bit_xor_next (suc a) (suc a),
  differ_bounds (suc a) (suc a),
  bit_xor_self_fuel n (suc a / 2) (omega arith),
  differ_self (suc a % 2),
)
  where
    differ_self : (x : ℕ) → differ x x ≡ 0
    differ_self zero = refl
    differ_self (suc x) = differ_self x

pub bit_xor_self : (a : ℕ) → bit_xor a a ≡ 0
bit_xor_self a = bit_xor_self_fuel a a (omega arith)

bit_and_zero_fuel : (n a : ℕ) → a ≤ n → bit_and a 0 ≡ 0
bit_and_zero_fuel n zero h = bit_and-bitwise 0 0
bit_and_zero_fuel zero (suc a) h = absurd (omega arith)
bit_and_zero_fuel (suc n) (suc a) h =
    omega (arith, bit_and_next (suc a) 0, bit_and_zero_fuel n (suc a / 2) (omega arith))

-- `a & 1` is the parity.
pub bit_and-one : (a : ℕ) → bit_and a 1 ≡ a % 2
bit_and-one a = omega (arith, bit_and_next a 1, bit_and_zero_fuel (a / 2) (a / 2) (omega arith))

-- The remainder modulo twice a number, by the lowest bit.
mod_double : (x m : ℕ) → 0 < m → x % (2 * m) ≡ x / 2 % m * 2 + x % 2
mod_double x m pos =
    let q = x / 2 / m in
    let r = x / 2 % m in
    let parts : x ≡ r * 2 + x % 2 + 2 * m * q = omega (arith, div-add-mod (x / 2) m) in
    let less : r < m = mod-lt (x / 2) pos in
    ap (λ (t : ℕ). t % (2 * m)) parts
    ∙ (add-mul-mod_self_left (r * 2 + x % 2) (2 * m) q ∙ mod-eq_of_lt (omega arith))

two_pow_pos : (k : ℕ) → 0 < 2 ^ k
two_pow_pos zero = omega (arith, pow-zero 2)
two_pow_pos (suc k) = omega (arith, pow-suc 2 k, two_pow_pos k)

-- `&` with a mask of low bits is a remainder.
pub bit_and_mask : (k x : ℕ) → bit_and x (2 ^ k - 1) ≡ x % 2 ^ k
bit_and_mask zero x =
    let e : 2 ^ zero - 1 ≡ 0 = omega (arith, pow-zero 2) in
    rw (e, pow-zero 2, bit_and_zero_fuel x x (le_refl x)) (omega arith)
bit_and_mask (suc k) x =
    let pos = two_pow_pos k in
    let double : 2 ^ suc k ≡ 2 * 2 ^ k = omega (arith, pow-suc 2 k) in
    let half : (2 * 2 ^ k - 1) / 2 ≡ 2 ^ k - 1 = omega arith in
    let odd : (2 * 2 ^ k - 1) % 2 ≡ 1 = omega arith in
    rw
      (
        double,
        mod_double x (2 ^ k) pos,
        bit_and_next x (2 * 2 ^ k - 1),
        half,
        odd,
        bit_and_mask k (x / 2),
      )
      (omega arith)

-- `&` with a shifted number drops the bits below it.
pub bit_and_shifted : (k x y : ℕ) → bit_and x (y * 2 ^ k) ≡ bit_and (x / 2 ^ k) y * 2 ^ k
bit_and_shifted zero x y =
    let e : y * 2 ^ zero ≡ y = omega (arith, ap (λ (t : ℕ). y * t) (pow-zero 2)) in
    let e' : x / 2 ^ zero ≡ x = rw (pow-zero 2) (omega arith) in
    rw (e, e', pow-zero 2) (omega arith)
bit_and_shifted (suc k) x y =
    let even : y * 2 ^ suc k / 2 ≡ y * 2 ^ k = omega (arith, mul-pow-suc y k) in
    let even' : y * 2 ^ suc k % 2 ≡ 0 = omega (arith, mul-pow-suc y k) in
    let double : 2 ^ suc k ≡ 2 * 2 ^ k = omega (arith, pow-suc 2 k) in
    let parts : x / 2 ^ suc k ≡ x / 2 / 2 ^ k =
      ap (λ (t : ℕ). x / t) double ∙ sym (div-div-eq-div-mul x 2 (2 ^ k)) in
    rw (bit_and_next x (y * 2 ^ suc k), even, even', bit_and_shifted k (x / 2) y, parts)
      (omega (arith, mul-pow-suc (bit_and (x / 2 / 2 ^ k) y) k))

bit_and_le_fuel : (n a b : ℕ) → a ≤ n → bit_and a b ≤ a
bit_and_le_fuel n zero b h = simp bit_and-bitwise (omega arith)
bit_and_le_fuel zero (suc a) b h = absurd (omega arith)
bit_and_le_fuel (suc n) (suc a) b h =
    omega (arith, bit_and_next (suc a) b, bit_and_le_fuel n (suc a / 2) (b / 2) (omega arith))

pub bit_and-le : (a b : ℕ) → bit_and a b ≤ a
bit_and-le a b = bit_and_le_fuel a a b (omega arith)

bit_or_within_fuel : (n a b : ℕ) → a ≤ n → (a ≤ bit_or a b) × (bit_or a b ≤ a + b)
bit_or_within_fuel n zero b h = (omega arith, omega (arith, zero-bit_or b))
bit_or_within_fuel zero (suc a) b h = absurd (omega arith)
bit_or_within_fuel (suc n) (suc a) b h =
    let (low, high) = bit_or_within_fuel n (suc a / 2) (b / 2) (omega arith) in
    let next = bit_or_next (suc a) b in (omega (arith, next, low), omega (arith, next, high))

-- Setting digits makes a number no smaller, and no larger than the sum.
pub bit_or-ge : (a b : ℕ) → a ≤ bit_or a b
bit_or-ge a b = (bit_or_within_fuel a a b (omega arith)).0

pub bit_or-le_sum : (a b : ℕ) → bit_or a b ≤ a + b
bit_or-le_sum a b = (bit_or_within_fuel a a b (omega arith)).1
