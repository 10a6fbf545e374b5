-- ===== src/Uecc/ModArith/Congruence.antt =====
-- Congruence modulo a number, with the multiples that witness it.
use ligo.Prelude.{ℕ, ◌+◌, ◌-◌, ◌*◌, ◌/◌, ◌%◌, ◌≤◌, ◌≡◌, ap, arith, ◌∙◌, sym}
use native.Mathlib.Decide.{dec_le}
use native.Mathlib.Nat.{add-mul-mod_self_right}

pub record Congruent (m x y : ℕ) : Type 0 where
  pub left_multiple : ℕ
  pub right_multiple : ℕ
  pub balance : x + left_multiple * m ≡ y + right_multiple * m

pub Congruent-trans : (m x y z : ℕ) → Congruent m x y → Congruent m y z → Congruent m x z
Congruent-trans m x y z p q = record {
  left_multiple = p.left_multiple + q.left_multiple;
  right_multiple = p.right_multiple + q.right_multiple;
  balance = omega (arith, p.balance, q.balance);
}

-- `x + z` is congruent to `w`, which is congruent to `y + z'`, and so are `z` and `z'`.
pub Congruent-cancel :
    (m x y z z' : ℕ) → Congruent m (x + z) (y + z') → Congruent m z z' → Congruent m x y
Congruent-cancel m x y z z' p q = record {
  left_multiple = p.left_multiple + q.right_multiple;
  right_multiple = p.right_multiple + q.left_multiple;
  balance = omega (arith, p.balance, q.balance);
}

-- `x` is `y` plus a multiple of `m`, times `c`.
pub Congruent-mul : (m x y k c : ℕ) → x ≡ y + k * m → Congruent m (x * c) (y * c)
Congruent-mul m x y k c e = record {
  left_multiple = 0;
  right_multiple = k * c;
  balance = omega (arith, ap (λ (t : ℕ). t * c) e);
}

-- An odd modulus lets a factor 2 be cancelled.
half_excess : (m x y d : ℕ) → m % 2 ≡ 1 → 2 * x ≡ 2 * y + d * m → x ≡ y + d / 2 * m
half_excess m x y d o e =
    let odd : m ≡ 2 * (m / 2) + 1 = omega arith in
    let even : d ≡ 2 * (d / 2) = omega (arith, ap (λ (t : ℕ). d * t) odd) in
    omega (arith, ap (λ (t : ℕ). t * m) even)

half_balance :
    (m x y k l : ℕ) → m % 2 ≡ 1 → 2 * x + k * m ≡ 2 * y + l * m → k ≤ l → x ≡ y + (l - k) / 2 * m
half_balance m x y k l o e h =
    let split : l ≡ k + (l - k) = omega arith in
    half_excess m x y (l - k) o (omega (arith, ap (λ (t : ℕ). t * m) split))

pub Congruent-half : (m x y : ℕ) → m % 2 ≡ 1 → Congruent m (2 * x) (2 * y) → Congruent m x y
Congruent-half m x y o p = elim (dec_le p.left_multiple p.right_multiple) [
  | yes h ↦ record {
    left_multiple = 0;
    right_multiple = (p.right_multiple - p.left_multiple) / 2;
    balance = omega (arith, half_balance m x y p.left_multiple p.right_multiple o p.balance h);
  }
  | no h ↦ record {
    left_multiple = (p.left_multiple - p.right_multiple) / 2;
    right_multiple = 0;
    balance = omega (
      arith,
      half_balance m y x p.right_multiple p.left_multiple o (sym p.balance) (omega arith),
    );
  }
]

pub Congruent-mod : (m x y : ℕ) → Congruent m x y → x % m ≡ y % m
Congruent-mod m x y p =
    sym (add-mul-mod_self_right x p.left_multiple m)
    ∙ (ap (λ (t : ℕ). t % m) p.balance ∙ add-mul-mod_self_right y p.right_multiple m)
