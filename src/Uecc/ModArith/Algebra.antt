-- ===== src/Uecc/ModArith/Algebra.antt =====
-- Calculating with congruences: sums, products, and a common summand.
use ligo.Prelude.{ℕ, ◌+◌, ◌-◌, ◌*◌, ◌/◌, ◌%◌, ◌≤◌, ◌≡◌, refl, arith, sym, ap}
use native.Mathlib.Nat.{div-add-mod}
use ligo.Uecc.ModArith.Congruence.{Congruent, Congruent-trans, Congruent-cancel}

module _ {m : ℕ} where
  pub congruent_refl : (x : ℕ) → Congruent m x x
  congruent_refl x = record { left_multiple = 0; right_multiple = 0; balance = refl }

  pub congruent_of_eq : {x y : ℕ} → x ≡ y → Congruent m x y
  congruent_of_eq e = record { left_multiple = 0; right_multiple = 0; balance = omega arith }

  pub congruent_sym : {x y : ℕ} → Congruent m x y → Congruent m y x
  congruent_sym p = record {
    left_multiple = p.right_multiple;
    right_multiple = p.left_multiple;
    balance = sym p.balance;
  }

  pub congruent_trans : {x y z : ℕ} → Congruent m x y → Congruent m y z → Congruent m x z
  congruent_trans p q = Congruent-trans m _ _ _ p q

  pub congruent_add :
      {x y z w : ℕ} → Congruent m x y → Congruent m z w → Congruent m (x + z) (y + w)
  congruent_add p q = record {
    left_multiple = p.left_multiple + q.left_multiple;
    right_multiple = p.right_multiple + q.right_multiple;
    balance = omega (arith, p.balance, q.balance);
  }

  scaled : {x y : ℕ} (c : ℕ) → Congruent m x y → Congruent m (x * c) (y * c)
  scaled c p = record {
    left_multiple = p.left_multiple * c;
    right_multiple = p.right_multiple * c;
    balance = omega (arith, ap (λ (t : ℕ). t * c) p.balance);
  }

  pub congruent_mul :
      {x y z w : ℕ} → Congruent m x y → Congruent m z w → Congruent m (x * z) (y * w)
  congruent_mul {x = x} {y = y} {z = z} {w = w} p q =
      let swap : Congruent m (y * z) (y * w) = record {
        left_multiple = q.left_multiple * y;
        right_multiple = q.right_multiple * y;
        balance = omega (arith, ap (λ (t : ℕ). t * y) q.balance);
      } in
      congruent_trans (scaled z p) swap

  -- What is added on both sides may differ by a congruence.
  pub congruent_cancel :
      {x y z w : ℕ} → Congruent m (x + z) (y + w) → Congruent m z w → Congruent m x y
  congruent_cancel p q = Congruent-cancel m _ _ _ _ p q

  pub congruent_of_mod : {x v : ℕ} → x ≡ v % m → Congruent m x v
  congruent_of_mod {x = x} {v = v} e = record {
    left_multiple = v / m;
    right_multiple = 0;
    balance = omega (arith, e, div-add-mod v m);
  }

  -- The value of a reduced difference.
  pub congruent_sub : {d x y : ℕ} → d ≡ (x + m - y) % m → y ≤ m → Congruent m (d + y) x
  congruent_sub {d = d} {x = x} {y = y} e le = record {
    left_multiple = (x + m - y) / m;
    right_multiple = 1;
    balance = omega (arith, e, div-add-mod (x + m - y) m);
  }

  pub congruent_times : {x y : ℕ} (c : ℕ) → Congruent m x y → Congruent m (c * x) (c * y)
  congruent_times c p = congruent_mul (congruent_refl c) p

  -- A combination of congruences, and an equation between polynomials.
  pub congruent_combine : {l r x y : ℕ} → Congruent m l r → x + r ≡ y + l → Congruent m x y
  congruent_combine p e = record {
    left_multiple = p.left_multiple;
    right_multiple = p.right_multiple;
    balance = omega (arith, p.balance, e);
  }
