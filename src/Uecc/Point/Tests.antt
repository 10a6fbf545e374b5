-- ===== src/Uecc/Point/Tests.antt =====
-- The ladder and the public keys on the curve y^2 = x^3 - 3 x + 6 modulo 7, whose points are the multiples of (2, 1),
-- which has the order 11.
use ligo.Prelude.{
  inr, length, List, ℕ, zero, suc, ◌+◌, ◌*◌, ◌/◌, ◌%◌, ◌^◌, ◌<◌, ◌≡◌, refl, ap, arith, [], ◌∷◌,
  get_or, none,
}
use ligo.Uecc.Word.{IsWords, val}
use ligo.Uecc.ModArith.Congruence.{Congruent}
use ligo.Uecc.Curve.{CurveData, Curve}
use ligo.Uecc.Curve.Element.{IsField}
use ligo.Uecc.Jacobian.{double_jacobian_default, mod_sqrt_default, x_side_default}
use ligo.Uecc.Point.{coords_of, regularize_k, regular_scalar, point_mult, compute_public_point}
use ligo.Uecc.Point.Chord.{IsChordSum}
use ligo.Uecc.Point.Multiples.{IsUnit, IsDistinct, IsStep, IsMultiples}
use ligo.Uecc.Point.Rounds.{IsAt}
use ligo.Uecc.Point.Scalar.{regularize_k-IsRegular}
use ligo.Uecc.Point.Product.{IsResult, leading, point_mult-IsResult}
use ligo.Uecc.Run.{returned, refused}
use ligo.Uecc.Keys.{read_private, compute_public_key}
use ligo.Uecc.Keys.Public.{
  IsPrivate, read_lem, IsPointBytes, compute_public_key-IsPointBytes, compute_public_key-refuses,
}
use ligo.Uecc.Vli.{clear}
use ligo.Uecc.Bytes.{put_byte, bytes_loop, bytes_to_native}
use ligo.Uecc.Keys.{bytes_to_point, shared_secret}
use ligo.Uecc.Keys.Secret.{IsSecret, shared_secret-IsSecret}
use ligo.Uecc.Point.Public.{HasOrder, IsPublic, compute_public_point-IsPublic}

abbrev tiny_data : CurveData
tiny_data = record {
  num_words = 1;
  num_bytes = 1;
  num_n_bits = 4;
  p = 7 ∷ [];
  n = 11 ∷ [];
  g = 2 ∷ 1 ∷ [];
  b = 6 ∷ [];
  mmod_fast = λ x. val x % 7 ∷ [];
}

abbrev tiny : Curve
tiny = record {
  info = tiny_data;
  double_jacobian = double_jacobian_default;
  mod_sqrt = mod_sqrt_default;
  x_side = x_side_default;
}

tiny-IsField : IsField tiny_data
tiny-IsField = record {
  positive = omega arith;
  small = omega arith;
  p_size = refl;
  p_words = (omega arith, tt);
  p_odd = refl;
  p_big = omega arith;
  reduces = λ x size words below. record {
    element = record { size = refl; words = (omega arith, tt); reduced = omega arith };
    value = omega arith;
  };
}

-- The coordinates of the multiples; those of the point at infinity are never used.
abbrev multiple_x : ℕ → ℕ
multiple_x i = get_or (0 ∷ 2 ∷ 4 ∷ 5 ∷ 1 ∷ 6 ∷ 6 ∷ 1 ∷ 5 ∷ 4 ∷ 2 ∷ []) (i % 11) 0

abbrev multiple_y : ℕ → ℕ
multiple_y i = get_or (0 ∷ 1 ∷ 4 ∷ 5 ∷ 5 ∷ 1 ∷ 6 ∷ 2 ∷ 2 ∷ 3 ∷ 6 ∷ []) (i % 11) 0

abbrev opposite_y : ℕ → ℕ
opposite_y i = 6 * multiple_y i

by_residue : {x y : ℕ} → x % 7 ≡ y % 7 → Congruent 7 x y
by_residue {x = x} {y = y} e = record {
  left_multiple = y / 7;
  right_multiple = x / 7;
  balance = omega (arith, e);
}

chord :
    {a1 b1 a2 b2 x y : ℕ} (k : ℕ)
    → (k * a2 + b1) % 7 ≡ (k * a1 + b2) % 7
    → (x + a1 + a2) % 7 ≡ k * k % 7
    → (y + b1 + k * x) % 7 ≡ k * a1 % 7
    → IsChordSum 7 a1 b1 a2 b2 x y
chord k p q r = record { k = k; slope = by_residue p; sum_x = by_residue q; sum_y = by_residue r }

distinct : {x1 x2 : ℕ} (d i : ℕ) → (d + x1) % 7 ≡ x2 % 7 → d * i % 7 ≡ 1 → IsDistinct 7 x1 x2
distinct d i p q = record {
  difference = d;
  at_difference = by_residue p;
  unit = record { inverse = i; is_one = by_residue q };
}

abbrev Step : ℕ → Type 0
Step n = IsStep 7 multiple_x multiple_y opposite_y n

Step-one : Step 1
Step-one = record {
  odd = chord 5 refl refl refl;
  difference = chord 6 refl refl refl;
  next = chord 6 refl refl refl;
  previous = chord 2 refl refl refl;
  neighbours = distinct 2 4 refl refl;
  not_first = distinct 4 2 refl refl;
}

Step-three : Step 3
Step-three = record {
  odd = chord 0 refl refl refl;
  difference = chord 1 refl refl refl;
  next = chord 6 refl refl refl;
  previous = chord 4 refl refl refl;
  neighbours = distinct 3 5 refl refl;
  not_first = distinct 1 1 refl refl;
}

Step-six : Step 6
Step-six = record {
  odd = chord 5 refl refl refl;
  difference = chord 4 refl refl refl;
  next = chord 5 refl refl refl;
  previous = chord 6 refl refl refl;
  neighbours = distinct 2 4 refl refl;
  not_first = distinct 5 3 refl refl;
}

Step-twelve : Step 12
Step-twelve = record {
  odd = chord 5 refl refl refl;
  difference = chord 6 refl refl refl;
  next = chord 6 refl refl refl;
  previous = chord 2 refl refl refl;
  neighbours = distinct 2 4 refl refl;
  not_first = distinct 4 2 refl refl;
}

key-IsMultiples : IsMultiples 7 24 4 multiple_x multiple_y opposite_y
key-IsMultiples = record {
  opposite = λ i. cancels (multiple_y i);
  double = record {
    k = 1;
    slope = by_residue refl;
    sum_x = by_residue refl;
    sum_y = by_residue refl;
  };
  step = steps;
}
  where
    cancels : (v : ℕ) → Congruent 7 (6 * v + v) 0
    cancels v = record { left_multiple = 0; right_multiple = v; balance = omega arith }

    steps : (i : ℕ) → i < 4 → Step (24 / 2 ^ suc i)
    steps zero h = Step-twelve
    steps (suc zero) h = Step-six
    steps (suc (suc zero)) h = Step-three
    steps (suc (suc (suc zero))) h = Step-one
    steps (suc (suc (suc (suc i)))) h = absurd (omega arith)

base-IsAt : IsAt tiny_data 1 2 1 (coords_of 1 (2 ∷ 1 ∷ []))
base-IsAt = record {
  x_element = record { size = refl; words = (omega arith, tt); reduced = omega arith };
  y_element = record { size = refl; words = (omega arith, tt); reduced = omega arith };
  point = record { at_x = by_residue refl; at_y = by_residue refl };
}

two-IsUnit : IsUnit 7 2
two-IsUnit = record { inverse = 4; is_one = by_residue refl }

one-IsUnit : IsUnit 7 1
one-IsUnit = record { inverse = 1; is_one = by_residue refl }

-- The scalar 8, with a fifth digit above its four: 24 times the point.
point_mult-IsResult_example :
    IsResult tiny_data
      (multiple_x 24)
      (multiple_y 24)
      (point_mult (coords_of 1 (2 ∷ 1 ∷ [])) (8 ∷ []) none 5 tiny)
point_mult-IsResult_example =
    point_mult-IsResult tiny (coords_of 1 (2 ∷ 1 ∷ [])) (8 ∷ []) none 4 multiple_x multiple_y
      opposite_y tiny-IsField refl base-IsAt two-IsUnit one-IsUnit (λ z e. absurd (cc e))
      (omega arith, tt) (omega arith) key-IsMultiples

tiny-HasOrder : HasOrder tiny_data
tiny-HasOrder = record {
  n_size = refl;
  n_words = (omega arith, tt);
  some_bits = omega arith;
  small = omega arith;
  large = omega arith;
}

-- The private key 2 becomes 2 + 2 * 11.
regular_key_lem :
    (k : List ℕ)
    → length k ≡ 1
    → IsWords k
    → val k ≡ 2
    → leading 4 (val (regular_scalar (regularize_k k tiny_data))) ≡ 24
regular_key_lem k size words two =
    let r =
      regularize_k-IsRegular tiny_data k refl size (omega arith, tt) words (omega arith)
        (omega arith) (omega (arith, two)) in
    omega (arith, two, r.total, r.at_most)

regular_key-IsMultiples :
    IsMultiples 7
      (leading 4 (val (regular_scalar (regularize_k (2 ∷ []) tiny_data))))
      4
      multiple_x
      multiple_y
      opposite_y
regular_key-IsMultiples = rw (regular_key_lem (2 ∷ []) refl (omega arith, tt) refl) key-IsMultiples

multiple_x_period : (i : ℕ) → multiple_x (i + 11) ≡ multiple_x i
multiple_x_period i =
    let period : (i + 11) % 11 ≡ i % 11 = omega arith in
    ap (λ (t : ℕ). get_or (0 ∷ 2 ∷ 4 ∷ 5 ∷ 1 ∷ 6 ∷ 6 ∷ 1 ∷ 5 ∷ 4 ∷ 2 ∷ []) t 0) period

multiple_y_period : (i : ℕ) → multiple_y (i + 11) ≡ multiple_y i
multiple_y_period i =
    let period : (i + 11) % 11 ≡ i % 11 = omega arith in
    ap (λ (t : ℕ). get_or (0 ∷ 1 ∷ 4 ∷ 5 ∷ 5 ∷ 1 ∷ 6 ∷ 2 ∷ 2 ∷ 3 ∷ 6 ∷ []) t 0) period

compute_public_point-IsPublic_example :
    IsPublic tiny_data (multiple_x 2) (multiple_y 2) (compute_public_point (2 ∷ []) tiny)
compute_public_point-IsPublic_example =
    compute_public_point-IsPublic tiny (2 ∷ []) multiple_x multiple_y opposite_y tiny-IsField
      tiny-HasOrder refl base-IsAt two-IsUnit one-IsUnit refl (omega arith, tt) (omega arith)
      multiple_x_period multiple_y_period regular_key-IsMultiples

two-IsPrivate : IsPrivate tiny_data (2 ∷ [])
two-IsPrivate = record { bytes = (omega arith, tt); size = omega arith }

read_key-IsMultiples :
    IsMultiples 7
      (leading 4 (val (regular_scalar (regularize_k (read_private (2 ∷ []) tiny_data) tiny_data))))
      4
      multiple_x
      multiple_y
      opposite_y
read_key-IsMultiples =
    let r = read_lem tiny_data (2 ∷ []) tiny-HasOrder two-IsPrivate in
    rw (regular_key_lem (read_private (2 ∷ []) tiny_data) r.size r.words r.value) key-IsMultiples

compute_public_key-IsPointBytes_example :
    (bytes : List ℕ) × (compute_public_key {S = ℕ} (2 ∷ []) tiny 0 ≡ (returned bytes, 0))
    × IsPointBytes tiny_data (multiple_x 2) (multiple_y 2) bytes
compute_public_key-IsPointBytes_example =
    compute_public_key-IsPointBytes tiny (2 ∷ []) 0 multiple_x multiple_y opposite_y tiny-IsField
      tiny-HasOrder refl base-IsAt two-IsUnit one-IsUnit two-IsPrivate
      (λ e. absurd (omega (arith, e))) (omega arith) multiple_x_period multiple_y_period
      read_key-IsMultiples (record { inverse = 2; is_one = by_residue refl })

-- The private key 12 is not below the order 11.
compute_public_key-refuses_example : compute_public_key {S = ℕ} (12 ∷ []) tiny 0 ≡ (refused, 0)
compute_public_key-refuses_example =
    compute_public_key-refuses tiny (12 ∷ []) 0 tiny-HasOrder
      (record { bytes = (omega arith, tt); size = omega arith }) (inr (omega arith))

-- The public key of the private key 1.
abbrev first_key : List ℕ
first_key = 2 ∷ 1 ∷ []

first_key_words : bytes_to_point first_key tiny_data ≡ 2 ∷ 1 ∷ []
unfolding bytes_to_point bytes_to_native bytes_loop put_byte clear
first_key_words = refl

nonzero-IsUnit : (n : ℕ) → n < 7 → 0 < n → IsUnit 7 n
nonzero-IsUnit zero h positive = absurd (omega arith)
nonzero-IsUnit (suc zero) h positive = one-IsUnit
nonzero-IsUnit (suc (suc zero)) h positive = two-IsUnit
nonzero-IsUnit (suc (suc (suc zero))) h positive = record { inverse = 5; is_one = by_residue refl }
nonzero-IsUnit (suc (suc (suc (suc zero)))) h positive = record {
  inverse = 2;
  is_one = by_residue refl;
}
nonzero-IsUnit (suc (suc (suc (suc (suc zero))))) h positive = record {
  inverse = 3;
  is_one = by_residue refl;
}
nonzero-IsUnit (suc (suc (suc (suc (suc (suc zero)))))) h positive = record {
  inverse = 6;
  is_one = by_residue refl;
}
nonzero-IsUnit (suc (suc (suc (suc (suc (suc (suc n))))))) h positive = absurd (omega arith)

shared_secret-IsSecret_example :
    IsSecret {S = ℕ} tiny_data none
      (multiple_x 2)
      (shared_secret {S = ℕ} none first_key (2 ∷ []) tiny 0).0
shared_secret-IsSecret_example =
    shared_secret-IsSecret tiny none first_key (2 ∷ []) 0 multiple_x multiple_y opposite_y
      tiny-IsField (λ x xe positive. nonzero-IsUnit (val x) xe.reduced positive) tiny-HasOrder refl
      (λ draw e. absurd (cc e)) (rw first_key_words base-IsAt) two-IsUnit one-IsUnit two-IsPrivate
      (omega arith) multiple_x_period multiple_y_period read_key-IsMultiples
      (record { inverse = 2; is_one = by_residue refl })
