-- ===== src/Uecc/Tests.antt =====
-- The theorems on points, keys and signatures, on the curve secp256r1 and modulo 7.
use ligo.Prelude.{
  ℕ, zero, suc, ◌+◌, ◌-◌, ◌*◌, ◌%◌, ◌^◌, ◌<◌, ◌≡◌, ◌↔◌, refl, arith, List, [], ◌∷◌, inl, some, true,
  false, replicate,
}
use ligo.Uecc.Word.{IsWords, val}
use ligo.Uecc.Vli.{clear}
use ligo.Uecc.Vli.Compare.{is_zero-false}
use ligo.Uecc.ModArith.Congruence.{Congruent}
use ligo.Uecc.Reduce.Remainder.{IsRemainder}
use ligo.Uecc.Curve.{CurveData, Jacobian}
use ligo.Uecc.Curve.Element.{IsElement, IsField}
use ligo.Uecc.Secp256r1.{secp256r1_p, secp256r1_n, secp256r1_b, secp256r1_data, mmod_fast_secp256r1}
use ligo.Uecc.Secp256r1.Loops.{p_val}
use ligo.Uecc.Secp256r1.Reduction.{mmod_fast_secp256r1-IsRemainder, secp256r1-IsField}
use ligo.Uecc.Secp256r1.Definition.{curve_secp256r1}
use ligo.Uecc.Point.{Points, xycz_add, xycz_add_c, regularize_k, regular_scalar}
use ligo.Uecc.Point.Scalar.{IsRegular, regularize_k-IsRegular}
use ligo.Uecc.Point.Chord.{IsPoint, IsChordSum}
use ligo.Uecc.Point.Conjugate.{AddsBoth, xycz_add_c-AddsBoth}
use ligo.Uecc.Point.Addition.{AreElements, Adds, xycz_add-Adds}
use ligo.Uecc.Jacobian.{double_jacobian_default, mod_sqrt_default}
use ligo.Uecc.Jacobian.Double.{IsTangentSum, Doubles, double_jacobian-Doubles}
use ligo.Uecc.Jacobian.Power.{mod_sqrt-IsRoot}
use ligo.Uecc.Bytes.{native_to_bytes, bytes_to_native}
use ligo.Uecc.Bytes.Value.{bytes_to_native-native_to_bytes}
use ligo.Uecc.Run.{Rng}
use ligo.Uecc.Keys.{generate_random_int, valid_point}
use ligo.Uecc.Keys.Random.{AreBytes, Fills, IsRandom, generate_random_int-IsRandom}
use ligo.Uecc.Keys.Valid.{IsOnCurve, valid_point-IsOnCurve}
use ligo.Uecc.Ecdsa.{signature_s, verify}
use ligo.Uecc.Ecdsa.Signature.{IsGroupOrder, IsScalar, signature_s-IsSignature}
use ligo.Uecc.Ecdsa.Rejects.{IsOrdered, verify-rejects}

abbrev product : List ℕ
product = 1 ∷ 2 ∷ 3 ∷ 4 ∷ 0xffff_ffff_ffff_ffff ∷ 6 ∷ 7 ∷ 0xffff_ffff_ffff_fff0 ∷ []

mmod_fast_secp256r1-IsRemainder_example :
    IsRemainder secp256r1_p (val product) (mmod_fast_secp256r1 product)
mmod_fast_secp256r1-IsRemainder_example = mmod_fast_secp256r1-IsRemainder product refl (
  omega arith,
  (
    omega arith,
    (omega arith, (omega arith, (omega arith, (omega arith, (omega arith, (omega arith, tt)))))),
  ),
)

-- A coordinate of one small word.
abbrev small : ℕ → List ℕ
small x = x ∷ 0 ∷ 0 ∷ 0 ∷ []

small-IsElement : (x : ℕ) → x < 2 ^ 64 → IsElement secp256r1_data (small x)
small-IsElement x h = record {
  size = refl;
  words = (h, (omega arith, (omega arith, (omega arith, tt))));
  reduced = omega arith;
}

-- The points (1, 2) and (2, 4), on a chord of slope 2.
abbrev two_points : Points
two_points = record { x1 = small 1; y1 = small 2; x2 = small 2; y2 = small 4 }

two_points-AreElements : AreElements secp256r1_data two_points
two_points-AreElements = record {
  x1 = small-IsElement 1 (omega arith);
  y1 = small-IsElement 2 (omega arith);
  x2 = small-IsElement 2 (omega arith);
  y2 = small-IsElement 4 (omega arith);
}

equal_lem : {m x y : ℕ} → x ≡ y → Congruent m x y
equal_lem e = record { left_multiple = 0; right_multiple = 0; balance = omega (arith, e) }

affine_lem : (a b : ℕ) → IsPoint (val secp256r1_p) a b 1 (val (small a)) (val (small b))
affine_lem a b = record { at_x = equal_lem (omega arith); at_y = equal_lem (omega arith) }

two_points-IsChordSum : IsChordSum (val secp256r1_p) 1 2 2 4 1 (p_val - 2)
two_points-IsChordSum = record {
  k = 2;
  slope = equal_lem refl;
  sum_x = equal_lem refl;
  sum_y = record { left_multiple = 0; right_multiple = 1; balance = refl };
}

xycz_add-Adds_example :
    Adds secp256r1_data 1 2 1 (p_val - 2) 1 two_points (xycz_add two_points secp256r1_data)
xycz_add-Adds_example =
    xycz_add-Adds secp256r1_data two_points 1 2 2 4 1 (p_val - 2) 1 secp256r1-IsField
      two_points-AreElements (affine_lem 1 2) (affine_lem 2 4) two_points-IsChordSum

-- The difference of the points, on a chord of slope -6.
two_points-IsChordDifference : IsChordSum (val secp256r1_p) 1 2 2 (p_val - 4) 33 190
two_points-IsChordDifference = record {
  k = p_val - 6;
  slope = equal_lem refl;
  sum_x = record { left_multiple = p_val - 12; right_multiple = 0; balance = refl };
  sum_y = record { left_multiple = 0; right_multiple = 32; balance = refl };
}

xycz_add_c-AddsBoth_example :
    AddsBoth secp256r1_data 33 190 1 (p_val - 2) 1 two_points (xycz_add_c two_points secp256r1_data)
xycz_add_c-AddsBoth_example =
    xycz_add_c-AddsBoth secp256r1_data two_points 1 2 2 4 (p_val - 4) 1 (p_val - 2) 33 190 1
      secp256r1-IsField two_points-AreElements (affine_lem 1 2) (affine_lem 2 4)
      (record { left_multiple = 0; right_multiple = 1; balance = refl }) two_points-IsChordSum
      two_points-IsChordDifference

-- The point (3, 4), with a tangent of slope 3.
abbrev one_point : Jacobian
one_point = record { x1 = small 3; y1 = small 4; z1 = small 1 }

one_point-IsTangentSum : IsTangentSum (val secp256r1_p) 3 4 3 (p_val - 4)
one_point-IsTangentSum = record {
  k = 3;
  slope = equal_lem refl;
  sum_x = equal_lem refl;
  sum_y = record { left_multiple = 0; right_multiple = 1; balance = refl };
}

double_jacobian-Doubles_example :
    Doubles secp256r1_data 3
      (p_val - 4)
      one_point
      (double_jacobian_default secp256r1_data one_point)
double_jacobian-Doubles_example =
    double_jacobian-Doubles secp256r1_data one_point 3 4 3 (p_val - 4) secp256r1-IsField
      (record {
        x1 = small-IsElement 3 (omega arith);
        y1 = small-IsElement 4 (omega arith);
        z1 = small-IsElement 1 (omega arith);
      })
      (is_zero-false (small 1) (omega arith)) (affine_lem 3 4) one_point-IsTangentSum

-- The field of 7 elements.
abbrev seven : List ℕ
seven = 7 ∷ []

abbrev seven_data : CurveData
seven_data = record {
  num_words = 1;
  num_bytes = 1;
  num_n_bits = 3;
  p = seven;
  n = seven;
  g = 0 ∷ 0 ∷ [];
  b = 0 ∷ [];
  mmod_fast = λ x. val x % 7 ∷ [];
}

seven-IsField : IsField seven_data
seven-IsField = record {
  positive = omega arith;
  small = omega arith;
  p_size = refl;
  p_words = (omega arith, tt);
  p_odd = refl;
  p_big = omega arith;
  reduces = λ x size words below. record {
    element = record { size = refl; words = (omega arith, tt); reduced = omega arith };
    value = omega arith;
  };
}

two-IsElement : IsElement seven_data (2 ∷ [])
two-IsElement = record { size = refl; words = (omega arith, tt); reduced = omega arith }

mod_sqrt-IsRoot_example :
    IsElement seven_data (mod_sqrt_default seven_data (2 ∷ []))
    × Congruent
        (val seven)
        (val (mod_sqrt_default seven_data (2 ∷ [])) * val (mod_sqrt_default seven_data (2 ∷ [])))
        (val (2 ∷ []))
mod_sqrt-IsRoot_example =
    mod_sqrt-IsRoot seven_data (2 ∷ []) 3 seven-IsField (omega arith) refl two-IsElement
      (record { left_multiple = 1; right_multiple = 0; balance = refl })
      (record { left_multiple = 0; right_multiple = 312; balance = refl })

-- Two words in nine bytes.
abbrev nine_bytes : List ℕ
nine_bytes = 0x1122_3344_5566_7788 ∷ 0x99 ∷ []

bytes_to_native-native_to_bytes_example :
    bytes_to_native (clear 2) (native_to_bytes 9 nine_bytes) 9 ≡ nine_bytes
bytes_to_native-native_to_bytes_example =
    bytes_to_native-native_to_bytes 2 9 nine_bytes refl (omega arith, (omega arith, tt))
      (omega arith) (omega arith) (omega arith)

-- A generator that fills in its own counter, below 200.
abbrev counter : Rng ℕ
counter size s = (some (replicate size (s % 200)), suc s)

replicate-AreBytes : (n x : ℕ) → x < 2 ^ 8 → AreBytes (replicate n x)
replicate-AreBytes zero x h = tt
replicate-AreBytes (suc n) x h = (h, replicate-AreBytes n x h)

counter-Fills : Fills counter
counter-Fills size s bytes e =
    let same : replicate size (s % 200) ≡ bytes = cc e in
    rw (← same) (replicate-AreBytes size (s % 200) (omega arith))

secp256r1_n-IsWords : IsWords secp256r1_n
secp256r1_n-IsWords = (omega arith, (omega arith, (omega arith, (omega arith, tt))))

generate_random_int-IsRandom_example :
    IsRandom secp256r1_n (generate_random_int (some counter) secp256r1_n 4 0).0
generate_random_int-IsRandom_example =
    generate_random_int-IsRandom counter secp256r1_n 0 counter-Fills secp256r1_n-IsWords

secp256r1_b-IsElement : IsElement secp256r1_data secp256r1_b
secp256r1_b-IsElement = record {
  size = refl;
  words = (omega arith, (omega arith, (omega arith, (omega arith, tt))));
  reduced = omega arith;
}

-- The point (5, 7) in eight words.
abbrev eight_words : List ℕ
eight_words = 5 ∷ 0 ∷ 0 ∷ 0 ∷ 7 ∷ 0 ∷ 0 ∷ 0 ∷ []

valid_point-IsOnCurve_example :
    (valid_point eight_words curve_secp256r1 ≡ true) ↔ IsOnCurve secp256r1_data eight_words
valid_point-IsOnCurve_example =
    valid_point-IsOnCurve curve_secp256r1 eight_words secp256r1-IsField secp256r1_b-IsElement
      (omega arith) refl refl
      (
        omega arith,
        (
          omega arith,
          (
            omega arith,
            (omega arith, (omega arith, (omega arith, (omega arith, (omega arith, tt))))),
          ),
        ),
      )

seven-IsGroupOrder : IsGroupOrder seven
seven-IsGroupOrder = record {
  positive = omega arith;
  small = omega arith;
  words = (omega arith, tt);
  top = omega arith;
  big = omega arith;
}

scalar_lem : (x : ℕ) → x < 2 ^ 64 → IsScalar seven (x ∷ [])
scalar_lem x h = record { size = refl; words = (h, tt) }

-- d = 3, r = 4, e = 9, which is not reduced, and k = 3 with the inverse 5.
signature_s-IsSignature_example :
    (val (signature_s (3 ∷ []) (4 ∷ []) (9 ∷ []) (5 ∷ []) seven) < val seven)
    × Congruent
        (val seven)
        (val (signature_s (3 ∷ []) (4 ∷ []) (9 ∷ []) (5 ∷ []) seven) * 3)
        (val (9 ∷ []) + val (4 ∷ []) * val (3 ∷ []))
signature_s-IsSignature_example =
    signature_s-IsSignature seven (3 ∷ []) (4 ∷ []) (9 ∷ []) (5 ∷ []) 3 seven-IsGroupOrder
      (scalar_lem 3 (omega arith)) (scalar_lem 4 (omega arith)) (scalar_lem 9 (omega arith))
      (scalar_lem 5 (omega arith))
      (record { left_multiple = 0; right_multiple = 2; balance = refl })

secp256r1-IsOrdered : IsOrdered secp256r1_data
secp256r1-IsOrdered = record {
  n_size = refl;
  n_words = secp256r1_n-IsWords;
  same_words = refl;
  enough = omega arith;
}

-- A signature of zeros.
verify-rejects_example :
    verify eight_words (1 ∷ 2 ∷ []) 2 (replicate 64 0) curve_secp256r1 ≡ some false
verify-rejects_example =
    verify-rejects curve_secp256r1 eight_words (1 ∷ 2 ∷ []) (replicate 64 0) 2 secp256r1-IsOrdered
      (omega arith) (replicate-AreBytes 64 0 (omega arith)) (inl (inl refl))

-- The scalar 5, far shorter than the order.
regularize_k-IsRegular_example :
    IsRegular
      (val (small 5))
      (val secp256r1_n)
      256
      (val (regular_scalar (regularize_k (small 5) secp256r1_data)))
regularize_k-IsRegular_example =
    regularize_k-IsRegular secp256r1_data (small 5) refl refl secp256r1_n-IsWords
      (small-IsElement 5 (omega arith)).words (omega arith) (omega arith) (omega arith)
