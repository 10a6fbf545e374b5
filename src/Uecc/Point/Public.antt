-- ===== src/Uecc/Point/Public.antt =====
-- `EccPoint_compute_public_key` (uECC.c lines 906-924): the multiple of the base point that the
-- private key says.
use ligo.Prelude.{
  ℕ, zero, suc, ◌+◌, ◌*◌, ◌^◌, ◌<◌, ◌≤◌, ◌≡◌, refl, ap, ◌∙◌, arith, List, ◌++◌, length, Option,
  none, some, Bool, true, false, not, if◌then◌else◌,
}
use ligo.Uecc.Word.{IsWords, val}
use ligo.Uecc.Vli.{add}
use ligo.Uecc.Vli.Carry.{add-IsSum}
use ligo.Uecc.ModArith.Congruence.{Congruent}
use ligo.Uecc.Curve.{CurveData, Curve, bits_to_words}
use ligo.Uecc.Curve.Element.{IsElement, IsField}
use ligo.Uecc.Jacobian.{double_jacobian_default}
use ligo.Uecc.Point.{
  Coords, coords_of, point_is_zero, regularize_k, regular_scalar, compute_public_point, point_mult,
}
use ligo.Uecc.Point.Multiples.{IsUnit, IsMultiples}
use ligo.Uecc.Point.Rounds.{IsAt}
use ligo.Uecc.Point.Scalar.{regularize_k-IsRegular}
use ligo.Uecc.Point.Product.{IsResult, leading, point_mult-IsResult}

-- The order of a curve's base point: exactly `num_n_bits` binary digits, in as many words as these
-- take.
pub record HasOrder (c : CurveData) : Type 0 where
  pub n_size : length c.n ≡ bits_to_words c.num_n_bits
  pub n_words : IsWords c.n
  pub some_bits : 1 ≤ c.num_n_bits
  pub small : val c.n < 2 ^ c.num_n_bits
  pub large : 2 ^ c.num_n_bits ≤ val c.n + val c.n

-- The words of the point with the affine coordinates `a` and `b`, and whether they are not all 0.
pub record IsPublic (c : CurveData) (a b : ℕ) (result : Option (Bool × List ℕ)) : Type 0 where
  pub coords : Coords
  pub returns : result ≡ some (not (point_is_zero (coords.x ++ coords.y)), coords.x ++ coords.y)
  pub x_element : IsElement c coords.x
  pub y_element : IsElement c coords.y
  pub at_x : Congruent (val c.p) (val coords.x) a
  pub at_y : Congruent (val c.p) (val coords.y) b

-- The multiples repeat after `n`.
periodic_lem :
    (n : ℕ) (a : ℕ → ℕ)
    → ((i : ℕ) → a (i + n) ≡ a i)
    → (k times : ℕ) → 1 ≤ times
    → times ≤ 2
    → a (k + times * n) ≡ a k
periodic_lem n a period k zero low high = absurd (omega arith)
periodic_lem n a period k (suc zero) low high =
    let once : k + 1 * n ≡ k + n = omega arith in ap a once ∙ period k
periodic_lem n a period k (suc (suc zero)) low high =
    let twice : k + 2 * n ≡ k + n + n = omega arith in ap a twice ∙ period (k + n) ∙ period k
periodic_lem n a period k (suc (suc (suc times))) low high = absurd (omega arith)

regular_scalar-IsWords :
    (c : CurveData) (k : List ℕ)
    → length k ≡ length c.n
    → IsWords c.n
    → IsWords k
    → IsWords (regular_scalar (regularize_k k c))
unfolding regularize_k
regular_scalar-IsWords c k same nw kw =
    let s1 = add-IsSum k c.n same kw nw in
    let s2 = add-IsSum (add k c.n).0 c.n (s1.same_length ∙ same) s1.words nw in
    either _ _ _ s1.words s2.words
  where
    either : (q : Bool) (x y : List ℕ) → IsWords x → IsWords y → IsWords (if q then x else y)
    either true x y v w = v
    either false x y v w = w

-- `EccPoint_mult` with a regularized scalar, for a scalar below the order: the scalar's multiple.
pub regular_mult-IsResult :
    (c : Curve) (point : Coords) (k : List ℕ) (initial_z : Option (List ℕ)) (a b opp : ℕ → ℕ)
    → IsField c.info
    → HasOrder c.info
    → c.double_jacobian ≡ double_jacobian_default
    → IsAt c.info 1 (a 1) (b 1) point
    → IsUnit (val c.p) (a 1)
    → IsUnit (val c.p) (b 1)
    → ((z : List ℕ) → initial_z ≡ some z → IsElement c.info z × IsUnit (val c.p) (val z))
    → length k ≡ length c.n
    → IsWords k
    → val k < val c.n
    → ((i : ℕ) → a (i + val c.n) ≡ a i)
    → ((i : ℕ) → b (i + val c.n) ≡ b i)
    → IsMultiples
        (val c.p)
        (leading c.num_n_bits (val (regular_scalar (regularize_k k c.info))))
        c.num_n_bits
        a
        b
        opp
    → IsResult c.info
        (a (val k))
        (b (val k))
        (point_mult point (regular_scalar (regularize_k k c.info)) initial_z (c.num_n_bits + 1) c)
regular_mult-IsResult c point k initial_z a b opp f o doubling base au bu iz same kw below a_period
      b_period h =
    let regular =
      regularize_k-IsRegular c.info k o.n_size same o.n_words kw o.small o.large below in
    let done =
      point_mult-IsResult c point (regular_scalar (regularize_k k c.info)) initial_z c.num_n_bits a
        b opp f doubling base au bu iz (regular_scalar-IsWords c.info k same o.n_words kw)
        o.some_bits h in
    let is_a =
      periodic_lem (val c.n) a a_period (val k) regular.times regular.at_least regular.at_most in
    let is_b =
      periodic_lem (val c.n) b b_period (val k) regular.times regular.at_least regular.at_most in
    record {
      coords = done.coords;
      returns = done.returns;
      x_element = done.x_element;
      y_element = done.y_element;
      at_x = rw (← is_a, ← regular.total) done.at_x;
      at_y = rw (← is_b, ← regular.total) done.at_y;
    }

-- On a curve that reduces products, whose doubling is `double_jacobian_default` and whose order has
-- exactly `num_n_bits` digits, for a private key below the order, and a sequence of multiples (a i, b i)
-- of the base point (a 1, b 1), which repeats after the order, in which the ladder's steps for the
-- regularized key are sums on chords, `EccPoint_compute_public_key` returns the multiple of the base
-- point that the private key says, with reduced coordinates, and whether its words are not all 0.
pub compute_public_point-IsPublic :
    (c : Curve) (k : List ℕ) (a b opp : ℕ → ℕ)
    → IsField c.info
    → HasOrder c.info
    → c.double_jacobian ≡ double_jacobian_default
    → IsAt c.info 1 (a 1) (b 1) (coords_of c.num_words c.g)
    → IsUnit (val c.p) (a 1)
    → IsUnit (val c.p) (b 1)
    → length k ≡ length c.n
    → IsWords k
    → val k < val c.n
    → ((i : ℕ) → a (i + val c.n) ≡ a i)
    → ((i : ℕ) → b (i + val c.n) ≡ b i)
    → IsMultiples
        (val c.p)
        (leading c.num_n_bits (val (regular_scalar (regularize_k k c.info))))
        c.num_n_bits
        a
        b
        opp
    → IsPublic c.info (a (val k)) (b (val k)) (compute_public_point k c)
unfolding compute_public_point
compute_public_point-IsPublic c k a b opp f o doubling base au bu same kw below a_period b_period
      h =
    let done =
      regular_mult-IsResult c (coords_of c.num_words c.g) k none a b opp f o doubling base au bu
        (λ z e. absurd (cc e)) same kw below a_period b_period h in
    rw (compute_public_point, done.returns)
      (record {
        coords = done.coords;
        returns = refl;
        x_element = done.x_element;
        y_element = done.y_element;
        at_x = done.at_x;
        at_y = done.at_y;
      })
