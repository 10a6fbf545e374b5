-- ===== src/Uecc/Keys/Public.antt =====
-- `uECC_compute_public_key` (uECC.c lines 1146-1180): the bytes of the multiple of the base point that
-- the private key says.
use ligo.Prelude.{
  ℕ, ◌+◌, ◌-◌, ◌/◌, ◌<◌, ◌≤◌, ◌≡◌, ◌≢◌, ◌⊎◌, ◌↔◌, inl, inr, refl, sym, ap, ◌∙◌, arith, List, [],
  ◌∷◌, ◌++◌, length, true, false, Bool-cases, take, drop, take-append, drop-append, take_all,
  drop_all,
}
use ligo.Uecc.Word.{IsWords, val}
use ligo.Uecc.Vli.{is_zero, cmp}
use ligo.Uecc.Vli.Compare.{is_zero_iff, is_zero-false, cmp-cmp_unsafe, cmp_unsafe-IsOrder}
use ligo.Uecc.ModArith.{is_one}
use ligo.Uecc.ModArith.Congruence.{Congruent}
use ligo.Uecc.ModArith.Residue.{is_one-lt, not_one-le}
use ligo.Uecc.Mult.Product.{val-append}
use ligo.Uecc.Curve.{CurveData, Curve, bits_to_words, bits_to_bytes}
use ligo.Uecc.Curve.Element.{IsElement, IsField}
use ligo.Uecc.Jacobian.{double_jacobian_default}
use ligo.Uecc.Bytes.{native_to_bytes}
use ligo.Uecc.Bytes.Value.{bytes_val, bytes_to_native-val}
use ligo.Uecc.Run.{returned, refused}
use ligo.Uecc.Point.{Coords, coords_of, point_is_zero, regularize_k, regular_scalar}
use ligo.Uecc.Point.Multiples.{IsUnit, IsUnit-congruent, IsMultiples}
use ligo.Uecc.Point.Rounds.{IsAt}
use ligo.Uecc.Point.Start.{unit_nonzero}
use ligo.Uecc.Point.Product.{leading}
use ligo.Uecc.Point.Public.{HasOrder, compute_public_point-IsPublic}
use ligo.Uecc.Keys.{read_private, point_to_bytes, compute_public_key}
use ligo.Uecc.Keys.Random.{AreBytes}

-- The number of a private key.
abbrev pub key_of : CurveData → List ℕ → ℕ
key_of c private_key = bytes_val (take (bits_to_bytes c.num_n_bits) private_key)

-- Bytes that are long enough for a private key.
pub record IsPrivate (c : CurveData) (private_key : List ℕ) : Type 0 where
  pub bytes : AreBytes private_key
  pub size : bits_to_bytes c.num_n_bits ≤ length private_key

-- The words of a private key, and their tests.
pub record IsRead (c : CurveData) (k : ℕ) (vli : List ℕ) : Type 0 where
  pub size : length vli ≡ length c.n
  pub words : IsWords vli
  pub value : val vli ≡ k
  pub none : (is_zero vli ≡ true) ↔ (k ≡ 0)
  pub below : (is_one (cmp c.n vli) ≡ true) ↔ (k < val c.n)

pub read_lem :
    (c : CurveData) (private_key : List ℕ)
    → HasOrder c
    → IsPrivate c private_key
    → IsRead c (key_of c private_key) (read_private private_key c)
read_lem c private_key o p =
    let b = c.num_n_bits in
    let fits : ((b + 7) / 8 + 7) / 8 ≤ (b + 63) / 64 = omega arith in
    let (size, words, value) =
      bytes_to_native-val (bits_to_words b) (bits_to_bytes b) private_key p.size p.bytes fits in
    let same = size ∙ sym o.n_size in
    let order = cmp_unsafe-IsOrder c.n _ (sym same) o.n_words words in
    let safe = cmp-cmp_unsafe c.n _ (sym same) o.n_words words in
    record {
      size = same;
      words = words;
      value = value;
      none = (λ e. sym value ∙ (is_zero_iff _).0 e, λ e. (is_zero_iff _).1 (value ∙ e));
      below = (
        λ e. rw (← value) (is_one-lt _ _ _ order (rw (← safe) e)),
        λ less. elim (Bool-cases (is_one (cmp c.n (read_private private_key c)))) [
          | inl one ↦ one
          | inr other ↦
              absurd (omega (arith, less, value, not_one-le _ _ _ order (rw (← safe) other)))
        ],
      );
    }

-- For a private key in bytes that is 0 or not below the order, `uECC_compute_public_key` returns 0.
pub compute_public_key-refuses :
    {S : Type 0} (c : Curve) (private_key : List ℕ) (s : S)
    → HasOrder c.info
    → IsPrivate c.info private_key
    → (key_of c.info private_key ≡ 0) ⊎ (val c.n ≤ key_of c.info private_key)
    → compute_public_key private_key c s ≡ (refused, s)
unfolding compute_public_key
compute_public_key-refuses c private_key s o p h =
    let r = read_lem c.info private_key o p in
    elim (Bool-cases (is_zero (read_private private_key c.info))) [
      | inl none ↦ rw none refl
      | inr some_key ↦ elim (Bool-cases (is_one (cmp c.n (read_private private_key c.info)))) [
        | inl below ↦ absurd (elim h [
          | inl e ↦ cc (r.none.1 e, some_key)
          | inr le ↦ absurd (omega (arith, le, r.below.0 below))
        ])
        | inr above ↦ rw (some_key, above) refl
      ]
    ]

-- The bytes of a point whose affine coordinates are congruent to `a` and `b`.
pub record IsPointBytes (c : CurveData) (a b : ℕ) (bytes : List ℕ) : Type 0 where
  pub coords : Coords
  pub x_element : IsElement c coords.x
  pub y_element : IsElement c coords.y
  pub at_x : Congruent (val c.p) (val coords.x) a
  pub at_y : Congruent (val c.p) (val coords.y) b
  pub both : bytes ≡ native_to_bytes c.num_bytes coords.x ++ native_to_bytes c.num_bytes coords.y

pub take_first : (n : ℕ) (x y : List ℕ) → length x ≡ n → take n (x ++ y) ≡ x
take_first n x y size =
    let rest : n - length x ≡ 0 = omega (arith, size) in
    take-append n x y
    ∙ ap (λ (m : ℕ). take n x ++ take m y) rest
    ∙ ap (λ (l : List ℕ). l ++ []) (take_all n x (omega (arith, size)))
    ∙ append_nil x
  where
    append_nil : (xs : List ℕ) → xs ++ [] ≡ xs
    append_nil [] = refl
    append_nil (x ∷ xs) = ap (λ (l : List ℕ). x ∷ l) (append_nil xs)

point_to_bytes-both :
    (c : CurveData) (x y : List ℕ)
    → length x ≡ c.num_words
    → point_to_bytes (x ++ y) c ≡ native_to_bytes c.num_bytes x ++ native_to_bytes c.num_bytes y
unfolding point_to_bytes
point_to_bytes-both c x y size =
    let n = c.num_words in
    let rest : n - length x ≡ 0 = omega (arith, size) in
    let second : drop n (x ++ y) ≡ y =
      drop-append n x y
      ∙ ap (λ (m : ℕ). drop n x ++ drop m y) rest
      ∙ ap (λ (l : List ℕ). l ++ y) (drop_all n x (omega (arith, size))) in
    rw (take_first n x y size, second) refl

-- A point whose x coordinate has an inverse is not 0.
pub finite_lem :
    (m a : ℕ) (x y : List ℕ) → 1 < m → Congruent m (val x) a → IsUnit m a → is_zero (x ++ y) ≡ false
finite_lem m a x y big at_x unit =
    is_zero-false (x ++ y)
      (λ e. unit_nonzero big (IsUnit-congruent _ at_x unit) (omega (arith, e, val-append x y)))

-- On a curve that reduces products, whose doubling is `double_jacobian_default` and whose order has
-- exactly `num_n_bits` digits, for a private key in bytes that is not 0 and below the order, and a
-- sequence of multiples (a i, b i) of the base point (a 1, b 1), which repeats after the order, in
-- which the ladder's steps for the regularized key are sums on chords, and in which the x coordinate
-- of the key's multiple has an inverse, `uECC_compute_public_key` returns 1 and the bytes of that
-- multiple's reduced coordinates.
pub compute_public_key-IsPointBytes :
    {S : Type 0} (c : Curve) (private_key : List ℕ) (s : S) (a b opp : ℕ → ℕ)
    → IsField c.info
    → HasOrder c.info
    → c.double_jacobian ≡ double_jacobian_default
    → IsAt c.info 1 (a 1) (b 1) (coords_of c.num_words c.g)
    → IsUnit (val c.p) (a 1)
    → IsUnit (val c.p) (b 1)
    → IsPrivate c.info private_key
    → key_of c.info private_key ≢ 0
    → key_of c.info private_key < val c.n
    → ((i : ℕ) → a (i + val c.n) ≡ a i)
    → ((i : ℕ) → b (i + val c.n) ≡ b i)
    → IsMultiples
        (val c.p)
        (leading c.num_n_bits
          (val (regular_scalar (regularize_k (read_private private_key c.info) c.info))))
        c.num_n_bits
        a
        b
        opp
    → IsUnit (val c.p) (a (key_of c.info private_key))
    → (bytes : List ℕ) × (compute_public_key private_key c s ≡ (returned bytes, s))
      × IsPointBytes c.info (a (key_of c.info private_key)) (b (key_of c.info private_key)) bytes
unfolding compute_public_key point_is_zero
compute_public_key-IsPointBytes c private_key s a b opp f o doubling base au bu p some_key below
      a_period b_period multiples unit =
    let r = read_lem c.info private_key o p in
    let words = read_private private_key c.info in
    let done =
      compute_public_point-IsPublic c words a b opp f o doubling base au bu r.size r.words
        (omega (arith, r.value, below)) a_period b_period multiples in
    let at_x : Congruent (val c.p) (val done.coords.x) (a (key_of c.info private_key)) =
      rw (← r.value) done.at_x in
    let x = done.coords.x in
    let y = done.coords.y in
    let finite = finite_lem (val c.p) _ x y f.p_big at_x unit in
    let nonzero : is_zero words ≡ false = is_zero-false words (λ e. some_key (sym r.value ∙ e)) in
    (
      point_to_bytes (x ++ y) c.info,
      rw (nonzero, r.below.1 below, done.returns, finite) refl,
      record {
        coords = done.coords;
        x_element = done.x_element;
        y_element = done.y_element;
        at_x = at_x;
        at_y = rw (← r.value) done.at_y;
        both = point_to_bytes-both c.info x y done.x_element.size;
      },
    )
