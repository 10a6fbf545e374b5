-- ===== src/Uecc/Keys/Secret.antt =====
-- `uECC_shared_secret` (uECC.c lines 1025-1068): the x coordinate of the multiple of the other side's
-- point that the private key says, whatever initial Z coordinate is drawn.
use ligo.Prelude.{
  ℕ, ◌+◌, ◌<◌, ◌≤◌, ◌≡◌, ◌≢◌, refl, ◌∙◌, arith, List, Bool, true, not, take, Option, none, some,
}
use mathlib.Core.Path.{subst}
use ligo.Uecc.Word.{val}
use ligo.Uecc.ModArith.Congruence.{Congruent}
use ligo.Uecc.Curve.{CurveData, Curve}
use ligo.Uecc.Curve.Element.{IsElement, IsField}
use ligo.Uecc.Jacobian.{double_jacobian_default}
use ligo.Uecc.Bytes.{native_to_bytes}
use ligo.Uecc.Run.{Outcome, returned, refused, out_of_fuel, Run, ◌>>=◌, pure, fuelled, Rng}
use ligo.Uecc.Point.{coords_of, point_is_zero, regularize_k, regular_scalar, point_mult}
use ligo.Uecc.Point.Multiples.{IsUnit, IsMultiples}
use ligo.Uecc.Point.Rounds.{IsAt}
use ligo.Uecc.Point.Product.{IsResult, leading}
use ligo.Uecc.Point.Public.{HasOrder, regular_mult-IsResult}
use ligo.Uecc.Keys.{read_private, bytes_to_point, generate_random_int, initial_z_of, shared_secret}
use ligo.Uecc.Keys.Random.{Fills, IsRandom, generate_random_int-IsRandom}
use ligo.Uecc.Keys.Public.{IsPrivate, key_of, read_lem, take_first, finite_lem}

-- What a call promises: a point, and the bytes of the coordinate that is congruent to `a`; it is
-- refused only with a generator.
abbrev pub IsSecret :
    {S : Type 0} → CurveData → Option (Rng S) → ℕ → Outcome (Bool × List ℕ) → Type 0
IsSecret c rng a (returned (finite, secret)) =
    (finite ≡ true)
    × ((x : List ℕ) × IsElement c x
        × Congruent (val c.p) (val x) a
        × (secret ≡ native_to_bytes c.num_bytes x))
IsSecret c rng a refused = rng ≢ none
IsSecret c rng a out_of_fuel = 1 ≤ 0

-- What follows the draw of the initial Z coordinate.
abbrev secret_of : {S : Type 0} → Curve → List ℕ → List ℕ → Option (List ℕ) → Run S (Bool × List ℕ)
secret_of c public_key k initial_z = do
  result ← fuelled (
      point_mult (coords_of c.num_words (bytes_to_point public_key c.info))
        (regular_scalar (regularize_k k c.info)) initial_z (c.num_n_bits + 1) c)
  pure (not (point_is_zero result), native_to_bytes c.num_bytes (take c.num_words result))

module _ {S : Type 0} (c : Curve) (rng : Option (Rng S)) (public_key k : List ℕ) (a b : ℕ → ℕ)
    (f : IsField c.info) (unit : IsUnit (val c.p) (a (val k))) where
  -- The product for an initial Z coordinate.
  abbrev IsProduct : Option (List ℕ) → Type 0
  IsProduct initial_z = IsResult c.info (a (val k)) (b (val k)) (
      point_mult (coords_of c.num_words (bytes_to_point public_key c.info))
        (regular_scalar (regularize_k k c.info)) initial_z (c.num_n_bits + 1) c)

  secret_of-IsSecret :
      (initial_z : Option (List ℕ)) (s : S)
      → IsProduct initial_z
      → IsSecret c.info rng (a (val k)) (secret_of c public_key k initial_z s).0
  unfolding point_is_zero
  secret_of-IsSecret initial_z s done =
      let x = done.coords.x in
      let y = done.coords.y in
      let finite = finite_lem (val c.p) _ x y f.p_big done.at_x unit in
      let first = take_first c.num_words x y done.x_element.size in
      rw (done.returns, finite, first) (refl, (x, done.x_element, done.at_x, refl))

drawn-IsSecret :
    {S : Type 0} (c : Curve) (rng : Option (Rng S)) (public_key k : List ℕ) (a b : ℕ → ℕ)
    (f : IsField c.info) (unit : IsUnit (val c.p) (a (val k))) (s : S)
    → ((x : List ℕ) → IsElement c.info x → 0 < val x → IsUnit (val c.p) (val x))
    → ((draw : Rng S) → rng ≡ some draw → Fills draw)
    → ((initial_z : Option (List ℕ))
        → ((z : List ℕ) → initial_z ≡ some z → IsElement c.info z × IsUnit (val c.p) (val z))
        → IsProduct c rng public_key k a b f unit initial_z)
    → IsSecret c.info rng (a (val k)) ((initial_z_of rng c.info >>= secret_of c public_key k) s).0
unfolding initial_z_of
drawn-IsSecret c none public_key k a b f unit s units fills result =
    secret_of-IsSecret c none public_key k a b f unit none s (result none (λ z e. absurd (cc e)))
drawn-IsSecret {S = S} c (some draw) public_key k a b f unit s units fills result =
    let random =
      subst (λ (n : ℕ). IsRandom c.p (generate_random_int (some draw) c.p n s).0) f.p_size
        (generate_random_int-IsRandom draw c.p s (fills draw refl) f.p_words) in
    go (generate_random_int (some draw) c.p c.num_words s).0
      (generate_random_int (some draw) c.p c.num_words s).1 random
  where
    drawn_lem :
        (x z : List ℕ)
        → some x ≡ some z
        → IsElement c.info x
        → 0 < val x
        → IsElement c.info z × IsUnit (val c.p) (val z)
    drawn_lem x z e xe positive = let same : x ≡ z = cc in rw (← same) (xe, units x xe positive)

    go :
        (out : Outcome (List ℕ)) (s' : S)
        → IsRandom c.p out
        → IsSecret c.info
            (some draw)
            (a (val k))
            ((((λ (t : S). (out, s')) >>= λ (z : List ℕ). pure (some z))
                >>= secret_of c public_key k)
              s).0
    go (returned x) s' (size, words, positive, below) =
        secret_of-IsSecret c (some draw) public_key k a b f unit (some x) s' (
          result (some x) (λ z e.
            drawn_lem x z e (record { size = size ∙ f.p_size; words = words; reduced = below })
              positive))
    go refused s' h = λ e. absurd (cc e)
    go out_of_fuel s' h = absurd h

-- On a curve that reduces products, whose nonzero elements have inverses, whose doubling is
-- `double_jacobian_default` and whose order has exactly `num_n_bits` digits, with a generator that
-- fills bytes or none, for a private key in bytes below the order, and a sequence of multiples (a i,
-- b i) of the public key's point (a 1, b 1), whose coordinates are not 0, which repeats after the
-- order, in which the ladder's steps for the regularized key are sums on chords, and in which the x
-- coordinate of the key's multiple has an inverse, `uECC_shared_secret` returns 1 and the bytes of
-- that x coordinate, reduced, whatever is drawn; it returns 0 only with a generator.
pub shared_secret-IsSecret :
    {S : Type 0} (c : Curve) (rng : Option (Rng S)) (public_key private_key : List ℕ) (s : S)
    (a b opp : ℕ → ℕ)
    → IsField c.info
    → ((x : List ℕ) → IsElement c.info x → 0 < val x → IsUnit (val c.p) (val x))
    → HasOrder c.info
    → c.double_jacobian ≡ double_jacobian_default
    → ((draw : Rng S) → rng ≡ some draw → Fills draw)
    → IsAt c.info 1 (a 1) (b 1) (coords_of c.num_words (bytes_to_point public_key c.info))
    → IsUnit (val c.p) (a 1)
    → IsUnit (val c.p) (b 1)
    → IsPrivate c.info private_key
    → key_of c.info private_key < val c.n
    → ((i : ℕ) → a (i + val c.n) ≡ a i)
    → ((i : ℕ) → b (i + val c.n) ≡ b i)
    → IsMultiples
        (val c.p)
        (leading c.num_n_bits
          (val (regular_scalar (regularize_k (read_private private_key c.info) c.info))))
        c.num_n_bits
        a
        b
        opp
    → IsUnit (val c.p) (a (key_of c.info private_key))
    → IsSecret c.info rng
        (a (key_of c.info private_key))
        (shared_secret rng public_key private_key c s).0
unfolding shared_secret initial_z_of
shared_secret-IsSecret c rng public_key private_key s a b opp f units o doubling fills base au bu p
      below a_period b_period multiples unit =
    let r = read_lem c.info private_key o p in
    let k = read_private private_key c.info in
    let result : (initial_z : Option (List ℕ))
        → ((z : List ℕ) → initial_z ≡ some z → IsElement c.info z × IsUnit (val c.p) (val z))
        → IsResult c.info (a (val k)) (b (val k)) _ =
      λ initial_z iz.
        regular_mult-IsResult c (coords_of c.num_words (bytes_to_point public_key c.info)) k
          initial_z a b opp f o doubling base au bu iz r.size r.words
          (omega (arith, r.value, below)) a_period b_period multiples in
    let unit' : IsUnit (val c.p) (a (val k)) = rw r.value unit in
    rw (← r.value) (drawn-IsSecret c rng public_key k a b f unit' s units fills result)
