-- ===== src/Uecc/Ecdsa.antt =====
-- ocaml-uecc/src/uECC.c, lines 1183-1315 and 1441-1555: ECDSA signatures.
pub mod Deterministic
pub mod Signature
pub mod Rejects
use ligo.Prelude.{
  ℕ, zero, suc, ◌+◌, ◌-◌, ◌*◌, ◌/◌, ◌%◌, ◌^◌, bit_and, bit_or, min, Bool, true, false, not, ◌&&◌,
  ◌||◌, List, [], ◌∷◌, ◌++◌, Option, none, some,
}
use ligo.Prelude.{length, ◌==◌, ltb, leb, if◌then◌else◌, get_or, set, take, drop}
use ligo.Uecc.Word.{word_mod, of_bool}
use ligo.Uecc.Vli.{clear, is_zero, test_bit, num_bits, cmp, cmp_unsafe, equal, sub}
use ligo.Uecc.ModArith.{is_one, mod_add, mod_sub, mod_inv}
use ligo.Uecc.Reduce.{mod_mult}
use ligo.Uecc.Curve.{CurveData, Curve, Jacobian, mod_mult_fast, bits_to_words, bits_to_bytes}
use ligo.Uecc.Point.{
  Coords, Points, apply_z, xycz_add, regularize_k, regular_scalar, coords_of, point_mult,
}
use ligo.Uecc.Bytes.{native_to_bytes, bytes_to_native}
use ligo.Uecc.Keys.{max_tries, generate_random_int, read_private, read_words, bytes_to_point}
use ligo.Uecc.Run.{Outcome, Run, ◌>>=◌, pure, refuse, fuelled, or_else, Rng}

-- `while (ptr-- > native)`: the words from the highest down, with the carry from the word above.
pub shift_loop : ℕ → List ℕ → List ℕ × ℕ
shift_loop shift [] = ([], 0)
shift_loop shift (temp ∷ native) =
    let (high, carry) = shift_loop shift native in
    (bit_or (temp / 2 ^ shift) carry ∷ high, temp * 2 ^ (64 - shift) % word_mod)

-- `if (uECC_vli_cmp_unsafe(curve->n, native, …) != 1) native -= curve->n`
pub reduce_once : List ℕ → List ℕ → List ℕ
reduce_once native n = if is_one (cmp_unsafe n native) then native else (sub native n).0

-- `bits2int`
pub bits2int : List ℕ → ℕ → CurveData → List ℕ
bits2int bits bits_size c =
    let size = min bits_size (bits_to_bytes c.num_n_bits) in
    let native = bytes_to_native (clear (bits_to_words c.num_n_bits)) bits size in
    if leb (size * 8) c.num_n_bits
    then native
    else reduce_once (shift_loop (size * 8 - c.num_n_bits) native).0 c.n

-- `s[num_n_words - 1] = 0; uECC_vli_set(s, p, num_words)`: the x coordinate, with a zero word above
-- it where the order has one more.
pub x_to_n_words : List ℕ → ℕ → List ℕ
x_to_n_words x num_n_words = take num_n_words (x ++ clear num_n_words)

-- `uECC_vli_modMult`, whose buffer is filled with zeros here: the result does not depend on it.
abbrev pub mod_times : List ℕ → List ℕ → List ℕ → List ℕ
mod_times left right mod' = mod_mult (clear (2 * length mod')) left right mod'

-- s = (e + r d) / k, of the inverse of k.
pub signature_s : List ℕ → List ℕ → List ℕ → List ℕ → List ℕ → List ℕ
signature_s d r e inverse n = mod_times (mod_add e (mod_times d r n) n) inverse n

module _ {S : Type 0} where
  -- The random factor, 1 without a generator.
  pub blinding : Option (Rng S) → List ℕ → ℕ → Run S (List ℕ)
  blinding none n num_n_words = pure (set (clear num_n_words) 0 1)
  blinding (some rng) n num_n_words = generate_random_int (some rng) n num_n_words

  -- `uECC_sign_with_k`; the two halves of the signature.
  pub sign_with_k : Option (Rng S) → List ℕ → List ℕ → ℕ → List ℕ → Curve → Run S (List ℕ)
  sign_with_k rng private_key message_hash hash_size k c =
      let num_n_words = bits_to_words c.num_n_bits in
      if is_zero (take c.num_words k) || not (is_one (cmp c.n k)) then refuse else do
        p ← fuelled (
            point_mult (coords_of c.num_words c.g) (regular_scalar (regularize_k k c.info)) none
              (c.num_n_bits + 1) c)
        if is_zero (take c.num_words p) then refuse else do
          tmp ← blinding rng c.n num_n_words
          inverse ← fuelled (mod_inv (mod_times k tmp c.n) c.n)
          let r = x_to_n_words (take c.num_words p) num_n_words
          let e = bits2int message_hash hash_size c.info
          let s = signature_s (read_private private_key c.info) r e (mod_times inverse tmp c.n) c.n
          if ltb (c.num_bytes * 8) (num_bits s)
              then refuse
              else pure (
                  native_to_bytes c.num_bytes (take c.num_words p) ++ native_to_bytes c.num_bytes s)

  pub sign_loop : ℕ → Option (Rng S) → List ℕ → List ℕ → ℕ → Curve → Run S (List ℕ)
  sign_loop zero rng private_key message_hash hash_size c = refuse
  sign_loop (suc tries) rng private_key message_hash hash_size c =
      let rest : Run S (List ℕ) = sign_loop tries rng private_key message_hash hash_size c in
      do
        k ← generate_random_int rng c.n (bits_to_words c.num_n_bits)
        or_else (sign_with_k rng private_key message_hash hash_size k c) rest

  -- `uECC_sign`
  pub sign : Option (Rng S) → List ℕ → List ℕ → ℕ → Curve → Run S (List ℕ)
  sign rng private_key message_hash hash_size c =
      sign_loop max_tries rng private_key message_hash hash_size c

-- `!!uECC_vli_testBit(u1, i) | !!uECC_vli_testBit(u2, i) << 1`
pub shamir_index : List ℕ → List ℕ → ℕ → ℕ
shamir_index u1 u2 i =
    bit_or (of_bool (not (test_bit u1 i == 0))) (of_bool (not (test_bit u2 i == 0)) * 2)

-- `points`: no point, G, Q and G + Q.
pub shamir_point : ℕ → Coords → Coords → Coords → Option Coords
shamir_point zero g q sum = none
shamir_point (suc zero) g q sum = some g
shamir_point (suc (suc zero)) g q sum = some q
shamir_point (suc (suc (suc i))) g q sum = some sum

-- G + Q, with the inverse of the Z coordinate.
pub sum_of : Coords → Coords → CurveData → Option Coords
sum_of g q c =
    let z = mod_sub q.x g.x c.p in
    let added = xycz_add (record { x1 = g.x; y1 = g.y; x2 = q.x; y2 = q.y }) c in
    elim (mod_inv z c.p) [
      | none ↦ none
      | some inverse ↦ some (apply_z (record { x = added.x2; y = added.y2 }) inverse c)
    ]

-- The body of the loop: doubling, and the addition of a point.
pub shamir_step : Option Coords → Jacobian → Curve → Jacobian
shamir_step point r c =
    let doubled = c.double_jacobian c.info r in
    elim point [
      | none ↦ doubled
      | some t ↦
          let t' = apply_z t doubled.z1 c.info in
          let tz = mod_sub doubled.x1 t'.x c.p in
          let added =
            xycz_add (record { x1 = t'.x; y1 = t'.y; x2 = doubled.x1; y2 = doubled.y1 }) c.info in
          record { x1 = added.x2; y1 = added.y2; z1 = mod_mult_fast doubled.z1 tz c.info }
    ]

-- `for (i = num_bits - 2; i >= 0; --i)`, with `i + 1` for the loop's `i`.
pub shamir_loop : ℕ → List ℕ → List ℕ → Coords → Coords → Coords → Jacobian → Curve → Jacobian
shamir_loop zero u1 u2 g q sum r c = r
shamir_loop (suc i) u1 u2 g q sum r c =
    let point = shamir_point (shamir_index u1 u2 i) g q sum in
    shamir_loop i u1 u2 g q sum (shamir_step point r c) c

-- `smax`
pub smax : ℕ → ℕ → ℕ
smax a b = if ltb b a then a else b

-- u1 G + u2 Q in Jacobian coordinates; `none` is the read through the null pointer that C would do
-- where both numbers are zero.
pub shamir : List ℕ → List ℕ → Coords → Coords → Coords → Curve → Option Jacobian
shamir u1 u2 g q sum c =
    let bits = smax (num_bits u1) (num_bits u2) in
    elim (shamir_point (shamir_index u1 u2 (bits - 1)) g q sum) [
      | none ↦ none
      | some point ↦ some (
          shamir_loop (bits - 1) u1 u2 g q sum
            (record { x1 = point.x; y1 = point.y; z1 = set (clear c.num_words) 0 1 }) c)
    ]

-- `uECC_verify`: `none` where an inversion has no fuel, or both numbers are zero.
pub verify : List ℕ → List ℕ → ℕ → List ℕ → Curve → Option Bool
verify public_key message_hash hash_size signature c =
    let num_n_words = bits_to_words c.num_n_bits in
    let q = coords_of c.num_words (bytes_to_point public_key c.info) in
    let g = coords_of c.num_words c.g in
    let r = read_words num_n_words signature c.num_bytes in
    let s = read_words num_n_words (drop c.num_bytes signature) c.num_bytes in
    let e = bits2int message_hash hash_size c.info in
    if is_zero (take c.num_words r) || is_zero (take c.num_words s)
    then some false
    else if not (is_one (cmp_unsafe c.n r)) || not (is_one (cmp_unsafe c.n s))
    then some false
    else elim (mod_inv s c.n) [
      | none ↦ none
      | some z ↦ elim (sum_of g q c.info) [
        | none ↦ none
        | some sum ↦ elim (shamir (mod_times e z c.n) (mod_times r z c.n) g q sum c) [
          | none ↦ none
          | some t ↦ elim (mod_inv t.z1 c.p) [
            | none ↦ none
            | some inverse ↦
                let rx = (apply_z (record { x = t.x1; y = t.y1 }) inverse c.info).x in
                let v = reduce_once (x_to_n_words rx num_n_words) c.n in
                some (equal (take c.num_words v) (take c.num_words r))
          ]
        ]
      ]
    ]
