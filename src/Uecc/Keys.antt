-- ===== src/Uecc/Keys.antt =====
-- ocaml-uecc/src/uECC.c, lines 967-1180: random numbers, keys and their encodings.
pub mod Valid
pub mod Public
pub mod Secret
pub mod Random
use ligo.Prelude.{
  ℕ, zero, suc, ◌+◌, ◌-◌, ◌*◌, ◌/◌, ◌%◌, ◌^◌, bit_and, Bool, true, false, not, ◌&&◌, ◌||◌, List, [],
  ◌∷◌, ◌++◌, Option, none, some,
}
use ligo.Prelude.{◌==◌, if◌then◌else◌, get_or, set, take, drop}
use ligo.Uecc.Word.{word_mod}
use ligo.Uecc.Vli.{clear, is_zero, num_bits, cmp, cmp_unsafe, equal, sub}
use ligo.Uecc.ModArith.{is_one}
use ligo.Uecc.Curve.{CurveData, Curve, mod_square_fast, bits_to_words, bits_to_bytes}
use ligo.Uecc.Point.{
  Coords, point_is_zero, regularize_k, regular_scalar, coords_of, point_mult, compute_public_point,
}
use ligo.Uecc.Bytes.{native_to_bytes, bytes_to_native}
use ligo.Uecc.Run.{Outcome, Run, ◌>>=◌, pure, refuse, fuelled, Rng, words_of}

abbrev pub max_tries : ℕ
max_tries = 64

-- `random[num_words - 1] &= mask >> (num_words * 64 - num_bits)`: the shift is less than 64 where the
-- highest word of `top` is not 0, and C leaves larger ones undefined, which give 0 here.
pub mask_top : List ℕ → ℕ → ℕ → List ℕ
mask_top random num_words bits =
    let top = num_words - 1 in
    set random top (bit_and (get_or random top 0) ((word_mod - 1) / 2 ^ (num_words * 64 - bits)))

-- `0 < random < top`
pub in_range : List ℕ → List ℕ → Bool
in_range random top = not (is_zero random) && is_one (cmp top random)

module _ {S : Type 0} where
  pub random_loop : ℕ → Rng S → List ℕ → ℕ → Run S (List ℕ)
  random_loop zero rng top num_words s = refuse s
  random_loop (suc tries) rng top num_words s =
      let (filled, s') = rng (num_words * 8) s in
      let rest = random_loop tries rng top num_words s' in
      elim filled [
        | none ↦ refuse s'
        | some bytes ↦
            let random = mask_top (words_of num_words bytes) num_words (num_bits top) in
            if in_range random top then pure random s' else rest
      ]

  -- `uECC_generate_random_int`; a null generator is `none`.
  pub generate_random_int : Option (Rng S) → List ℕ → ℕ → Run S (List ℕ)
  generate_random_int none top num_words = refuse
  generate_random_int (some rng) top num_words = random_loop max_tries rng top num_words

-- The bytes of a point of 2 n words.
pub point_to_bytes : List ℕ → CurveData → List ℕ
point_to_bytes point c =
    native_to_bytes c.num_bytes (take c.num_words point)
    ++ native_to_bytes c.num_bytes (drop c.num_words point)

-- `uECC_vli_bytesToNative` to a new buffer of `num_words` words.
abbrev pub read_words : ℕ → List ℕ → ℕ → List ℕ
read_words num_words bytes num_bytes = bytes_to_native (clear num_words) bytes num_bytes

unfoldable pub bytes_to_point : List ℕ → CurveData → List ℕ
bytes_to_point bytes c =
    read_words c.num_words bytes c.num_bytes
    ++ read_words c.num_words (drop c.num_bytes bytes) c.num_bytes

abbrev pub read_private : List ℕ → CurveData → List ℕ
read_private bytes c = read_words (bits_to_words c.num_n_bits) bytes (bits_to_bytes c.num_n_bits)

pub record KeyPair : Type 0 where
  pub private_key : List ℕ
  pub public_key : List ℕ

module _ {S : Type 0} where
  pub make_key_loop : ℕ → Option (Rng S) → Curve → Run S KeyPair
  make_key_loop zero rng c = refuse
  make_key_loop (suc tries) rng c =
      let rest : Run S KeyPair = make_key_loop tries rng c in
      do
        private_words ← generate_random_int rng c.n (bits_to_words c.num_n_bits)
        computed ← fuelled (compute_public_point private_words c)
        if computed.0
            then pure (record {
              private_key = native_to_bytes (bits_to_bytes c.num_n_bits) private_words;
              public_key = point_to_bytes computed.1 c.info;
            })
            else rest

  -- `uECC_make_key`
  pub make_key : Option (Rng S) → Curve → Run S KeyPair
  make_key rng c = make_key_loop max_tries rng c

  -- The random initial Z of `uECC_shared_secret`, if there is a generator.
  pub initial_z_of : Option (Rng S) → CurveData → Run S (Option (List ℕ))
  initial_z_of none c = pure none
  initial_z_of (some rng) c = do z ← generate_random_int (some rng) c.p c.num_words; pure (some z)

  -- `uECC_shared_secret`: whether the product is a point, and its x coordinate.
  pub shared_secret : Option (Rng S) → List ℕ → List ℕ → Curve → Run S (Bool × List ℕ)
  shared_secret rng public_key private_key c =
      let regular = regularize_k (read_private private_key c.info) c.info in
      let point = coords_of c.num_words (bytes_to_point public_key c.info) in
      do
        initial_z ← initial_z_of rng c.info
        result ← fuelled (point_mult point (regular_scalar regular) initial_z (c.num_n_bits + 1) c)
        pure (not (point_is_zero result), native_to_bytes c.num_bytes (take c.num_words result))

-- `uECC_compress`
pub compress : List ℕ → CurveData → List ℕ
compress public_key c =
    (2 + bit_and (get_or public_key (c.num_bytes * 2 - 1) 0) 1) ∷ take c.num_bytes public_key

-- The y coordinate with the parity of the first byte.
pub root_with_parity : ℕ → List ℕ → List ℕ → List ℕ
root_with_parity first y p = if bit_and (get_or y 0 0) 1 == bit_and first 1 then y else (sub p y).0

-- `uECC_decompress`
pub decompress : List ℕ → Curve → List ℕ
decompress compressed c =
    let x = read_words c.num_words (drop 1 compressed) c.num_bytes in
    let y = c.mod_sqrt c.info (c.x_side c.info x) in
    native_to_bytes c.num_bytes x
    ++ native_to_bytes c.num_bytes (root_with_parity (get_or compressed 0 0) y c.p)

-- `uECC_valid_point`
pub valid_point : List ℕ → Curve → Bool
valid_point point c =
    let x = take c.num_words point in
    let y = drop c.num_words point in
    if point_is_zero point
    then false
    else if not (is_one (cmp_unsafe c.p x)) || not (is_one (cmp_unsafe c.p y))
    then false
    else equal (mod_square_fast y c.info) (c.x_side c.info x)

-- `uECC_valid_public_key`
pub valid_public_key : List ℕ → Curve → Bool
valid_public_key public_key c = valid_point (bytes_to_point public_key c.info) c

-- `uECC_compute_public_key`
pub compute_public_key : {S : Type 0} → List ℕ → Curve → Run S (List ℕ)
compute_public_key private_key c =
    let private_words = read_private private_key c.info in
    if is_zero private_words
    then refuse
    else if not (is_one (cmp c.n private_words))
    then refuse
    else do
      computed ← fuelled (compute_public_point private_words c)
      if computed.0 then pure (point_to_bytes computed.1 c.info) else refuse
