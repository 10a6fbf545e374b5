-- ===== src/Uecc/Secp256r1/Halves.antt =====
-- The words that the reduction modulo the prime of secp256r1 puts together of half words.
use ligo.Prelude.{ℕ, ◌+◌, ◌*◌, ◌/◌, ◌%◌, ◌^◌, ◌<◌, ◌≡◌, refl, ap, ◌∙◌, arith, bit_or, List, [], ◌∷◌}
use ligo.Prelude.{length}
use ligo.Prelude.Bits.{bit_and_mask, bit_and_shifted, bit_or_low_high}
use ligo.Uecc.Word.{word_mod, IsWords, val}
use ligo.Uecc.Secp256r1.{shl32, low_half, high_half, secp256r1_p, s1, s2, s3, s4, d1, d2, d3, d4}

high_lem : (x : ℕ) → x < word_mod → high_half x ≡ x / 2 ^ 32 * 2 ^ 32
high_lem x h =
    bit_and_shifted 32 x 0xffff_ffff
    ∙ ap (λ (t : ℕ). t * 2 ^ 32) (bit_and_mask 32 (x / 2 ^ 32) ∙ omega arith)

low_lem : (x : ℕ) → low_half x ≡ x % 2 ^ 32
low_lem x = bit_and_mask 32 x

join_lem : (x y : ℕ) → x < 2 ^ 32 → bit_or x (shl32 y) ≡ x + y % 2 ^ 32 * 2 ^ 32
join_lem x y h =
    let e : shl32 y ≡ y % 2 ^ 32 * 2 ^ 32 = omega arith in
    rw e (bit_or_low_high 32 x (y % 2 ^ 32) h)

join_high_lem :
    (x y : ℕ) → x < 2 ^ 32 → y < word_mod → bit_or x (high_half y) ≡ x + y / 2 ^ 32 * 2 ^ 32
join_high_lem x y h p = rw (high_lem y p) (bit_or_low_high 32 x (y / 2 ^ 32) h)

-- Four words, and the number they are.
pub record IsFour (v : ℕ) (xs : List ℕ) : Type 0 where
  pub size : length xs ≡ 4
  pub words : IsWords xs
  pub value : val xs ≡ v

IsFour-of :
    {a b c d v : ℕ}
    → a < word_mod
    → b < word_mod
    → c < word_mod
    → d < word_mod
    → v ≡ a + word_mod * b + 2 ^ 128 * c + 2 ^ 192 * d
    → IsFour v (a ∷ b ∷ c ∷ d ∷ [])
IsFour-of p q r s e = record { size = refl; words = (p, (q, (r, (s, tt)))); value = omega arith }

shl_lem : (y : ℕ) → shl32 y ≡ y % 2 ^ 32 * 2 ^ 32
shl_lem y = omega arith

module _ (p4 p5 p6 p7 : ℕ) (w4 : p4 < word_mod) (w5 : p5 < word_mod) (w6 : p6 < word_mod)
    (w7 : p7 < word_mod) where
  pub s1-IsFour :
      IsFour (word_mod * (p5 / 2 ^ 32 * 2 ^ 32) + 2 ^ 128 * p6 + 2 ^ 192 * p7) (s1 p4 p5 p6 p7)
  unfolding s1
  s1-IsFour =
      rw (high_lem p5 w5)
        (IsFour-of (omega arith) (omega arith) (omega arith) (omega arith) (omega arith))

  pub s2-IsFour :
      IsFour
        (word_mod * (p6 % 2 ^ 32 * 2 ^ 32)
          + 2 ^ 128 * (p6 / 2 ^ 32 + p7 % 2 ^ 32 * 2 ^ 32)
          + 2 ^ 192 * (p7 / 2 ^ 32))
        (s2 p4 p5 p6 p7)
  unfolding s2
  s2-IsFour =
      rw (shl_lem p6, join_lem (p6 / 2 ^ 32) p7 (omega arith))
        (IsFour-of (omega arith) (omega arith) (omega arith) (omega arith) (omega arith))

  pub s3-IsFour : IsFour (p4 + word_mod * (p5 % 2 ^ 32) + 2 ^ 192 * p7) (s3 p4 p5 p6 p7)
  unfolding s3
  s3-IsFour =
      rw (low_lem p5)
        (IsFour-of (omega arith) (omega arith) (omega arith) (omega arith) (omega arith))

  pub s4-IsFour :
      IsFour
        ((p4 / 2 ^ 32 + p5 % 2 ^ 32 * 2 ^ 32)
          + word_mod * (p5 / 2 ^ 32 + p6 / 2 ^ 32 * 2 ^ 32)
          + 2 ^ 128 * p7
          + 2 ^ 192 * (p6 / 2 ^ 32 + p4 % 2 ^ 32 * 2 ^ 32))
        (s4 p4 p5 p6 p7)
  unfolding s4
  s4-IsFour =
      rw
        (
          join_lem (p4 / 2 ^ 32) p5 (omega arith),
          join_high_lem (p5 / 2 ^ 32) p6 (omega arith) w6,
          join_lem (p6 / 2 ^ 32) p4 (omega arith),
        )
        (IsFour-of (omega arith) (omega arith) (omega arith) (omega arith) (omega arith))

  pub d1-IsFour :
      IsFour
        ((p5 / 2 ^ 32 + p6 % 2 ^ 32 * 2 ^ 32)
          + word_mod * (p6 / 2 ^ 32)
          + 2 ^ 192 * (p4 % 2 ^ 32 + p5 % 2 ^ 32 * 2 ^ 32))
        (d1 p4 p5 p6 p7)
  unfolding d1
  d1-IsFour =
      rw
        (
          join_lem (p5 / 2 ^ 32) p6 (omega arith),
          low_lem p4,
          join_lem (p4 % 2 ^ 32) p5 (omega arith),
        )
        (IsFour-of (omega arith) (omega arith) (omega arith) (omega arith) (omega arith))

  pub d2-IsFour :
      IsFour (p6 + word_mod * p7 + 2 ^ 192 * (p4 / 2 ^ 32 + p5 / 2 ^ 32 * 2 ^ 32)) (d2 p4 p5 p6 p7)
  unfolding d2
  d2-IsFour =
      rw (join_high_lem (p4 / 2 ^ 32) p5 (omega arith) w5)
        (IsFour-of (omega arith) (omega arith) (omega arith) (omega arith) (omega arith))

  pub d3-IsFour :
      IsFour
        ((p6 / 2 ^ 32 + p7 % 2 ^ 32 * 2 ^ 32)
          + word_mod * (p7 / 2 ^ 32 + p4 % 2 ^ 32 * 2 ^ 32)
          + 2 ^ 128 * (p4 / 2 ^ 32 + p5 % 2 ^ 32 * 2 ^ 32)
          + 2 ^ 192 * (p6 % 2 ^ 32 * 2 ^ 32))
        (d3 p4 p5 p6 p7)
  unfolding d3
  d3-IsFour =
      rw
        (
          join_lem (p6 / 2 ^ 32) p7 (omega arith),
          join_lem (p7 / 2 ^ 32) p4 (omega arith),
          join_lem (p4 / 2 ^ 32) p5 (omega arith),
          shl_lem p6,
        )
        (IsFour-of (omega arith) (omega arith) (omega arith) (omega arith) (omega arith))

  pub d4-IsFour :
      IsFour
        (p7 + word_mod * (p4 / 2 ^ 32 * 2 ^ 32) + 2 ^ 128 * p5 + 2 ^ 192 * (p6 / 2 ^ 32 * 2 ^ 32))
        (d4 p4 p5 p6 p7)
  unfolding d4
  d4-IsFour =
      rw (high_lem p4 w4, high_lem p6 w6)
        (IsFour-of (omega arith) (omega arith) (omega arith) (omega arith) (omega arith))

  -- How often the prime is left out.
  abbrev pub quotient : ℕ
  quotient =
      1 * (p4 % 2 ^ 32)
      + 4294967297 * (p4 / 2 ^ 32)
      + 18446744078004518912 * (p5 % 2 ^ 32)
      + 79228162532711081667253501951 * (p5 / 2 ^ 32)
      + 340282367000166625977638945021017194495 * (p6 % 2 ^ 32)
      + 1461501637671185285124623296161210883009696235519 * (p6 / 2 ^ 32)
      + 6277101736848182401166692341332123086285927382448418586623 * (p7 % 2 ^ 32)
      + 26959946673427741530053695850515137729844644212646842236464328081408 * (p7 / 2 ^ 32)

  -- The sums and the differences make up the words 4 to 7, less multiples of the prime.
  pub identity :
      2 ^ 256 * val (p4 ∷ p5 ∷ p6 ∷ p7 ∷ [])
        + (val (d1 p4 p5 p6 p7)
            + val (d2 p4 p5 p6 p7)
            + val (d3 p4 p5 p6 p7)
            + val (d4 p4 p5 p6 p7))
      ≡ 2 * val (s1 p4 p5 p6 p7)
        + 2 * val (s2 p4 p5 p6 p7)
        + val (s3 p4 p5 p6 p7)
        + val (s4 p4 p5 p6 p7)
        + val secp256r1_p * quotient
  identity =
      rw
        (
          d1-IsFour.value, d2-IsFour.value, d3-IsFour.value, d4-IsFour.value, s1-IsFour.value,
          s2-IsFour.value, s3-IsFour.value, s4-IsFour.value,
        )
        (omega arith)
