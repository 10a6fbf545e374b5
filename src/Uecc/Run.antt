-- ===== src/Uecc/Run.antt =====
-- The functions of uECC.c that draw random numbers and may return 0: state passing, with the
-- generator `g_rng_function` (null, or a function that fills bytes or fails) as a parameter.
use ligo.Prelude.{ℕ, zero, suc, ◌+◌, ◌*◌, ◌^◌, List, [], ◌∷◌, Option, none, some}
use ligo.Prelude.{get_or, drop}

-- A function returns 1 with its result or 0; an inversion may run out of fuel.
pub data Outcome (A : Type 0) : Type 0 where
  returned : A → Outcome A
  refused out_of_fuel : Outcome A

abbrev pub Run : Type 0 → Type 0 → Type 0
Run S A = S → Outcome A × S

infixl 5 ◌>>=◌
abbrev pub ◌>>=◌ : {S A B : Type 0} → Run S A → (A → Run S B) → Run S B
◌>>=◌ m f s =
    let (out, s') = m s in
    elim out [ returned a ↦ f a s' | refused ↦ (refused, s') | out_of_fuel ↦ (out_of_fuel, s') ]

abbrev pub pure : {S A : Type 0} → A → Run S A
pure a s = (returned a, s)

abbrev pub refuse : {S A : Type 0} → Run S A
refuse s = (refused, s)

-- A computation that ends where its fuel is enough.
abbrev pub fuelled : {S A : Type 0} → Option A → Run S A
fuelled none s = (out_of_fuel, s)
fuelled (some a) s = (returned a, s)

-- `uECC_RNG_Function`: `none` is its failure.
abbrev pub Rng : Type 0 → Type 0
Rng S = ℕ → S → Option (List ℕ) × S

-- The words that a little-endian machine reads from bytes.
unfoldable pub word_of : ℕ → List ℕ → ℕ
word_of zero bytes = 0
word_of (suc n) bytes = get_or bytes 0 0 + 2 ^ 8 * word_of n (drop 1 bytes)

unfoldable pub words_of : ℕ → List ℕ → List ℕ
words_of zero bytes = []
words_of (suc n) bytes = word_of 8 bytes ∷ words_of n (drop 8 bytes)

-- `if (…) return 1`, and what follows where 0 was returned.
abbrev pub or_else : {S A : Type 0} → Run S A → Run S A → Run S A
or_else m rest s =
    let (out, s') = m s in
    elim out [ returned a ↦ (returned a, s') | refused ↦ rest s' | out_of_fuel ↦ (out_of_fuel, s') ]
