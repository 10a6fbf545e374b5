-- ===== src/Uecc/Keys/Random.antt =====
-- `uECC_generate_random_int` (uECC.c lines 967-993) returns numbers in range.
use ligo.Prelude.{
  ℕ, zero, suc, ◌-◌, ◌*◌, ◌/◌, ◌^◌, ◌<◌, ◌≡◌, ◌≢◌, refl, sym, ◌∙◌, arith, bit_and, List, [], ◌∷◌,
  length, Bool, true, false, Bool-cases, inl, inr, not, ◌&&◌, if◌then◌else◌, get_or, set, drop,
  Option, none, some, length-set,
}
use ligo.Prelude.Bits.{bit_and-le}
use native.Mathlib.Nat.{pow-suc}
use ligo.Uecc.Word.{word_mod, IsWords, val}
use ligo.Uecc.Vli.{is_zero, num_bits, cmp_unsafe}
use ligo.Uecc.Vli.Compare.{is_zero_iff, cmp_unsafe-IsOrder, cmp-cmp_unsafe}
use ligo.Uecc.ModArith.{is_one}
use ligo.Uecc.ModArith.Residue.{is_one-lt}
use ligo.Uecc.Run.{Outcome, returned, refused, out_of_fuel, pure, refuse, Rng, word_of, words_of}
use ligo.Uecc.Keys.{max_tries, mask_top, in_range, random_loop, generate_random_int}

-- Bytes.
abbrev pub AreBytes : List ℕ → Type 0
AreBytes [] = Unit
AreBytes (x ∷ xs) = (x < 2 ^ 8) × AreBytes xs

pub AreBytes-drop : (n : ℕ) (xs : List ℕ) → AreBytes xs → AreBytes (drop n xs)
AreBytes-drop zero xs h = h
AreBytes-drop (suc n) [] h = h
AreBytes-drop (suc n) (x ∷ xs) h = AreBytes-drop n xs h.1

first-lt : (xs : List ℕ) → AreBytes xs → get_or xs 0 0 < 2 ^ 8
first-lt [] h = omega arith
first-lt (x ∷ xs) h = h.0

word_of-lt : (n : ℕ) (xs : List ℕ) → AreBytes xs → word_of n xs < (2 ^ 8) ^ n
unfolding word_of
word_of-lt zero xs h = omega arith
word_of-lt (suc n) xs h =
    let rest = word_of-lt n (drop 1 xs) (AreBytes-drop 1 xs h) in
    let low = first-lt xs h in rw (pow-suc (2 ^ 8) n) (omega arith)

words_of-IsWords :
    (n : ℕ) (xs : List ℕ) → AreBytes xs → (length (words_of n xs) ≡ n) × IsWords (words_of n xs)
unfolding words_of
words_of-IsWords zero xs h = (refl, tt)
words_of-IsWords (suc n) xs h =
    let rest = words_of-IsWords n (drop 8 xs) (AreBytes-drop 8 xs h) in
    (omega (arith, rest.0), (word_of-lt 8 xs h, rest.1))

-- A smaller word keeps a VLI one.
pub set-IsWords : (xs : List ℕ) (i x : ℕ) → x < word_mod → IsWords xs → IsWords (set xs i x)
set-IsWords [] i x h w = w
set-IsWords (y ∷ xs) zero x h w = (h, w.1)
set-IsWords (y ∷ xs) (suc i) x h w = (w.0, set-IsWords xs i x h w.1)

pub get_or-lt : (xs : List ℕ) (i : ℕ) → IsWords xs → get_or xs i 0 < word_mod
get_or-lt [] i w = omega arith
get_or-lt (x ∷ xs) zero w = w.0
get_or-lt (x ∷ xs) (suc i) w = get_or-lt xs i w.1

mask_top-IsWords :
    (xs : List ℕ) (n b : ℕ)
    → IsWords xs
    → (length (mask_top xs n b) ≡ length xs) × IsWords (mask_top xs n b)
unfolding mask_top
mask_top-IsWords xs n b w =
    let top = n - 1 in
    let mask = (word_mod - 1) / 2 ^ (n * 64 - b) in
    (
      length-set xs top (bit_and (get_or xs top 0) mask),
      set-IsWords xs top (bit_and (get_or xs top 0) mask)
          (omega (arith, bit_and-le (get_or xs top 0) mask, get_or-lt xs top w)) w,
    )

in_range-lt :
    (random top : List ℕ)
    → length random ≡ length top
    → IsWords random
    → IsWords top
    → in_range random top ≡ true
    → (0 < val random) × (val random < val top)
unfolding in_range
in_range-lt random top e w tw h = elim (Bool-cases (is_zero random)) [
  | inl zero_random ↦ absurd (cc (first_lem (is_zero random) _ zero_random h))
  | inr nonzero ↦
      let order = cmp_unsafe-IsOrder top random (sym e) tw w in
      let greater : is_one (cmp_unsafe top random) ≡ true =
        rw (← cmp-cmp_unsafe top random (sym e) tw w) (second_lem (is_zero random) _ nonzero h) in
      (
        positive (val random) (λ z. absurd (cc (nonzero, (is_zero_iff random).1 z))),
        is_one-lt (cmp_unsafe top random) _ _ order greater,
      )
]
  where
    first_lem : (z q : Bool) → z ≡ true → (not z && q) ≡ true → false ≡ true
    first_lem true q e h = h
    first_lem false q e h = e

    second_lem : (z q : Bool) → z ≡ false → (not z && q) ≡ true → q ≡ true
    second_lem true q e h = absurd (cc e)
    second_lem false q e h = h

    positive : (n : ℕ) → n ≢ 0 → 0 < n
    positive zero nz = absurd (nz refl)
    positive (suc n) nz = omega arith

-- What a result of the generator promises: a number of `top`'s length between 0 and `top`.
abbrev pub IsRandom : List ℕ → Outcome (List ℕ) → Type 0
IsRandom top (returned random) =
    (length random ≡ length top) × IsWords random × (0 < val random) × (val random < val top)
IsRandom top refused = Unit
IsRandom top out_of_fuel = ⊥

-- The generator fills bytes.
abbrev pub Fills : {S : Type 0} → Rng S → Type 0
Fills {S = S} rng =
    (size : ℕ) (s : S) (bytes : List ℕ) → (rng size s).0 ≡ some bytes → AreBytes bytes

module _ {S : Type 0} (rng : Rng S) (fills : Fills rng) (top : List ℕ) (tw : IsWords top) where
  loop-IsRandom : (tries : ℕ) (s : S) → IsRandom top (random_loop tries rng top (length top) s).0
  unfolding random_loop
  loop-IsRandom zero s = tt
  loop-IsRandom (suc tries) s =
      by_draw (rng (length top * 8) s).0 refl (loop-IsRandom tries (rng (length top * 8) s).1)
    where
      by_draw :
          (filled : Option (List ℕ))
          → (rng (length top * 8) s).0 ≡ filled
          → IsRandom top (random_loop tries rng top (length top) (rng (length top * 8) s).1).0
          → IsRandom top
              (elim filled as (λ _. Outcome (List ℕ) × S) [
                | none ↦ refuse (rng (length top * 8) s).1
                | some bytes ↦
                    (if in_range
                        (mask_top (words_of (length top) bytes) (length top) (num_bits top))
                        top
                      then pure
                          (mask_top (words_of (length top) bytes) (length top) (num_bits top))
                          (rng (length top * 8) s).1
                      else random_loop tries rng top (length top) (rng (length top * 8) s).1)
              ]).0
      by_draw none e again = tt
      by_draw (some bytes) e again =
          let drawn = words_of-IsWords (length top) bytes (fills (length top * 8) s bytes e) in
          let cut =
            mask_top-IsWords (words_of (length top) bytes) (length top) (num_bits top) drawn.1 in
          let random = mask_top (words_of (length top) bytes) (length top) (num_bits top) in
          let size : length random ≡ length top = cut.0 ∙ drawn.0 in
          elim (Bool-cases (in_range random top)) [
            | inl good ↦
                let r = in_range-lt random top size cut.1 tw good in rw good (size, cut.1, r.0, r.1)
            | inr bad ↦ rw bad again
          ]

-- With a generator that fills bytes, `uECC_generate_random_int` returns only numbers between 0 and
-- `top`, of its length, and otherwise refuses.
pub generate_random_int-IsRandom :
    {S : Type 0} (rng : Rng S) (top : List ℕ) (s : S)
    → Fills rng
    → IsWords top
    → IsRandom top (generate_random_int (some rng) top (length top) s).0
unfolding generate_random_int
generate_random_int-IsRandom rng top s fills tw = loop-IsRandom rng fills top tw max_tries s
