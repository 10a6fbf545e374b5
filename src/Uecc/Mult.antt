-- ===== src/Uecc/Mult.antt =====
-- ocaml-uecc/src/uECC.c, lines 357-511: multiplication and squaring of big integers, column by
-- column, with the three-word accumulator `r2 r1 r0`. The 64-bit build has `unsigned __int128`.
pub mod Accumulator
pub mod Convolution
pub mod Columns
pub mod Sums
pub mod Product
pub mod Square
mod Tests
use ligo.Prelude.{ℕ, zero, suc, ◌+◌, ◌-◌, ◌*◌, ◌/◌, ◌%◌, ◌^◌, List, [], ◌∷◌, ◌++◌, ◌&&◌}
use ligo.Prelude.{ltb, leb, if◌then◌else◌, length, get_or}
use ligo.Uecc.Word.{word_mod, of_bool}

abbrev pub dword_mod : ℕ
dword_mod = 2 ^ 128

pub record Acc3 : Type 0 where
  pub r0 : ℕ
  pub r1 : ℕ
  pub r2 : ℕ

-- `muladd`
pub muladd : ℕ → ℕ → Acc3 → Acc3
muladd a b r =
    let p = a * b % dword_mod in
    let r01 = (r.r1 * word_mod + r.r0 + p) % dword_mod in
    record {
      r0 = r01 % word_mod;
      r1 = r01 / word_mod % word_mod;
      r2 = (r.r2 + of_bool (ltb r01 p)) % word_mod;
    }

-- `mul2add`
pub mul2add : ℕ → ℕ → Acc3 → Acc3
mul2add a b r =
    let p = a * b % dword_mod in
    let top = p / 2 ^ 127 in
    let p2 = p * 2 % dword_mod in
    let r01 = (r.r1 * word_mod + r.r0 + p2) % dword_mod in
    record {
      r0 = r01 % word_mod;
      r1 = r01 / word_mod % word_mod;
      r2 = ((r.r2 + top) % word_mod + of_bool (ltb r01 p2)) % word_mod;
    }

-- `r0 = r1; r1 = r2; r2 = 0`
pub shift_acc : Acc3 → Acc3
shift_acc r = record { r0 = r.r1; r1 = r.r2; r2 = 0 }

-- `for (; i < end; ++i) muladd(left[i], right[k - i])`, with `rounds` = `end - i`.
pub column : ℕ → ℕ → ℕ → List ℕ → List ℕ → Acc3 → Acc3
column zero i k left right r = r
column (suc rounds) i k left right r =
    column rounds (suc i) k left right (muladd (get_or left i 0) (get_or right (k - i) 0) r)

-- The first loop over `k`, `rounds` columns from `k` on: the words stored, and the accumulator.
pub low_columns : ℕ → ℕ → List ℕ → List ℕ → Acc3 → List ℕ × Acc3
low_columns zero k left right r = ([], r)
low_columns (suc rounds) k left right r =
    let r' = column (suc k) 0 k left right r in
    let (rest, last) = low_columns rounds (suc k) left right (shift_acc r') in (r'.r0 ∷ rest, last)

-- The second loop over `k`.
pub high_columns : ℕ → ℕ → ℕ → List ℕ → List ℕ → Acc3 → List ℕ × Acc3
high_columns zero k num_words left right r = ([], r)
high_columns (suc rounds) k num_words left right r =
    let i = suc k - num_words in
    let r' = column (num_words - i) i k left right r in
    let (rest, last) = high_columns rounds (suc k) num_words left right (shift_acc r') in
    (r'.r0 ∷ rest, last)

-- `uECC_vli_mult`: the words of the product, lowest first.
pub mult : List ℕ → List ℕ → List ℕ
mult left right =
    let num_words = length left in
    let (low, r) = low_columns num_words 0 left right (record { r0 = 0; r1 = 0; r2 = 0 }) in
    let (high, r') = high_columns (num_words - 1) num_words num_words left right r in
    low ++ high ++ r'.r0 ∷ []

-- The inner loop of `uECC_vli_square`, on fuel: `i` passes the middle after at most k + 1 rounds.
pub square_column : ℕ → ℕ → ℕ → List ℕ → Acc3 → Acc3
square_column zero i k left r = r
square_column (suc fuel) i k left r =
    let a = get_or left i 0 in
    let b = get_or left (k - i) 0 in
    let next =
      square_column fuel (suc i) k left (if ltb i (k - i) then mul2add a b r else muladd a b r) in
    if leb i k && leb i (k - i) then next else r

-- The loop over `k`.
pub square_columns : ℕ → ℕ → ℕ → List ℕ → Acc3 → List ℕ × Acc3
square_columns zero k num_words left r = ([], r)
square_columns (suc rounds) k num_words left r =
    let min = if ltb k num_words then 0 else suc k - num_words in
    let r' = square_column (suc k) min k left r in
    let (rest, last) = square_columns rounds (suc k) num_words left (shift_acc r') in
    (r'.r0 ∷ rest, last)

-- `uECC_vli_square`: the words of the square, lowest first.
pub square : List ℕ → List ℕ
square left =
    let num_words = length left in
    let (out, r) =
      square_columns (num_words * 2 - 1) 0 num_words left (record { r0 = 0; r1 = 0; r2 = 0 }) in
    out ++ r.r0 ∷ []
