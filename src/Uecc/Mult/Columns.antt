-- ===== src/Uecc/Mult/Columns.antt =====
-- The loops of `uECC_vli_mult` (uECC.c lines 411-430): a column is added to the accumulator, whose
-- lowest word is stored, and the rest carried into the next column.
use ligo.Prelude.{ℕ, zero, suc, ◌+◌, ◌-◌, ◌*◌, ◌^◌, ◌≤◌, ◌<◌, ◌≡◌, refl, arith, List, [], ◌∷◌}
use ligo.Prelude.{length, get_or}
use native.Mathlib.Nat.{pow-suc, pow-zero}
use ligo.Uecc.Word.{word_mod, IsWords, val}
use ligo.Uecc.Mult.{Acc3, muladd, shift_acc, column, low_columns, high_columns}
use ligo.Uecc.Mult.Accumulator.{acc_val, IsAcc, muladd-acc_val}
use ligo.Uecc.Mult.Convolution.{digits_val}

pub get_or-lt : (xs : List ℕ) (i : ℕ) → IsWords xs → get_or xs i 0 < word_mod
get_or-lt [] i h = omega arith
get_or-lt (x ∷ xs) zero h = h.0
get_or-lt (x ∷ xs) (suc i) h = get_or-lt xs i h.1

-- left[i] * right[k - i] + …, `rounds` products.
abbrev pub products : ℕ → ℕ → ℕ → List ℕ → List ℕ → ℕ
products zero i k left right = 0
products (suc rounds) i k left right =
    get_or left i 0 * get_or right (k - i) 0 + products rounds (suc i) k left right

module _ (left right : List ℕ) (lw : IsWords left) (rw' : IsWords right) where
  -- What a column makes of the accumulator.
  pub record IsColumn (rounds sum : ℕ) (r out : Acc3) : Type 0 where
    pub total : acc_val out ≡ acc_val r + sum
    pub words : IsAcc out
    pub top : out.r2 ≤ r.r2 + rounds

  column-IsColumn :
      (rounds i k : ℕ) (r : Acc3)
      → IsAcc r
      → r.r2 + rounds < word_mod
      → IsColumn rounds (products rounds i k left right) r (column rounds i k left right r)
  unfolding column
  column-IsColumn zero i k r w room = record { total = omega arith; words = w; top = omega arith }
  column-IsColumn (suc rounds) i k r w room =
      let a = get_or left i 0 in
      let b = get_or right (k - i) 0 in
      let one =
        muladd-acc_val a b r (get_or-lt left i lw) (get_or-lt right (k - i) rw') w (omega arith) in
      let rest = column-IsColumn rounds (suc i) k (muladd a b r) one.1 (omega (arith, one.2)) in
      record {
        total = rw (rest.total, one.0) (omega arith);
        words = rest.words;
        top = omega (arith, rest.top, one.2);
      }

  -- Storing the lowest word and shifting the accumulator.
  pub shift_acc_lem :
      (r : Acc3)
      → IsAcc r
      → (r.r0 + word_mod * acc_val (shift_acc r) ≡ acc_val r)
        × IsAcc (shift_acc r)
        × ((shift_acc r).r2 ≡ 0)
  unfolding shift_acc
  shift_acc_lem r w = (omega arith, (omega arith, omega arith, omega arith), refl)

  -- The words stored and the accumulator after some columns with the given sums.
  pub record AreColumns (sums : ℕ → ℕ) (rounds k : ℕ) (r : Acc3) (out : List ℕ × Acc3)
      : Type 0 where
    pub total : val out.0 + word_mod ^ rounds * acc_val out.1 ≡ acc_val r + digits_val sums rounds k
    pub same_length : length out.0 ≡ rounds
    pub words : IsWords out.0
    pub acc : IsAcc out.1
    pub top : out.1.r2 ≡ 0

  pub no_columns :
      (sums : ℕ → ℕ) (k : ℕ) (r : Acc3) → IsAcc r → r.r2 ≡ 0 → AreColumns sums 0 k r ([], r)
  no_columns sums k r w z = record {
    total = rw (pow-zero word_mod) (omega arith);
    same_length = refl;
    words = tt;
    acc = w;
    top = z;
  }

  pub one_column :
      (sums : ℕ → ℕ) (n rounds k : ℕ) (r r' : Acc3) (out : List ℕ × Acc3)
      → IsColumn n (sums k) r r'
      → AreColumns sums rounds (suc k) (shift_acc r') out
      → AreColumns sums (suc rounds) k r (r'.r0 ∷ out.0, out.1)
  one_column sums n rounds k r r' out c rest =
      let s = shift_acc_lem r' c.words in
      record {
        total = rw (pow-suc word_mod rounds) (omega (arith, rest.total, c.total, s.0));
        same_length = omega (arith, rest.same_length);
        words = (c.words.0, rest.words);
        acc = rest.acc;
        top = rest.top;
      }

  abbrev pub low_sum : ℕ → ℕ
  low_sum k = products (suc k) 0 k left right

  pub low_columns-AreColumns :
      (rounds k : ℕ) (r : Acc3)
      → IsAcc r
      → r.r2 ≡ 0
      → rounds + k < word_mod
      → AreColumns low_sum rounds k r (low_columns rounds k left right r)
  unfolding low_columns
  low_columns-AreColumns zero k r w z h = no_columns low_sum k r w z
  low_columns-AreColumns (suc rounds) k r w z h =
      let c = column-IsColumn (suc k) 0 k r w (omega arith) in
      let s = shift_acc_lem _ c.words in
      one_column low_sum (suc k) rounds k r _ _ c
        (low_columns-AreColumns rounds (suc k) _ s.1 s.2 (omega arith))

  abbrev pub high_sum : ℕ → ℕ → ℕ
  high_sum n k = products (n - (suc k - n)) (suc k - n) k left right

  pub high_columns-AreColumns :
      (rounds k n : ℕ) (r : Acc3)
      → IsAcc r
      → r.r2 ≡ 0
      → n < word_mod
      → AreColumns (high_sum n) rounds k r (high_columns rounds k n left right r)
  unfolding high_columns
  high_columns-AreColumns zero k n r w z h = no_columns (high_sum n) k r w z
  high_columns-AreColumns (suc rounds) k n r w z h =
      let c = column-IsColumn (n - (suc k - n)) (suc k - n) k r w (omega arith) in
      let s = shift_acc_lem _ c.words in
      one_column (high_sum n) (n - (suc k - n)) rounds k r _ _ c
        (high_columns-AreColumns rounds (suc k) n _ s.1 s.2 h)
