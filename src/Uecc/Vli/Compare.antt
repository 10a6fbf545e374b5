-- ===== src/Uecc/Vli/Compare.antt =====
-- `uECC_vli_isZero`, `uECC_vli_equal`, `uECC_vli_cmp_unsafe` and `uECC_vli_cmp`
-- (uECC.c lines 206-215 and 261-302) decide what they say of the numbers.
use ligo.Prelude.{
  ℕ, zero, suc, ◌+◌, ◌*◌, ◌≤◌, ◌<◌, ◌≡◌, ◌≢◌, Bool-cases, inl, inr, ◌↔◌, refl, ap, ap₂, bit_or,
  bit_xor,
}
use ligo.Prelude.{Bool, true, false, List, [], ◌∷◌, arith, length, get_or, ◌==◌, ltb, if◌then◌else◌}
use ligo.Prelude.{◌-◌, ◌%◌, not}
use ligo.Prelude.Int.{ℤ, pos, negsuc}
use ligo.Prelude.Bits.{bit_or-eq_zero, zero-bit_or, bit_xor-eq_zero, bit_xor_self}
use native.Mathlib.Decide.{dec_lt}
use ligo.Uecc.Word.{word_mod, IsWords, val, to_int8, of_bool}
use ligo.Uecc.Vli.{is_zero_loop, is_zero, equal_loop, equal, cmp_unsafe_loop, cmp_unsafe, cmp, sub}
use ligo.Uecc.Vli.Carry.{sub-IsDifference, span, val-lt-span, span-eq_of_length}

is_zero_loop_iff :
    (bits : ℕ) (xs : List ℕ) → (is_zero_loop bits xs ≡ true) ↔ ((bits ≡ 0) × (val xs ≡ 0))
unfolding is_zero_loop
is_zero_loop_iff bits [] = ground arith
is_zero_loop_iff bits (x ∷ xs) =
    let rest = is_zero_loop_iff (bit_or bits x) xs in
    (
      λ h. omega (arith, rest.0 h, bit_or-eq_zero bits x (rest.0 h).0),
      λ h. rest.1 ((rw (word_zero (val xs) h.1) (rw h.0 (zero-bit_or 0))), omega arith),
    )
  where
    word_zero : (t : ℕ) → x + word_mod * t ≡ 0 → x ≡ 0
    word_zero t e = omega arith

-- `uECC_vli_isZero` holds exactly of the number 0.
pub is_zero_iff : (xs : List ℕ) → (is_zero xs ≡ true) ↔ (val xs ≡ 0)
unfolding is_zero
is_zero_iff xs = (λ h. ((is_zero_loop_iff 0 xs).0 h).1, λ h. (is_zero_loop_iff 0 xs).1 (refl, h))

-- The difference of words below `n` is 0 exactly when all of them agree.
Agree : ℕ → List ℕ → List ℕ → Type 0
Agree n left right = (i : ℕ) → i < n → get_or left i 0 ≡ get_or right i 0

equal_loop_iff :
    (diff n : ℕ) (left right : List ℕ)
    → (equal_loop diff n left right ≡ true) ↔ ((diff ≡ 0) × Agree n left right)
unfolding equal_loop Agree
equal_loop_iff diff zero left right =
    (λ h. (ground arith, λ i p. absurd (omega arith)), λ h. ground arith)
equal_loop_iff diff (suc n) left right =
    let x = get_or left n 0 in
    let y = get_or right n 0 in
    let rest = equal_loop_iff (bit_or diff (bit_xor x y)) n left right in
    (
      λ h.
          let parts = bit_or-eq_zero diff (bit_xor x y) (rest.0 h).0 in
          (parts.0, λ i p. agree_below (rest.0 h).1 (bit_xor-eq_zero x y parts.1) i p),
      λ h.
          rest.1 (
            rw (h.0, h.1 n (omega arith), bit_xor_self) (zero-bit_or 0),
            λ i p. h.1 i (omega arith),
          ),
    )
  where
    agree_below : Agree n left right → get_or left n 0 ≡ get_or right n 0 → Agree (suc n) left right
    agree_below below here i p = elim (dec_lt i n) [
      | yes q ↦ below i q
      | no q ↦ let last : i ≡ n = omega arith in rw last here
    ]

get_or_ext : (xs ys : List ℕ) → length xs ≡ length ys → Agree (length xs) xs ys → xs ≡ ys
unfolding Agree
get_or_ext [] [] e h = refl
get_or_ext [] (y ∷ ys) e h = absurd (omega arith)
get_or_ext (x ∷ xs) [] e h = absurd (omega arith)
get_or_ext (x ∷ xs) (y ∷ ys) e h =
    ap₂ ◌∷◌ (h 0 (omega arith)) (get_or_ext xs ys (omega arith) (λ i p. h (suc i) (omega arith)))

-- On operands of one length `uECC_vli_equal` holds exactly when they are the same words.
pub equal_iff :
    (left right : List ℕ) → length left ≡ length right → (equal left right ≡ true) ↔ (left ≡ right)
unfolding equal Agree
equal_iff left right e =
    let loop = equal_loop_iff 0 (length left) left right in
    (
      λ h. get_or_ext left right e (loop.0 h).1,
      λ h. loop.1 (refl, λ i p. ap (λ (l : List ℕ). get_or l i 0) h),
    )

-- What a comparison result says of two numbers.
abbrev pub IsOrder : ℤ → ℕ → ℕ → Type 0
IsOrder (pos zero) a b = a ≡ b
IsOrder (pos (suc n)) a b = (n ≡ 0) × (b < a)
IsOrder (negsuc n) a b = (n ≡ 0) × (a < b)

-- The result for the words above the lowest decides, unless they are equal.
then_low : ℤ → ℕ → ℕ → ℤ
then_low (pos zero) x y = if ltb y x then pos 1 else if ltb x y then negsuc 0 else pos 0
then_low (pos (suc n)) x y = pos (suc n)
then_low (negsuc n) x y = negsuc n

cmp_unsafe_loop-cons :
    (n x y : ℕ) (left right : List ℕ)
    → cmp_unsafe_loop (suc n) (x ∷ left) (y ∷ right) ≡ then_low (cmp_unsafe_loop n left right) x y
unfolding cmp_unsafe_loop then_low
cmp_unsafe_loop-cons zero x y left right = refl
cmp_unsafe_loop-cons (suc n) x y left right = ground (arith, cmp_unsafe_loop-cons n x y left right)

then_low-IsOrder :
    (r : ℤ) (x y a b : ℕ)
    → x < word_mod
    → y < word_mod
    → IsOrder r a b
    → IsOrder (then_low r x y) (x + word_mod * a) (y + word_mod * b)
unfolding then_low
then_low-IsOrder (pos zero) x y a b p q h = ground arith
then_low-IsOrder (pos (suc n)) x y a b p q h = omega arith
then_low-IsOrder (negsuc n) x y a b p q h = omega arith

cmp_unsafe_loop-IsOrder :
    (left right : List ℕ)
    → length left ≡ length right
    → IsWords left
    → IsWords right
    → IsOrder (cmp_unsafe_loop (length left) left right) (val left) (val right)
unfolding cmp_unsafe_loop
cmp_unsafe_loop-IsOrder [] [] e p q = refl
cmp_unsafe_loop-IsOrder [] (y ∷ right) e p q = absurd (omega arith)
cmp_unsafe_loop-IsOrder (x ∷ left) [] e p q = absurd (omega arith)
cmp_unsafe_loop-IsOrder (x ∷ left) (y ∷ right) e p q =
    rw (cmp_unsafe_loop-cons (length left) x y left right) (
      then_low-IsOrder (cmp_unsafe_loop (length left) left right) x y (val left) (val right) p.0 q.0
        (cmp_unsafe_loop-IsOrder left right (omega arith) p.1 q.1))

-- On operands of one length `uECC_vli_cmp_unsafe` returns 1, 0 or -1 as the left number is
-- greater than, equal to or less than the right one.
pub cmp_unsafe-IsOrder :
    (left right : List ℕ)
    → length left ≡ length right
    → IsWords left
    → IsWords right
    → IsOrder (cmp_unsafe left right) (val left) (val right)
unfolding cmp_unsafe
cmp_unsafe-IsOrder left right e p q = cmp_unsafe_loop-IsOrder left right e p q

IsOrder-unique : (r s : ℤ) (a b : ℕ) → IsOrder r a b → IsOrder s a b → r ≡ s
IsOrder-unique (pos zero) (pos zero) a b h k = refl
IsOrder-unique (pos zero) (pos (suc n)) a b h k = absurd (omega arith)
IsOrder-unique (pos zero) (negsuc n) a b h k = absurd (omega arith)
IsOrder-unique (pos (suc m)) (pos zero) a b h k = absurd (omega arith)
IsOrder-unique (pos (suc m)) (pos (suc n)) a b h k = cc
IsOrder-unique (pos (suc m)) (negsuc n) a b h k = absurd (omega arith)
IsOrder-unique (negsuc m) (pos zero) a b h k = absurd (omega arith)
IsOrder-unique (negsuc m) (pos (suc n)) a b h k = absurd (omega arith)
IsOrder-unique (negsuc m) (negsuc n) a b h k = cc

-- `!equal - 2 * neg`, cut to 8 bits.
abbrev verdict : Bool → ℕ → ℤ
verdict zero? borrow =
    to_int8 ((of_bool (of_bool zero? == 0) + word_mod - 2 * of_bool (not (borrow == 0))) % word_mod)

verdict-IsOrder :
    (zero? : Bool) (borrow a b diff s : ℕ)
    → (zero? ≡ true) ↔ (diff ≡ 0)
    → borrow ≤ 1
    → diff + b + 0 ≡ a + s * borrow
    → diff < s
    → b < s
    → IsOrder (verdict zero? borrow) a b
verdict-IsOrder true zero a b diff s z h e p q = omega (arith, z.0 refl)
verdict-IsOrder true (suc zero) a b diff s z h e p q = absurd (omega (arith, z.0 refl))
verdict-IsOrder true (suc (suc k)) a b diff s z h e p q = absurd (omega arith)
verdict-IsOrder false zero a b diff s z h e p q = ground (arith, z.1)
verdict-IsOrder false (suc zero) a b diff s z h e p q = omega arith
verdict-IsOrder false (suc (suc k)) a b diff s z h e p q = absurd (omega arith)

-- The comparison in constant time, `uECC_vli_cmp`, agrees with `uECC_vli_cmp_unsafe` on operands
-- of one length.
pub cmp-cmp_unsafe :
    (left right : List ℕ)
    → length left ≡ length right
    → IsWords left
    → IsWords right
    → cmp left right ≡ cmp_unsafe left right
unfolding cmp
cmp-cmp_unsafe left right e p q =
    let d = sub-IsDifference left right e p q in
    let tmp = (sub left right).0 in
    IsOrder-unique (verdict (is_zero tmp) (sub left right).1) (cmp_unsafe left right) _ _
      (verdict-IsOrder (is_zero tmp) (sub left right).1 (val left) (val right) (val tmp) (span left)
        (is_zero_iff tmp) d.last_bit d.total
        (rw (← span-eq_of_length tmp left d.same_length) (val-lt-span tmp d.words))
        (rw (span-eq_of_length left right e) (val-lt-span right q)))
      (cmp_unsafe-IsOrder left right e p q)

-- A number that is not 0 is not found to be 0.
pub is_zero-false : (xs : List ℕ) → val xs ≢ 0 → is_zero xs ≡ false
is_zero-false xs nz = elim (Bool-cases (is_zero xs)) [
  | inl z ↦ absurd (nz ((is_zero_iff xs).0 z))
  | inr nonzero ↦ nonzero
]
