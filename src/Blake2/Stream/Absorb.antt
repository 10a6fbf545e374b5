-- ===== src/Blake2/Stream/Absorb.antt =====
-- The loop of `blake2b_update` over an input, and that it may be cut anywhere.
use ligo.Prelude.{ℕ, zero, suc, ◌-◌, ◌≤◌, ◌<◌, ◌≡◌, refl, sym, ◌∙◌, arith, List, ◌++◌}
use ligo.Prelude.{true, false, inl, inr, Bool-cases, ltb, length, take, drop}
use ligo.Prelude.{length-append, length-drop, take-append, drop-append}
use mathlib.Core.List.{append-nil}
use native.Mathlib.Decide.{dec_lt}
use ligo.Blake2.Compress.{Chain, compress, increment_counter}
use ligo.Blake2.State.{update_loop}

abbrev pub absorb_block : Chain → List ℕ → Chain
absorb_block c block = compress (increment_counter c 128) block

loop_step :
    (n : ℕ) (c : Chain) (xs : List ℕ)
    → ltb 128 (length xs) ≡ true
    → update_loop (suc n) c xs ≡ update_loop n (absorb_block c (take 128 xs)) (drop 128 xs)
unfolding update_loop
loop_step n c xs e = rw e

loop_stop :
    (n : ℕ) (c : Chain) (xs : List ℕ) → ltb 128 (length xs) ≡ false → update_loop n c xs ≡ (c, xs)
unfolding update_loop
loop_stop zero c xs e = refl
loop_stop (suc n) c xs e = rw e

-- Fuel for as many rounds as there are bytes is enough.
pub loop_enough :
    (n m : ℕ) (c : Chain) (xs : List ℕ)
    → length xs ≤ n
    → length xs ≤ m
    → update_loop n c xs ≡ update_loop m c xs
loop_enough zero zero c xs p q = refl
loop_enough zero (suc m) c xs p q =
    sym (loop_stop (suc m) c xs (ground arith) ∙ sym (loop_stop zero c xs (ground arith)))
loop_enough (suc n) zero c xs p q =
    loop_stop (suc n) c xs (ground arith) ∙ sym (loop_stop zero c xs (ground arith))
loop_enough (suc n) (suc m) c xs p q = elim (Bool-cases (ltb 128 (length xs))) [
  | inr e ↦ loop_stop (suc n) c xs e ∙ sym (loop_stop (suc m) c xs e)
  | inl e ↦
      let rest =
        loop_enough n m (absorb_block c (take 128 xs)) (drop 128 xs) (shorter n p e)
          (shorter m q e) in
      loop_step n c xs e ∙ (rest ∙ sym (loop_step m c xs e))
]
  where
    shorter : (k : ℕ) → length xs ≤ suc k → ltb 128 (length xs) ≡ true → length (drop 128 xs) ≤ k
    shorter k h e = ground (arith, length-drop 128 xs)

-- All whole blocks but the last taken in: the chaining value, and the 128 bytes or less left.
pub absorb : Chain → List ℕ → Chain × List ℕ
absorb c xs = update_loop (length xs) c xs

pub absorb_stop : (c : Chain) (xs : List ℕ) → length xs ≤ 128 → absorb c xs ≡ (c, xs)
unfolding absorb
absorb_stop c xs h = loop_stop (length xs) c xs (ground arith)

-- The loop with any fuel that is enough.
pub absorb_fuel :
    (n : ℕ) (c : Chain) (xs : List ℕ) → length xs ≤ n → update_loop n c xs ≡ absorb c xs
unfolding absorb
absorb_fuel n c xs h = loop_enough n (length xs) c xs h (omega arith)

pub absorb_step :
    (c : Chain) (xs : List ℕ)
    → 128 < length xs
    → absorb c xs ≡ absorb (absorb_block c (take 128 xs)) (drop 128 xs)
unfolding absorb
absorb_step c xs h =
    loop_enough (length xs) (suc (length xs)) c xs (omega arith) (omega arith)
    ∙ (loop_step (length xs) c xs (ground arith)
        ∙ absorb_fuel (length xs) _ (drop 128 xs) (omega (arith, length-drop 128 xs)))

-- Taking in `xs` and then `ys` behind what was left is taking in `xs ++ ys`.
absorb_append_fuel :
    (n : ℕ) (c : Chain) (xs ys : List ℕ)
    → length xs ≤ n
    → absorb c (xs ++ ys) ≡ absorb (absorb c xs).0 ((absorb c xs).1 ++ ys)
absorb_append_fuel zero c xs ys h = rw (absorb_stop c xs (omega arith)) refl
absorb_append_fuel (suc n) c xs ys h = elim (dec_lt 128 (length xs)) [
  | no short ↦ rw (absorb_stop c xs (omega arith)) refl
  | yes long ↦
      let none_of_ys : 128 - length xs ≡ 0 = omega arith in
      let both : 128 < length (xs ++ ys) = omega (arith, length-append xs ys) in
      rw
        (
          absorb_step c (xs ++ ys) both,
          absorb_step c xs long,
          take-append 128 xs ys,
          drop-append 128 xs ys,
          none_of_ys,
          append-nil (take 128 xs),
        )
        (absorb_append_fuel n (absorb_block c (take 128 xs)) (drop 128 xs) ys
          (omega (arith, length-drop 128 xs)))
]

-- Taking in `xs` and then `ys` behind what was left is taking in `xs ++ ys`.
pub absorb-append :
    (c : Chain) (xs ys : List ℕ)
    → absorb c (xs ++ ys) ≡ absorb (absorb c xs).0 ((absorb c xs).1 ++ ys)
absorb-append c xs ys = absorb_append_fuel (length xs) c xs ys (omega arith)

left_fuel : (n : ℕ) (c : Chain) (xs : List ℕ) → length xs ≤ n → length (update_loop n c xs).1 ≤ 128
left_fuel zero c xs h = rw (loop_stop zero c xs (ground arith)) (omega arith)
left_fuel (suc n) c xs h = elim (Bool-cases (ltb 128 (length xs))) [
  | inr e ↦ rw (loop_stop (suc n) c xs e) (ground arith)
  | inl e ↦
      rw (loop_step n c xs e) (left_fuel n _ (drop 128 xs) (ground (arith, length-drop 128 xs)))
]

-- At most a block is left.
pub absorb_left : (c : Chain) (xs : List ℕ) → length (absorb c xs).1 ≤ 128
unfolding absorb
absorb_left c xs = left_fuel (length xs) c xs (omega arith)
