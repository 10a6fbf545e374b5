-- ===== src/Uecc/ModArith.antt =====
-- ocaml-uecc/src/uECC.c, lines 524-551 and 666-725: addition, subtraction and inversion modulo a
-- VLI `mod` of the operands' length.
pub mod Residue
pub mod Halve
pub mod Congruence
pub mod Algebra
pub mod Excess
pub mod Inverse
mod Tests
use ligo.Prelude.{
  ℕ, zero, suc, ◌-◌, ◌*◌, bit_and, bit_or, Bool, true, false, not, ◌||◌, List, [], ◌∷◌, Option,
  none, some,
}
use ligo.Prelude.{◌==◌, if◌then◌else◌, length, get_or, set}
use ligo.Prelude.Int.{ℤ, pos, negsuc}
use ligo.Uecc.Word.{high_bit_set}
use ligo.Uecc.Vli.{clear, is_zero, cmp_unsafe, rshift1, add, sub}

-- `r == 1` and `r < 0` for a `cmpresult_t`.
abbrev pub is_one : ℤ → Bool
is_one (pos zero) = false
is_one (pos (suc zero)) = true
is_one (pos (suc (suc n))) = false
is_one (negsuc n) = false

abbrev pub is_negative : ℤ → Bool
is_negative (pos n) = false
is_negative (negsuc n) = true

abbrev pub is_positive : ℤ → Bool
is_positive (pos zero) = false
is_positive (pos (suc n)) = true
is_positive (negsuc n) = false

abbrev pub is_same : ℤ → Bool
is_same (pos zero) = true
is_same (pos (suc n)) = false
is_same (negsuc n) = false

-- `uECC_vli_modAdd`
pub mod_add : List ℕ → List ℕ → List ℕ → List ℕ
mod_add left right mod' =
    let (result, carry) = add left right in
    if not (carry == 0) || not (is_one (cmp_unsafe mod' result))
    then (sub result mod').0
    else result

-- `uECC_vli_modSub`
pub mod_sub : List ℕ → List ℕ → List ℕ → List ℕ
mod_sub left right mod' =
    let (result, l_borrow) = sub left right in
    if not (l_borrow == 0) then (add result mod').0 else result

-- The macro `EVEN`.
pub even : List ℕ → Bool
even vli = bit_and (get_or vli 0 0) 1 == 0

-- `uv[num_words - 1] |= HIGH_BIT_SET`
set_high_bit : List ℕ → List ℕ
set_high_bit uv = let top = length uv - 1 in set uv top (bit_or (get_or uv top 0) high_bit_set)

-- `vli_modInv_update`
pub mod_inv_update : List ℕ → List ℕ → List ℕ
mod_inv_update uv mod' =
    let (sum, carry) = if even uv then (uv, 0) else add uv mod' in
    let half = rshift1 sum in if not (carry == 0) then set_high_bit half else half

-- The four buffers of `uECC_vli_modInv`.
pub record InvState : Type 0 where
  pub a : List ℕ
  pub b : List ℕ
  pub u : List ℕ
  pub v : List ℕ

-- `if (cmp(u, v) < 0) u += mod; u -= v;`
pub sub_reduced : List ℕ → List ℕ → List ℕ → List ℕ
sub_reduced u v mod' = (sub (if is_negative (cmp_unsafe u v) then (add u mod').0 else u) v).0

-- The body of the loop, on the result of the comparison of `a` and `b`.
pub mod_inv_step : ℤ → InvState → List ℕ → InvState
mod_inv_step cmp_result s mod' =
    if even s.a
    then record s { a = rshift1 s.a; u = mod_inv_update s.u mod' }
    else if even s.b
    then record s { b = rshift1 s.b; v = mod_inv_update s.v mod' }
    else if is_positive cmp_result
    then record s {
      a = rshift1 (sub s.a s.b).0;
      u = mod_inv_update (sub_reduced s.u s.v mod') mod';
    }
    else record s {
      b = rshift1 (sub s.b s.a).0;
      v = mod_inv_update (sub_reduced s.v s.u mod') mod';
    }

-- The loop, on fuel; `none` means that the fuel ran out.
pub mod_inv_loop : ℕ → InvState → List ℕ → Option (List ℕ)
mod_inv_loop zero s mod' = none
mod_inv_loop (suc fuel) s mod' =
    let cmp_result = cmp_unsafe s.a s.b in
    let rest = mod_inv_loop fuel (mod_inv_step cmp_result s mod') mod' in
    if is_same cmp_result then some s.u else rest

-- `uECC_vli_modInv`: each round takes a bit off `a` or `b`.
pub mod_inv : List ℕ → List ℕ → Option (List ℕ)
mod_inv input mod' =
    let num_words = length input in
    let one = set (clear num_words) 0 1 in
    if is_zero input
    then some (clear num_words)
    else mod_inv_loop (suc (2 * (64 * num_words)))
        (record { a = input; b = mod'; u = one; v = clear num_words }) mod'
