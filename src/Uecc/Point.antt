-- ===== src/Uecc/Point.antt =====
-- ocaml-uecc/src/uECC.c, lines 729-924: point operations with co-Z coordinates. Where C reads and
-- writes coordinates in place, the new ones are returned; `none` is the inversion's lack of fuel.
pub mod Chord
pub mod Addition
pub mod Scalar
pub mod Conjugate
pub mod Multiples
pub mod Rounds
pub mod Start
pub mod Result
pub mod Product
pub mod Public
mod Tests
use ligo.Prelude.{
  ℕ, zero, suc, ◌+◌, ◌-◌, ◌*◌, ◌<◌, Bool, true, false, not, ◌||◌, ◌&&◌, List, [], ◌∷◌, ◌++◌, Option,
  none, some,
}
use ligo.Prelude.{ltb, ◌==◌, if◌then◌else◌, take, drop, set}
use ligo.Uecc.Vli.{clear, is_zero, test_bit, add}
use ligo.Uecc.ModArith.{mod_add, mod_sub, mod_inv}
use ligo.Uecc.Curve.{CurveData, Curve, Jacobian, mod_mult_fast, mod_square_fast, bits_to_words}

-- The macro `EccPoint_isZero`, on the point's 2 n words.
unfoldable pub point_is_zero : List ℕ → Bool
point_is_zero point = is_zero point

pub record Coords : Type 0 where
  pub x : List ℕ
  pub y : List ℕ

-- Two points, (x1, y1) and (x2, y2).
pub record Points : Type 0 where
  pub x1 : List ℕ
  pub y1 : List ℕ
  pub x2 : List ℕ
  pub y2 : List ℕ

-- `apply_z`
pub apply_z : Coords → List ℕ → CurveData → Coords
apply_z s z c =
    let t1 = mod_square_fast z c in
    let x1 = mod_mult_fast s.x t1 c in
    let t1' = mod_mult_fast t1 z c in record { x = x1; y = mod_mult_fast s.y t1' c }

-- `XYcZ_initial_double`; a null `initial_Z` is `none`.
pub xycz_initial_double : Coords → Option (List ℕ) → Curve → Points
xycz_initial_double s initial_z c =
    let z : List ℕ = elim initial_z [ none ↦ set (clear c.num_words) 0 1 | some z ↦ z ] in
    let first = apply_z s z c.info in
    let doubled = c.double_jacobian c.info (record { x1 = first.x; y1 = first.y; z1 = z }) in
    let second = apply_z s doubled.z1 c.info in
    record { x1 = doubled.x1; y1 = doubled.y1; x2 = second.x; y2 = second.y }

-- `XYcZ_add`
pub xycz_add : Points → CurveData → Points
xycz_add s c =
    let t5 = mod_sub s.x2 s.x1 c.p in
    let a = mod_square_fast t5 c in
    let b = mod_mult_fast s.x1 a c in
    let x2_a = mod_mult_fast s.x2 a c in
    let dy = mod_sub s.y2 s.y1 c.p in
    let d = mod_square_fast dy c in
    let d_b = mod_sub d b c.p in
    let x3 = mod_sub d_b x2_a c.p in
    let c_b = mod_sub x2_a b c.p in
    let y1 = mod_mult_fast s.y1 c_b c in
    let b_x3 = mod_sub b x3 c.p in
    let product = mod_mult_fast dy b_x3 c in
    record { x1 = b; y1 = y1; x2 = x3; y2 = mod_sub product y1 c.p }

-- `XYcZ_addC`
pub xycz_add_c : Points → CurveData → Points
xycz_add_c s c =
    let t5 = mod_sub s.x2 s.x1 c.p in
    let a = mod_square_fast t5 c in
    let b = mod_mult_fast s.x1 a c in
    let x2_a = mod_mult_fast s.x2 a c in
    let sum_y = mod_add s.y2 s.y1 c.p in
    let dy = mod_sub s.y2 s.y1 c.p in
    let c_b = mod_sub x2_a b c.p in
    let e = mod_mult_fast s.y1 c_b c in
    let b_c = mod_add b x2_a c.p in
    let d = mod_square_fast dy c in
    let x3 = mod_sub d b_c c.p in
    let b_x3 = mod_sub b x3 c.p in
    let product = mod_mult_fast dy b_x3 c in
    let y3 = mod_sub product e c.p in
    let f = mod_square_fast sum_y c in
    let x3' = mod_sub f b_c c.p in
    let x3'_b = mod_sub x3' b c.p in
    let product' = mod_mult_fast x3'_b sum_y c in
    record { x1 = x3'; y1 = mod_sub product' e c.p; x2 = x3; y2 = y3 }

-- `Rx` and `Ry`.
pub record Ladder : Type 0 where
  pub r0 : Coords
  pub r1 : Coords

-- A call of one of the additions on R[first] and R[1 - first].
pub at_first : ℕ → (Points → CurveData → Points) → Ladder → CurveData → Ladder
at_first first op r c =
    let (s, t) = if first == 0 then (r.r0, r.r1) else (r.r1, r.r0) in
    let out = op (record { x1 = s.x; y1 = s.y; x2 = t.x; y2 = t.y }) c in
    let s' : Coords = record { x = out.x1; y = out.y1 } in
    let t' : Coords = record { x = out.x2; y = out.y2 } in
    if first == 0 then record { r0 = s'; r1 = t' } else record { r0 = t'; r1 = s' }

-- `nb = !uECC_vli_testBit(scalar, i)`
pub no_bit : List ℕ → ℕ → ℕ
no_bit scalar i = if test_bit scalar i == 0 then 1 else 0

-- `for (i = …; i > 0; --i)`
pub ladder_loop : ℕ → List ℕ → Ladder → CurveData → Ladder
ladder_loop zero scalar r c = r
ladder_loop (suc i) scalar r c =
    let nb = no_bit scalar (suc i) in
    ladder_loop i scalar (at_first nb xycz_add (at_first (1 - nb) xycz_add_c r c) c) c

-- R[i]
abbrev pub register : ℕ → Ladder → Coords
register i r = if i == 0 then r.r0 else r.r1

-- What `EccPoint_mult` does after the inversion.
pub ladder_finish : ℕ → Coords → Ladder → CurveData → List ℕ → List ℕ
ladder_finish nb point r c inverse =
    let z = mod_mult_fast inverse point.y c in
    let z' = mod_mult_fast z (register (1 - nb) r).x c in
    let last = at_first nb xycz_add r c in let result = apply_z last.r0 z' c in result.x ++ result.y

-- `EccPoint_mult`, on the coordinates of `point`.
pub point_mult : Coords → List ℕ → Option (List ℕ) → ℕ → Curve → Option (List ℕ)
point_mult point scalar initial_z num_bits c =
    let start = xycz_initial_double point initial_z c in
    let r : Ladder = record {
      r0 = record { x = start.x2; y = start.y2 };
      r1 = record { x = start.x1; y = start.y1 };
    } in
    let r' = ladder_loop (num_bits - 2) scalar r c.info in
    let nb = no_bit scalar 0 in
    let r'' = at_first (1 - nb) xycz_add_c r' c.info in
    let z = mod_sub r''.r1.x r''.r0.x c.p in
    let z' = mod_mult_fast z (register (1 - nb) r'').y c.info in
    let z'' = mod_mult_fast z' point.x c.info in
    elim (mod_inv z'' c.p) [
      | none ↦ none
      | some inverse ↦ some (ladder_finish nb point r'' c.info inverse)
    ]

-- `regularize_k`: the carry, k0 and k1.
pub record Regular : Type 0 where
  pub carry : Bool
  pub k0 : List ℕ
  pub k1 : List ℕ

pub regularize_k : List ℕ → CurveData → Regular
regularize_k k c =
    let num_n_words = bits_to_words c.num_n_bits in
    let (k0, first) = add k c.n in
    let (k1, second) = add k0 c.n in
    record {
      carry =
          not (first == 0)
          || (ltb c.num_n_bits (num_n_words * 64) && not (test_bit k0 c.num_n_bits == 0));
      k0 = k0;
      k1 = k1;
    }

-- `p2[!carry]`
abbrev pub regular_scalar : Regular → List ℕ
regular_scalar r = if r.carry then r.k0 else r.k1

-- The words of a point of 2 n words.
abbrev pub coords_of : ℕ → List ℕ → Coords
coords_of num_words point = record { x = take num_words point; y = drop num_words point }

-- `EccPoint_compute_public_key`: its result and whether that is a point.
pub compute_public_point : List ℕ → Curve → Option (Bool × List ℕ)
compute_public_point private_key c =
    let scalar = regular_scalar (regularize_k private_key c.info) in
    elim (point_mult (coords_of c.num_words c.g) scalar none (c.num_n_bits + 1) c) [
      | none ↦ none
      | some result ↦ some (not (point_is_zero result), result)
    ]
