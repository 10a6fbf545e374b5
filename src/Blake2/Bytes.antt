-- ===== src/Blake2/Bytes.antt =====
-- `store32`, `store64`, `load32` and `load64` (blake2-impl.h lines 33-119) are inverse.
use ligo.Prelude.{ℕ, ◌+◌, ◌*◌, ◌/◌, ◌%◌, ◌^◌, ◌<◌, ◌≡◌, refl, arith, List, ◌++◌, bit_or}
use ligo.Prelude.Bits.{bit_or_low_high}
use ligo.Blake2.Impl.{load32, load64, store32, store64}

-- Bytes joined by `|` in turn, each above those before it.
join4 :
    (b0 b1 b2 b3 : ℕ)
    → b0 < 256
    → b1 < 256
    → b2 < 256
    → bit_or (bit_or (bit_or (b0 * 2 ^ 0) (b1 * 2 ^ 8)) (b2 * 2 ^ 16)) (b3 * 2 ^ 24)
      ≡ b0 + b1 * 2 ^ 8 + b2 * 2 ^ 16 + b3 * 2 ^ 24
join4 b0 b1 b2 b3 p0 p1 p2 =
    rw
      (
        bit_or_low_high 8 (b0 * 2 ^ 0) b1 (omega arith),
        bit_or_low_high 16 (b0 * 2 ^ 0 + b1 * 2 ^ 8) b2 (omega arith),
        bit_or_low_high 24 (b0 * 2 ^ 0 + b1 * 2 ^ 8 + b2 * 2 ^ 16) b3 (omega arith),
      )
      (omega arith)

join8 :
    (low b4 b5 b6 b7 : ℕ)
    → low < 2 ^ 32
    → b4 < 256
    → b5 < 256
    → b6 < 256
    → bit_or (bit_or (bit_or (bit_or low (b4 * 2 ^ 32)) (b5 * 2 ^ 40)) (b6 * 2 ^ 48)) (b7 * 2 ^ 56)
      ≡ low + b4 * 2 ^ 32 + b5 * 2 ^ 40 + b6 * 2 ^ 48 + b7 * 2 ^ 56
join8 low b4 b5 b6 b7 p p4 p5 p6 =
    rw
      (
        bit_or_low_high 32 low b4 (omega arith),
        bit_or_low_high 40 (low + b4 * 2 ^ 32) b5 (omega arith),
        bit_or_low_high 48 (low + b4 * 2 ^ 32 + b5 * 2 ^ 40) b6 (omega arith),
        bit_or_low_high 56 (low + b4 * 2 ^ 32 + b5 * 2 ^ 40 + b6 * 2 ^ 48) b7 (omega arith),
      )
      refl

-- Loading the four bytes stored for a 32-bit word gives the word back, whatever follows them.
pub load32-store32 : (w : ℕ) (rest : List ℕ) → w < 2 ^ 32 → load32 (store32 w ++ rest) 0 ≡ w
unfolding load32 store32
load32-store32 w rest h =
    rw
      (join4 (w % 256) (w / 2 ^ 8 % 256) (w / 2 ^ 16 % 256) (w / 2 ^ 24 % 256) (omega arith)
        (omega arith) (omega arith))
      (omega arith)

-- Loading the eight bytes stored for a 64-bit word gives the word back, whatever follows them.
pub load64-store64 : (w : ℕ) (rest : List ℕ) → w < 2 ^ 64 → load64 (store64 w ++ rest) 0 ≡ w
unfolding load64 store64
load64-store64 w rest h =
    let low : ℕ =
      w % 256 + w / 2 ^ 8 % 256 * 2 ^ 8 + w / 2 ^ 16 % 256 * 2 ^ 16 + w / 2 ^ 24 % 256 * 2 ^ 24 in
    rw
      (
        join4 (w % 256) (w / 2 ^ 8 % 256) (w / 2 ^ 16 % 256) (w / 2 ^ 24 % 256) (omega arith)
            (omega arith) (omega arith),
        join8 low (w / 2 ^ 32 % 256) (w / 2 ^ 40 % 256) (w / 2 ^ 48 % 256) (w / 2 ^ 56 % 256)
            (omega arith) (omega arith) (omega arith) (omega arith),
      )
      (omega arith)
