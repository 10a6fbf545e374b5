-- ===== src/Blake2/Impl.antt =====
-- ocaml-blake2/src/blake2-impl.h: words of 64 bits, and their bytes, lowest first (the portable
-- branch, without NATIVE_LITTLE_ENDIAN). A pointer into an array is the array and an offset.
use ligo.Prelude.{ℕ, ◌+◌, ◌-◌, ◌*◌, ◌/◌, ◌%◌, ◌^◌, bit_or, List, [], ◌∷◌, ◌++◌}
use ligo.Prelude.{get_or, take, drop, length}

abbrev pub u8 : ℕ → ℕ
u8 n = n % 256

abbrev pub u32 : ℕ → ℕ
u32 n = n % 0x1_0000_0000

abbrev pub u64 : ℕ → ℕ
u64 n = n % 0x1_0000_0000_0000_0000

-- `load32`
unfoldable pub load32 : List ℕ → ℕ → ℕ
load32 src at =
    let p = λ (i : ℕ). get_or src (at + i) 0 in
    bit_or (bit_or (bit_or (p 0 * 2 ^ 0) (p 1 * 2 ^ 8)) (p 2 * 2 ^ 16)) (p 3 * 2 ^ 24)

-- `load64`
unfoldable pub load64 : List ℕ → ℕ → ℕ
load64 src at =
    let p = λ (i : ℕ). get_or src (at + i) 0 in
    let w1 = bit_or (p 0 * 2 ^ 0) (p 1 * 2 ^ 8) in
    let w2 = bit_or w1 (p 2 * 2 ^ 16) in
    let w3 = bit_or w2 (p 3 * 2 ^ 24) in
    let w4 = bit_or w3 (p 4 * 2 ^ 32) in
    let w5 = bit_or w4 (p 5 * 2 ^ 40) in
    let w6 = bit_or w5 (p 6 * 2 ^ 48) in bit_or w6 (p 7 * 2 ^ 56)

-- `store32`: the bytes written.
unfoldable pub store32 : ℕ → List ℕ
store32 w = u8 w ∷ u8 (w / 2 ^ 8) ∷ u8 (w / 2 ^ 16) ∷ u8 (w / 2 ^ 24) ∷ []

-- `store64`: the bytes written.
unfoldable pub store64 : ℕ → List ℕ
store64 w =
    u8 w
    ∷ u8 (w / 2 ^ 8)
    ∷ u8 (w / 2 ^ 16)
    ∷ u8 (w / 2 ^ 24)
    ∷ u8 (w / 2 ^ 32)
    ∷ u8 (w / 2 ^ 40)
    ∷ u8 (w / 2 ^ 48)
    ∷ u8 (w / 2 ^ 56)
    ∷ []

-- `rotr64`
unfoldable pub rotr64 : ℕ → ℕ → ℕ
rotr64 w c = bit_or (w / 2 ^ c) (u64 (w * 2 ^ (64 - c)))

-- `memcpy(dst + at, src, length src)`, inside the array.
abbrev pub memcpy : List ℕ → ℕ → List ℕ → List ℕ
memcpy dst at src = take at dst ++ (src ++ drop (at + length src) dst)
