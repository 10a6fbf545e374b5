-- ===== src/Uecc/Bytes.antt =====
-- ocaml-uecc/src/uECC.c, lines 945-965: the bytes of a number, highest first, as they stand in keys
-- and signatures.
pub mod Value
use ligo.Prelude.{ℕ, zero, suc, ◌+◌, ◌*◌, ◌/◌, ◌%◌, ◌^◌, bit_or, List, [], ◌∷◌, ◌++◌}
use ligo.Prelude.{get_or, set, drop}
use ligo.Uecc.Word.{word_mod}
use ligo.Uecc.Vli.{clear}

-- `uECC_vli_nativeToBytes`, with `b + 1` for `num_bytes - i`, for at most 127 bytes: the counter `i`
-- has 8 bits, and C would not leave the loop with more.
pub native_to_bytes : ℕ → List ℕ → List ℕ
native_to_bytes zero native = []
native_to_bytes (suc b) native =
    get_or native (b / 8) 0 / 2 ^ (8 * (b % 8)) % 2 ^ 8 ∷ native_to_bytes b native

-- `native[b / 8] |= (uECC_word_t)bytes[i] << (8 * (b % 8))`
unfoldable pub put_byte : List ℕ → ℕ → ℕ → List ℕ
put_byte native b x =
    set native (b / 8) (bit_or (get_or native (b / 8) 0) (x * 2 ^ (8 * (b % 8)) % word_mod))

-- The loop, with `b + 1` for `num_bytes - i`, for at most 127 bytes, too.
unfoldable pub bytes_loop : ℕ → List ℕ → List ℕ → List ℕ
bytes_loop zero bytes native = native
bytes_loop (suc b) [] native = native
bytes_loop (suc b) (x ∷ bytes) native = bytes_loop b bytes (put_byte native b x)

-- `uECC_vli_bytesToNative`: the words of `native` above the number's are left as they are.
unfoldable pub bytes_to_native : List ℕ → List ℕ → ℕ → List ℕ
bytes_to_native native bytes num_bytes =
    let words = (num_bytes + 7) / 8 in bytes_loop num_bytes bytes (clear words ++ drop words native)
