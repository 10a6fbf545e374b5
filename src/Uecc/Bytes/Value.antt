-- ===== src/Uecc/Bytes/Value.antt =====
-- `uECC_vli_nativeToBytes` and `uECC_vli_bytesToNative` (uECC.c lines 945-965) write and read numbers.
use ligo.Prelude.{
  ℕ, zero, suc, ◌+◌, ◌-◌, ◌*◌, ◌/◌, ◌%◌, ◌^◌, ◌<◌, ◌≤◌, ◌≡◌, refl, sym, ap, ◌∙◌, arith, bit_or,
  List, [], ◌∷◌, ◌++◌, length, get_or, set, drop, take, replicate, take_all, length-take,
  length-set,
}
use ligo.Prelude.Pow.{pow_add, pow_mul, pow-pos}
use ligo.Prelude.Bits.{bit_or_high_low}
use native.Mathlib.Nat.{
  pow-zero, pow-suc, pow-succ', div-div-eq-div-mul, div-add-mod, div-add-mod', mul-div_cancel,
  mod-lt, mod-eq_of_lt, mul-le-mul_right, lt_of_mul-lt-mul_right, add-mul-mod_self_left,
  add-mul-mod_self_right, add-mul-div_left,
}
use ligo.Uecc.Word.{word_mod, IsWords, val}
use ligo.Uecc.Vli.{clear}
use ligo.Uecc.Vli.Value.{val_ext}
use ligo.Uecc.Vli.Bit.{word-val}
use ligo.Uecc.ModArith.Inverse.Loop.{clear_lem}
use ligo.Uecc.Keys.Random.{AreBytes, get_or-lt, set-IsWords}
use ligo.Uecc.Bytes.{native_to_bytes, put_byte, bytes_loop, bytes_to_native}

-- The number that bytes are, the highest byte first.
abbrev pub bytes_val : List ℕ → ℕ
bytes_val [] = 0
bytes_val (x ∷ bytes) = x * (2 ^ 8) ^ length bytes + bytes_val bytes

-- The byte `k` of a word is one of the number.
byte-word : (u k : ℕ) → k < 8 → u % word_mod / 2 ^ (8 * k) % 2 ^ 8 ≡ u / 2 ^ (8 * k) % 2 ^ 8
byte-word u k h =
    let split : 2 ^ 64 ≡ 2 ^ (8 * k) * (2 ^ 8 * 2 ^ (8 * (7 - k))) =
      ap (λ (t : ℕ). 2 ^ t) exponent
      ∙ pow_add 2 (8 * k) (8 + 8 * (7 - k))
      ∙ ap (λ (t : ℕ). 2 ^ (8 * k) * t) (pow_add 2 8 (8 * (7 - k))) in
    let parts : u ≡ u % word_mod + 2 ^ (8 * k) * (2 ^ 8 * 2 ^ (8 * (7 - k)) * (u / word_mod)) =
      omega (arith, ap (λ (t : ℕ). t * (u / word_mod)) split) in
    let quotient : u / 2 ^ (8 * k)
        ≡ u % word_mod / 2 ^ (8 * k) + 2 ^ 8 * 2 ^ (8 * (7 - k)) * (u / word_mod) =
      ap (λ (t : ℕ). t / 2 ^ (8 * k)) parts
      ∙ add-mul-div_left (u % word_mod) (2 ^ 8 * 2 ^ (8 * (7 - k)) * (u / word_mod))
          (pow-pos 2 (8 * k) (omega arith)) in
    omega (arith, quotient)
  where
    exponent : 64 ≡ 8 * k + (8 + 8 * (7 - k))
    exponent = omega arith

-- The place of the byte `b`.
place_lem : (b : ℕ) → (2 ^ 8) ^ b ≡ word_mod ^ (b / 8) * 2 ^ (8 * (b % 8))
place_lem b =
    sym (pow_mul 2 8 b)
    ∙ ap (λ (t : ℕ). 2 ^ t) exponent
    ∙ pow_add 2 (64 * (b / 8)) (8 * (b % 8))
    ∙ ap (λ (t : ℕ). t * 2 ^ (8 * (b % 8))) (pow_mul 2 64 (b / 8))
  where
    exponent : 8 * b ≡ 64 * (b / 8) + 8 * (b % 8)
    exponent = omega arith

byte_lem :
    (vli : List ℕ) (b : ℕ)
    → IsWords vli
    → get_or vli (b / 8) 0 / 2 ^ (8 * (b % 8)) % 2 ^ 8 ≡ val vli / (2 ^ 8) ^ b % 2 ^ 8
byte_lem vli b w =
    ap (λ (t : ℕ). t / 2 ^ (8 * (b % 8)) % 2 ^ 8) (word-val vli (b / 8) w)
    ∙ byte-word (val vli / word_mod ^ (b / 8)) (b % 8) (omega arith)
    ∙ ap (λ (t : ℕ). t % 2 ^ 8)
        (div-div-eq-div-mul (val vli) (word_mod ^ (b / 8)) (2 ^ (8 * (b % 8)))
          ∙ ap (λ (t : ℕ). val vli / t) (sym (place_lem b)))

-- One more digit of a remainder.
mod_next : (v m : ℕ) → 0 < m → v % (m * 2 ^ 8) ≡ v / m % 2 ^ 8 * m + v % m
mod_next v m p =
    let low = mod-lt v p in
    let high = mul-le-mul_right m (digit-le (v / m)) in
    let split : v ≡ v / m % 2 ^ 8 * m + v % m + m * 2 ^ 8 * (v / m / 2 ^ 8) =
      omega (arith, div-add-mod v m, ap (λ (t : ℕ). m * t) (digits (v / m))) in
    ap (λ (t : ℕ). t % (m * 2 ^ 8)) split
    ∙ add-mul-mod_self_left (v / m % 2 ^ 8 * m + v % m) (m * 2 ^ 8) (v / m / 2 ^ 8)
    ∙ mod-eq_of_lt (omega (arith, low, high))
  where
    digit-le : (u : ℕ) → u % 2 ^ 8 ≤ 255
    digit-le u = omega arith

    digits : (u : ℕ) → u ≡ u % 2 ^ 8 + 2 ^ 8 * (u / 2 ^ 8)
    digits u = omega arith

pub native_to_bytes-val :
    (n : ℕ) (vli : List ℕ)
    → IsWords vli
    → (length (native_to_bytes n vli) ≡ n)
      × (bytes_val (native_to_bytes n vli) ≡ val vli % (2 ^ 8) ^ n)
unfolding native_to_bytes
native_to_bytes-val zero vli w = (refl, rw (pow-zero (2 ^ 8)) (omega arith))
native_to_bytes-val (suc n) vli w =
    let (size, value) = native_to_bytes-val n vli w in
    (
      omega (arith, size),
      rw (size, value, pow-suc (2 ^ 8) n, byte_lem vli n w)
          (sym (mod_next (val vli) ((2 ^ 8) ^ n) (pow-pos (2 ^ 8) n (omega arith)))),
    )

-- A word gets a larger summand.
set_add-val :
    (xs : List ℕ) (d z : ℕ)
    → d < length xs
    → val (set xs d (get_or xs d 0 + z)) ≡ val xs + z * word_mod ^ d
set_add-val [] d z h = absurd (omega arith)
set_add-val (x ∷ xs) zero z h = rw (pow-zero word_mod) (omega arith)
set_add-val (x ∷ xs) (suc d) z h =
    rw (pow-succ' word_mod d) (omega (arith, set_add-val xs d z (omega arith)))

-- What is left of a multiple below the next power is one, too.
multiple_mod : (q m m' w t : ℕ) → 0 < m → w + m * m' * t ≡ q * m → w ≡ w / m * m
multiple_mod q m m' w t p e =
    let zero_mod : w % m ≡ 0 =
      sym (add-mul-mod_self_right w (m' * t) m)
      ∙ ap (λ (x : ℕ). x % m) (omega (arith, e))
      ∙ add-mul-mod_self_right 0 q m
      ∙ omega arith in
    omega (arith, div-add-mod' w m, zero_mod)

-- The byte `x` at the place `k` of a word whose bytes up to there are 0.
or_byte :
    (k x w : ℕ)
    → k < 8
    → x < 2 ^ 8
    → w < word_mod
    → w ≡ w / 2 ^ (8 * k + 8) * 2 ^ (8 * k + 8)
    → (bit_or w (x * 2 ^ (8 * k) % word_mod) ≡ w + x * 2 ^ (8 * k))
      × (w + x * 2 ^ (8 * k) < word_mod)
or_byte k x w h xb ww e =
    let m = 2 ^ (8 * k + 8) in
    let m_eq : m ≡ 2 ^ (8 * k) * 2 ^ 8 = pow_add 2 (8 * k) 8 in
    let split : 2 ^ 64 ≡ m * 2 ^ (8 * (7 - k)) =
      ap (λ (t : ℕ). 2 ^ t) (exponent k h) ∙ pow_add 2 (8 * k + 8) (8 * (7 - k)) in
    let low : x * 2 ^ (8 * k) < m = omega (
      arith,
      m_eq,
      mul-le-mul_right (2 ^ (8 * k)) (byte-le x xb),
      pow-pos 2 (8 * k) (omega arith),
    ) in
    let below : w / m < 2 ^ (8 * (7 - k)) =
      lt_of_mul-lt-mul_right m (omega (arith, split, ww, e)) in
    let room : suc (w / m) * m ≤ 2 ^ 64 = omega (arith, split, mul-le-mul_right m below) in
    let whole : w + x * 2 ^ (8 * k) < word_mod = omega (arith, room, low, e) in
    let word : x * 2 ^ (8 * k) % word_mod ≡ x * 2 ^ (8 * k) = mod-eq_of_lt (omega (arith, whole)) in
    (
      ap (λ (t : ℕ). bit_or w t) word
          ∙ ap (λ (t : ℕ). bit_or t (x * 2 ^ (8 * k))) e
          ∙ bit_or_high_low (8 * k + 8) (x * 2 ^ (8 * k)) (w / m) low
          ∙ ap (λ (t : ℕ). t + x * 2 ^ (8 * k)) (sym e),
      whole,
    )
  where
    exponent : (k : ℕ) → k < 8 → 64 ≡ 8 * k + 8 + 8 * (7 - k)
    exponent k h = omega arith

    byte-le : (x : ℕ) → x < 2 ^ 8 → suc x ≤ 2 ^ 8
    byte-le x h = h

-- A read of bytes: the length is kept, and the bytes are added to the number.
record IsRead (native : List ℕ) (v : ℕ) (out : List ℕ) : Type 0 where
  pub same_length : length out ≡ length native
  pub words : IsWords out
  pub value : val out ≡ val native + v

-- The word of the byte `b`, where that byte and those below it are 0.
clear_below :
    (native : List ℕ) (b q : ℕ)
    → IsWords native
    → val native ≡ q * (2 ^ 8) ^ suc b
    → get_or native (b / 8) 0
      ≡ get_or native (b / 8) 0 / 2 ^ (8 * (b % 8) + 8) * 2 ^ (8 * (b % 8) + 8)
clear_below native b q w e =
    let d = b / 8 in
    let k = b % 8 in
    let m = 2 ^ (8 * k + 8) in
    let u = val native / word_mod ^ d in
    let whole : val native ≡ q * m * word_mod ^ d = omega (
      arith,
      e,
      ap (λ (t : ℕ). q * t) (pow-suc (2 ^ 8) b),
      ap (λ (t : ℕ). q * t) (place_lem b),
      ap (λ (t : ℕ). q * word_mod ^ d * t) (pow_add 2 (8 * k) 8),
    ) in
    let shifted : u ≡ q * m =
      ap (λ (t : ℕ). t / word_mod ^ d) whole
      ∙ mul-div_cancel (q * m) (pow-pos word_mod d (omega arith)) in
    let split : 2 ^ 64 ≡ m * 2 ^ (8 * (7 - k)) =
      ap (λ (t : ℕ). 2 ^ t) exponent ∙ pow_add 2 (8 * k + 8) (8 * (7 - k)) in
    rw (word-val native d w) (
      multiple_mod q m (2 ^ (8 * (7 - k))) (u % word_mod) (u / word_mod)
        (pow-pos 2 (8 * k + 8) (omega arith))
        (omega (arith, shifted, ap (λ (t : ℕ). t * (u / word_mod)) split)))
  where
    exponent : 64 ≡ 8 * (b % 8) + 8 + 8 * (7 - b % 8)
    exponent = omega arith

put_byte-IsRead :
    (native : List ℕ) (b x q : ℕ)
    → IsWords native
    → b / 8 < length native
    → x < 2 ^ 8
    → val native ≡ q * (2 ^ 8) ^ suc b
    → IsRead native (x * (2 ^ 8) ^ b) (put_byte native b x)
unfolding put_byte
put_byte-IsRead native b x q w h xb e =
    let d = b / 8 in
    let k = b % 8 in
    let word = get_or native d 0 in
    let m = 2 ^ (8 * k + 8) in
    let r = or_byte k x word (omega arith) xb (get_or-lt native d w) (clear_below native b q w e) in
    record {
      same_length = length-set native d _;
      words = set-IsWords native d _ (rw r.0 r.1) w;
      value = rw r.0 (
          set_add-val native d (x * 2 ^ (8 * k)) h
          ∙ ap (λ (t : ℕ). val native + t) (omega (arith, ap (λ (t : ℕ). x * t) (place_lem b))));
    }

loop-IsRead :
    (n q : ℕ) (bytes native : List ℕ)
    → n ≤ length bytes
    → AreBytes bytes
    → IsWords native
    → (n + 7) / 8 ≤ length native
    → val native ≡ q * (2 ^ 8) ^ n
    → IsRead native (bytes_val (take n bytes)) (bytes_loop n bytes native)
unfolding bytes_loop
loop-IsRead zero q bytes native h bs w fits e = record {
  same_length = refl;
  words = w;
  value = omega arith;
}
loop-IsRead (suc n) q [] native h bs w fits e = absurd (omega arith)
loop-IsRead (suc n) q (x ∷ bytes) native h bs w fits e =
    let p = put_byte-IsRead native n x q w (omega arith) bs.0 e in
    let rest =
      loop-IsRead n (q * 2 ^ 8 + x) bytes (put_byte native n x) (omega arith) bs.1 p.words
        (omega (arith, p.same_length))
        (omega (arith, p.value, ap (λ (t : ℕ). q * t) (pow-suc (2 ^ 8) n))) in
    let taken : length (take n bytes) ≡ n = length-take n bytes ∙ omega arith in
    record {
      same_length = rest.same_length ∙ p.same_length;
      words = rest.words;
      value = rw taken (omega (arith, rest.value, p.value));
    }

-- Reading into a cleared buffer gives the number of the first bytes.
pub bytes_to_native-val :
    (m n : ℕ) (bytes : List ℕ)
    → n ≤ length bytes
    → AreBytes bytes
    → (n + 7) / 8 ≤ m
    → (length (bytes_to_native (clear m) bytes n) ≡ m)
      × IsWords (bytes_to_native (clear m) bytes n)
      × (val (bytes_to_native (clear m) bytes n) ≡ bytes_val (take n bytes))
unfolding bytes_to_native clear
bytes_to_native-val m n bytes h bs fits =
    let zeros = clear_lem m in
    let r =
      loop-IsRead n 0 bytes (clear m) h bs zeros.1 (rw zeros.0 fits) (omega (arith, zeros.2)) in
    rw (clear_lem' ((n + 7) / 8) m fits)
      (r.same_length ∙ zeros.0, r.words, r.value ∙ omega (arith, zeros.2))
  where
    clear_lem' :
        (i m : ℕ) → i ≤ m → ◌++◌ {A = ℕ} (replicate i 0) (drop i (replicate m 0)) ≡ replicate m 0
    clear_lem' zero m h = refl
    clear_lem' (suc i) zero h = absurd (omega arith)
    clear_lem' (suc i) (suc m) h = ap (λ (t : List ℕ). 0 ∷ t) (clear_lem' i m (omega arith))

native_to_bytes-AreBytes : (n : ℕ) (vli : List ℕ) → AreBytes (native_to_bytes n vli)
unfolding native_to_bytes
native_to_bytes-AreBytes zero vli = tt
native_to_bytes-AreBytes (suc n) vli = (mod-lt _ (omega arith), native_to_bytes-AreBytes n vli)

-- For a VLI of `m` words whose number fits `n` bytes, at most 127, where `n` bytes need at most `m`
-- words, reading the bytes that `uECC_vli_nativeToBytes` writes gives the VLI back.
pub bytes_to_native-native_to_bytes :
    (m n : ℕ) (vli : List ℕ)
    → length vli ≡ m
    → IsWords vli
    → n ≤ 127
    → (n + 7) / 8 ≤ m
    → val vli < (2 ^ 8) ^ n
    → bytes_to_native (clear m) (native_to_bytes n vli) n ≡ vli
bytes_to_native-native_to_bytes m n vli e w counted fits h =
    let (size, value) = native_to_bytes-val n vli w in
    let bytes = native_to_bytes n vli in
    let (out_size, out_words, out_value) =
      bytes_to_native-val m n bytes (omega (arith, size)) (native_to_bytes-AreBytes n vli) fits in
    val_ext _ vli (out_size ∙ sym e) out_words w
      (out_value ∙ ap bytes_val (take_all n bytes (omega (arith, size))) ∙ value ∙ mod-eq_of_lt h)
