-- ===== src/Uecc/Ecdsa/Rejects.antt =====
-- `uECC_verify` (uECC.c lines 1445-1555) rejects signatures out of range.
use ligo.Prelude.{
  ℕ, ◌+◌, ◌/◌, ◌≤◌, ◌≡◌, ◌⊎◌, refl, sym, ◌∙◌, arith, List, length, Bool, true, false, Bool-cases,
  inl, inr, not, ◌||◌, if◌then◌else◌, take, drop, length-drop, take_all, some,
}
use ligo.Uecc.Word.{IsWords, val}
use ligo.Uecc.Vli.{clear, is_zero, cmp_unsafe}
use ligo.Uecc.Vli.Compare.{is_zero_iff, cmp_unsafe-IsOrder}
use ligo.Uecc.ModArith.{is_one}
use ligo.Uecc.ModArith.Residue.{is_one-lt}
use ligo.Uecc.Curve.{CurveData, Curve, bits_to_words}
use ligo.Uecc.Bytes.{bytes_to_native}
use ligo.Uecc.Bytes.Value.{bytes_val, bytes_to_native-val}
use ligo.Uecc.Keys.Random.{AreBytes, AreBytes-drop}
use ligo.Uecc.Ecdsa.{verify}

-- What the code relies on of a curve's order: its words, as many as its bits need, and no fewer
-- than those of the prime, which hold the bytes of a coordinate.
pub record IsOrdered (c : CurveData) : Type 0 where
  pub n_size : length c.n ≡ bits_to_words c.num_n_bits
  pub n_words : IsWords c.n
  pub same_words : c.num_words ≡ bits_to_words c.num_n_bits
  pub enough : (c.num_bytes + 7) / 8 ≤ c.num_words

-- A half of a signature is out of range where it is 0 or not below the order.
abbrev pub OutOfRange : ℕ → ℕ → Type 0
OutOfRange v n = (v ≡ 0) ⊎ (n ≤ v)

guarded :
    {A : Type 0} (zr zs lr ls : Bool) (t : A) (rest : A)
    → (zr ≡ true) ⊎ (zs ≡ true) ⊎ (lr ≡ false) ⊎ (ls ≡ false)
    → (if zr || zs then t else if not lr || not ls then t else rest) ≡ t
guarded true zs lr ls t rest h = refl
guarded false true lr ls t rest h = refl
guarded false false false ls t rest h = refl
guarded false false true false t rest h = refl
guarded false false true true t rest (inl h) = absurd (cc h)
guarded false false true true t rest (inr (inl h)) = absurd (cc h)
guarded false false true true t rest (inr (inr (inl h))) = absurd (cc h)
guarded false false true true t rest (inr (inr (inr h))) = absurd (cc h)

-- A VLI out of range fails one of the tests.
range_lem :
    (n x : List ℕ)
    → length n ≡ length x
    → IsWords n
    → IsWords x
    → OutOfRange (val x) (val n)
    → (is_zero x ≡ true) ⊎ (is_one (cmp_unsafe n x) ≡ false)
range_lem n x e nw xw (inl z) = inl ((is_zero_iff x).1 z)
range_lem n x e nw xw (inr le) = elim (Bool-cases (is_one (cmp_unsafe n x))) [
  | inl less ↦
      absurd
        (omega (arith, le, is_one-lt (cmp_unsafe n x) _ _ (cmp_unsafe-IsOrder n x e nw xw) less))
  | inr fails ↦ inr fails
]

-- For a curve whose order takes as many words as its prime, `uECC_verify` rejects every signature
-- of which one of the two numbers is 0 or not below the order, whatever the key and the hash are.
pub verify-rejects :
    (c : Curve) (public_key message_hash signature : List ℕ) (hash_size : ℕ)
    → IsOrdered c.info
    → c.num_bytes + c.num_bytes ≤ length signature
    → AreBytes signature
    → OutOfRange (bytes_val (take c.num_bytes signature)) (val c.n)
      ⊎ OutOfRange (bytes_val (take c.num_bytes (drop c.num_bytes signature))) (val c.n)
    → verify public_key message_hash hash_size signature c ≡ some false
unfolding verify
verify-rejects c public_key message_hash signature hash_size o h bs out =
    let w = bits_to_words c.num_n_bits in
    let r = bytes_to_native (clear w) signature c.num_bytes in
    let s = bytes_to_native (clear w) (drop c.num_bytes signature) c.num_bytes in
    let (r_size, r_words, r_val) =
      bytes_to_native-val w c.num_bytes signature (omega (arith, h)) bs
        (omega (arith, o.enough, o.same_words)) in
    let (s_size, s_words, s_val) =
      bytes_to_native-val w c.num_bytes (drop c.num_bytes signature)
        (omega (arith, h, length-drop c.num_bytes signature))
        (AreBytes-drop c.num_bytes signature bs) (omega (arith, o.enough, o.same_words)) in
    let whole_r : take c.num_words r ≡ r =
      take_all c.num_words r (omega (arith, r_size, o.same_words)) in
    let whole_s : take c.num_words s ≡ s =
      take_all c.num_words s (omega (arith, s_size, o.same_words)) in
    rw (whole_r, whole_s)
      (guarded (is_zero r) (is_zero s) (is_one (cmp_unsafe c.n r)) (is_one (cmp_unsafe c.n s)) _ _
        (elim out [
          | inl out_r ↦
              elim (range_lem c.n r (o.n_size ∙ sym r_size) o.n_words r_words (rw r_val out_r)) [
                | inl z ↦ inl z
                | inr f ↦ inr (inr (inl f))
              ]
          | inr out_s ↦
              elim (range_lem c.n s (o.n_size ∙ sym s_size) o.n_words s_words (rw s_val out_s)) [
                | inl z ↦ inr (inl z)
                | inr f ↦ inr (inr (inr f))
              ]
        ]))
