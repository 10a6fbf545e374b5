-- ===== src/Uecc/Vli/Value.antt =====
-- VLIs of one length are the same words where they are the same number.
use ligo.Prelude.{ℕ, zero, suc, ◌≡◌, refl, ap₂, arith, List, [], ◌∷◌, length, drop}
use ligo.Uecc.Word.{IsWords, val}

pub val_ext :
    (xs ys : List ℕ) → length xs ≡ length ys → IsWords xs → IsWords ys → val xs ≡ val ys → xs ≡ ys
val_ext [] [] e p q h = refl
val_ext [] (y ∷ ys) e p q h = absurd (omega arith)
val_ext (x ∷ xs) [] e p q h = absurd (omega arith)
val_ext (x ∷ xs) (y ∷ ys) e p q h =
    let low : x ≡ y = omega (arith, p.0, q.0) in
    ap₂ ◌∷◌ low (val_ext xs ys (omega arith) p.1 q.1 (omega arith))

pub IsWords-drop : (n : ℕ) (xs : List ℕ) → IsWords xs → IsWords (drop n xs)
IsWords-drop zero xs p = p
IsWords-drop (suc n) [] p = p
IsWords-drop (suc n) (x ∷ xs) p = IsWords-drop n xs p.1
