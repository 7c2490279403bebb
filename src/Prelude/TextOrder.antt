-- ===== src/Prelude/TextOrder.antt =====
-- The order on texts is total.
use mathlib.Core.Path.{◌≡◌, refl}
use mathlib.Core.Bool.{true, false}
use mathlib.Core.List.{[], ◌∷◌}
use native.Mathlib.Omega.{arith}
use ai_chat_websocket.Prelude.Codes.{Text, text_leb}

pub text_leb_total : (s t : Text) → text_leb s t ≡ false → text_leb t s ≡ true
text_leb_total [] t h = cc
text_leb_total (x ∷ xs) [] h = refl
text_leb_total (x ∷ xs) (y ∷ ys) h = ground (arith, text_leb_total xs ys)

pub text_leb_antisym : (s t : Text) → text_leb s t ≡ true → text_leb t s ≡ true → s ≡ t
text_leb_antisym [] [] h k = refl
text_leb_antisym [] (y ∷ ys) h k = cc
text_leb_antisym (x ∷ xs) [] h k = cc
text_leb_antisym (x ∷ xs) (y ∷ ys) h k = ground (arith, text_leb_antisym xs ys)

pub text_leb_trans :
    (s t u : Text) → text_leb s t ≡ true → text_leb t u ≡ true → text_leb s u ≡ true
text_leb_trans [] t u h k = refl
text_leb_trans (x ∷ xs) [] u h k = cc
text_leb_trans (x ∷ xs) (y ∷ ys) [] h k = cc
text_leb_trans (x ∷ xs) (y ∷ ys) (z ∷ zs) h k = ground (arith, text_leb_trans xs ys zs)
