-- ===== src/Prelude/Codes.antt =====
-- Texts as lists of code points, for the code that walks through them.
use Prim.Native.Nat.{ℕ, ◌+◌, ◌-◌}
use Prim.Native.Char.{code}
use Prim.Native.String.{String}
use mathlib.Core.Path.{◌≡◌, refl}
use mathlib.Core.Logic.{◌↔◌}
use mathlib.Core.Bool.{Bool, true, false, ◌&&◌}
use mathlib.Core.List.{List, [], ◌∷◌}
use native.Mathlib.Omega.{arith}
use ai_chat_websocket.Prelude.Tests.{Eq, nat_beq, leb, ltb, if◌then◌else◌}

abbrev pub Text : Type 0
Text = List ℕ

abbrev pub codes : String → Text
codes String.[] = []
codes (String.◌∷◌ c s) = code c ∷ codes s

abbrev pub text_beq : Text → Text → Bool
text_beq [] [] = true
text_beq (x ∷ xs) (y ∷ ys) = nat_beq x y && text_beq xs ys
text_beq _ _ = false

text_beq→eq : (s t : Text) → text_beq s t ≡ true → s ≡ t
text_beq→eq [] [] h = refl
text_beq→eq [] (y ∷ ys) h = cc
text_beq→eq (x ∷ xs) [] h = cc
text_beq→eq (x ∷ xs) (y ∷ ys) h = ground (arith, text_beq→eq xs ys)

text_beq_refl : (s : Text) → text_beq s s ≡ true
text_beq_refl [] = refl
text_beq_refl (x ∷ xs) = ground (arith, text_beq_refl xs)

eq→text_beq : (s t : Text) → s ≡ t → text_beq s t ≡ true
eq→text_beq s t e = rw (← e) (text_beq_refl s)

pub text_beq_iff : (s t : Text) → (text_beq s t ≡ true) ↔ (s ≡ t)
text_beq_iff s t = (text_beq→eq s t, eq→text_beq s t)

instance abbrev pub text_eq : Eq Text
text_eq = record { equal = text_beq; equal_iff = text_beq_iff }

-- Texts are ordered as Python orders them, by the first code point that differs.
abbrev pub text_leb : Text → Text → Bool
text_leb [] t = true
text_leb (x ∷ xs) [] = false
text_leb (x ∷ xs) (y ∷ ys) = if nat_beq x y then text_leb xs ys else ltb x y

abbrev pub is_ascii : Text → Bool
is_ascii [] = true
is_ascii (c ∷ s) = ltb c 128 && is_ascii s

abbrev pub ascii_upper : ℕ → ℕ
ascii_upper c = if leb b'a' c && leb c b'z' then c - 32 else c

abbrev pub ascii_lower : ℕ → ℕ
ascii_lower c = if leb b'A' c && leb c b'Z' then c + 32 else c
