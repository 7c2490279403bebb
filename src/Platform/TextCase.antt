-- ===== src/Platform/TextCase.antt =====
-- `str.upper` and `str.lower`, whose tables of Unicode the development does not repeat: what is used
-- of them is what they do on ASCII.
use ai_chat_websocket.Prelude.{Text, ◌≡◌, refl, true, map, is_ascii, ascii_upper, ascii_lower}

pub record TextCase : Type 0 where
  pub upper : Text → Text
  pub lower : Text → Text
  pub upper-is_ascii : (s : Text) → is_ascii s ≡ true → upper s ≡ map ascii_upper s
  pub lower-is_ascii : (s : Text) → is_ascii s ≡ true → lower s ≡ map ascii_lower s

abbrev pub ascii_case : TextCase
ascii_case = record {
  upper = map ascii_upper;
  lower = map ascii_lower;
  upper-is_ascii = λ s h. refl;
  lower-is_ascii = λ s h. refl;
}
