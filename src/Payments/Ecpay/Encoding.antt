-- ===== src/Payments/Ecpay/Encoding.antt =====
-- `ecpay_url_encode` of backend/apps/payments/ecpay.py, with `urllib.parse.quote_plus` and
-- `str.replace` of the standard library.
use ai_chat_websocket.Prelude.{
  ℕ, zero, suc, ◌+◌, ◌-◌, ◌/◌, ◌%◌, Text, codes, Bool, true, false, ◌&&◌, ◌||◌, List, [], ◌∷◌, ◌++◌,
  nat_beq, ltb, leb, length, if◌then◌else◌,
}
use ai_chat_websocket.Platform.TextCase.{TextCase}

-- the bytes of a code point in UTF-8
unfoldable pub utf8 : ℕ → List ℕ
utf8 c =
    if ltb c 0x80
    then c ∷ []
    else if ltb c 0x800
    then (0xc0 + c / 64) ∷ (0x80 + c % 64) ∷ []
    else if ltb c 0x10000
    then (0xe0 + c / 4096) ∷ (0x80 + c / 64 % 64) ∷ (0x80 + c % 64) ∷ []
    else (0xf0 + c / 262144) ∷ (0x80 + c / 4096 % 64) ∷ (0x80 + c / 64 % 64) ∷ (0x80 + c % 64) ∷ []

-- letters, digits and `_.-~` stand for themselves
unfoldable pub is_unreserved : ℕ → Bool
is_unreserved b =
    (leb b'a' b && leb b b'z')
    || (leb b'A' b && leb b b'Z')
    || (leb b'0' b && leb b b'9')
    || (nat_beq b b'_' || nat_beq b b'.' || nat_beq b b'-' || nat_beq b b'~')

unfoldable pub hex_digit : ℕ → ℕ
hex_digit d = if ltb d 10 then b'0' + d else b'A' + (d - 10)

unfoldable pub quote_byte : ℕ → Text
unfolding is_unreserved hex_digit
quote_byte b =
    if is_unreserved b
    then b ∷ []
    else if nat_beq b b' '
    then b'+' ∷ []
    else b'%' ∷ hex_digit (b / 16) ∷ hex_digit (b % 16) ∷ []

unfoldable pub quote_bytes : List ℕ → Text
unfolding quote_byte
quote_bytes [] = []
quote_bytes (b ∷ bs) = quote_byte b ++ quote_bytes bs

unfoldable pub quote_plus : Text → Text
unfolding quote_bytes utf8
quote_plus [] = []
quote_plus (c ∷ s) = quote_bytes (utf8 c) ++ quote_plus s

unfoldable pub has_prefix : Text → Text → Bool
has_prefix [] s = true
has_prefix (x ∷ xs) [] = false
has_prefix (x ∷ xs) (c ∷ s) = nat_beq x c && has_prefix xs s

-- `s.replace(old, new)` with `old` not empty; `skip` characters of a match are still to be dropped
unfoldable pub replace_from : ℕ → Text → Text → Text → Text
unfolding has_prefix
replace_from skip old new [] = []
replace_from (suc skip) old new (c ∷ s) = replace_from skip old new s
replace_from zero old new (c ∷ s) =
    let hit = has_prefix old (c ∷ s) in
    (if hit then new else c ∷ []) ++ replace_from (if hit then length old - 1 else 0) old new s

unfoldable pub replace : Text → Text → Text → Text
unfolding replace_from
replace old new s = replace_from 0 old new s

abbrev pub replacements : List (Text × Text)
replacements =
    (codes "%2d", codes "-")
    ∷ (codes "%5f", codes "_")
    ∷ (codes "%2e", codes ".")
    ∷ (codes "%21", codes "!")
    ∷ (codes "%2a", codes "*")
    ∷ (codes "%28", codes "(")
    ∷ (codes "%29", codes ")")
    ∷ []

unfoldable pub replace_all : List (Text × Text) → Text → Text
unfolding replace
replace_all [] encoded = encoded
replace_all ((old, new) ∷ rest) encoded = replace_all rest (replace old new encoded)

unfoldable pub ecpay_url_encode : TextCase → Text → Text
unfolding quote_plus replace replace_all
ecpay_url_encode text_case source =
    replace_all replacements
      (text_case.lower (replace (codes "~") (codes "%7E") (quote_plus source)))
