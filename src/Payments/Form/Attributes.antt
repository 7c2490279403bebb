-- ===== src/Payments/Form/Attributes.antt =====
-- How a browser reads an attribute, and that it reads back an escaped text.
use mathlib.Core.List.{append_assoc}
use ai_chat_websocket.Prelude.{
  ℕ, ◌≡◌, refl, ap, sym, subst, ◌∙◌, Text, codes, true, false, Option, none, some, [], ◌∷◌, ◌++◌,
  ◌==◌, nat_eq, nat_beq, nat_beq_iff, text_eq, if◌then◌else◌, Bool-cases, inl, inr,
}
use ai_chat_websocket.Payments.Form.{escape_char, escape}

-- The character references of HTML that occur.
abbrev pub reference : Text → Option ℕ
reference name =
    if name == codes "amp"
    then some b'&'
    else (if name == codes "lt"
        then some b'<'
        else (if name == codes "gt"
            then some b'>'
            else (if name == codes "quot"
                then some b'"'
                else (if name == codes "#x27" then some b'\'' else none))))

abbrev pub prepend : Option ℕ → Option (Text × Text) → Option (Text × Text)
prepend (some c) (some (s, rest)) = some (c ∷ s, rest)
prepend (some c) none = none
prepend none o = none

-- How HTML reads an attribute in double quotes: its value, and what follows the closing quote. `name` is
-- the character reference that is being read; `none` where the quote or a reference is not closed.
unfoldable pub read_attribute : Option Text → Text → Option (Text × Text)
read_attribute name [] = none
read_attribute none (c ∷ s) =
    let value = prepend (some c) (read_attribute none s) in
    let after = read_attribute (some []) s in
    if c == b'"' then some ([], s) else (if c == b'&' then after else value)
read_attribute (some name) (c ∷ s) =
    let value = prepend (reference name) (read_attribute none s) in
    let longer = read_attribute (some (name ++ c ∷ [])) s in if c == b';' then value else longer

read_plain :
    (c : ℕ) (s : Text)
    → nat_beq c b'"' ≡ false
    → nat_beq c b'&' ≡ false
    → read_attribute none (c ∷ s) ≡ prepend (some c) (read_attribute none s)
unfolding read_attribute
read_plain c s not_quot not_amp = rw (not_quot, not_amp)

escape_char_plain :
    (c : ℕ)
    → nat_beq c b'&' ≡ false
    → nat_beq c b'<' ≡ false
    → nat_beq c b'>' ≡ false
    → nat_beq c b'"' ≡ false
    → nat_beq c b'\'' ≡ false
    → escape_char c ≡ c ∷ []
unfolding escape_char
escape_char_plain c not_amp not_lt not_gt not_quot not_apos =
    rw (not_amp, not_lt, not_gt, not_quot, not_apos)

-- One escaped character is read back, also where it would end the attribute or begin a reference.
read-escape_char :
    (c : ℕ) (s : Text)
    → read_attribute none (escape_char c ++ s) ≡ prepend (some c) (read_attribute none s)
unfolding read_attribute escape_char
read-escape_char c s =
    let P : ℕ → Type 0 =
      λ d. read_attribute none (escape_char d ++ s) ≡ prepend (some d) (read_attribute none s) in
    let case =
      λ (d : ℕ) (e : nat_beq c d ≡ true) (p : P d). subst P (sym ((nat_beq_iff c d).0 e)) p in
    elim (Bool-cases (nat_beq c b'&')) [
      | inl e ↦ case b'&' e refl
      | inr not_amp ↦ elim (Bool-cases (nat_beq c b'<')) [
        | inl e ↦ case b'<' e refl
        | inr not_lt ↦ elim (Bool-cases (nat_beq c b'>')) [
          | inl e ↦ case b'>' e refl
          | inr not_gt ↦ elim (Bool-cases (nat_beq c b'"')) [
            | inl e ↦ case b'"' e refl
            | inr not_quot ↦ elim (Bool-cases (nat_beq c b'\'')) [
              | inl e ↦ case b'\'' e refl
              | inr not_apos ↦
                  rw (escape_char_plain c not_amp not_lt not_gt not_quot not_apos)
                    (read_plain c s not_quot not_amp)
            ]
          ]
        ]
      ]
    ]

pub read-escape : (v rest : Text) → read_attribute none (escape v ++ (b'"' ∷ rest)) ≡ some (v, rest)
unfolding escape read_attribute
read-escape [] rest = refl
read-escape (c ∷ v) rest =
    ap (read_attribute none) (append_assoc (escape_char c) (escape v) (b'"' ∷ rest))
    ∙ read-escape_char c (escape v ++ (b'"' ∷ rest))
    ∙ ap (prepend (some c)) (read-escape v rest)
