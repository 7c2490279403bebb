-- ===== src/Payments/Form/Browser.antt =====
-- What a browser submits of the form (ecpay.py), with what HTML does to line breaks and NUL.
use ai_chat_websocket.Prelude.{
  ℕ, ◌≤◌, ◌≡◌, refl, length, ap, ◌∙◌, Text, codes, Bool, true, false, ◌&&◌, not, Option, some, [],
  ◌∷◌, ◌++◌, map, ◌==◌, nat_eq, is_ascii, if◌then◌else◌,
}
use ai_chat_websocket.Platform.TextCase.{TextCase}
use ai_chat_websocket.Chat.Consumer.Branches.{if-keeps}
use ai_chat_websocket.Payments.Models.{PaymentOrder}
use ai_chat_websocket.Payments.Ecpay.{Params, verify_check_mac_value}
use ai_chat_websocket.Payments.Form.{
  escape_char, escape, hidden_field, hidden_fields, page, Shop, form_params,
  build_payment_form_html,
}
use ai_chat_websocket.Payments.Form.Reading.{◌>>?◌, ending, read_form, form_read_back}

-- CR LF and CR become LF; the argument tells whether a CR is just behind.
unfoldable pub newlines : Bool → Text → Text
newlines after_cr [] = []
newlines after_cr (c ∷ s) = elim (c == 13) [
  | true ↦ 10 ∷ newlines true s
  | false ↦ elim (after_cr && (c == 10)) [ true ↦ newlines false s | false ↦ c ∷ newlines false s ]
]

-- the text that HTML is read from: NUL becomes U+FFFD
abbrev pub input_stream : Text → Text
input_stream s = map (λ c. if c == 0 then 65533 else c) (newlines false s)

abbrev pub line_break : ℕ → Text
line_break c = if c == 10 then 13 ∷ 10 ∷ [] else c ∷ []

unfoldable pub line_breaks : Text → Text
line_breaks [] = []
line_breaks (c ∷ s) = line_break c ++ line_breaks s

-- a name or a value as it is submitted: each line break is CR LF
abbrev pub submitted : Text → Text
submitted s = line_breaks (newlines false s)

-- What is submitted, and to which action.
abbrev pub submit_form : ℕ → Text → Option (Text × Params)
submit_form fuel html = read_form fuel (input_stream html) >>? λ form.
    some (form.0, map (λ field. (submitted field.0, submitted field.1)) form.1)

abbrev pub all : (ℕ → Bool) → Text → Bool
all p [] = true
all p (c ∷ s) = p c && all p s

-- neither NUL nor CR, and without LF too
abbrev pub is_clean : ℕ → Bool
is_clean c = not (c == 0) && not (c == 13)

abbrev pub is_plain : ℕ → Bool
is_plain c = is_clean c && not (c == 10)

abbrev pub all_fields : (ℕ → Bool) → Params → Bool
all_fields p [] = true
all_fields p ((k, v) ∷ params) = all p k && (all p v && all_fields p params)

split_and : (a b : Bool) → a && b ≡ true → (a ≡ true) × (b ≡ true)
split_and true b h = (refl, h)
split_and false b h = cc h

join_and : {a b : Bool} → a ≡ true → b ≡ true → a && b ≡ true
join_and h k = rw (h, k)

negated : (a : Bool) → not a ≡ true → a ≡ false
negated true h = cc h
negated false h = refl

all-append : (p : ℕ → Bool) (s t : Text) → all p s ≡ true → all p t ≡ true → all p (s ++ t) ≡ true
all-append p [] t h k = k
all-append p (c ∷ s) t h k =
    let (here, there) = split_and (p c) (all p s) h in join_and here (all-append p s t there k)

plain-clean : (s : Text) → all is_plain s ≡ true → all is_clean s ≡ true
plain-clean [] h = refl
plain-clean (c ∷ s) h =
    let (here, there) = split_and (is_plain c) (all is_plain s) h in
    join_and (split_and (is_clean c) (not (c == 10)) here).0 (plain-clean s there)

newlines-clean : (s : Text) → all is_clean s ≡ true → newlines false s ≡ s
unfolding newlines
newlines-clean [] h = refl
newlines-clean (c ∷ s) h =
    let (here, there) = split_and (is_clean c) (all is_clean s) h in
    let no_cr : (c == 13) ≡ false = negated _ (split_and (not (c == 0)) (not (c == 13)) here).1 in
    rw (newlines, no_cr) (ap (λ t. c ∷ t) (newlines-clean s there))

map-clean : (s : Text) → all is_clean s ≡ true → map (λ c. if c == 0 then 65533 else c) s ≡ s
map-clean [] h = refl
map-clean (c ∷ s) h =
    let (here, there) = split_and (is_clean c) (all is_clean s) h in
    let no_nul : (c == 0) ≡ false = negated _ (split_and (not (c == 0)) (not (c == 13)) here).0 in
    rw (no_nul, map-clean s there)

input_stream-clean : (s : Text) → all is_clean s ≡ true → input_stream s ≡ s
input_stream-clean s h =
    ap (map (λ c. if c == 0 then 65533 else c)) (newlines-clean s h) ∙ map-clean s h

line_breaks-plain : (s : Text) → all is_plain s ≡ true → line_breaks s ≡ s
unfolding line_breaks
line_breaks-plain [] h = refl
line_breaks-plain (c ∷ s) h =
    let (here, there) = split_and (is_plain c) (all is_plain s) h in
    let no_lf : (c == 10) ≡ false = negated _ (split_and (is_clean c) (not (c == 10)) here).1 in
    rw (no_lf, line_breaks-plain s there)

submitted-plain : (s : Text) → all is_plain s ≡ true → submitted s ≡ s
submitted-plain s h = ap line_breaks (newlines-clean s (plain-clean s h)) ∙ line_breaks-plain s h

fields-plain :
    (params : Params)
    → all_fields is_plain params ≡ true
    → map (λ field. (submitted field.0, submitted field.1)) params ≡ params
fields-plain [] h = refl
fields-plain ((k, v) ∷ params) h =
    let (key, more) = split_and (all is_plain k) (all is_plain v && all_fields is_plain params) h in
    let (value, rest) = split_and (all is_plain v) (all_fields is_plain params) more in
    rw (submitted-plain k key, submitted-plain v value, fields-plain params rest)

-- The page adds no such character.
escape_char-clean : (c : ℕ) → is_clean c ≡ true → all is_clean (escape_char c) ≡ true
unfolding escape_char
escape_char-clean c h =
    let P : Text → Type 0 = λ t. all is_clean t ≡ true in
    if-keeps P (c == b'&') _ _ refl (
      if-keeps P (c == b'<') _ _ refl (
        if-keeps P (c == b'>') _ _ refl
          (if-keeps P (c == b'"') _ _ refl (if-keeps P (c == b'\'') _ _ refl (join_and h refl)))))

escape-clean : (s : Text) → all is_clean s ≡ true → all is_clean (escape s) ≡ true
unfolding escape
escape-clean [] h = refl
escape-clean (c ∷ s) h =
    let (here, there) = split_and (is_clean c) (all is_clean s) h in
    all-append is_clean (escape_char c) (escape s) (escape_char-clean c here) (escape-clean s there)

field-clean :
    (k v : Text)
    → all is_plain k ≡ true
    → all is_plain v ≡ true
    → all is_clean (hidden_field k v) ≡ true
unfolding hidden_field
field-clean k v key value =
    all-append is_clean (escape k) (codes "\" value=\"" ++ (escape v ++ codes "\" />"))
      (escape-clean k (plain-clean k key))
      (all-append is_clean (escape v) (codes "\" />") (escape-clean v (plain-clean v value)) refl)

fields-clean :
    (params : Params)
    → all_fields is_plain params ≡ true
    → all is_clean (hidden_fields params) ≡ true
unfolding hidden_fields
fields-clean [] h = refl
fields-clean ((k, v) ∷ []) h =
    let (key, more) = split_and (all is_plain k) (all is_plain v && true) h in
    field-clean k v key (split_and (all is_plain v) true more).0
fields-clean ((k, v) ∷ e ∷ params) h =
    let (key, more) =
      split_and (all is_plain k) (all is_plain v && all_fields is_plain (e ∷ params)) h in
    let (value, rest) = split_and (all is_plain v) (all_fields is_plain (e ∷ params)) more in
    all-append is_clean (hidden_field k v) (codes "\n" ++ hidden_fields (e ∷ params))
      (field-clean k v key value) (fields-clean (e ∷ params) rest)

page-clean :
    (action : Text) (params : Params)
    → all is_plain action ≡ true
    → all_fields is_plain params ≡ true
    → all is_clean (page action params) ≡ true
unfolding page
page-clean action params to fields =
    all-append is_clean (escape action) (codes "\">\n" ++ (hidden_fields params ++ ending))
      (escape-clean action (plain-clean action to))
      (all-append is_clean (hidden_fields params) ending (fields-clean params fields) refl)

module _ (text_case : TextCase) (sha256 : Text → Text) (is_other_word : ℕ → Bool) (shop : Shop)
    (digest_ascii : (s : Text) → is_ascii (sha256 s) ≡ true) where
  -- Where neither the address of the payment service nor a parameter holds NUL, CR or LF, which HTML changes: a browser
  -- that reads the page as HTML finds that address as the action of the form and submits exactly the signed
  -- parameters, and these verify against their CheckMacValue, if the digest is ASCII.
  pub submitted_as_signed :
      (order : PaymentOrder) (name date : Text) (fuel : ℕ)
      → length (form_params text_case sha256 is_other_word shop order name date) ≤ fuel
      → all is_plain shop.payment_url ≡ true
      → all_fields is_plain (form_params text_case sha256 is_other_word shop order name date) ≡ true
      → (submit_form fuel
            (build_payment_form_html text_case sha256 is_other_word shop order name date)
          ≡ some
              (shop.payment_url, form_params text_case sha256 is_other_word shop order name date))
        × (verify_check_mac_value text_case sha256 shop.hash_key shop.hash_iv
              (form_params text_case sha256 is_other_word shop order name date)
            ≡ some true)
  unfolding build_payment_form_html
  submitted_as_signed order name date fuel enough to fields =
      let params = form_params text_case sha256 is_other_word shop order name date in
      let (read, valid) =
        form_read_back text_case sha256 is_other_word shop digest_ascii order name date fuel
          enough in
      let send : Option (Text × Params) → Option (Text × Params) = λ o.
        o >>? λ form. some (form.0, map (λ field. (submitted field.0, submitted field.1)) form.1) in
      (
        ap (λ html. send (read_form fuel html))
              (input_stream-clean (page shop.payment_url params)
                (page-clean shop.payment_url params to fields))
            ∙ ap send read
            ∙ ap (λ l. some (shop.payment_url, l)) (fields-plain params fields),
        valid,
      )
