-- ===== src/Payments/Form/Reading.antt =====
-- What is read in the form, line breaks and NUL as they are, and that the form is signed.
use mathlib.Core.List.{append_assoc}
use ai_chat_websocket.Prelude.{
  ℕ, zero, suc, ◌≤◌, ◌<◌, ◌≡◌, refl, length, arith, ap, ◌∙◌, Text, codes, Bool, true, Option, none,
  some, [], ◌∷◌, ◌++◌, ◌==◌, nat_eq, text_eq, ==_refl, is_ascii, if◌then◌else◌,
}
use ai_chat_websocket.Platform.TextCase.{TextCase}
use ai_chat_websocket.Payments.Models.{PaymentOrder}
use ai_chat_websocket.Payments.Ecpay.{Params, param, check_mac_key, verify_check_mac_value}
use ai_chat_websocket.Payments.Ecpay.Signing.{verify-signed}
use ai_chat_websocket.Payments.Form.{
  escape, hidden_field, hidden_fields, page, Shop, if_client_back_url, unsigned_params, form_params,
  build_payment_form_html,
}
use ai_chat_websocket.Payments.Form.Attributes.{read_attribute, read-escape}

-- `s` without the prefix, if it has it
unfoldable pub expect : Text → Text → Option Text
expect [] s = some s
expect (p ∷ ps) [] = none
expect (p ∷ ps) (c ∷ s) = if p == c then expect ps s else none

expect-append : (p s : Text) → expect p (p ++ s) ≡ some s
unfolding expect
expect-append [] s = refl
expect-append (c ∷ p) s = rw (==_refl c) (expect-append p s)

infixl 5 ◌>>?◌
abbrev pub ◌>>?◌ : {A B : Type 0} → Option A → (A → Option B) → Option B
none >>? f = none
some a >>? f = f a

-- A hidden input as the form has it: its name and its value, and what follows.
unfoldable pub read_field : Text → Option ((Text × Text) × Text)
read_field s = expect (codes "    <input type=\"hidden\" name=\"") s >>? λ named.
    read_attribute none named >>? λ k. expect (codes " value=\"") k.1 >>? λ valued.
    read_attribute none valued >>? λ v. expect (codes " />") v.1 >>? λ rest. some ((k.0, v.0), rest)

read-hidden_field : (k v rest : Text) → read_field (hidden_field k v ++ rest) ≡ some ((k, v), rest)
unfolding read_field hidden_field expect
read-hidden_field k v rest =
    let last = codes "\" />" in
    let middle = codes "\" value=\"" ++ (escape v ++ last) in
    rw (
      append_assoc (escape k) middle rest,
      read-escape k (codes " value=\"" ++ ((escape v ++ last) ++ rest)),
      append_assoc (escape v) last rest,
      read-escape v (codes " />" ++ rest),
    )

-- the line break between two fields
abbrev pub next_line : Text → Text
next_line [] = []
next_line (c ∷ s) = if c == b'\n' then s else c ∷ s

abbrev pub cons_field : Text × Text → Params × Text → Params × Text
cons_field e (params, rest) = (e ∷ params, rest)

-- As many hidden inputs as there are, at most `fuel`.
unfoldable pub read_fields : ℕ → Text → Params × Text
read_fields zero s = ([], s)
read_fields (suc fuel) s = elim (read_field s) [
  | none ↦ ([], s)
  | some (e, rest) ↦ cons_field e (read_fields fuel (next_line rest))
]

abbrev pub ending : Text
ending =
    codes "\n  </form>\n"
    ++ codes "  <script>document.getElementById('ecpay-form').submit();</script>\n</body>\n</html>"

read_fields-step :
    (fuel : ℕ) (k v rest : Text)
    → read_fields (suc fuel) (hidden_field k v ++ rest)
      ≡ cons_field (k, v) (read_fields fuel (next_line rest))
unfolding read_fields
read_fields-step fuel k v rest = rw (read-hidden_field k v rest, read_fields)

read_fields-end : (fuel : ℕ) → read_fields fuel (next_line ending) ≡ ([], next_line ending)
unfolding read_fields read_field expect
read_fields-end zero = refl
read_fields-end (suc fuel) = refl

read-hidden_fields :
    (fuel : ℕ) (e : Text × Text) (params : Params)
    → length params < fuel
    → read_fields fuel (hidden_fields (e ∷ params) ++ ending) ≡ (e ∷ params, next_line ending)
unfolding hidden_fields
read-hidden_fields zero e params h = elim h [ ]
read-hidden_fields (suc fuel) (k, v) [] h =
    read_fields-step fuel k v ending ∙ ap (cons_field (k, v)) (read_fields-end fuel)
read-hidden_fields (suc fuel) (k, v) (f ∷ params) h =
    let more = codes "\n" ++ hidden_fields (f ∷ params) in
    ap (read_fields (suc fuel)) (append_assoc (hidden_field k v) more ending)
    ∙ read_fields-step fuel k v (more ++ ending)
    ∙ ap (cons_field (k, v)) (read-hidden_fields fuel f params (omega arith))

-- The page of a payment: the address that the form is sent to, and what is sent.
unfoldable pub read_form : ℕ → Text → Option (Text × Params)
read_form fuel s =
    expect (codes "<!DOCTYPE html>\n<html>\n<head><meta charset=\"utf-8\"></head>\n<body>\n") s
    >>? λ body.
        expect (codes "  <form id=\"ecpay-form\" method=\"POST\" action=\"") body >>? λ form.
        read_attribute none form >>? λ action.
        expect (codes ">\n") action.1 >>? λ fields. some (action.0, (read_fields fuel fields).0)

read_form-page :
    (fuel : ℕ) (action : Text) (e : Text × Text) (params : Params)
    → length params < fuel
    → read_form fuel (page action (e ∷ params)) ≡ some (action, e ∷ params)
unfolding read_form expect page
read_form-page fuel action e params h = rw (
  read-escape action (codes ">\n" ++ (hidden_fields (e ∷ params) ++ ending)),
  read-hidden_fields fuel e params h,
)

module _ (text_case : TextCase) (sha256 : Text → Text) (is_other_word : ℕ → Bool) (shop : Shop)
    (digest_ascii : (s : Text) → is_ascii (sha256 s) ≡ true) where
  unsigned-has_no_mac :
      (order : PaymentOrder) (name date : Text)
      → param check_mac_key (unsigned_params text_case sha256 is_other_word shop order name date)
        ≡ none
  unfolding param unsigned_params
  unsigned-has_no_mac order name date = client_back shop.client_back_url
    where
      client_back : (url : Text) → param check_mac_key (if_client_back_url url) ≡ none
      client_back [] = refl
      client_back (c ∷ s) = refl

  -- The values that are written into the page are read back from it where HTML leaves line breaks and NUL alone, and
  -- the parameters verify against their CheckMacValue.
  pub form_read_back :
      (order : PaymentOrder) (name date : Text) (fuel : ℕ)
      → length (form_params text_case sha256 is_other_word shop order name date) ≤ fuel
      → (read_form fuel
            (build_payment_form_html text_case sha256 is_other_word shop order name date)
          ≡ some
              (shop.payment_url, form_params text_case sha256 is_other_word shop order name date))
        × (verify_check_mac_value text_case sha256 shop.hash_key shop.hash_iv
              (form_params text_case sha256 is_other_word shop order name date)
            ≡ some true)
  unfolding form_params unsigned_params build_payment_form_html
  form_read_back order name date fuel h =
      let params = unsigned_params text_case sha256 is_other_word shop order name date in
      (
        read_form-page fuel shop.payment_url _ _ h,
        verify-signed text_case sha256 shop.hash_key shop.hash_iv digest_ascii params
            (unsigned-has_no_mac order name date),
      )
