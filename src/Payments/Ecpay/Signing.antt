-- ===== src/Payments/Ecpay/Signing.antt =====
-- Signing and verifying agree (ecpay.py).
use mathlib.Core.Option.{some-injective}
use ai_chat_websocket.Prelude.{
  Text, ◌≡◌, refl, ap, ◌∙◌, sym, ◌≢◌, Bool, true, ◌&&◌, none, some, [], ◌∷◌, ◌++◌, arith, ◌==◌,
  text_eq, ==_refl, is_ascii, ascii_upper, text_leb, text_leb_total, text_leb_antisym,
  text_leb_trans, map, Bool-cases, inl, inr,
}
use ai_chat_websocket.Platform.TextCase.{TextCase}
use ai_chat_websocket.Payments.Ecpay.{
  Params, param, param_or, check_mac_key, without_check_mac, insert_param, sort_params, raw_string,
  generate_check_mac_value, compare_digest, verify_check_mac_value,
}
use ai_chat_websocket.Payments.Ecpay.Encoding.{ecpay_url_encode}

-- The same entries in another order, where entries whose keys are equal up to case keep theirs.
pub data Reordered (text_case : TextCase) : Params → Params → Type 0 where
  same : {p : Params} → Reordered text_case p p
  keep :
      {p q : Params} (e : Text × Text)
      → Reordered text_case p q
      → Reordered text_case (e ∷ p) (e ∷ q)
  swap :
      {p : Params} (e f : Text × Text)
      → text_case.lower e.0 ≢ text_case.lower f.0
      → Reordered text_case (e ∷ f ∷ p) (f ∷ e ∷ p)
  both :
      {p q r : Params} → Reordered text_case p q → Reordered text_case q r → Reordered text_case p r

module _ (text_case : TextCase) where
  abbrev key_leb : Text × Text → Text × Text → Bool
  key_leb e f = text_leb (text_case.lower e.0) (text_case.lower f.0)

  insert_param_comm :
      (e f : Text × Text) (l : Params)
      → text_case.lower e.0 ≢ text_case.lower f.0
      → insert_param text_case e (insert_param text_case f l)
        ≡ insert_param text_case f (insert_param text_case e l)
  unfolding insert_param
  insert_param_comm e f [] ne = ground (
    arith,
    text_leb_total (text_case.lower e.0) (text_case.lower f.0),
    text_leb_antisym (text_case.lower e.0) (text_case.lower f.0),
    ne,
  )
  insert_param_comm e f (x ∷ l) ne = ground (
    arith,
    text_leb_total (text_case.lower e.0) (text_case.lower f.0),
    text_leb_antisym (text_case.lower e.0) (text_case.lower f.0),
    ne,
    text_leb_trans (text_case.lower e.0) (text_case.lower f.0) (text_case.lower x.0),
    text_leb_trans (text_case.lower f.0) (text_case.lower e.0) (text_case.lower x.0),
    insert_param_comm e f l ne,
  )

  sort_params-without-Reordered :
      {p q : Params}
      → Reordered text_case p q
      → sort_params text_case (without_check_mac p) ≡ sort_params text_case (without_check_mac q)
  unfolding sort_params without_check_mac
  sort_params-without-Reordered same = refl
  sort_params-without-Reordered (keep e r) = elim (Bool-cases (e.0 == check_mac_key)) [
    | inl mac ↦ rw mac (sort_params-without-Reordered r)
    | inr other ↦ rw other (ap (insert_param text_case e) (sort_params-without-Reordered r))
  ]
  sort_params-without-Reordered (swap {p} e f ne) = elim (Bool-cases (e.0 == check_mac_key)) [
    | inl e_mac ↦ elim (Bool-cases (f.0 == check_mac_key)) [
      | inl f_mac ↦ rw (e_mac, f_mac)
      | inr f_other ↦ rw (e_mac, f_other)
    ]
    | inr e_other ↦ elim (Bool-cases (f.0 == check_mac_key)) [
      | inl f_mac ↦ rw (e_other, f_mac)
      | inr f_other ↦
          rw (e_other, f_other)
            (insert_param_comm e f (sort_params text_case (without_check_mac p)) ne)
    ]
  ]
  sort_params-without-Reordered (both r s) =
      sort_params-without-Reordered r ∙ sort_params-without-Reordered s

module _ (text_case : TextCase) (sha256 : Text → Text) (hash_key hash_iv : Text) where
  generate-sorted :
      (p q : Params)
      → sort_params text_case (without_check_mac p) ≡ sort_params text_case (without_check_mac q)
      → generate_check_mac_value text_case sha256 hash_key hash_iv p
        ≡ generate_check_mac_value text_case sha256 hash_key hash_iv q
  unfolding generate_check_mac_value
  generate-sorted p q h =
      ap
        (λ l. text_case.upper (sha256 (ecpay_url_encode text_case (raw_string hash_key hash_iv l))))
        h

  -- The signature does not depend on the order of the parameters, except between keys that are equal
  -- up to case.
  generate-Reordered :
      {p q : Params}
      → Reordered text_case p q
      → generate_check_mac_value text_case sha256 hash_key hash_iv p
        ≡ generate_check_mac_value text_case sha256 hash_key hash_iv q
  generate-Reordered {p} {q} r = generate-sorted p q (sort_params-without-Reordered text_case r)

  without_signed :
      (params : Params) (mac : Text)
      → without_check_mac (params ++ (check_mac_key, mac) ∷ []) ≡ without_check_mac params
  unfolding without_check_mac
  without_signed [] mac = refl
  without_signed (e ∷ params) mac = elim (Bool-cases (e.0 == check_mac_key)) [
    | inl old ↦ rw old (without_signed params mac)
    | inr other ↦ rw other (ap (λ l. e ∷ l) (without_signed params mac))
  ]

param_signed :
    (params : Params) (mac : Text)
    → param check_mac_key params ≡ none
    → param check_mac_key (params ++ (check_mac_key, mac) ∷ []) ≡ some mac
unfolding param
param_signed [] mac h = refl
param_signed ((k, v) ∷ params) mac h = elim (Bool-cases (k == check_mac_key)) [
  | inl there ↦ cc (rw there at h)
  | inr other ↦ rw other (param_signed params mac (rw other at h))
]

param_or_signed :
    (params : Params) (mac : Text)
    → param check_mac_key params ≡ none
    → param_or check_mac_key [] (params ++ (check_mac_key, mac) ∷ []) ≡ mac
unfolding param_or
param_or_signed params mac h = rw (param_signed params mac h, param_or)

compare_digest_self : (a b : Text) → a ≡ b → is_ascii b ≡ true → compare_digest a b ≡ some true
unfolding compare_digest
compare_digest_self a b e h = rw (e, h, ==_refl b)

compare_digest-true : (a b : Text) → compare_digest a b ≡ some true → a ≡ b
unfolding compare_digest
compare_digest-true a b h = elim (Bool-cases (is_ascii a && is_ascii b)) [
  | inl ascii ↦ (text_eq.equal_iff a b).0 (some-injective _ _ (rw ascii at h))
  | inr other ↦ cc (rw other at h)
]

-- Upper case is ASCII, and is its own upper case.
map-ascii_upper-is_ascii : (s : Text) → is_ascii s ≡ true → is_ascii (map ascii_upper s) ≡ true
map-ascii_upper-is_ascii [] h = refl
map-ascii_upper-is_ascii (c ∷ s) h = ground (arith, map-ascii_upper-is_ascii s)

map-ascii_upper_idem : (s : Text) → map ascii_upper (map ascii_upper s) ≡ map ascii_upper s
map-ascii_upper_idem [] = refl
map-ascii_upper_idem (c ∷ s) = ground (arith, map-ascii_upper_idem s)

module _ (text_case : TextCase) where
  upper_ascii : (s : Text) → is_ascii s ≡ true → is_ascii (text_case.upper s) ≡ true
  upper_ascii s h = rw (text_case.upper-is_ascii s h) (map-ascii_upper-is_ascii s h)

  upper_idem :
      (s : Text) → is_ascii s ≡ true → text_case.upper (text_case.upper s) ≡ text_case.upper s
  upper_idem s h =
      text_case.upper-is_ascii (text_case.upper s) (upper_ascii s h)
      ∙ ap (map ascii_upper) (text_case.upper-is_ascii s h)
      ∙ map-ascii_upper_idem s
      ∙ sym (text_case.upper-is_ascii s h)

module _ (text_case : TextCase) (sha256 : Text → Text) (hash_key hash_iv : Text) where
  -- A callback is accepted only if its CheckMacValue is, in upper case, the signature of its other
  -- parameters.
  verify_sound :
      (params : Params)
      → verify_check_mac_value text_case sha256 hash_key hash_iv params ≡ some true
      → text_case.upper (param_or check_mac_key [] params)
        ≡ generate_check_mac_value text_case sha256 hash_key hash_iv params
  unfolding verify_check_mac_value
  verify_sound params h = compare_digest-true _ _ h

module _ (text_case : TextCase) (sha256 : Text → Text) (hash_key hash_iv : Text)
    (digest_ascii : (s : Text) → is_ascii (sha256 s) ≡ true) where
  generate-is_ascii :
      (p : Params)
      → (is_ascii (generate_check_mac_value text_case sha256 hash_key hash_iv p) ≡ true)
        × (text_case.upper (generate_check_mac_value text_case sha256 hash_key hash_iv p)
            ≡ generate_check_mac_value text_case sha256 hash_key hash_iv p)
  unfolding generate_check_mac_value
  generate-is_ascii p =
      (upper_ascii text_case _ (digest_ascii _), upper_idem text_case _ (digest_ascii _))

  -- What the payment form signs, the callback's check accepts: parameters that carry no
  -- CheckMacValue verify once their own is added, when the digest is ASCII.
  pub verify-signed :
      (params : Params)
      → param check_mac_key params ≡ none
      → verify_check_mac_value text_case sha256 hash_key hash_iv (
          params
          ++ (check_mac_key, generate_check_mac_value text_case sha256 hash_key hash_iv params)
            ∷ [])
        ≡ some true
  unfolding verify_check_mac_value
  verify-signed params h =
      let mac = generate_check_mac_value text_case sha256 hash_key hash_iv params in
      let signed = params ++ (check_mac_key, mac) ∷ [] in
      let same_mac : generate_check_mac_value text_case sha256 hash_key hash_iv signed ≡ mac =
        generate-sorted text_case sha256 hash_key hash_iv signed params (
          ap (sort_params text_case)
            (without_signed text_case sha256 hash_key hash_iv params mac)) in
      compare_digest_self (text_case.upper (param_or check_mac_key [] signed)) _
        (ap text_case.upper (param_or_signed params mac h)
          ∙ (generate-is_ascii params).1
          ∙ sym same_mac)
        (generate-is_ascii signed).0
