-- ===== src/Payments/Ecpay.antt =====
-- backend/apps/payments/ecpay.py: the CheckMacValue of ECPay. SHA-256 and the case tables of Unicode
-- are parameters.
pub mod Encoding
pub mod Signing
use ai_chat_websocket.Prelude.{
  ℕ, Text, codes, Bool, true, false, not, Option, none, some, List, [], ◌∷◌, ◌++◌, Eq, text_eq,
  ◌==◌, ◌&&◌, is_ascii, text_leb, filter, if◌then◌else◌,
}
use ai_chat_websocket.Platform.TextCase.{TextCase}
use Encoding.{ecpay_url_encode}

-- A dict of texts, in insertion order.
abbrev pub Params : Type 0
Params = List (Text × Text)

-- `params.get(key)` and `params.get(key, default)`
unfoldable pub param : Text → Params → Option Text
param key [] = none
param key ((k, v) ∷ params) = if k == key then some v else param key params

unfoldable pub param_or : Text → Text → Params → Text
unfolding param
param_or key default params = elim (param key params) [ none ↦ default | some v ↦ v ]

abbrev pub check_mac_key : Text
check_mac_key = codes "CheckMacValue"

-- `{k: v for k, v in params.items() if k != "CheckMacValue"}`
unfoldable pub without_check_mac : Params → Params
without_check_mac = filter (λ e. if e.0 == check_mac_key then false else true)

-- `"&".join(f"{k}={v}" for k, v in sorted_params)`
unfoldable pub join_params : Params → Text
join_params [] = []
join_params ((k, v) ∷ []) = k ++ b'=' ∷ v
join_params ((k, v) ∷ e ∷ rest) = k ++ b'=' ∷ (v ++ b'&' ∷ join_params (e ∷ rest))

module _ (text_case : TextCase) where
  -- `sorted(..., key=lambda x: x[0].lower())`, which is stable
  unfoldable pub insert_param : Text × Text → Params → Params
  insert_param e [] = e ∷ []
  insert_param e (f ∷ rest) =
      if text_leb (text_case.lower e.0) (text_case.lower f.0)
      then e ∷ f ∷ rest
      else f ∷ insert_param e rest

  unfoldable pub sort_params : Params → Params
  unfolding insert_param
  sort_params [] = []
  sort_params (e ∷ params) = insert_param e (sort_params params)

-- `f"HashKey={hash_key}&{param_str}&HashIV={hash_iv}"`, from the sorted parameters
unfoldable pub raw_string : Text → Text → Params → Text
unfolding join_params
raw_string hash_key hash_iv sorted_params =
    codes "HashKey="
    ++ (hash_key ++ b'&' ∷ (join_params sorted_params ++ (codes "&HashIV=" ++ hash_iv)))

-- `hmac.compare_digest`: `none` is the TypeError that it raises at a text that is not ASCII.
unfoldable pub compare_digest : Text → Text → Option Bool
compare_digest a b = if is_ascii a && is_ascii b then some (a == b) else none

-- `sha256` is `hashlib.sha256(s.encode("utf-8")).hexdigest()`.
module _ (text_case : TextCase) (sha256 : Text → Text) (hash_key hash_iv : Text) where
  unfoldable pub generate_check_mac_value : Params → Text
  unfolding raw_string without_check_mac sort_params
  generate_check_mac_value params = text_case.upper (
      sha256 (
        ecpay_url_encode text_case
          (raw_string hash_key hash_iv (sort_params text_case (without_check_mac params)))))

  unfoldable pub verify_check_mac_value : Params → Option Bool
  unfolding compare_digest param_or generate_check_mac_value
  verify_check_mac_value params =
      compare_digest (text_case.upper (param_or check_mac_key [] params))
        (generate_check_mac_value params)
