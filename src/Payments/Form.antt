-- ===== src/Payments/Form.antt =====
-- `build_payment_form_html` of backend/apps/payments/ecpay.py. The date of the trade is an argument, the
-- text that `strftime` makes of the clock.
pub mod Attributes
pub mod Reading
pub mod Browser
pub mod Tests
use ai_chat_websocket.Prelude.{
  ℕ, zero, suc, ◌+◌, ◌/◌, ◌%◌, Text, codes, Bool, List, [], ◌∷◌, ◌++◌, ltb, ◌==◌, nat_eq,
  if◌then◌else◌,
}
use ai_chat_websocket.Platform.TextCase.{TextCase}
use ai_chat_websocket.Payments.Models.{PaymentOrder}
use ai_chat_websocket.Payments.Ecpay.{Params, check_mac_key, generate_check_mac_value}
use ai_chat_websocket.Payments.ItemName.{sanitize_item_name}

-- `str(n)`; a number has at most as many digits as it counts, and one more
unfoldable pub decimal_digits : ℕ → ℕ → Text → Text
decimal_digits zero n s = s
decimal_digits (suc fuel) n s =
    let rest = decimal_digits fuel (n / 10) ((n % 10 + b'0') ∷ s) in
    if ltb n 10 then (n % 10 + b'0') ∷ s else rest

unfoldable pub decimal : ℕ → Text
unfolding decimal_digits
decimal n = decimal_digits (n + 1) n []

-- `html.escape`
unfoldable pub escape_char : ℕ → Text
escape_char c =
    if c == b'&'
    then codes "&amp;"
    else (if c == b'<'
        then codes "&lt;"
        else (if c == b'>'
            then codes "&gt;"
            else (if c == b'"'
                then codes "&quot;"
                else (if c == b'\'' then codes "&#x27;" else c ∷ []))))

unfoldable pub escape : Text → Text
unfolding escape_char
escape [] = []
escape (c ∷ s) = escape_char c ++ escape s

abbrev pub if_client_back_url : Text → Params
if_client_back_url [] = []
if_client_back_url (c ∷ s) = (codes "ClientBackURL", c ∷ s) ∷ []

unfoldable pub hidden_field : Text → Text → Text
unfolding escape
hidden_field k v =
    codes "    <input type=\"hidden\" name=\""
    ++ (escape k ++ (codes "\" value=\"" ++ (escape v ++ codes "\" />")))

-- `"\n".join(...)`
unfoldable pub hidden_fields : Params → Text
unfolding hidden_field
hidden_fields [] = []
hidden_fields ((k, v) ∷ []) = hidden_field k v
hidden_fields ((k, v) ∷ e ∷ params) = hidden_field k v ++ (codes "\n" ++ hidden_fields (e ∷ params))

-- the page, around its action and its fields
unfoldable pub page : Text → Params → Text
unfolding hidden_fields
page action params =
    codes "<!DOCTYPE html>\n<html>\n<head><meta charset=\"utf-8\"></head>\n<body>\n"
    ++ (codes "  <form id=\"ecpay-form\" method=\"POST\" action=\""
        ++ (escape action
            ++ (codes "\">\n"
                ++ (hidden_fields params
                    ++ (codes "\n  </form>\n"
                        ++ codes
                            "  <script>document.getElementById('ecpay-form').submit();</script>\n</body>\n</html>")))))

-- What the deployment configures.
pub record Shop : Type 0 where
  pub merchant_id : Text
  pub hash_key : Text
  pub hash_iv : Text
  pub payment_url : Text
  pub return_url : Text
  pub client_back_url : Text

module _ (text_case : TextCase) (sha256 : Text → Text) (is_other_word : ℕ → Bool)
    (shop : Shop) where
  unfoldable pub unsigned_params : PaymentOrder → Text → Text → Params
  unfolding decimal
  unsigned_params order package_name trade_date =
      (codes "MerchantID", shop.merchant_id)
      ∷ (codes "MerchantTradeNo", order.merchant_trade_no)
      ∷ (codes "MerchantTradeDate", trade_date)
      ∷ (codes "PaymentType", codes "aio")
      ∷ (codes "TotalAmount", decimal order.amount)
      ∷ (codes "TradeDesc", codes "Credit Top-up")
      ∷ (codes "ItemName", sanitize_item_name is_other_word package_name)
      ∷ (codes "ReturnURL", shop.return_url)
      ∷ (codes "ChoosePayment", codes "Credit")
      ∷ (codes "EncryptType", codes "1")
      ∷ if_client_back_url shop.client_back_url

  unfoldable pub form_params : PaymentOrder → Text → Text → Params
  unfolding unsigned_params
  form_params order package_name trade_date =
      let params = unsigned_params order package_name trade_date in
      params
      ++ (
        check_mac_key,
        generate_check_mac_value text_case sha256 shop.hash_key shop.hash_iv params,
      )
        ∷ []

  unfoldable pub build_payment_form_html : PaymentOrder → Text → Text → Text
  unfolding form_params page
  build_payment_form_html order package_name trade_date =
      page shop.payment_url (form_params order package_name trade_date)
