-- ===== src/Payments/Form/Tests.antt =====
-- The theorems on the payment form and the item name at concrete inputs.
use ai_chat_websocket.Prelude.{ℕ, ◌≡◌, refl, codes, Bool, true, false, some, none, [], arith}
use ai_chat_websocket.Platform.TextCase.{ascii_case}
use ai_chat_websocket.Payments.Models.{PaymentOrder}
use ai_chat_websocket.Chat.Protocol.{strip}
use ai_chat_websocket.Payments.Models.{pending}
use ai_chat_websocket.Payments.Ecpay.{Params, generate_check_mac_value, verify_check_mac_value}
use ai_chat_websocket.Payments.ItemName.{remove_keywords, sanitize_item_name}
use ai_chat_websocket.Payments.ItemName.Words.{has_keyword, no_keyword_left}
use ai_chat_websocket.Payments.Form.{
  Shop, unsigned_params, escape, decimal, form_params, build_payment_form_html,
}
use ai_chat_websocket.Payments.Form.Browser.{submit_form, submitted_as_signed}

-- No character outside ASCII is one of a word.
abbrev pub none_other : ℕ → Bool
none_other c = false

keyword_removed :
    sanitize_item_name none_other (codes " netping Net-ping 100 credits ")
    ≡ codes "netping - 100 credits"
unfolding sanitize_item_name strip
keyword_removed = refl

all_removed : sanitize_item_name none_other (codes "curl") ≡ codes "credit-topup"
unfolding sanitize_item_name strip
all_removed = refl

decimal_1980 : decimal 1980 ≡ codes "1980"
unfolding decimal
decimal_1980 = refl

escaped : escape (codes "a<b & 'c'") ≡ codes "a&lt;b &amp; &#x27;c&#x27;"
unfolding escape
escaped = refl

no_keyword_left_example :
    has_keyword none_other false (remove_keywords none_other false 0 (codes "wcurlget ping net"))
    ≡ false
no_keyword_left_example = no_keyword_left none_other (codes "wcurlget ping net")

-- A shop whose payment address holds a quote and an ampersand.
abbrev pub shop : Shop
shop = record {
  merchant_id = codes "3002607";
  hash_key = codes "k";
  hash_iv = codes "v";
  payment_url = codes "https://pay.example/?a=\"1\"&b=2";
  return_url = codes "https://chat.example/notify";
  client_back_url = codes "https://chat.example/back";
}

abbrev order : PaymentOrder
order = record {
  user_id = 7;
  package_id = 1;
  merchant_trade_no = codes "T1";
  status = pending;
  amount = 30;
  credits_awarded = 100;
  ecpay_trade_no = [];
  payment_date = none;
  rtn_code = [];
  rtn_msg = [];
}

abbrev form : Params
form =
    form_params ascii_case (λ s. codes "ab01") none_other shop order (codes "100 <b> credits")
      (codes "2026/01/31 12:00:00")

submitted_as_signed_example :
    (submit_form 12 (
        build_payment_form_html ascii_case
          (λ s. codes "ab01")
          none_other
          shop
          order
          (codes "100 <b> credits")
          (codes "2026/01/31 12:00:00"))
      ≡ some (shop.payment_url, form))
    × (verify_check_mac_value ascii_case (λ s. codes "ab01") shop.hash_key shop.hash_iv form
        ≡ some true)
submitted_as_signed_example =
    submitted_as_signed ascii_case (λ s. codes "ab01") none_other shop (λ s. refl) order
      (codes "100 <b> credits") (codes "2026/01/31 12:00:00") 12
      (unfold form_params unsigned_params in omega arith) refl
      (unfold form_params unsigned_params generate_check_mac_value sanitize_item_name strip
          decimal in
        refl)
