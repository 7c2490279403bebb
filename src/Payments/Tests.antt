-- ===== src/Payments/Tests.antt =====
-- Runs of the payment services, and their theorems at concrete inputs.
use ai_chat_websocket.Prelude.{
  length, ◌≡◌, refl, Text, codes, true, none, some, List, [], ◌∷◌, ◌++◌, ok, err, leb, nat_eq,
  text_eq, arith,
}
use ai_chat_websocket.Platform.KeyStore.{accepting}
use ai_chat_websocket.Platform.TextCase.{ascii_case}
use ai_chat_websocket.Core.Errors.{database_error}
use ai_chat_websocket.Payments.Models.{CreditPackage, PaymentOrder}
use ai_chat_websocket.Payments.Ecpay.{
  Params, param, param_or, check_mac_key, generate_check_mac_value, verify_check_mac_value,
}
use ai_chat_websocket.Payments.Ecpay.Encoding.{ecpay_url_encode}
use ai_chat_websocket.Payments.Ecpay.Signing.{verify-signed}
use ai_chat_websocket.Payments.Services.{
  Backend, Db, one_ok, new_order, award_credits, settle, settle_if_pending, process_found,
  save_order, then_award, mark_paid, process_verified, process_ecpay_callback,
}
use ai_chat_websocket.Payments.Services.Callback.{balance_of, process-process}
use ai_chat_websocket.Payments.Services.Effects.{IsPayment, balance_changes}
use ai_chat_websocket.Payments.Services.Whole.{IsWhole, process-IsWhole}
use ai_chat_websocket.Payments.Services.Ledger.{
  Event, ordered, notified, balance_read, serve_all, IsLedger, serve_all-IsLedger,
}

abbrev digest : Text → Text
digest s = codes "ab01"

encodes : ecpay_url_encode ascii_case (codes "A-b_c.d!e*(f)~g h&") ≡ codes "a-b_c.d!e*(f)%7eg+h%26"
unfolding ecpay_url_encode
encodes = refl

abbrev fields : Params
fields = (codes "RtnCode", codes "1") ∷ (codes "MerchantTradeNo", codes "T1") ∷ []

abbrev signed : Params
signed = fields ++ (check_mac_key, codes "AB01") ∷ []

signed_verifies :
    verify_check_mac_value ascii_case digest (codes "k") (codes "v") signed ≡ some true
unfolding verify_check_mac_value ecpay_url_encode
signed_verifies = refl

verify-signed_example :
    verify_check_mac_value ascii_case digest (codes "k") (codes "v") (
      fields
      ++ (check_mac_key, generate_check_mac_value ascii_case digest (codes "k") (codes "v") fields)
        ∷ [])
    ≡ some true
verify-signed_example =
    verify-signed ascii_case digest (codes "k") (codes "v") (λ s. refl) fields
      (unfold param in refl)

-- Balances of the test database end where a positive integer column ends.
abbrev pub backend : Backend
backend = record {
  packages = accepting (λ p. true);
  orders = accepting (λ o. true);
  balances = accepting (λ b. leb b 2147483647);
  text_case = ascii_case;
  sha256 = digest;
  hash_key = codes "k";
  hash_iv = codes "v";
  order_id = λ trade_no. length trade_no;
  rollback = λ start s. start;
  rolls_back = λ start s. refl;
}

abbrev pub starter : CreditPackage
starter = record {
  id = 1;
  name = codes "Starter";
  credits = 100;
  price = 30;
  is_active = true;
  description = [];
  sort_order = 0;
}

abbrev pub empty : Db backend
empty = record {
  package_table = λ k. some starter;
  order_table = λ k. none;
  balance_table = λ k. none;
}

abbrev order : PaymentOrder
order = new_order backend 7 1 starter (codes "T1")

abbrev with_order : Db backend
with_order = record empty { order_table = λ k. some order }

-- The callback pays the order, and a second one answers the same.
callback_pays :
    let (answer, db) = process_ecpay_callback backend signed with_order in
    (answer ≡ ok one_ok) × (balance_of backend 7 db.balance_table ≡ 100)
unfolding process_ecpay_callback process_verified process_found settle_if_pending settle save_order
    then_award award_credits new_order verify_check_mac_value param_or
callback_pays = (refl, refl)

process-process_example :
    process_ecpay_callback backend signed (process_ecpay_callback backend signed with_order).1
    ≡ (ok one_ok, (process_ecpay_callback backend signed with_order).1)
process-process_example = process-process backend signed with_order one_ok callback_pays.0

balance_changes_example :
    (verify_check_mac_value ascii_case digest (codes "k") (codes "v") signed ≡ some true)
    × IsPayment backend signed 7 with_order (process_ecpay_callback backend signed with_order).1
balance_changes_example =
    balance_changes backend signed 7 with_order (λ e. absurd (omega (arith, e, callback_pays.1)))

-- The user's balance is so high that the column cannot take the credits.
abbrev rich : Db backend
rich = record with_order { balance_table = λ k. some 2147483600 }

callback_overflows : (process_ecpay_callback backend signed rich).0 ≡ err database_error
unfolding process_ecpay_callback process_verified process_found settle_if_pending settle save_order
    then_award award_credits new_order verify_check_mac_value param_or
callback_overflows = refl

-- The callback has saved the order when it raises.
half_done :
    let saved = (process_found backend (some order) (codes "T1") signed rich).1 in
    saved.order_table (codes "T1") ≡ some (mark_paid backend signed order)
unfolding process_found settle_if_pending settle save_order then_award award_credits new_order
    param_or mark_paid
half_done = refl

process-IsWhole_example : IsWhole backend signed rich (process_ecpay_callback backend signed rich)
process-IsWhole_example = process-IsWhole backend signed rich

abbrev garbled : Params
garbled = (check_mac_key, 233 ∷ []) ∷ []

empty-IsLedger : IsLedger backend empty []
empty-IsLedger = record { distinct = tt; listed = λ k. refl; balanced = λ u. refl }

abbrev events : List Event
events =
    ordered 7 1 (codes "T1")
    ∷ balance_read 7
    ∷ notified signed
    ∷ notified signed
    ∷ notified garbled
    ∷ []

serve_all-IsLedger_example :
    let (db, nos) = serve_all backend events empty [] in IsLedger backend db nos
serve_all-IsLedger_example = serve_all-IsLedger backend events empty [] empty-IsLedger
