-- ===== src/Payments/Endpoints/Tests.antt =====
-- The payment endpoints at concrete inputs.
use ai_chat_websocket.Prelude.{◌≡◌, refl, Text, codes, true, false, some, [], ◌∷◌}
use ai_chat_websocket.Chat.Endpoints.{answered, unhandled, reply}
use ai_chat_websocket.Chat.Responses.{checked}
use ai_chat_websocket.Payments.Responses.{form_fits, create_order_response}
use ai_chat_websocket.Payments.Models.{CreditPackage}
use ai_chat_websocket.Payments.Ecpay.{Params, param, verify_check_mac_value}
use ai_chat_websocket.Payments.Form.{decimal, form_params, build_payment_form_html}
use ai_chat_websocket.Payments.Form.Reading.{read_form}
use ai_chat_websocket.Payments.Form.Tests.{none_other, shop}
use ai_chat_websocket.Payments.Services.{new_order, create_payment_order, insert_order}
use ai_chat_websocket.Payments.Tests.{backend, starter, empty}
use ai_chat_websocket.Payments.Endpoints.{list_active_packages, create_order}
use ai_chat_websocket.Payments.Endpoints.Orders.{create_order-form}

abbrev retired : CreditPackage
retired = record starter { is_active = false }

abbrev cheaper : CreditPackage
cheaper = record starter { price = 20 }

listed : list_active_packages (starter ∷ retired ∷ cheaper ∷ []) ≡ cheaper ∷ starter ∷ []
unfolding list_active_packages
listed = refl

abbrev today : Text
today = codes "2026/01/31 12:00:00"

abbrev form : Params
form =
    form_params backend.text_case backend.sha256 none_other shop
      (new_order backend 7 1 starter (codes "T2")) starter.name today

abbrev html : Text
html =
    build_payment_form_html backend.text_case backend.sha256 none_other shop
      (new_order backend 7 1 starter (codes "T2")) starter.name today

create_order-form_example :
    let order = new_order backend 7 1 starter (codes "T2") in
    let response = create_order backend none_other shop 7 1 (codes "T2") today empty in
    (response.0
      ≡ answered 201 (record { order_id = 2; merchant_trade_no = codes "T2"; form_html = html }))
    × (backend.orders.find (codes "T2") response.1.order_table ≡ some order)
    × (read_form 12 html ≡ some (shop.payment_url, form))
    × (verify_check_mac_value backend.text_case backend.sha256 shop.hash_key shop.hash_iv form
        ≡ some true)
    × (param (codes "MerchantTradeNo") form ≡ some (codes "T2"))
    × (param (codes "TotalAmount") form ≡ some (decimal starter.price))
    × (order.amount ≡ starter.price)
    × (order.credits_awarded ≡ starter.credits)
create_order-form_example =
    create_order-form backend none_other shop (λ s. refl) 7 1 (codes "T2") today starter empty _
      refl refl refl refl

too_long_a_number :
    create_order_response backend none_other shop 7 1 (codes "T23456789012345678901") today empty
    ≡ (
      unhandled,
      (create_order backend none_other shop 7 1 (codes "T23456789012345678901") today empty).1,
    )
unfolding create_order_response checked form_fits create_order reply create_payment_order
    insert_order new_order
too_long_a_number = refl
