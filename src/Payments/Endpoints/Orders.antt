-- ===== src/Payments/Endpoints/Orders.antt =====
-- What a payer is asked to pay for a package.
use ai_chat_websocket.Prelude.{
  ℕ, ◌≤◌, ◌≡◌, refl, Text, codes, Bool, true, none, some, [], ◌∷◌, ◌++◌, length, ok, is_ascii,
  arith,
}
use ai_chat_websocket.Chat.Endpoints.{answered, reply}
use ai_chat_websocket.Payments.Models.{CreditPackage, PaymentOrder}
use ai_chat_websocket.Payments.Ecpay.{
  check_mac_key, generate_check_mac_value, param, verify_check_mac_value,
}
use ai_chat_websocket.Payments.Form.{
  Shop, decimal, unsigned_params, if_client_back_url, form_params, build_payment_form_html,
}
use ai_chat_websocket.Payments.Form.Reading.{read_form, form_read_back}
use ai_chat_websocket.Payments.Services.{Backend, Db, new_order, insert_order, create_payment_order}
use ai_chat_websocket.Payments.Endpoints.{create_order}

module _ (backend : Backend) (is_other_word : ℕ → Bool) (shop : Shop)
    (digest_ascii : (s : Text) → is_ascii (backend.sha256 s) ≡ true) where
  open backend use {packages, orders, text_case, sha256}

  short_form :
      (order : PaymentOrder) (name date : Text)
      → length (form_params text_case sha256 is_other_word shop order name date) ≤ 12
  unfolding form_params unsigned_params
  short_form order name date =
      let params = unsigned_params text_case sha256 is_other_word shop order name date in
      let mac = generate_check_mac_value text_case sha256 shop.hash_key shop.hash_iv params in
      let rest = client_back shop.client_back_url (check_mac_key, mac) in omega (arith, rest)
    where
      client_back :
          (url : Text) (mac : Text × Text) → length (if_client_back_url url ++ mac ∷ []) ≤ 2
      client_back [] mac = omega arith
      client_back (c ∷ url) mac = omega arith

  creates :
      (user_id package_id : ℕ) (trade_no : Text) (bundle : CreditPackage) (db : Db backend)
      (t : orders.State)
      → packages.find package_id db.package_table ≡ some bundle
      → bundle.is_active ≡ true
      → orders.find trade_no db.order_table ≡ none
      → orders.put trade_no (new_order backend user_id package_id bundle trade_no) db.order_table
        ≡ some t
      → create_payment_order backend user_id package_id trade_no db
        ≡ (ok (new_order backend user_id package_id bundle trade_no), record db { order_table = t })
  unfolding create_payment_order insert_order new_order
  creates user_id package_id trade_no bundle db t known active free stored =
      rw (create_payment_order, known, active, insert_order, free, stored)

  -- An order of an active package under a new trade number, which the table takes, is answered with 201
  -- and a page in which `read_form` reads signed parameters: the trade number of the order, and as the
  -- amount the price of the package. The stored order has that price and the credits of the package.
  pub create_order-form :
      (user_id package_id : ℕ) (trade_no date : Text) (bundle : CreditPackage) (db : Db backend)
      (t : orders.State)
      → packages.find package_id db.package_table ≡ some bundle
      → bundle.is_active ≡ true
      → orders.find trade_no db.order_table ≡ none
      → orders.put trade_no (new_order backend user_id package_id bundle trade_no) db.order_table
        ≡ some t
      → let order = new_order backend user_id package_id bundle trade_no in
        let params = form_params text_case sha256 is_other_word shop order bundle.name date in
        let html =
          build_payment_form_html text_case sha256 is_other_word shop order bundle.name date in
        let response =
          create_order backend is_other_word shop user_id package_id trade_no date db in
        (response.0
          ≡ answered 201 (record {
            order_id = backend.order_id trade_no;
            merchant_trade_no = trade_no;
            form_html = html;
          }))
        × (orders.find trade_no response.1.order_table ≡ some order)
        × (read_form 12 html ≡ some (shop.payment_url, params))
        × (verify_check_mac_value text_case sha256 shop.hash_key shop.hash_iv params ≡ some true)
        × (param (codes "MerchantTradeNo") params ≡ some trade_no)
        × (param (codes "TotalAmount") params ≡ some (decimal bundle.price))
        × (order.amount ≡ bundle.price)
        × (order.credits_awarded ≡ bundle.credits)
  unfolding create_order reply new_order form_params unsigned_params param
  create_order-form user_id package_id trade_no date bundle db t known active free stored =
      let order = new_order backend user_id package_id bundle trade_no in
      let (read, signed) =
        form_read_back text_case sha256 is_other_word shop digest_ascii order bundle.name date 12
          (short_form order bundle.name date) in
      let made = creates user_id package_id trade_no bundle db t known active free stored in
      (
        rw (made, known),
        rw made (orders.find-put_self trade_no order db.order_table t stored),
        read,
        signed,
        refl,
        refl,
        refl,
        refl,
      )
