-- ===== src/Payments/Endpoints.antt =====
-- backend/apps/payments/api.py and views.py: what the endpoints answer.
pub mod Orders
mod Tests
use ai_chat_websocket.Prelude.{
  ℕ, Text, codes, Bool, true, false, ◌&&◌, ◌||◌, Option, none, some, List, [], ◌∷◌, Result, ok, err,
  filter, leb, ltb, ◌==◌, nat_eq, if◌then◌else◌,
}
use ai_chat_websocket.Core.Errors.{Error, handle}
use ai_chat_websocket.Chat.Pages.{Page}
use ai_chat_websocket.Chat.Endpoints.{Reply, answered, unprocessable, reply, page_in_bounds}
use ai_chat_websocket.Payments.Models.{CreditPackage, PaymentOrder}
use ai_chat_websocket.Payments.Ecpay.{Params}
use ai_chat_websocket.Payments.Form.{Shop, build_payment_form_html}
use ai_chat_websocket.Payments.Listing.{get_user_orders}
use ai_chat_websocket.Payments.Services.{
  Backend, Db, create_payment_order, get_user_balance, process_ecpay_callback,
}

-- `order_by("sort_order", "price")`
abbrev pub comes_before : CreditPackage → CreditPackage → Bool
comes_before p q =
    ltb p.sort_order q.sort_order || (p.sort_order == q.sort_order && leb p.price q.price)

unfoldable pub insert_package : CreditPackage → List CreditPackage → List CreditPackage
insert_package p [] = p ∷ []
insert_package p (q ∷ qs) =
    let later = insert_package p qs in if comes_before p q then p ∷ q ∷ qs else q ∷ later

unfoldable pub order_packages : List CreditPackage → List CreditPackage
unfolding insert_package
order_packages [] = []
order_packages (p ∷ ps) = insert_package p (order_packages ps)

-- `rows` are the rows of the table
unfoldable pub list_active_packages : List CreditPackage → List CreditPackage
unfolding order_packages
list_active_packages rows = order_packages (filter (λ (p : CreditPackage). p.is_active) rows)

-- the answer of `create_order`
pub record PaymentForm : Type 0 where
  pub order_id : ℕ
  pub merchant_trade_no : Text
  pub form_html : Text

unfoldable pub list_orders : ℕ → ℕ → ℕ → List PaymentOrder → Reply (Page PaymentOrder)
list_orders user_id page page_size rows =
    if page_in_bounds page page_size
    then answered 200 (get_user_orders user_id page page_size rows)
    else unprocessable

abbrev pub name_of : Option CreditPackage → Text
name_of none = []
name_of (some bundle) = bundle.name

module _ (backend : Backend) (is_other_word : ℕ → Bool) (shop : Shop) where
  abbrev pub with_form : Text → Text → Result Error PaymentOrder → Result Error PaymentForm
  with_form package_name trade_date (err e) = err e
  with_form package_name trade_date (ok order) = ok (record {
    order_id = backend.order_id order.merchant_trade_no;
    merchant_trade_no = order.merchant_trade_no;
    form_html =
        build_payment_form_html backend.text_case backend.sha256 is_other_word shop order
          package_name trade_date;
  })

  -- `trade_no` and `trade_date` are what the clock and the random numbers give. The check of the answer is in
  -- `create_order_response`.
  unfoldable pub create_order : ℕ → ℕ → Text → Text → Db backend → Reply PaymentForm × Db backend
  unfolding reply
  create_order user_id package_id trade_no trade_date db =
      let (r, db') = create_payment_order backend user_id package_id trade_no db in
      let package_name = name_of (backend.packages.find package_id db.package_table) in
      (reply 201 (with_form package_name trade_date r), db')

  unfoldable pub get_balance : ℕ → Db backend → Reply ℕ × Db backend
  unfolding reply
  get_balance user_id db = let (r, db') = get_user_balance backend user_id db in (reply 200 r, db')

  -- An exception of the callback ends the request of ECPay without an answer of the view.
  unfoldable pub ecpay_notify_view : Params → Db backend → Option (ℕ × Text) × Db backend
  ecpay_notify_view params db =
      let (r, db') = process_ecpay_callback backend params db in
      (elim r [ ok result ↦ some (200, result) | err e ↦ none ], db')
