-- ===== src/Payments/Responses.antt =====
-- The response schemas of backend/apps/payments/schemas.py, against which the framework checks what the
-- endpoints of api.py answer.
pub mod Packages
use ai_chat_websocket.Prelude.{ℕ, ℤ, Text, codes, Bool, ◌&&◌, List, length, leb}
use ai_chat_websocket.Chat.Pages.{Page}
use ai_chat_websocket.Chat.Conversations.{length_within}
use ai_chat_websocket.Chat.Endpoints.{Reply, answered}
use ai_chat_websocket.Chat.Responses.{all_fit, page_fits, checked}
use ai_chat_websocket.Payments.Models.{
  CreditPackage, OrderStatus, pending, paid, failed, PaymentOrder,
}
use ai_chat_websocket.Payments.Form.{Shop}
use ai_chat_websocket.Payments.Services.{Backend, Db}
use ai_chat_websocket.Payments.Endpoints.{
  list_active_packages, list_orders, PaymentForm, create_order,
}

-- `CreditPackageSchema`
unfoldable pub package_fits : CreditPackage → Bool
package_fits p =
    length_within 1 100 p.name && leb 1 p.credits && leb 1 p.price && leb (length p.description) 500

unfoldable pub list_packages : List CreditPackage → Reply (List CreditPackage)
unfolding checked package_fits list_active_packages
list_packages rows = checked (all_fit package_fits) (answered 200 (list_active_packages rows))

-- the values of `OrderStatus`
unfoldable pub status_text : OrderStatus → Text
status_text pending = codes "pending"
status_text paid = codes "paid"
status_text failed = codes "failed"

-- `PaymentOrderSchema`; `package_name` is the name of the package with an id
unfoldable pub order_fits : (ℕ → Text) → PaymentOrder → Bool
unfolding status_text
order_fits package_name order =
    leb (length order.merchant_trade_no) 20
    && leb (length (status_text order.status)) 10
    && leb (length (package_name order.package_id)) 100

unfoldable pub list_orders_response :
    (ℕ → Text) → ℕ → ℕ → ℕ → List PaymentOrder → Reply (Page PaymentOrder)
unfolding checked page_fits order_fits list_orders
list_orders_response package_name user_id page page_size rows =
    checked (page_fits (order_fits package_name) page page_size)
      (list_orders user_id page page_size rows)

-- `PaymentFormSchema`
unfoldable pub form_fits : PaymentForm → Bool
form_fits form = length_within 1 20 form.merchant_trade_no

-- `create_order` with the check of its answer; the order is stored before it.
unfoldable pub create_order_response :
    (backend : Backend)
    → (ℕ → Bool)
    → Shop
    → ℕ
    → ℕ
    → Text
    → Text
    → Db backend
    → Reply PaymentForm × Db backend
unfolding checked form_fits create_order
create_order_response backend is_other_word shop user_id package_id trade_no trade_date db =
    let (r, db') =
      create_order backend is_other_word shop user_id package_id trade_no trade_date db in
    (checked form_fits r, db')
