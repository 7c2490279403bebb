-- ===== src/Payments/Listing.antt =====
-- `get_user_orders` of backend/apps/payments/services.py.
use ai_chat_websocket.Prelude.{ℕ, ◌==◌, nat_eq, List, filter}
use ai_chat_websocket.Chat.Pages.{Page, paginate}
use ai_chat_websocket.Payments.Models.{PaymentOrder}

-- `rows` are the rows of the table, the last created first.
unfoldable pub get_user_orders : ℕ → ℕ → ℕ → List PaymentOrder → Page PaymentOrder
get_user_orders user_id page page_size rows =
    paginate page page_size (filter (λ (order : PaymentOrder). order.user_id == user_id) rows)
