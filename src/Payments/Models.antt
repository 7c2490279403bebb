-- ===== src/Payments/Models.antt =====
-- backend/apps/payments/models.py. An id (a UUID) is only compared, so it is a number.
use ai_chat_websocket.Prelude.{ℕ, Text, Bool, Option}

pub record CreditPackage : Type 0 where
  pub id : ℕ
  pub name : Text
  pub credits : ℕ
  pub price : ℕ
  pub description : Text
  pub is_active : Bool
  pub sort_order : ℕ

pub data OrderStatus : Type 0 where
  pending paid failed : OrderStatus

-- `payment_date` is the text that the program assigns; the column holds a time, and the database
-- layer refuses a text that it cannot read as one.
pub record PaymentOrder : Type 0 where
  pub user_id : ℕ
  pub package_id : ℕ
  pub merchant_trade_no : Text
  pub status : OrderStatus
  pub amount : ℕ
  pub credits_awarded : ℕ
  pub ecpay_trade_no : Text
  pub payment_date : Option Text
  pub rtn_code : Text
  pub rtn_msg : Text
