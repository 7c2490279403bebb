-- ===== src/Payments/Services.antt =====
-- backend/apps/payments/services.py: orders, the ECPay callback and the credit balances, over tables
-- that are parameters.
pub mod Callback
pub mod Ledger
pub mod Effects
pub mod Whole
use ai_chat_websocket.Prelude.{
  ◌≡◌, ℕ, ◌+◌, Text, codes, Bool, true, false, Option, none, some, List, [], ◌∷◌, Result, ok, err,
  ◌>>=◌, or_raise, ◌==◌, text_eq, if◌then◌else◌,
}
use ai_chat_websocket.Platform.KeyStore.{KeyStore}
use ai_chat_websocket.Platform.TextCase.{TextCase}
use ai_chat_websocket.Core.Errors.{
  Error, database_error, integrity_error, validation_error, type_error,
}
use ai_chat_websocket.Payments.Models.{
  CreditPackage, OrderStatus, pending, paid, failed, PaymentOrder,
}
use ai_chat_websocket.Payments.Ecpay.{Params, param, param_or, verify_check_mac_value}

-- The tables, and what the deployment configures. `rollback` is what leaving a `transaction.atomic()` block by an
-- exception does, from the state at its start and the state that it has come to. `order_id` is the id of the order
-- with a trade number, which is unique.
pub record Backend : Type 1 where
  pub packages : KeyStore ℕ CreditPackage
  pub orders : KeyStore Text PaymentOrder
  pub balances : KeyStore ℕ ℕ
  pub text_case : TextCase
  pub sha256 : Text → Text
  pub hash_key : Text
  pub hash_iv : Text
  pub order_id : Text → ℕ
  pub rollback : {S : Type 0} → S → S → S
  pub rolls_back : {S : Type 0} (start s : S) → rollback start s ≡ start

abbrev pub one_ok : Text
one_ok = codes "1|OK"

module _ (backend : Backend) where
  open backend use {packages, orders, balances, text_case, sha256, hash_key, hash_iv}

  pub record Db : Type 0 where
    pub package_table : packages.State
    pub order_table : orders.State
    pub balance_table : balances.State

  -- `get_or_create(user_id, defaults={"balance": amount})`, then `F("balance") + amount` if the row
  -- was there
  unfoldable pub award_credits : ℕ → ℕ → balances.State → Option balances.State
  award_credits user_id amount t = elim (balances.find user_id t) [
    | none ↦ balances.put user_id amount t
    | some b ↦ balances.put user_id (b + amount) t
  ]

  -- the fields that every processed callback writes
  unfoldable pub stamped : Params → PaymentOrder → PaymentOrder
  stamped params order = record order {
    ecpay_trade_no = param_or (codes "TradeNo") [] params;
    rtn_code = param_or (codes "RtnCode") [] params;
    rtn_msg = param_or (codes "RtnMsg") [] params;
  }

  unfoldable pub mark_paid : Params → PaymentOrder → PaymentOrder
  unfolding stamped
  mark_paid params order = record (stamped params order) {
    status = paid;
    payment_date = param (codes "PaymentDate") params;
  }

  unfoldable pub mark_failed : Params → PaymentOrder → PaymentOrder
  unfolding stamped
  mark_failed params order = record (stamped params order) { status = failed }

  -- What the block under `transaction.atomic()` returns or raises, and what it has written by then.
  abbrev pub Outcome : Type 0
  Outcome = Result Error (Unit {0}) × Db

  -- `order.save(...)`
  unfoldable pub save_order : Text → PaymentOrder → Db → Outcome
  save_order trade_no order db = elim (orders.put trade_no order db.order_table) [
    | none ↦ (err database_error, db)
    | some saved ↦ (ok tt, record db { order_table = saved })
  ]

  -- `_award_credits`, once the order is saved
  unfoldable pub then_award : PaymentOrder → Outcome → Outcome
  then_award order (err e, db) = (err e, db)
  then_award order (ok u, db) =
      elim (award_credits order.user_id order.credits_awarded db.balance_table) [
        | none ↦ (err database_error, db)
        | some awarded ↦ (ok tt, record db { balance_table = awarded })
      ]

  -- the two ways in which a pending order is settled
  unfoldable pub settle : Text → Params → PaymentOrder → Db → Outcome
  unfolding save_order then_award
  settle trade_no params order db =
      if param_or (codes "RtnCode") [] params == codes "1"
      then then_award order (save_order trade_no (mark_paid params order) db)
      else save_order trade_no (mark_failed params order) db

  -- An order that is already paid or failed is left alone.
  unfoldable pub settle_if_pending : OrderStatus → Text → Params → PaymentOrder → Db → Outcome
  settle_if_pending pending trade_no params order db = settle trade_no params order db
  settle_if_pending paid trade_no params order db = (ok tt, db)
  settle_if_pending failed trade_no params order db = (ok tt, db)

  -- the block under `transaction.atomic()`
  unfoldable pub process_found : Option PaymentOrder → Text → Params → Db → Outcome
  process_found none trade_no params db = (ok tt, db)
  process_found (some order) trade_no params db =
      settle_if_pending order.status trade_no params order db

  -- the end of the block, from `start` at its beginning
  abbrev pub atomic : Db → Outcome → Result Error Text × Db
  atomic start (ok u, db) = (ok one_ok, db)
  atomic start (err e, db) = (err e, backend.rollback start db)

  -- after the check of the CheckMacValue, which may itself raise
  unfoldable pub process_verified : Option Bool → Params → Db → Result Error Text × Db
  process_verified none params db = (err type_error, db)
  process_verified (some false) params db = (ok one_ok, db)
  process_verified (some true) params db =
      let trade_no = param_or (codes "MerchantTradeNo") [] params in
      atomic db (process_found (orders.find trade_no db.order_table) trade_no params db)

  unfoldable pub process_ecpay_callback : Params → Db → Result Error Text × Db
  process_ecpay_callback params db =
      process_verified (verify_check_mac_value text_case sha256 hash_key hash_iv params) params db

  -- `get_or_create(user_id, defaults={"balance": 0})`
  unfoldable pub get_user_balance : ℕ → Db → Result Error ℕ × Db
  get_user_balance user_id db = elim (balances.find user_id db.balance_table) [
    | some b ↦ (ok b, db)
    | none ↦ elim (balances.put user_id 0 db.balance_table) [
      | some t ↦ (ok 0, record db { balance_table = t })
      | none ↦ (err database_error, db)
    ]
  ]

  -- the new row of `create_payment_order`, which copies the price and the credits of the package
  unfoldable pub new_order : ℕ → ℕ → CreditPackage → Text → PaymentOrder
  new_order user_id package_id bundle trade_no = record {
    user_id = user_id;
    package_id = package_id;
    merchant_trade_no = trade_no;
    status = pending;
    amount = bundle.price;
    credits_awarded = bundle.credits;
    ecpay_trade_no = [];
    payment_date = none;
    rtn_code = [];
    rtn_msg = [];
  }

  -- `objects.create`: the trade number is unique, and a second row with it is refused
  unfoldable pub insert_order : Text → PaymentOrder → orders.State → Result Error orders.State
  insert_order trade_no order t = elim (orders.find trade_no t) [
    | some other ↦ err integrity_error
    | none ↦ or_raise (orders.put trade_no order t) database_error
  ]

  abbrev pub active_only : Option CreditPackage → Option CreditPackage
  active_only none = none
  active_only (some bundle) = if bundle.is_active then some bundle else none

  -- `trade_no` is what `generate_merchant_trade_no` has answered; the form is built from the order
  -- and changes nothing.
  unfoldable pub create_payment_order : ℕ → ℕ → Text → Db → Result Error PaymentOrder × Db
  create_payment_order user_id package_id trade_no db =
      elim (active_only (packages.find package_id db.package_table)) [
        | none ↦ (err (validation_error (codes "Invalid or inactive credit package")), db)
        | some bundle ↦
            let order = new_order user_id package_id bundle trade_no in
            elim (insert_order trade_no order db.order_table) [
              | err e ↦ (err e, db)
              | ok t ↦ (ok order, record db { order_table = t })
            ]
      ]
