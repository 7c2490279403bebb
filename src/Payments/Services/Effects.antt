-- ===== src/Payments/Services/Effects.antt =====
-- What one callback can change, and what it leaves when it raises.
use ai_chat_websocket.Prelude.{
  ℕ, ◌+◌, codes, ◌≡◌, ◌≢◌, refl, ap, sym, inl, inr, Bool, true, false, Option, none, some, [], ok,
  err, text_eq, nat_eq, nat_beq, nat_beq_iff, Bool-cases, arith,
}
use ai_chat_websocket.Payments.Models.{pending, paid, PaymentOrder}
use ai_chat_websocket.Payments.Ecpay.{Params, param_or, verify_check_mac_value}
use ai_chat_websocket.Payments.Services.{
  Backend, Db, Outcome, process_found, process_verified, atomic, process_ecpay_callback, settle,
  mark_paid,
}
use ai_chat_websocket.Payments.Services.Callback.{
  balance_of, balance_of-award_credits, settle-eq-ok, settle_if_pending-eq-ok,
}

module _ (backend : Backend) where
  open backend use {orders, balances, text_case, sha256, hash_key, hash_iv}

  -- The order that the callback names has been pending, is the user's and is paid now, and the
  -- balance has grown by its credits.
  pub record IsPayment (params : Params) (u : ℕ) (db db' : Db backend) : Type 0 where
    pub order : PaymentOrder
    pub paid_order : PaymentOrder
    pub found :
        orders.find (param_or (codes "MerchantTradeNo") [] params) db.order_table ≡ some order
    pub was_pending : order.status ≡ pending
    pub of_user : order.user_id ≡ u
    pub found_paid :
        orders.find (param_or (codes "MerchantTradeNo") [] params) db'.order_table ≡ some paid_order
    pub is_paid : paid_order.status ≡ paid
    pub grown :
        balance_of backend u db'.balance_table
        ≡ balance_of backend u db.balance_table + order.credits_awarded

  settle-IsPayment :
      (params : Params) (u : ℕ) (o : PaymentOrder) (db db' : Db backend)
      → orders.find (param_or (codes "MerchantTradeNo") [] params) db.order_table ≡ some o
      → o.status ≡ pending
      → settle backend (param_or (codes "MerchantTradeNo") [] params) params o db ≡ (ok tt, db')
      → balance_of backend u db'.balance_table ≢ balance_of backend u db.balance_table
      → IsPayment params u db db'
  unfolding mark_paid
  settle-IsPayment params u o db db' e waiting h change =
      elim (settle-eq-ok backend _ params o db db' h) [
        | inr (other, put, keep) ↦ absurd (change (ap (balance_of backend u) keep))
        | inl (one, put, award) ↦
            let effect =
              balance_of-award_credits backend o.user_id o.credits_awarded u db.balance_table
                db'.balance_table award in
            elim (Bool-cases (nat_beq o.user_id u)) [
              | inr other ↦ absurd (change (ground (arith, effect, other)))
              | inl same ↦ record {
                order = o;
                paid_order = mark_paid backend params o;
                found = e;
                was_pending = waiting;
                of_user = (nat_beq_iff o.user_id u).0 same;
                found_paid = orders.find-put_self _ _ _ _ put;
                is_paid = refl;
                grown = ground (arith, effect, same);
              }
            ]
      ]

  found-IsPayment :
      (params : Params) (u : ℕ) (o : Option PaymentOrder) (db db' : Db backend)
      → orders.find (param_or (codes "MerchantTradeNo") [] params) db.order_table ≡ o
      → process_found backend o (param_or (codes "MerchantTradeNo") [] params) params db
        ≡ (ok tt, db')
      → balance_of backend u db'.balance_table ≢ balance_of backend u db.balance_table
      → IsPayment params u db db'
  unfolding process_found
  found-IsPayment params u none db db' e h change = absurd (
      change
        (ap (λ (d : Db backend). balance_of backend u d.balance_table) (sym (ap (λ r. r.1) h))))
  found-IsPayment params u (some o) db db' e h change =
      elim (settle_if_pending-eq-ok backend o.status _ params o db db' h) [
        | inl (done, same) ↦
            absurd
              (change (ap (λ (d : Db backend). balance_of backend u d.balance_table) (sym same)))
        | inr (waiting, settled) ↦ settle-IsPayment params u o db db' e waiting settled change
      ]

  atomic-IsPayment :
      (params : Params) (u : ℕ) (db : Db backend) (r : Outcome backend)
      → process_found backend
          (orders.find (param_or (codes "MerchantTradeNo") [] params) db.order_table)
          (param_or (codes "MerchantTradeNo") [] params)
          params
          db
        ≡ r
      → balance_of backend u (atomic backend db r).1.balance_table
        ≢ balance_of backend u db.balance_table
      → IsPayment params u db (atomic backend db r).1
  atomic-IsPayment params u db (ok v, db') h change =
      found-IsPayment params u _ db db' refl h change
  atomic-IsPayment params u db (err e, db') h change = absurd (
      change
        (ap (λ (d : Db backend). balance_of backend u d.balance_table) (backend.rolls_back db db')))

  verified-IsPayment :
      (v : Option Bool) (params : Params) (u : ℕ) (db : Db backend)
      → balance_of backend u (process_verified backend v params db).1.balance_table
        ≢ balance_of backend u db.balance_table
      → (v ≡ some true) × IsPayment params u db (process_verified backend v params db).1
  unfolding process_verified
  verified-IsPayment none params u db change = absurd (change refl)
  verified-IsPayment (some false) params u db change = absurd (change refl)
  verified-IsPayment (some true) params u db change =
      (refl, atomic-IsPayment params u db _ refl change)

  -- A callback changes the balance of a user only if its CheckMacValue verifies, it names a pending
  -- order of that user, the order is paid afterwards, and the balance grows by exactly the credits
  -- of the order.
  pub balance_changes :
      (params : Params) (u : ℕ) (db : Db backend)
      → balance_of backend u (process_ecpay_callback backend params db).1.balance_table
        ≢ balance_of backend u db.balance_table
      → (verify_check_mac_value text_case sha256 hash_key hash_iv params ≡ some true)
        × IsPayment params u db (process_ecpay_callback backend params db).1
  unfolding process_ecpay_callback
  balance_changes params u db change = verified-IsPayment _ params u db change
