-- ===== src/Payments/Services/Whole.antt =====
-- What one callback does, all of it or nothing (`process_ecpay_callback` of payments/services.py).
use mathlib.Core.Option.{some-injective}
use ai_chat_websocket.Prelude.{
  ℕ, ◌+◌, Text, codes, ◌≡◌, refl, ap, sym, subst, ◌⊎◌, inl, inr, Bool, true, false, Option, none,
  some, [], ◌∙◌, Result, ok, err, ◌==◌, text_eq, nat_eq, if◌then◌else◌,
}
use ai_chat_websocket.Platform.KeyStore.{find-put}
use ai_chat_websocket.Core.Errors.{Error, type_error}
use ai_chat_websocket.Payments.Models.{pending, paid, failed, PaymentOrder}
use ai_chat_websocket.Payments.Ecpay.{Params, param_or, verify_check_mac_value}
use ai_chat_websocket.Payments.Services.{
  Backend, Db, Outcome, one_ok, mark_paid, mark_failed, settle, process_found, process_verified,
  atomic, process_ecpay_callback,
}
use ai_chat_websocket.Payments.Services.Callback.{
  IsSettled, balance_of, balance_of-award_credits, settle-eq-ok, settle_if_pending-eq-ok,
}

module _ (backend : Backend) where
  open backend use {orders, text_case, sha256, hash_key, hash_iv}

  module _ (params : Params) (db : Db backend) where
    abbrev pub trade_number : Text
    trade_number = param_or (codes "MerchantTradeNo") [] params

    abbrev pub is_success : Bool
    is_success = param_or (codes "RtnCode") [] params == codes "1"

    abbrev pub check : Option Bool
    check = verify_check_mac_value text_case sha256 hash_key hash_iv params

    -- Nothing to do: the order does not exist or is settled.
    abbrev pub IsDone : Type 0
    IsDone =
        (o : PaymentOrder) → orders.find trade_number db.order_table ≡ some o → IsSettled o.status

    -- Of the orders only the named one is another one now.
    abbrev pub IsReplaced : PaymentOrder → Db backend → Type 0
    IsReplaced o' db' =
        (k : Text)
        → orders.find k db'.order_table
          ≡ (if trade_number == k then some o' else orders.find k db.order_table)

    -- The new order is paid and every balance has what it had, the owner's with the credits on top.
    abbrev pub IsCredited : PaymentOrder → PaymentOrder → Db backend → Type 0
    IsCredited o o' db' =
        (is_success ≡ true)
        × (o'.status ≡ paid)
        × ((u : ℕ)
            → balance_of backend u db'.balance_table
              ≡ balance_of backend u db.balance_table
                + (if o.user_id == u then o.credits_awarded else 0))

    abbrev pub IsRefused : PaymentOrder → Db backend → Type 0
    IsRefused o' db' =
        (is_success ≡ false) × (o'.status ≡ failed) × (db'.balance_table ≡ db.balance_table)

    pub data IsWhole : Result Error Text × Db backend → Type 0 where
      raised : (e : Error) → IsWhole (err e, db)
      kept : (check ≡ some false) ⊎ IsDone → IsWhole (ok one_ok, db)
      settled :
          {db' : Db backend} (o o' : PaymentOrder)
          → check ≡ some true
          → orders.find trade_number db.order_table ≡ some o
          → o.status ≡ pending
          → IsReplaced o' db'
          → IsCredited o o' db' ⊎ IsRefused o' db'
          → IsWhole (ok one_ok, db')

    settle-IsWhole :
        (o : PaymentOrder) (db' : Db backend)
        → check ≡ some true
        → orders.find trade_number db.order_table ≡ some o
        → o.status ≡ pending
        → settle backend trade_number params o db ≡ (ok tt, db')
        → IsWhole (ok one_ok, db')
    unfolding mark_paid mark_failed
    settle-IsWhole o db' valid e waiting h =
        elim (settle-eq-ok backend trade_number params o db db' h) [
          | inl (one, put, award) ↦
              settled o (mark_paid backend params o) valid e waiting
                (λ k. find-put orders trade_number k _ _ _ put)
                (inl (
                  one,
                  refl,
                  λ u.
                      balance_of-award_credits backend o.user_id o.credits_awarded u
                        db.balance_table db'.balance_table award,
                ))
          | inr (other, put, keep) ↦
              settled o (mark_failed backend params o) valid e waiting
                (λ k. find-put orders trade_number k _ _ _ put) (inr (other, refl, keep))
        ]

    found-IsWhole :
        (found : Option PaymentOrder) (db' : Db backend)
        → check ≡ some true
        → orders.find trade_number db.order_table ≡ found
        → process_found backend found trade_number params db ≡ (ok tt, db')
        → IsWhole (ok one_ok, db')
    unfolding process_found
    found-IsWhole none db' valid e h =
        subst (λ d. IsWhole (ok one_ok, d)) (ap (λ r. r.1) h)
          (kept (inr (λ o there. absurd (cc (e, there)))))
    found-IsWhole (some o) db' valid e h =
        elim (settle_if_pending-eq-ok backend o.status trade_number params o db db' h) [
          | inl (done, same) ↦
              subst (λ d. IsWhole (ok one_ok, d)) same
                (kept (
                  inr (λ p there.
                    subst (λ (q : PaymentOrder). IsSettled q.status)
                      (some-injective _ _ (sym e ∙ there)) done)))
          | inr (waiting, h') ↦ settle-IsWhole o db' valid e waiting h'
        ]

    atomic-IsWhole :
        (r : Outcome backend)
        → check ≡ some true
        → process_found backend (orders.find trade_number db.order_table) trade_number params db ≡ r
        → IsWhole (atomic backend db r)
    atomic-IsWhole (ok u, db') valid h = found-IsWhole _ db' valid refl h
    atomic-IsWhole (err e, db') valid h =
        subst (λ d. IsWhole (err e, d)) (sym (backend.rolls_back db db')) (raised e)

    verified-IsWhole :
        (v : Option Bool) → check ≡ v → IsWhole (process_verified backend v params db)
    unfolding process_verified
    verified-IsWhole none e = raised type_error
    verified-IsWhole (some false) e = kept (inl e)
    verified-IsWhole (some true) e = atomic-IsWhole _ e refl

  -- A callback does all of its work or none. Either it raises and has changed nothing, at whichever write it
  -- raises; or it is answered "1|OK" and has changed nothing, because its CheckMacValue does not verify or
  -- no order waits for it; or it is answered "1|OK", its CheckMacValue verifies and the order that it names was
  -- pending. Then no other order has changed, and with the RtnCode 1 the order is paid now, its owner's
  -- balance has grown by its credits and no other balance has changed; with another RtnCode the order has
  -- failed and the balances are what they were.
  pub process-IsWhole :
      (params : Params) (db : Db backend)
      → IsWhole params db (process_ecpay_callback backend params db)
  unfolding process_ecpay_callback
  process-IsWhole params db = verified-IsWhole params db _ refl
