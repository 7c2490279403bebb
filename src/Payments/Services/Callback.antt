-- ===== src/Payments/Services/Callback.antt =====
-- One ECPay callback: how a pending order is settled, and what a repeated callback does.
use ai_chat_websocket.Prelude.{
  ℕ, ◌+◌, Text, codes, ◌≡◌, refl, ap, sym, ◌∙◌, ◌⊎◌, inl, inr, Bool, true, false, Option, none,
  some, [], Result, ok, err, ◌==◌, text_eq, nat_eq, if◌then◌else◌, Bool-cases, Option-cases, arith,
}
use ai_chat_websocket.Platform.KeyStore.{find-put}
use ai_chat_websocket.Core.Errors.{Error}
use ai_chat_websocket.Payments.Models.{OrderStatus, pending, paid, failed, PaymentOrder}
use ai_chat_websocket.Payments.Ecpay.{Params, param_or, verify_check_mac_value}
use ai_chat_websocket.Payments.Services.{
  Backend, Db, Outcome, save_order, then_award, one_ok, award_credits, mark_paid, mark_failed,
  settle, settle_if_pending, process_found, process_verified, atomic, process_ecpay_callback,
}

raised_absurd : {A : Type 0} {a : A} {e : Error} → Path (Result Error A) (err e) (ok a) → ⊥
raised_absurd h = cc h

abbrev pub IsSettled : OrderStatus → Type 0
IsSettled pending = ⊥
IsSettled paid = Unit
IsSettled failed = Unit

module _ (backend : Backend) where
  open backend use {orders, balances, text_case, sha256, hash_key, hash_iv}

  -- `user.credit_balance`, where no row counts as 0
  abbrev pub balance_of : ℕ → balances.State → ℕ
  balance_of user_id t = elim (balances.find user_id t) [ none ↦ 0 | some b ↦ b ]

  pub balance_of-award_credits :
      (user_id amount u : ℕ) (t t' : balances.State)
      → award_credits backend user_id amount t ≡ some t'
      → balance_of u t' ≡ balance_of u t + (if user_id == u then amount else 0)
  unfolding award_credits
  balance_of-award_credits user_id amount u t t' h = elim (Option-cases (balances.find user_id t)) [
    | inl e ↦
        ground (arith, e, find-put balances user_id u amount t t' (rw (e, award_credits) at h))
    | inr (b, e) ↦
        ground
          (arith, e, find-put balances user_id u (b + amount) t t' (rw (e, award_credits) at h))
  ]

  saved-eq-ok :
      (trade_no : Text) (o : PaymentOrder) (db db' : Db backend)
      → save_order backend trade_no o db ≡ (ok tt, db')
      → (orders.put trade_no o db.order_table ≡ some db'.order_table)
        × (db'.balance_table ≡ db.balance_table)
  unfolding save_order
  saved-eq-ok trade_no o db db' h = elim (Option-cases (orders.put trade_no o db.order_table)) [
    | inl e ↦ absurd (raised_absurd (ap (λ r. r.0) (rw (e, save_order) at h)))
    | inr (saved, e) ↦
        let same : record db { order_table = saved } ≡ db' =
          ap (λ r. r.1) (rw (e, save_order) at h) in
        (
          e ∙ ap (λ (d : Db backend). some d.order_table) same,
          sym (ap (λ (d : Db backend). d.balance_table) same),
        )
  ]

  awarded-eq-ok :
      (o : PaymentOrder) (before : Outcome backend) (db' : Db backend)
      → then_award backend o before ≡ (ok tt, db')
      → (before.0 ≡ ok tt)
        × (db'.order_table ≡ before.1.order_table)
        × (award_credits backend o.user_id o.credits_awarded before.1.balance_table
            ≡ some db'.balance_table)
  unfolding then_award
  awarded-eq-ok o (err e, db) db' h = absurd (raised_absurd (ap (λ r. r.0) h))
  awarded-eq-ok o (ok u, db) db' h =
      elim (Option-cases (award_credits backend o.user_id o.credits_awarded db.balance_table)) [
        | inl e ↦ absurd (raised_absurd (ap (λ r. r.0) (rw (e, then_award) at h)))
        | inr (awarded, e) ↦
            let same : record db { balance_table = awarded } ≡ db' =
              ap (λ r. r.1) (rw (e, then_award) at h) in
            (
              refl,
              sym (ap (λ (d : Db backend). d.order_table) same),
              e ∙ ap (λ (d : Db backend). some d.balance_table) same,
            )
      ]

  -- The successful ways through `settle`.
  pub settle-eq-ok :
      (trade_no : Text) (params : Params) (order : PaymentOrder) (db db' : Db backend)
      → settle backend trade_no params order db ≡ (ok tt, db')
      → ((param_or (codes "RtnCode") [] params == codes "1" ≡ true)
          × (orders.put trade_no (mark_paid backend params order) db.order_table
              ≡ some db'.order_table)
          × (award_credits backend order.user_id order.credits_awarded db.balance_table
              ≡ some db'.balance_table))
        ⊎ ((param_or (codes "RtnCode") [] params == codes "1" ≡ false)
            × (orders.put trade_no (mark_failed backend params order) db.order_table
                ≡ some db'.order_table)
            × (db'.balance_table ≡ db.balance_table))
  unfolding settle
  settle-eq-ok trade_no params order db db' h =
      elim (Bool-cases (param_or (codes "RtnCode") [] params == codes "1")) [
        | inl one ↦
            let saving = save_order backend trade_no (mark_paid backend params order) db in
            let (fine, same, award) = awarded-eq-ok order saving db' (rw one at h) in
            let (put, keep) =
              saved-eq-ok trade_no (mark_paid backend params order) db saving.1
                (ap (λ r. (r, saving.1)) fine) in
            inl (
              one,
              put ∙ ap some (sym same),
              ap (award_credits backend order.user_id order.credits_awarded) (sym keep) ∙ award,
            )
        | inr other ↦
            let (put, keep) =
              saved-eq-ok trade_no (mark_failed backend params order) db db' (rw other at h) in
            inr (other, put, keep)
      ]

  settle-IsSettled :
      (trade_no : Text) (params : Params) (order : PaymentOrder) (db db' : Db backend)
      → settle backend trade_no params order db ≡ (ok tt, db')
      → (o : PaymentOrder) × (orders.find trade_no db'.order_table ≡ some o) × IsSettled o.status
  unfolding mark_paid mark_failed
  settle-IsSettled trade_no params order db db' h =
      elim (settle-eq-ok trade_no params order db db' h) [
        | inl (one, put, award) ↦
            (mark_paid backend params order, orders.find-put_self _ _ _ _ put, tt)
        | inr (other, put, keep) ↦
            (mark_failed backend params order, orders.find-put_self _ _ _ _ put, tt)
      ]

  settled-settle_if_pending :
      (s : OrderStatus) (trade_no : Text) (params : Params) (o : PaymentOrder) (db : Db backend)
      → IsSettled s
      → settle_if_pending backend s trade_no params o db ≡ (ok tt, db)
  unfolding settle_if_pending
  settled-settle_if_pending pending trade_no params o db h = absurd h
  settled-settle_if_pending paid trade_no params o db h = refl
  settled-settle_if_pending failed trade_no params o db h = refl

  pub settled-process_found :
      (trade_no : Text) (params : Params) (o : PaymentOrder) (db : Db backend)
      → orders.find trade_no db.order_table ≡ some o
      → IsSettled o.status
      → process_found backend (orders.find trade_no db.order_table) trade_no params db ≡ (ok tt, db)
  unfolding process_found
  settled-process_found trade_no params o db e h =
      rw e (settled-settle_if_pending o.status trade_no params o db h)

  -- An answered callback has settled a pending order, or has found a settled one and kept all.
  pub settle_if_pending-eq-ok :
      (s : OrderStatus) (trade_no : Text) (params : Params) (o : PaymentOrder) (db db' : Db backend)
      → settle_if_pending backend s trade_no params o db ≡ (ok tt, db')
      → (IsSettled s × (db ≡ db'))
        ⊎ ((s ≡ pending) × (settle backend trade_no params o db ≡ (ok tt, db')))
  unfolding settle_if_pending
  settle_if_pending-eq-ok pending trade_no params o db db' h = inr (refl, h)
  settle_if_pending-eq-ok paid trade_no params o db db' h = inl (tt, ap (λ r. r.1) h)
  settle_if_pending-eq-ok failed trade_no params o db db' h = inl (tt, ap (λ r. r.1) h)

  after_found :
      (trade_no : Text) (params : Params) (o : PaymentOrder) (db db' : Db backend)
      → orders.find trade_no db.order_table ≡ some o
      → settle_if_pending backend o.status trade_no params o db ≡ (ok tt, db')
      → process_found backend (orders.find trade_no db'.order_table) trade_no params db'
        ≡ (ok tt, db')
  after_found trade_no params o db db' e h =
      elim (settle_if_pending-eq-ok o.status trade_no params o db db' h) [
        | inl (done, same) ↦
            settled-process_found trade_no params o db'
              (ap (λ (d : Db backend). orders.find trade_no d.order_table) (sym same) ∙ e) done
        | inr (waiting, settled) ↦
            let (o', found, done) = settle-IsSettled trade_no params o db db' settled in
            settled-process_found trade_no params o' db' found done
      ]

  after_settling :
      (trade_no : Text) (params : Params) (o : Option PaymentOrder) (db db' : Db backend)
      → orders.find trade_no db.order_table ≡ o
      → process_found backend o trade_no params db ≡ (ok tt, db')
      → process_found backend (orders.find trade_no db'.order_table) trade_no params db'
        ≡ (ok tt, db')
  unfolding process_found
  after_settling trade_no params none db db' e h =
      let same : db ≡ db' = ap (λ r. r.1) h in
      rw (ap (λ (d : Db backend). orders.find trade_no d.order_table) (sym same) ∙ e)
  after_settling trade_no params (some o) db db' e h = after_found trade_no params o db db' e h

  atomic_again :
      (params : Params) (db : Db backend) (answer : Text) (r : Outcome backend)
      → let trade_no = param_or (codes "MerchantTradeNo") [] params in
        process_found backend (orders.find trade_no db.order_table) trade_no params db ≡ r
        → (atomic backend db r).0 ≡ ok answer
        → process_verified backend (some true) params (atomic backend db r).1
          ≡ (ok one_ok, (atomic backend db r).1)
  unfolding process_verified
  atomic_again params db answer (ok u, db') e h =
      rw (after_settling (param_or (codes "MerchantTradeNo") [] params) params _ db db' refl e)
  atomic_again params db answer (err x, db') e h = cc

  verified_again :
      (v : Option Bool) (params : Params) (db : Db backend) (answer : Text)
      → (process_verified backend v params db).0 ≡ ok answer
      → process_verified backend v params (process_verified backend v params db).1
        ≡ (ok one_ok, (process_verified backend v params db).1)
  unfolding process_verified
  verified_again none params db answer h = cc
  verified_again (some false) params db answer h = refl
  verified_again (some true) params db answer h = atomic_again params db answer _ refl h

  -- ECPay may send a callback again: once one has been answered "1|OK", the same parameters are
  -- answered "1|OK" again and change nothing.
  pub process-process :
      (params : Params) (db : Db backend) (answer : Text)
      → (process_ecpay_callback backend params db).0 ≡ ok answer
      → process_ecpay_callback backend params (process_ecpay_callback backend params db).1
        ≡ (ok one_ok, (process_ecpay_callback backend params db).1)
  unfolding process_ecpay_callback
  process-process params db answer h =
      verified_again (verify_check_mac_value text_case sha256 hash_key hash_iv params) params db
        answer h
