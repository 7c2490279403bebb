-- ===== src/Payments/Services/Ledger.antt =====
-- Orders and balances together: every credit comes from a paid order, once.
pub mod Totals
use ai_chat_websocket.Prelude.{
  ℕ, ◌+◌, Text, codes, ◌≡◌, ◌≢◌, refl, ap, subst, sym, ◌∙◌, ◌⊎◌, inl, inr, Bool, true, false, ◌||◌,
  Option, none, some, List, [], ◌∷◌, Result, ok, err, ok-injective, ◌==◌, text_eq, nat_eq,
  if◌then◌else◌, Bool-cases, Option-cases, arith,
}
use ai_chat_websocket.Platform.KeyStore.{KeyStore, find-put}
use ai_chat_websocket.Core.Errors.{Error}
use ai_chat_websocket.Payments.Models.{OrderStatus, pending, paid, failed, PaymentOrder}
use ai_chat_websocket.Payments.Ecpay.{Params, param_or, verify_check_mac_value}
use ai_chat_websocket.Payments.Services.{
  Backend, Db, Outcome, process_found, process_verified, atomic, process_ecpay_callback,
  create_payment_order, insert_order, get_user_balance, settle, settle_if_pending, mark_paid,
  mark_failed, new_order, stamped, active_only,
}
use ai_chat_websocket.Payments.Services.Callback.{
  IsSettled, balance_of, balance_of-award_credits, settle-eq-ok, settle_if_pending-eq-ok,
}
use Totals.{
  Lists, Lists-put, Lists-put_new, has, contains, Distinct, paid_credits, paid_credits-pending,
  paid_total, paid_total-put, paid_total-put_other,
}

-- What reaches the payment service.
pub data Event : Type 0 where
  ordered : ℕ → ℕ → Text → Event
  notified : Params → Event
  balance_read : ℕ → Event

module _ (backend : Backend) where
  open backend use {orders, balances}

  abbrev pub with_order :
      Text → Result Error PaymentOrder × Db backend → List Text → Db backend × List Text
  with_order trade_no (ok o, db) nos = (db, trade_no ∷ nos)
  with_order trade_no (err e, db) nos = (db, nos)

  -- One event, beside the list of the trade numbers that have been given out.
  unfoldable pub serve : Event → Db backend → List Text → Db backend × List Text
  serve (ordered user_id package_id trade_no) db nos =
      with_order trade_no (create_payment_order backend user_id package_id trade_no db) nos
  serve (notified params) db nos = ((process_ecpay_callback backend params db).1, nos)
  serve (balance_read user_id) db nos = ((get_user_balance backend user_id db).1, nos)

  unfoldable pub serve_all : List Event → Db backend → List Text → Db backend × List Text
  serve_all [] db nos = (db, nos)
  serve_all (e ∷ es) db nos = let (db', nos') = serve e db nos in serve_all es db' nos'

  -- The trade numbers are those of the orders, and each balance is the sum over the paid orders.
  pub record IsLedger (db : Db backend) (nos : List Text) : Type 0 where
    pub distinct : Distinct nos
    pub listed : Lists orders nos db.order_table
    pub balanced :
        (u : ℕ) → balance_of backend u db.balance_table ≡ paid_total orders u nos db.order_table

  settled-IsLedger :
      (trade_no : Text) (o o' : PaymentOrder) (db db' : Db backend) (nos : List Text)
      → IsLedger db nos
      → orders.find trade_no db.order_table ≡ some o
      → o.status ≡ pending
      → orders.put trade_no o' db.order_table ≡ some db'.order_table
      → ((u : ℕ)
          → balance_of backend u db'.balance_table
            ≡ balance_of backend u db.balance_table + paid_credits u (some o'))
      → IsLedger db' nos
  settled-IsLedger trade_no o o' db db' nos l e waiting put paid' =
      let here : contains trade_no nos ≡ true = l.listed trade_no ∙ ap has e in
      record {
        distinct = l.distinct;
        listed = Lists-put orders trade_no o' nos db.order_table db'.order_table put l.listed here;
        balanced = λ u. omega (
          arith,
          paid' u,
          l.balanced u,
          ap (paid_credits u) e,
          paid_credits-pending u o waiting,
          paid_total-put orders u trade_no o' nos db.order_table db'.order_table put l.distinct
              here,
        );
      }

  settle-IsLedger :
      (trade_no : Text) (params : Params) (o : PaymentOrder) (db db' : Db backend) (nos : List Text)
      → IsLedger db nos
      → orders.find trade_no db.order_table ≡ some o
      → o.status ≡ pending
      → settle backend trade_no params o db ≡ (ok tt, db')
      → IsLedger db' nos
  unfolding mark_paid mark_failed
  settle-IsLedger trade_no params o db db' nos l e waiting h =
      elim (settle-eq-ok backend trade_no params o db db' h) [
        | inl (one, put, award) ↦
            settled-IsLedger trade_no o (mark_paid backend params o) db db' nos l e waiting put λ u.
              balance_of-award_credits backend o.user_id o.credits_awarded u db.balance_table
                db'.balance_table award
        | inr (other, put, keep) ↦
            settled-IsLedger trade_no o (mark_failed backend params o) db db' nos l e waiting put
              λ u. rw keep (ground arith)
      ]

  process_found-IsLedger :
      (found : Option PaymentOrder) (trade_no : Text) (params : Params) (db db' : Db backend)
      (nos : List Text)
      → IsLedger db nos
      → orders.find trade_no db.order_table ≡ found
      → process_found backend found trade_no params db ≡ (ok tt, db')
      → IsLedger db' nos
  unfolding process_found
  process_found-IsLedger none trade_no params db db' nos l e h =
      subst (λ d. IsLedger d nos) (ap (λ r. r.1) h) l
  process_found-IsLedger (some o) trade_no params db db' nos l e h =
      elim (settle_if_pending-eq-ok backend o.status trade_no params o db db' h) [
        | inl (done, same) ↦ subst (λ d. IsLedger d nos) same l
        | inr (waiting, settled) ↦ settle-IsLedger trade_no params o db db' nos l e waiting settled
      ]

  atomic-IsLedger :
      (r : Outcome backend) (db : Db backend) (nos : List Text)
      → IsLedger db nos
      → ((db' : Db backend) → r ≡ (ok tt, db') → IsLedger db' nos)
      → IsLedger (atomic backend db r).1 nos
  atomic-IsLedger (ok u, db') db nos l h = h db' refl
  atomic-IsLedger (err e, db') db nos l h =
      subst (λ d. IsLedger d nos) (sym (backend.rolls_back db db')) l

  verified-IsLedger :
      (v : Option Bool) (params : Params) (db : Db backend) (nos : List Text)
      → IsLedger db nos
      → IsLedger (process_verified backend v params db).1 nos
  unfolding process_verified
  verified-IsLedger none params db nos l = l
  verified-IsLedger (some false) params db nos l = l
  verified-IsLedger (some true) params db nos l =
      let trade_no = param_or (codes "MerchantTradeNo") [] params in
      atomic-IsLedger
        (process_found backend (orders.find trade_no db.order_table) trade_no params db) db nos l
        λ db' h. process_found-IsLedger _ trade_no params db db' nos l refl h

  put_new-IsLedger :
      (trade_no : Text) (o : PaymentOrder) (t : orders.State) (db : Db backend) (nos : List Text)
      → IsLedger db nos
      → orders.find trade_no db.order_table ≡ none
      → o.status ≡ pending
      → orders.put trade_no o db.order_table ≡ some t
      → IsLedger (record db { order_table = t }) (trade_no ∷ nos)
  put_new-IsLedger trade_no o t db nos l e waiting put =
      let fresh : contains trade_no nos ≡ false = l.listed trade_no ∙ ap has e in
      record {
        distinct = (fresh, l.distinct);
        listed = Lists-put_new orders trade_no o nos db.order_table t put l.listed;
        balanced = λ u. omega (
          arith,
          l.balanced u,
          ap (paid_credits u) (orders.find-put_self trade_no o db.order_table t put),
          paid_credits-pending u o waiting,
          paid_total-put_other orders u trade_no o nos db.order_table t put fresh,
        );
      }

  create-IsLedger :
      (user_id package_id : ℕ) (trade_no : Text) (db : Db backend) (nos : List Text)
      → IsLedger db nos
      → let (db', nos') =
          with_order trade_no (create_payment_order backend user_id package_id trade_no db) nos in
        IsLedger db' nos'
  unfolding create_payment_order insert_order new_order
  create-IsLedger user_id package_id trade_no db nos l =
      elim (Option-cases
        (active_only backend (backend.packages.find package_id db.package_table))) [
          | inl e ↦ rw (e, create_payment_order) l
          | inr (p, e) ↦ elim (Option-cases (orders.find trade_no db.order_table)) [
            | inr (o, f) ↦ rw (e, create_payment_order, f, insert_order) l
            | inl f ↦
                elim (Option-cases (
                  orders.put trade_no (new_order backend user_id package_id p trade_no)
                    db.order_table)) [
                      | inl g ↦ rw (e, create_payment_order, f, insert_order, g) l
                      | inr (t, g) ↦
                          rw (e, create_payment_order, f, insert_order, g)
                            (put_new-IsLedger trade_no
                              (new_order backend user_id package_id p trade_no) t db nos l f refl g)
                    ]
          ]
        ]

  read-IsLedger :
      (user_id : ℕ) (db : Db backend) (nos : List Text)
      → IsLedger db nos
      → IsLedger (get_user_balance backend user_id db).1 nos
  unfolding get_user_balance
  read-IsLedger user_id db nos l = elim (Option-cases (balances.find user_id db.balance_table)) [
    | inr (b, e) ↦ rw (e, get_user_balance) l
    | inl e ↦ elim (Option-cases (balances.put user_id 0 db.balance_table)) [
      | inl f ↦ rw (e, get_user_balance, f) l
      | inr (t, f) ↦
          rw (e, get_user_balance, f)
            (record {
              distinct = l.distinct;
              listed = l.listed;
              balanced = λ u.
                  ground
                    (arith, e, l.balanced u, find-put balances user_id u 0 db.balance_table t f);
            })
    ]
  ]

  serve-IsLedger :
      (e : Event) (db : Db backend) (nos : List Text)
      → IsLedger db nos
      → let (db', nos') = serve e db nos in IsLedger db' nos'
  unfolding serve process_ecpay_callback
  serve-IsLedger (ordered user_id package_id trade_no) db nos l =
      create-IsLedger user_id package_id trade_no db nos l
  serve-IsLedger (notified params) db nos l = verified-IsLedger _ params db nos l
  serve-IsLedger (balance_read user_id) db nos l = read-IsLedger user_id db nos l

  -- However orders are created, callbacks arrive (repeated, forged, or out of order) and balances are
  -- read, the balance of each user stays the sum of the credits of the user's paid orders.
  pub serve_all-IsLedger :
      (es : List Event) (db : Db backend) (nos : List Text)
      → IsLedger db nos
      → let (db', nos') = serve_all es db nos in IsLedger db' nos'
  unfolding serve_all
  serve_all-IsLedger [] db nos l = l
  serve_all-IsLedger (e ∷ es) db nos l =
      let (db', nos') = serve e db nos in serve_all-IsLedger es db' nos' (serve-IsLedger e db nos l)
