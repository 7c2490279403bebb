-- ===== src/Payments/Services/Ledger/Totals.antt =====
-- Sums over the orders of a list of trade numbers.
use ai_chat_websocket.Prelude.{
  ℕ, ◌+◌, Text, ◌≡◌, ◌∙◌, refl, sym, ap, Bool, true, false, ◌||◌, Option, none, some, List, [], ◌∷◌,
  ◌==◌, text_eq, nat_eq, if◌then◌else◌, Bool-cases, inl, inr, arith,
}
use ai_chat_websocket.Platform.KeyStore.{KeyStore, find-put}
use ai_chat_websocket.Payments.Models.{OrderStatus, pending, paid, PaymentOrder}

abbrev pub contains : Text → List Text → Bool
contains key [] = false
contains key (n ∷ nos) = n == key || contains key nos

abbrev pub Distinct : List Text → Type 0
Distinct [] = Unit
Distinct (n ∷ nos) = (contains n nos ≡ false) × Distinct nos

-- What an order has given to a user: its credits, if it is paid and is the user's.
abbrev pub credits_if_paid : OrderStatus → ℕ → ℕ
credits_if_paid paid credits = credits
credits_if_paid _ credits = 0

abbrev pub paid_credits : ℕ → Option PaymentOrder → ℕ
paid_credits u none = 0
paid_credits u (some o) = if o.user_id == u then credits_if_paid o.status o.credits_awarded else 0

pub paid_credits-pending :
    (u : ℕ) (o : PaymentOrder) → o.status ≡ pending → paid_credits u (some o) ≡ 0
paid_credits-pending u o h = ground arith

abbrev pub has : Option PaymentOrder → Bool
has none = false
has (some o) = true

-- `nos` lists the trade numbers of the rows.
abbrev pub Lists : (orders : KeyStore Text PaymentOrder) → List Text → orders.State → Type 0
Lists orders nos t = (key : Text) → contains key nos ≡ has (orders.find key t)

pub Lists-put :
    (orders : KeyStore Text PaymentOrder) (key : Text) (o : PaymentOrder) (nos : List Text)
    (t t' : orders.State)
    → orders.put key o t ≡ some t'
    → Lists orders nos t
    → contains key nos ≡ true
    → Lists orders nos t'
Lists-put orders key o nos t t' h l c j = elim (Bool-cases (key == j)) [
  | inl same ↦
      rw (find-put orders key j o t t' h, same)
        (ap (λ k. contains k nos) (sym ((text_eq.equal_iff key j).0 same)) ∙ c)
  | inr other ↦ rw (find-put orders key j o t t' h, other) (l j)
]

pub Lists-put_new :
    (orders : KeyStore Text PaymentOrder) (key : Text) (o : PaymentOrder) (nos : List Text)
    (t t' : orders.State)
    → orders.put key o t ≡ some t'
    → Lists orders nos t
    → Lists orders (key ∷ nos) t'
Lists-put_new orders key o nos t t' h l j = elim (Bool-cases (key == j)) [
  | inl same ↦ rw (find-put orders key j o t t' h, same)
  | inr other ↦ rw (find-put orders key j o t t' h, other) (l j)
]

module _ (orders : KeyStore Text PaymentOrder) (u : ℕ) where
  abbrev pub paid_total : List Text → orders.State → ℕ
  paid_total [] t = 0
  paid_total (key ∷ nos) t = paid_credits u (orders.find key t) + paid_total nos t

  -- A row that is written under a number outside the list does not matter.
  pub paid_total-put_other :
      (key : Text) (o : PaymentOrder) (nos : List Text) (t t' : orders.State)
      → orders.put key o t ≡ some t'
      → contains key nos ≡ false
      → paid_total nos t' ≡ paid_total nos t
  paid_total-put_other key o [] t t' h c = refl
  paid_total-put_other key o (n ∷ nos) t t' h c = elim (Bool-cases (n == key)) [
    | inl same ↦ cc (rw same at c)
    | inr other ↦ omega (
      arith,
      paid_total-put_other key o nos t t' h (rw other at c),
      ap (paid_credits u) (
          orders.find-put_ne key n o t t' h (λ e. cc (other, (text_eq.equal_iff n key).1 (sym e)))),
    )
  ]

  -- A row that is written under a number of the list counts in place of the one that was there.
  pub paid_total-put :
      (key : Text) (o : PaymentOrder) (nos : List Text) (t t' : orders.State)
      → orders.put key o t ≡ some t'
      → Distinct nos
      → contains key nos ≡ true
      → paid_total nos t' + paid_credits u (orders.find key t)
        ≡ paid_total nos t + paid_credits u (some o)
  paid_total-put key o [] t t' h d c = cc
  paid_total-put key o (n ∷ nos) t t' h d c = elim (Bool-cases (n == key)) [
    | inl same ↦
        let e : n ≡ key = (text_eq.equal_iff n key).0 same in
        omega (
          arith,
          ap (λ k. paid_credits u (orders.find k t')) e,
          ap (λ k. paid_credits u (orders.find k t)) e,
          ap (paid_credits u) (orders.find-put_self key o t t' h),
          paid_total-put_other key o nos t t' h (rw e at d.0),
        )
    | inr other ↦ omega (
      arith,
      paid_total-put key o nos t t' h d.1 (rw other at c),
      ap (paid_credits u) (
          orders.find-put_ne key n o t t' h (λ e. cc (other, (text_eq.equal_iff n key).1 (sym e)))),
    )
  ]
