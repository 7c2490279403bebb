-- ===== src/Payments/Responses/Packages.antt =====
-- When the list of packages is answered.
use ai_chat_websocket.Prelude.{
  ◌≡◌, refl, ap, ◌∙◌, Bool, true, false, ◌&&◌, ◌||◌, not, List, [], ◌∷◌, ◌++◌, filter, leb,
  if◌then◌else◌, Bool-cases, inl, inr,
}
use ai_chat_websocket.Chat.Conversations.{length_within}
use ai_chat_websocket.Chat.Endpoints.{answered, unhandled}
use ai_chat_websocket.Chat.Responses.{all_fit, checked}
use ai_chat_websocket.Payments.Models.{CreditPackage}
use ai_chat_websocket.Payments.Endpoints.{
  comes_before, insert_package, order_packages, list_active_packages,
}
use ai_chat_websocket.Payments.Responses.{package_fits, list_packages}

insert-fits :
    (fits : CreditPackage → Bool) (p : CreditPackage) (ps : List CreditPackage)
    → all_fit fits (insert_package p ps) ≡ (fits p && all_fit fits ps)
unfolding insert_package
insert-fits fits p [] = refl
insert-fits fits p (q ∷ qs) = elim (Bool-cases (comes_before p q)) [
  | inl first ↦ rw first refl
  | inr later ↦ rw (later, insert-fits fits p qs) (swapped (fits q) (fits p) (all_fit fits qs))
]
  where
    swapped : (a b c : Bool) → (a && (b && c)) ≡ (b && (a && c))
    swapped true true c = refl
    swapped true false c = refl
    swapped false true c = refl
    swapped false false c = refl

order-fits :
    (fits : CreditPackage → Bool) (ps : List CreditPackage)
    → all_fit fits (order_packages ps) ≡ all_fit fits ps
unfolding order_packages
order-fits fits [] = refl
order-fits fits (p ∷ ps) =
    insert-fits fits p (order_packages ps) ∙ ap (λ b. fits p && b) (order-fits fits ps)

-- a package that is not shown or fits
abbrev is_fine : CreditPackage → Bool
is_fine p = not p.is_active || package_fits p

active-fit :
    (ps : List CreditPackage)
    → all_fit package_fits (filter (λ (p : CreditPackage). p.is_active) ps) ≡ all_fit is_fine ps
unfolding package_fits
active-fit [] = refl
active-fit (p ∷ ps) = elim (Bool-cases p.is_active) [
  | inl shown ↦ rw shown (ap (λ b. package_fits p && b) (active-fit ps))
  | inr hidden ↦ rw hidden (active-fit ps)
]

-- The list of packages is answered exactly when every active package fits the response schema, and is an
-- unhandled exception for everyone otherwise: a single active package with a price or credits of 0, which
-- the table takes, hides all others.
list_packages-fits :
    (rows : List CreditPackage)
    → list_packages rows
      ≡ (if all_fit is_fine rows then answered 200 (list_active_packages rows) else unhandled)
unfolding list_packages checked list_active_packages
list_packages-fits rows =
    ap (λ b. if b then answered 200 (list_active_packages rows) else unhandled)
      (order-fits package_fits (filter (λ (p : CreditPackage). p.is_active) rows) ∙ active-fit rows)

all_fit-spoiled :
    (fits : CreditPackage → Bool) (before : List CreditPackage) (p : CreditPackage)
    (after : List CreditPackage)
    → fits p ≡ false
    → all_fit fits (before ++ p ∷ after) ≡ false
all_fit-spoiled fits [] p after h = rw h refl
all_fit-spoiled fits (q ∷ before) p after h = elim (Bool-cases (fits q)) [
  | inl first ↦ rw first (all_fit-spoiled fits before p after h)
  | inr unfit ↦ rw unfit refl
]

-- A single active package with a price of 0, wherever it stands in the table, makes the list of packages an
-- unhandled exception.
free_package_spoils :
    (before : List CreditPackage) (p : CreditPackage) (after : List CreditPackage)
    → p.is_active ≡ true
    → p.price ≡ 0
    → list_packages (before ++ p ∷ after) ≡ unhandled
unfolding package_fits
free_package_spoils before p after active free =
    let unfit : is_fine p ≡ false =
      elim (Bool-cases (length_within 1 100 p.name && leb 1 p.credits)) [
        | inl fine ↦ rw (active, free, fine) refl
        | inr wrong ↦ rw (active, wrong) refl
      ] in
    list_packages-fits (before ++ p ∷ after)
    ∙ ap (λ b. if b then answered 200 (list_active_packages (before ++ p ∷ after)) else unhandled)
        (all_fit-spoiled is_fine before p after unfit)
