-- ===== src/Chat/Responses/Fitting.antt =====
-- The stored conversations fit the response schemas.
use ai_chat_websocket.Prelude.{
  ℕ, ◌≡◌, refl, ap, subst, not, ◌||◌, Text, Bool, true, Option, none, some, List, [], ◌∷◌, filter,
  length, leb, ◌==◌, nat_eq, text_eq, Bool-cases, Option-cases, Result-cases, Result, ok, err,
  ok-injective, inl, inr, and-intro, and-elim,
}
use ai_chat_websocket.Platform.KeyStore.{KeyStore}
use ai_chat_websocket.Core.Errors.{Error, ErrorResponse, handle}
use ai_chat_websocket.Chat.Listing.{get_user_conversations}
use ai_chat_websocket.Chat.Conversations.{
  Conversation, ConversationCreate, ConversationUpdate, supported_models, length_within, is_one_of,
  validate_create, validate_update, validate_at_least_one_field, get_conversation, save_if_changed,
  update_conversation, create_conversation, with_updates, new_conversation,
}
use ai_chat_websocket.Chat.Conversations.Ownership.{get-eq-ok}
use ai_chat_websocket.Chat.Conversations.Validity.{
  is_valid, AllValid, with_updates-is_valid, new_conversation-is_valid,
}
use ai_chat_websocket.Chat.Endpoints.{
  Reply, answered, rejected_or_unhandled, rejected, unprocessable, unhandled, reply, page_in_bounds,
  list_conversations, create_conversation_api, get_conversation_api, update_conversation_api,
}
use ai_chat_websocket.Chat.Responses.Paging.{all_fit-filter, all_fit-weaken, paginate-fits}
use ai_chat_websocket.Chat.Responses.{
  all_fit, conversation_fits, conversation_in_list_fits, checked, list_conversations_response,
  create_conversation_response, get_conversation_response, update_conversation_response,
}

is_one_of-fits :
    (fits : Text → Bool) (xs : List Text) (s : Text)
    → all_fit fits xs ≡ true
    → is_one_of xs s ≡ true
    → fits s ≡ true
is_one_of-fits fits [] s h e = cc e
is_one_of-fits fits (x ∷ xs) s h e =
    let (first, others) = and-elim (fits x) (all_fit fits xs) h in
    elim (Bool-cases (x == s)) [
      | inl same ↦ subst (λ t. fits t ≡ true) ((text_eq.equal_iff x s).0 same) first
      | inr other ↦ is_one_of-fits fits xs s others (rw other at e)
    ]

is_valid-conversation_fits : (c : Conversation) → is_valid c ≡ true → conversation_fits c ≡ true
unfolding conversation_fits
is_valid-conversation_fits c h =
    let (h1, temperature) = and-elim _ _ h in
    let (h2, prompt) = and-elim _ _ h1 in
    let (title, model) = and-elim _ _ h2 in
    let (_, short) = and-elim (leb 1 (length c.title)) _ title in
    and-intro _ _
      (and-intro _ _
        (and-intro _ _ short
          (is_one_of-fits (length_within 1 50) supported_models c.model refl model))
        prompt)
      temperature

fits-in_list : (c : Conversation) → is_valid c ≡ true → conversation_in_list_fits c ≡ true
unfolding conversation_in_list_fits conversation_fits
fits-in_list c h =
    let (h1, _) = and-elim _ _ (is_valid-conversation_fits c h) in (and-elim _ _ h1).0

pub list-fits :
    (user_id : ℕ) (include_archived : Bool) (page page_size : ℕ) (rows : List Conversation)
    → all_fit is_valid rows ≡ true
    → list_conversations_response user_id include_archived page page_size rows
      ≡ list_conversations user_id include_archived page page_size rows
unfolding list_conversations_response list_conversations checked get_user_conversations
list-fits user_id include_archived page page_size rows h =
    let mine = filter (λ (c : Conversation). c.user_id == user_id) rows in
    let shown = filter (λ (c : Conversation). include_archived || not c.is_archived) mine in
    let fit : all_fit conversation_in_list_fits shown ≡ true =
      all_fit-filter conversation_in_list_fits _ mine (
        all_fit-filter conversation_in_list_fits _ rows
          (all_fit-weaken is_valid conversation_in_list_fits fits-in_list rows h)) in
    elim (Bool-cases (page_in_bounds page page_size)) [
      | inr outside ↦ rw outside refl
      | inl inside ↦
          rw (inside, paginate-fits conversation_in_list_fits page page_size shown fit inside) refl
    ]

-- An answer whose conversation is valid passes the check.
AnswersValid : Reply Conversation → Type 0
AnswersValid (answered status c) = is_valid c ≡ true
AnswersValid (rejected r) = Unit
AnswersValid unprocessable = Unit
AnswersValid unhandled = Unit

checked-valid : (r : Reply Conversation) → AnswersValid r → checked conversation_fits r ≡ r
unfolding checked AnswersValid
checked-valid (answered status c) h = rw (is_valid-conversation_fits c h) refl
checked-valid (rejected r) h = refl
checked-valid unprocessable h = refl
checked-valid unhandled h = refl

refused-valid : (r : Option ErrorResponse) → AnswersValid (rejected_or_unhandled r)
unfolding AnswersValid
refused-valid none = tt
refused-valid (some r) = tt

reply-valid :
    (status : ℕ) (r : Result Error Conversation)
    → ((c : Conversation) → r ≡ ok c → is_valid c ≡ true)
    → AnswersValid (reply status r)
unfolding reply AnswersValid
reply-valid status (ok c) h = h c refl
reply-valid status (err e) h = refused-valid (handle e)

module _ (conversations : KeyStore ℕ Conversation) where
  get-valid :
      (id user_id : ℕ) (t : conversations.State)
      → AllValid conversations t
      → (c : Conversation) → get_conversation conversations id user_id t ≡ ok c
      → is_valid c ≡ true
  get-valid id user_id t all c e = all id c (get-eq-ok conversations id user_id t c e).0

  create-valid :
      (id user_id : ℕ) (p : ConversationCreate) (t : conversations.State) (c : Conversation)
      → validate_create p ≡ true
      → (create_conversation conversations id user_id p t).0 ≡ ok c
      → is_valid c ≡ true
  unfolding create_conversation
  create-valid id user_id p t c v h =
      elim (Option-cases (conversations.put id (new_conversation id user_id p) t)) [
        | inl refused ↦ cc (rw (create_conversation, refused) at h)
        | inr (t', put) ↦
            subst (λ d. is_valid d ≡ true) (ok-injective _ _ (rw (create_conversation, put) at h))
              (new_conversation-is_valid id user_id p v)
      ]

  save-valid :
      (id : ℕ) (p : ConversationUpdate) (old : Conversation) (t : conversations.State)
      (c : Conversation)
      → is_valid old ≡ true
      → validate_update p ≡ true
      → (save_if_changed conversations id p old t).0 ≡ ok c
      → is_valid c ≡ true
  unfolding save_if_changed
  save-valid id p old t c valid v h =
      let new : (c0 : Conversation) → with_updates p old ≡ c0 → is_valid c0 ≡ true =
        λ c0 e. subst (λ d. is_valid d ≡ true) e (with_updates-is_valid p old valid v) in
      elim (Bool-cases (validate_at_least_one_field p)) [
        | inr none_given ↦ new c (ok-injective _ _ (rw none_given at h))
        | inl given ↦ elim (Option-cases (conversations.put id (with_updates p old) t)) [
          | inl refused ↦ cc (rw (given, refused) at h)
          | inr (t', put) ↦ new c (ok-injective _ _ (rw (given, put) at h))
        ]
      ]

  update-valid :
      (id user_id : ℕ) (p : ConversationUpdate) (t : conversations.State) (c : Conversation)
      → AllValid conversations t
      → validate_update p ≡ true
      → (update_conversation conversations id user_id p t).0 ≡ ok c
      → is_valid c ≡ true
  unfolding update_conversation
  update-valid id user_id p t c all v h =
      elim (Result-cases (get_conversation conversations id user_id t)) [
        | inl (e, raised) ↦ cc (rw (raised, update_conversation) at h)
        | inr (old, found) ↦
            save-valid id p old t c (get-valid id user_id t all old found) v
              (rw (found, update_conversation) at h)
      ]

  pub create-fits :
      (id user_id : ℕ) (p : ConversationCreate) (t : conversations.State)
      → create_conversation_response conversations id user_id p t
        ≡ create_conversation_api conversations id user_id p t
  unfolding create_conversation_response create_conversation_api
  create-fits id user_id p t = elim (Bool-cases (validate_create p)) [
    | inr refused ↦ rw refused refl
    | inl v ↦
        let (r, t') = create_conversation conversations id user_id p t in
        rw v (
          ap (λ a. (a, t'))
            (checked-valid (reply 201 r)
              (reply-valid 201 r (λ c e. create-valid id user_id p t c v e))))
  ]

  pub update-fits :
      (id user_id : ℕ) (p : ConversationUpdate) (t : conversations.State)
      → AllValid conversations t
      → update_conversation_response conversations id user_id p t
        ≡ update_conversation_api conversations id user_id p t
  unfolding update_conversation_response update_conversation_api
  update-fits id user_id p t all = elim (Bool-cases (validate_update p)) [
    | inr refused ↦ rw refused refl
    | inl v ↦
        let (r, t') = update_conversation conversations id user_id p t in
        rw v (
          ap (λ a. (a, t'))
            (checked-valid (reply 200 r)
              (reply-valid 200 r (λ c e. update-valid id user_id p t c all v e))))
  ]

  pub get-fits :
      (id user_id : ℕ) (t : conversations.State)
      → AllValid conversations t
      → get_conversation_response conversations id user_id t
        ≡ get_conversation_api conversations id user_id t
  unfolding get_conversation_response get_conversation_api
  get-fits id user_id t all =
      let found = get_conversation conversations id user_id t in
      checked-valid (reply 200 found) (reply-valid 200 found (get-valid id user_id t all))
