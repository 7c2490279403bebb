-- ===== src/Chat/Conversations/Validity.antt =====
-- What the API stores is valid.
use ai_chat_websocket.Prelude.{
  ℕ, ◌≡◌, sym, ◌∙◌, Bool, true, ◌&&◌, Option, none, some, some-injective, nat_eq, nat_beq,
  nat_beq_iff, Bool-cases, Option-cases, Result-cases, inl, inr, and-intro, and-elim,
}
use ai_chat_websocket.Platform.KeyStore.{KeyStore, find-put}
use ai_chat_websocket.Chat.Conversations.{
  Conversation, ConversationUpdate, ConversationCreate, supported_models, length_within, is_one_of,
  temperature_ok, if_given, given_or, validate_create, validate_update, validate_at_least_one_field,
  get_conversation, save_if_changed, update_conversation, delete_conversation, create_conversation,
  with_updates, new_conversation,
}
use ai_chat_websocket.Chat.Conversations.Ownership.{get-eq-ok}

-- The bounds that the request schemas impose.
abbrev pub is_valid : Conversation → Bool
is_valid c =
    length_within 1 255 c.title
    && is_one_of supported_models c.model
    && length_within 1 10000 c.system_prompt
    && temperature_ok c.temperature

given_or-keeps :
    {A : Type 0} (q : A → Bool) (old : A) (o : Option A)
    → q old ≡ true
    → if_given q o ≡ true
    → q (given_or old o) ≡ true
given_or-keeps q old none h v = h
given_or-keeps q old (some new) h v = v

pub with_updates-is_valid :
    (p : ConversationUpdate) (c : Conversation)
    → is_valid c ≡ true
    → validate_update p ≡ true
    → is_valid (with_updates p c) ≡ true
unfolding with_updates validate_update
with_updates-is_valid p c h v =
    let (h1, old_t) = and-elim _ _ h in
    let (h2, old_s) = and-elim _ _ h1 in
    let (old_title, old_m) = and-elim _ _ h2 in
    let (v1, one) = and-elim _ _ v in
    let (v2, new_t) = and-elim _ _ v1 in
    let (v3, new_s) = and-elim _ _ v2 in
    let (new_title, new_m) = and-elim _ _ v3 in
    and-intro _ _
      (and-intro _ _
        (and-intro _ _ (given_or-keeps (length_within 1 255) c.title p.title old_title new_title)
          (given_or-keeps (is_one_of supported_models) c.model p.model old_m new_m))
        (given_or-keeps (length_within 1 10000) c.system_prompt p.system_prompt old_s new_s))
      (given_or-keeps temperature_ok c.temperature p.temperature old_t new_t)

pub new_conversation-is_valid :
    (id user_id : ℕ) (p : ConversationCreate)
    → validate_create p ≡ true
    → is_valid (new_conversation id user_id p) ≡ true
unfolding new_conversation validate_create
new_conversation-is_valid id user_id p v = v

module _ (conversations : KeyStore ℕ Conversation) where
  abbrev pub AllValid : conversations.State → Type 0
  AllValid t = (id : ℕ) (c : Conversation) → conversations.find id t ≡ some c → is_valid c ≡ true

  put-AllValid :
      (id : ℕ) (c : Conversation) (t t' : conversations.State)
      → AllValid t
      → is_valid c ≡ true
      → conversations.put id c t ≡ some t'
      → AllValid t'
  put-AllValid id c t t' all v put j d e = elim (Bool-cases (nat_beq id j)) [
    | inl same ↦
        let found : some c ≡ some d = sym (rw (find-put conversations id j c t t' put, same)) ∙ e in
        rw (← some-injective _ _ found) v
    | inr other ↦ all j d (sym (rw (find-put conversations id j c t t' put, other)) ∙ e)
  ]

  pub update-AllValid :
      (id user_id : ℕ) (p : ConversationUpdate) (t : conversations.State)
      → AllValid t
      → validate_update p ≡ true
      → AllValid (update_conversation conversations id user_id p t).1
  unfolding update_conversation save_if_changed
  update-AllValid id user_id p t all v =
      elim (Result-cases (get_conversation conversations id user_id t)) [
        | inl (e, raised) ↦ rw (raised, update_conversation) all
        | inr (c, found) ↦ elim (Bool-cases (validate_at_least_one_field p)) [
          | inr none_given ↦ rw (found, update_conversation, none_given) all
          | inl given ↦ elim (Option-cases (conversations.put id (with_updates p c) t)) [
            | inl refused ↦ rw (found, update_conversation, given, refused) all
            | inr (t', put) ↦
                rw (found, update_conversation, given, put)
                  (put-AllValid id (with_updates p c) t t' all
                    (with_updates-is_valid p c
                      (all id c (get-eq-ok conversations id user_id t c found).0) v)
                    put)
          ]
        ]
      ]

  pub create-AllValid :
      (id user_id : ℕ) (p : ConversationCreate) (t : conversations.State)
      → AllValid t
      → validate_create p ≡ true
      → AllValid (create_conversation conversations id user_id p t).1
  unfolding create_conversation
  create-AllValid id user_id p t all v =
      elim (Option-cases (conversations.put id (new_conversation id user_id p) t)) [
        | inl refused ↦ rw (refused, create_conversation) all
        | inr (t', put) ↦
            rw (put, create_conversation)
              (put-AllValid id (new_conversation id user_id p) t t' all
                (new_conversation-is_valid id user_id p v) put)
      ]

  pub delete-AllValid :
      (id user_id : ℕ) (t : conversations.State)
      → AllValid t
      → AllValid (delete_conversation conversations id user_id t).1
  unfolding delete_conversation
  delete-AllValid id user_id t all =
      elim (Result-cases (get_conversation conversations id user_id t)) [
        | inl (e, raised) ↦ rw (raised, delete_conversation) all
        | inr (c, found) ↦
            rw (found, delete_conversation)
              λ j d e. elim (Bool-cases (nat_beq id j)) [
                | inl same ↦
                    cc (rw (← (nat_beq_iff id j).0 same, conversations.find-remove_self id t) at e)
                | inr other ↦ all j d (
                    sym (
                      conversations.find-remove_ne id j t (λ p. cc (other, (nat_beq_iff id j).1 p)))
                    ∙ e)
              ]
      ]
