-- ===== src/Chat/Conversations/Ownership.antt =====
-- Only the owner of a conversation reaches it.
use ai_chat_websocket.Prelude.{
  ℕ, ◌≡◌, ◌≢◌, refl, ap, sym, ◌∙◌, true, false, Option, none, some, ok, err, ok-injective, nat_eq,
  nat_beq, nat_beq_iff, Bool-cases, Option-cases, Result-cases, inl, inr, arith,
}
use ai_chat_websocket.Platform.KeyStore.{KeyStore}
use ai_chat_websocket.Chat.Conversations.{
  Conversation, ConversationUpdate, conversation_not_found, get_conversation, save_if_changed,
  update_conversation, delete_conversation, with_updates, validate_at_least_one_field,
}

with_updates-none :
    (p : ConversationUpdate) (c : Conversation)
    → validate_at_least_one_field p ≡ false
    → with_updates p c ≡ c
unfolding with_updates validate_at_least_one_field
with_updates-none p c h = ground arith

module _ (conversations : KeyStore ℕ Conversation) (id user_id : ℕ) where
  -- The row is missing or belongs to another user.
  abbrev pub IsForeign : Option Conversation → Type 0
  IsForeign none = Unit
  IsForeign (some c) = c.user_id ≢ user_id

  get-IsForeign :
      (t : conversations.State) (o : Option Conversation)
      → conversations.find id t ≡ o
      → IsForeign o
      → get_conversation conversations id user_id t ≡ err conversation_not_found
  unfolding get_conversation
  get-IsForeign t none e h = rw e
  get-IsForeign t (some c) e h = elim (Bool-cases (nat_beq c.user_id user_id)) [
    | inl mine ↦ absurd (h ((nat_beq_iff c.user_id user_id).0 mine))
    | inr other ↦ elim (Bool-cases (nat_beq c.id id)) [
      | inl here ↦ rw (e, here, other)
      | inr elsewhere ↦ rw (e, elsewhere)
    ]
  ]

  -- For anyone but its owner a conversation does not exist: reading, updating and deleting it all
  -- answer "Conversation not found", as for an id that is not there, and nothing changes.
  pub foreign_not_found :
      (t : conversations.State) (p : ConversationUpdate)
      → IsForeign (conversations.find id t)
      → (get_conversation conversations id user_id t ≡ err conversation_not_found)
        × (update_conversation conversations id user_id p t ≡ (err conversation_not_found, t))
        × (delete_conversation conversations id user_id t ≡ (err conversation_not_found, t))
  unfolding update_conversation delete_conversation
  foreign_not_found t p h =
      let e = get-IsForeign t (conversations.find id t) refl h in
      (e, rw (e, update_conversation), rw (e, delete_conversation))

  get-found :
      (t : conversations.State) (c : Conversation)
      → conversations.find id t ≡ some c
      → nat_beq c.id id ≡ true
      → nat_beq c.user_id user_id ≡ true
      → get_conversation conversations id user_id t ≡ ok c
  unfolding get_conversation
  get-found t c e here mine = rw (e, here, mine)

  pub get-eq-ok :
      (t : conversations.State) (c : Conversation)
      → get_conversation conversations id user_id t ≡ ok c
      → (conversations.find id t ≡ some c)
        × (nat_beq c.id id ≡ true)
        × (nat_beq c.user_id user_id ≡ true)
  unfolding get_conversation
  get-eq-ok t c h = elim (Option-cases (conversations.find id t)) [
    | inl e ↦ cc (rw e at h)
    | inr (c0, e) ↦ elim (Bool-cases (nat_beq c0.id id)) [
      | inr elsewhere ↦ cc (rw (e, elsewhere) at h)
      | inl here ↦ elim (Bool-cases (nat_beq c0.user_id user_id)) [
        | inl mine ↦
            let same : c0 ≡ c = ok-injective _ _ (rw (e, here, mine) at h) in
            (
              e ∙ ap some same,
              ap (λ (k : Conversation). nat_beq k.id id) (sym same) ∙ here,
              ap (λ (k : Conversation). nat_beq k.user_id user_id) (sym same) ∙ mine,
            )
        | inr other ↦ cc (rw (e, here, other) at h)
      ]
    ]
  ]

  get-save_if_changed :
      (t : conversations.State) (p : ConversationUpdate) (c0 c : Conversation)
      → get_conversation conversations id user_id t ≡ ok c0
      → (save_if_changed conversations id p c0 t).0 ≡ ok c
      → get_conversation conversations id user_id (save_if_changed conversations id p c0 t).1 ≡ ok c
  unfolding save_if_changed with_updates
  get-save_if_changed t p c0 c e h =
      let (found, here, mine) = get-eq-ok t c0 e in
      elim (Bool-cases (validate_at_least_one_field p)) [
        | inr none_given ↦
            rw none_given
              (e ∙ ap ok (sym (with_updates-none p c0 none_given)) ∙ (rw none_given at h))
        | inl given ↦ elim (Option-cases (conversations.put id (with_updates p c0) t)) [
          | inl refused ↦ cc (rw (given, refused) at h)
          | inr (t', put) ↦
              rw (given, put)
                (get-found t' (with_updates p c0)
                    (conversations.find-put_self id (with_updates p c0) t t' put) here mine
                  ∙ (rw (given, put) at h))
        ]
      ]

  -- After an answered update the owner reads back what the update answered.
  get-update :
      (t : conversations.State) (p : ConversationUpdate) (c : Conversation)
      → (update_conversation conversations id user_id p t).0 ≡ ok c
      → get_conversation conversations id user_id
          (update_conversation conversations id user_id p t).1
        ≡ ok c
  unfolding update_conversation
  get-update t p c h = elim (Result-cases (get_conversation conversations id user_id t)) [
    | inl (e, raised) ↦ cc (rw (raised, update_conversation) at h)
    | inr (c0, found) ↦
        rw (found, update_conversation)
          (get-save_if_changed t p c0 c found (rw (found, update_conversation) at h))
  ]

  -- After an answered deletion the owner finds the conversation no more.
  get-delete :
      (t : conversations.State)
      → (delete_conversation conversations id user_id t).0 ≡ ok tt
      → get_conversation conversations id user_id (delete_conversation conversations id user_id t).1
        ≡ err conversation_not_found
  unfolding delete_conversation
  get-delete t h = elim (Result-cases (get_conversation conversations id user_id t)) [
    | inl (e, raised) ↦ cc (rw (raised, delete_conversation) at h)
    | inr (c0, found) ↦
        rw (found, delete_conversation)
          (get-IsForeign (conversations.remove id t) none (conversations.find-remove_self id t) tt)
  ]
