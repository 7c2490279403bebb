-- ===== src/Chat/Conversations/Summaries.antt =====
-- What saving a summary writes.
use ai_chat_websocket.Prelude.{
  ℕ, ◌≡◌, refl, Text, some, ok, err, ◌==◌, nat_eq, if◌then◌else◌, ◌⊎◌, inl, inr, Option-cases,
}
use ai_chat_websocket.Platform.KeyStore.{KeyStore, find-put}
use ai_chat_websocket.Core.Errors.{database_error}
use ai_chat_websocket.Chat.Conversations.{
  Conversation, with_summary, save_summary_fields, update_conversation_summary,
}

module _ (conversations : KeyStore ℕ Conversation) where
  -- The summary of an object that may be older than its row is saved in either of two ways: the
  -- database refuses it, or the conversation is gone, and then no row changes; or the row of the
  -- conversation gets the three fields of the summary and keeps all others, whatever the object has in
  -- them, and no other row changes.
  pub update_conversation_summary-row :
      (id : ℕ) (summary : Text) (token_count now : ℕ) (c : Conversation) (t : conversations.State)
      → let (r, after) = update_conversation_summary conversations id summary token_count now c t in
        ((r ≡ err database_error) × (after ≡ t))
        ⊎ ((row : Conversation) × (conversations.find id t ≡ some row)
            × (r ≡ ok (with_summary summary token_count now c))
            × ((j : ℕ)
                → conversations.find j after ≡ (
                    if id == j
                    then some (with_summary summary token_count now row)
                    else conversations.find j t)))
  unfolding update_conversation_summary save_summary_fields
  update_conversation_summary-row id summary token_count now c t =
      elim (Option-cases (conversations.find id t)) [
        | inl gone ↦ rw (update_conversation_summary, gone, save_summary_fields) (inl (refl, refl))
        | inr (row, there) ↦
            elim (Option-cases
              (conversations.put id (with_summary summary token_count now row) t)) [
                | inl refused ↦
                    rw (update_conversation_summary, there, save_summary_fields, refused)
                      (inl (refl, refl))
                | inr (t', put) ↦
                    rw (update_conversation_summary, there, save_summary_fields, put)
                      (inr (row, refl, refl, λ j. find-put conversations id j _ t t' put))
              ]
      ]
