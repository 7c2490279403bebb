-- ===== src/Chat/Listing.antt =====
-- The lists of backend/apps/chat/services.py: `get_user_conversations` and `get_conversation_messages`.
use mathlib.Core.List.{reverse}
use ai_chat_websocket.Prelude.{
  ℕ, ◌≡◌, Bool, ◌||◌, not, List, filter, Result, ok, err, ◌>>=◌, ◌==◌, nat_eq, if◌then◌else◌,
  Option-cases, inl, inr,
}
use ai_chat_websocket.Platform.KeyStore.{KeyStore}
use ai_chat_websocket.Core.Errors.{Error}
use ai_chat_websocket.Chat.Pages.{Page, paginate}
use ai_chat_websocket.Chat.Conversations.{
  Conversation, conversation_not_found, owned, get_conversation, is_given,
}
use ai_chat_websocket.Chat.Session.{StoredMessage}

-- `rows` are the rows of the table, the last updated first.
unfoldable pub get_user_conversations : ℕ → Bool → ℕ → ℕ → List Conversation → Page Conversation
get_user_conversations user_id include_archived page page_size rows = paginate page page_size (
    filter (λ (c : Conversation). include_archived || not c.is_archived)
      (filter (λ (c : Conversation). c.user_id == user_id) rows))

module _ (conversations : KeyStore ℕ Conversation) where
  -- `newest_first` are the rows of the table with their ids, the last created first.
  unfoldable pub get_conversation_messages :
      ℕ
      → ℕ
      → ℕ
      → ℕ
      → conversations.State
      → List (ℕ × StoredMessage)
      → Result Error (Page (ℕ × StoredMessage))
  get_conversation_messages id user_id page page_size t newest_first =
      if is_given (owned conversations id user_id (conversations.find id t))
      then ok (
          paginate page page_size (
            filter (λ (row : ℕ × StoredMessage). row.1.conversation_id == id)
              (reverse newest_first)))
      else err conversation_not_found

  -- The messages of a conversation are listed exactly for those who get the conversation itself, in
  -- chronological order, and everyone else is answered the same error for both.
  pub messages_follow_access :
      (id user_id page page_size : ℕ) (t : conversations.State)
      (newest_first : List (ℕ × StoredMessage))
      → get_conversation_messages id user_id page page_size t newest_first ≡ (
          get_conversation conversations id user_id t >>= λ c. ok (
            paginate page page_size (
              filter
                (λ (row : ℕ × StoredMessage). row.1.conversation_id == id)
                (reverse newest_first))))
  unfolding get_conversation_messages get_conversation
  messages_follow_access id user_id page page_size t newest_first =
      elim (Option-cases (owned conversations id user_id (conversations.find id t))) [
        | inl foreign ↦ rw foreign
        | inr (c, found) ↦ rw found
      ]
