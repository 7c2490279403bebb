-- ===== src/Chat/Endpoints.antt =====
-- The endpoints of backend/apps/chat/api.py: their checks, the service they call and what is answered.
use ai_chat_websocket.Prelude.{
  ℕ, ◌≡◌, Bool, true, ◌&&◌, Option, none, some, List, leb, codes, Result, ok, err, if◌then◌else◌,
}
use ai_chat_websocket.Platform.KeyStore.{KeyStore}
use ai_chat_websocket.Core.Errors.{Error, ErrorResponse, handle}
use ai_chat_websocket.Chat.Pages.{Page}
use ai_chat_websocket.Chat.Session.{StoredMessage}
use ai_chat_websocket.Chat.Listing.{get_user_conversations, get_conversation_messages}
use ai_chat_websocket.Chat.Conversations.{
  Conversation, ConversationCreate, ConversationUpdate, validate_create, validate_update,
  get_conversation, create_conversation, update_conversation, delete_conversation,
}
use ai_chat_websocket.Chat.Conversations.Ownership.{IsForeign, foreign_not_found}

-- `unprocessable` is the framework's answer to a request that breaks a schema or a bound;
-- `unhandled` an exception without a handler.
pub data Reply (A : Type 0) : Type 0 where
  answered : ℕ → A → Reply A
  rejected : ErrorResponse → Reply A
  unprocessable unhandled : Reply A

abbrev pub rejected_or_unhandled : {A : Type 0} → Option ErrorResponse → Reply A
rejected_or_unhandled none = unhandled
rejected_or_unhandled (some r) = rejected r

unfoldable pub reply : {A : Type 0} → ℕ → Result Error A → Reply A
reply status (ok a) = answered status a
reply status (err e) = rejected_or_unhandled (handle e)

-- `page: int = Query(1, ge=1, le=1000)` and `page_size: int = Query(20, ge=1, le=100)`
abbrev pub page_in_bounds : ℕ → ℕ → Bool
page_in_bounds page page_size = leb 1 page && leb page 1000 && leb 1 page_size && leb page_size 100

unfoldable pub list_conversations : ℕ → Bool → ℕ → ℕ → List Conversation → Reply (Page Conversation)
list_conversations user_id include_archived page page_size rows =
    if page_in_bounds page page_size
    then answered 200 (get_user_conversations user_id include_archived page page_size rows)
    else unprocessable

module _ (conversations : KeyStore ℕ Conversation) where
  unfoldable pub create_conversation_api :
      ℕ → ℕ → ConversationCreate → conversations.State → Reply Conversation × conversations.State
  unfolding reply
  create_conversation_api id user_id p t =
      if validate_create p
      then (let (r, t') = create_conversation conversations id user_id p t in (reply 201 r, t'))
      else (unprocessable, t)

  unfoldable pub get_conversation_api : ℕ → ℕ → conversations.State → Reply Conversation
  unfolding reply
  get_conversation_api id user_id t = reply 200 (get_conversation conversations id user_id t)

  unfoldable pub update_conversation_api :
      ℕ → ℕ → ConversationUpdate → conversations.State → Reply Conversation × conversations.State
  unfolding reply
  update_conversation_api id user_id p t =
      if validate_update p
      then (let (r, t') = update_conversation conversations id user_id p t in (reply 200 r, t'))
      else (unprocessable, t)

  unfoldable pub delete_conversation_api :
      ℕ → ℕ → conversations.State → Reply (Unit {0}) × conversations.State
  unfolding reply
  delete_conversation_api id user_id t =
      let (r, t') = delete_conversation conversations id user_id t in (reply 204 r, t')

  unfoldable pub list_messages :
      ℕ
      → ℕ
      → ℕ
      → ℕ
      → conversations.State
      → List (ℕ × StoredMessage)
      → Reply (Page (ℕ × StoredMessage))
  unfolding reply
  list_messages id user_id page page_size t newest_first =
      if page_in_bounds page page_size
      then reply 200
          (get_conversation_messages conversations id user_id page page_size t newest_first)
      else unprocessable

  abbrev pub not_found_response : ErrorResponse
  not_found_response = record {
    status = 404;
    error = codes "Conversation not found";
    code = codes "NOT_FOUND";
  }

  -- Whoever does not own a conversation is answered 404 to reading it, to a valid update and to
  -- deleting it, and the table stays as it is.
  foreign_404 :
      (id user_id : ℕ) (p : ConversationUpdate) (t : conversations.State)
      → IsForeign conversations id user_id (conversations.find id t)
      → validate_update p ≡ true
      → (get_conversation_api id user_id t ≡ rejected not_found_response)
        × (update_conversation_api id user_id p t ≡ (rejected not_found_response, t))
        × (delete_conversation_api id user_id t ≡ (rejected not_found_response, t))
  unfolding get_conversation_api update_conversation_api delete_conversation_api reply handle
  foreign_404 id user_id p t h valid =
      let (got, updated, deleted) = foreign_not_found conversations id user_id t p h in
      (rw got, rw (valid, updated), rw deleted)
