-- ===== src/Chat/Responses.antt =====
-- The response schemas of backend/apps/chat/schemas.py: the framework checks an answer against its schema,
-- and an answer that does not fit is an exception without a handler.
pub mod Paging
pub mod Fitting
pub mod Soundness
pub mod Unreadable
use ai_chat_websocket.Prelude.{
  ℕ, ℤ, pos, negsuc, Text, codes, Bool, true, false, ◌&&◌, Option, none, some, List, [], ◌∷◌, leb,
  length, if◌then◌else◌,
}
use ai_chat_websocket.Platform.KeyStore.{KeyStore}
use ai_chat_websocket.Chat.Pages.{Page}
use ai_chat_websocket.Chat.Session.{StoredMessage}
use ai_chat_websocket.Chat.Conversations.{
  Conversation, ConversationCreate, ConversationUpdate, length_within, is_one_of, temperature_ok,
}
use ai_chat_websocket.Chat.Endpoints.{
  Reply, answered, rejected, unprocessable, unhandled, list_conversations, create_conversation_api,
  get_conversation_api, update_conversation_api, list_messages,
}

-- `MAX_CONTENT_LENGTH`
abbrev pub max_content_length : ℕ
max_content_length = 100000

abbrev pub all_fit : {A : Type 0} → (A → Bool) → List A → Bool
all_fit fits [] = true
all_fit fits (x ∷ xs) = fits x && all_fit fits xs

-- `ConversationSchema`, whose ids, dates and truth values are of their types
unfoldable pub conversation_fits : Conversation → Bool
conversation_fits c =
    leb (length c.title) 255
    && length_within 1 50 c.model
    && length_within 1 10000 c.system_prompt
    && temperature_ok c.temperature

-- `ConversationListSchema`
unfoldable pub conversation_in_list_fits : Conversation → Bool
conversation_in_list_fits c = leb (length c.title) 255 && length_within 1 50 c.model

-- the values of `MessageRole`
abbrev pub message_roles : List Text
message_roles = codes "system" ∷ codes "user" ∷ codes "assistant" ∷ []

-- `MessageSchema`; token counts are no less than zero by their type
unfoldable pub message_fits : StoredMessage → Bool
message_fits m =
    is_one_of message_roles m.role
    && length_within 1 max_content_length m.content
    && leb (length m.model_used) 50

-- `total: int = Field(ge=-1)`
abbrev pub total_fits : ℤ → Bool
total_fits (pos n) = true
total_fits (negsuc n) = leb n 0

-- `PaginatedMessagesSchema` and `PaginatedConversationsSchema`
unfoldable pub page_fits : {A : Type 0} → (A → Bool) → ℕ → ℕ → Page A → Bool
page_fits fits page page_size p =
    all_fit fits p.items && total_fits p.total && leb 1 page && leb 1 page_size && leb page_size 100

-- The answer after its check.
unfoldable pub checked : {A : Type 0} → (A → Bool) → Reply A → Reply A
checked fits (answered status a) = if fits a then answered status a else unhandled
checked fits (rejected r) = rejected r
checked fits unprocessable = unprocessable
checked fits unhandled = unhandled

unfoldable pub list_conversations_response :
    ℕ → Bool → ℕ → ℕ → List Conversation → Reply (Page Conversation)
unfolding checked page_fits conversation_in_list_fits
list_conversations_response user_id include_archived page page_size rows =
    checked (page_fits conversation_in_list_fits page page_size)
      (list_conversations user_id include_archived page page_size rows)

module _ (conversations : KeyStore ℕ Conversation) where
  -- the three endpoints that answer a conversation
  unfoldable pub create_conversation_response :
      ℕ → ℕ → ConversationCreate → conversations.State → Reply Conversation × conversations.State
  unfolding checked conversation_fits
  create_conversation_response id user_id p t =
      let (r, t') = create_conversation_api conversations id user_id p t in
      (checked conversation_fits r, t')

  unfoldable pub get_conversation_response : ℕ → ℕ → conversations.State → Reply Conversation
  unfolding checked conversation_fits
  get_conversation_response id user_id t =
      checked conversation_fits (get_conversation_api conversations id user_id t)

  unfoldable pub update_conversation_response :
      ℕ → ℕ → ConversationUpdate → conversations.State → Reply Conversation × conversations.State
  unfolding checked conversation_fits
  update_conversation_response id user_id p t =
      let (r, t') = update_conversation_api conversations id user_id p t in
      (checked conversation_fits r, t')

  unfoldable pub list_messages_response :
      ℕ
      → ℕ
      → ℕ
      → ℕ
      → conversations.State
      → List (ℕ × StoredMessage)
      → Reply (Page (ℕ × StoredMessage))
  unfolding checked page_fits message_fits
  list_messages_response id user_id page page_size t newest_first =
      checked (page_fits (λ (row : ℕ × StoredMessage). message_fits row.1) page page_size)
        (list_messages conversations id user_id page page_size t newest_first)
