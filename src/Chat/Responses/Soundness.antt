-- ===== src/Chat/Responses/Soundness.antt =====
-- The endpoints answer conversations that fit their schemas, and store such conversations alone.
use ai_chat_websocket.Prelude.{ℕ, ◌≡◌, Bool, true, List, nat_eq, text_eq, Bool-cases, inl, inr}
use ai_chat_websocket.Platform.KeyStore.{KeyStore}
use ai_chat_websocket.Chat.Conversations.{
  Conversation, ConversationCreate, ConversationUpdate, validate_create, validate_update,
}
use ai_chat_websocket.Chat.Conversations.Validity.{
  is_valid, AllValid, create-AllValid, update-AllValid, delete-AllValid,
}
use ai_chat_websocket.Chat.Endpoints.{
  list_conversations, create_conversation_api, get_conversation_api, update_conversation_api,
  delete_conversation_api,
}
use ai_chat_websocket.Chat.Responses.{
  all_fit, list_conversations_response, create_conversation_response, get_conversation_response,
  update_conversation_response,
}
use ai_chat_websocket.Chat.Responses.Fitting.{create-fits, update-fits, get-fits, list-fits}

module _ (conversations : KeyStore ℕ Conversation) where
  create_api-AllValid :
      (id user_id : ℕ) (p : ConversationCreate) (t : conversations.State)
      → AllValid conversations t
      → AllValid conversations (create_conversation_response conversations id user_id p t).1
  unfolding create_conversation_response create_conversation_api
  create_api-AllValid id user_id p t all = elim (Bool-cases (validate_create p)) [
    | inr refused ↦ rw refused all
    | inl v ↦ rw v (create-AllValid conversations id user_id p t all v)
  ]

  update_api-AllValid :
      (id user_id : ℕ) (p : ConversationUpdate) (t : conversations.State)
      → AllValid conversations t
      → AllValid conversations (update_conversation_response conversations id user_id p t).1
  unfolding update_conversation_response update_conversation_api
  update_api-AllValid id user_id p t all = elim (Bool-cases (validate_update p)) [
    | inr refused ↦ rw refused all
    | inl v ↦ rw v (update-AllValid conversations id user_id p t all v)
  ]

  -- While the stored conversations are valid, in the table and in the rows that are listed, every conversation that the endpoints answer fits its response
  -- schema: creating, reading, updating and listing answer what they answer before that check, which so
  -- never turns an answer into an exception; and whatever the payloads, the stored conversations stay valid
  -- through creating, updating and deleting.
  pub conversations_fit :
      (id new_id user_id : ℕ) (new : ConversationCreate) (p : ConversationUpdate)
      (t : conversations.State) (include_archived : Bool) (page page_size : ℕ)
      (rows : List Conversation)
      → AllValid conversations t
      → all_fit is_valid rows ≡ true
      → (create_conversation_response conversations new_id user_id new t
          ≡ create_conversation_api conversations new_id user_id new t)
        × (get_conversation_response conversations id user_id t
            ≡ get_conversation_api conversations id user_id t)
        × (update_conversation_response conversations id user_id p t
            ≡ update_conversation_api conversations id user_id p t)
        × (list_conversations_response user_id include_archived page page_size rows
            ≡ list_conversations user_id include_archived page page_size rows)
        × AllValid conversations (create_conversation_response conversations new_id user_id new t).1
        × AllValid conversations (update_conversation_response conversations id user_id p t).1
        × AllValid conversations (delete_conversation_api conversations id user_id t).1
  unfolding delete_conversation_api
  conversations_fit id new_id user_id new p t include_archived page page_size rows all valid = (
    create-fits conversations new_id user_id new t,
    get-fits conversations id user_id t all,
    update-fits conversations id user_id p t all,
    list-fits user_id include_archived page page_size rows valid,
    create_api-AllValid new_id user_id new t all,
    update_api-AllValid id user_id p t all,
    delete-AllValid conversations id user_id t all,
  )
