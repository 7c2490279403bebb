-- ===== src/Chat/Exchange/Failures.antt =====
-- An exchange whose call of the AI service fails, and what no exchange changes.
use ai_chat_websocket.Prelude.{
  ℕ, ◌<◌, ◌≡◌, refl, ◌∙◌, Text, Bool, Option, List, ok, err, Option-cases, inl, inr, true,
}
use ai_chat_websocket.Core.Errors.{retry_error}
use ai_chat_websocket.Chat.Tokens.{Message, get_token_limit}
use ai_chat_websocket.Chat.History.{build_chat_messages, get_conversation_history}
use ai_chat_websocket.Chat.Conversations.{Conversation}
use ai_chat_websocket.Chat.Client.{OpenaiError, is_retryable, max_attempts, stream_chat}
use ai_chat_websocket.Chat.Protocol.{Value, caught}
use ai_chat_websocket.Chat.Session.{Backend, Session, StoredMessage, send}
use ai_chat_websocket.Chat.Exchange.Kept.{IsKept, validate-IsKept, process-IsKept}
use ai_chat_websocket.Chat.Exchange.{
  create_message, validate_message_content, stream_chunks, stream_ai_response,
  save_and_finalize_response, respond, rows_of, send_caught, catching, process_chat_message,
}

module _ (backend : Backend) where
  -- Where all four attempts of the AI service fail with an exception that is retried, the
  -- exchange that follows the saved message of the user ends with the exception RetryError, and
  -- nothing more is sent or stored.
  pub exhausted_uncaught :
      (id k : ℕ) (c : Conversation) (s : Session backend)
      → ((ms : List Message) (i : ℕ)
          → i < max_attempts
          → (e : OpenaiError) × (backend.stream ms c.model c.temperature i ≡ err e)
            × (is_retryable e ≡ true))
      → catching backend (respond backend id c (ok k, s)) ≡ (err retry_error, s)
  unfolding catching respond save_and_finalize_response stream_ai_response stream_chat stream_chunks
      send_caught caught
  exhausted_uncaught id k c s h =
      let history =
        (get_conversation_history backend.tiktoken c.model (get_token_limit c.model) c.system_prompt
          c.summary (rows_of backend id s.messages)).0 in
      let messages = build_chat_messages c.system_prompt c.summary history in
      rw
        (backend.tenacity.call-gave_up (backend.stream messages c.model c.temperature) (h messages))

  -- Who is logged in to which conversation, the id that is served, and the lock.
  abbrev pub identity : Session backend → Bool × Option Conversation × Option ℕ × Option ℕ × Bool
  identity s = (s.is_authenticated, s.conversation, s.user, s.conversation_id, s.locked)

  pub create_message-identity :
      (m : StoredMessage) (s : Session backend)
      → identity (create_message backend m s).1 ≡ identity s
  unfolding create_message
  create_message-identity m s = elim (Option-cases (backend.refusal m s.messages)) [
    | inl e ↦ rw (e, create_message)
    | inr (x, e) ↦ rw (e, create_message)
  ]

  abbrev SameIdentity : ℕ → Session backend → Session backend → Type 0
  SameIdentity n s t = identity t ≡ identity s

  identity-IsKept : IsKept backend SameIdentity
  unfolding send
  identity-IsKept = record {
    same = λ n s. refl;
    then_on = λ n k s t u first second. second ∙ first;
    sends = λ frame s. refl;
    orders = λ task tasks s. refl;
  }

  pub validate-identity :
      (v : Value) (s : Session backend)
      → identity (validate_message_content backend v s).1 ≡ identity s
  validate-identity v s = validate-IsKept backend SameIdentity identity-IsKept v s

  -- An exchange changes neither the login nor the lock.
  pub process-identity :
      (fields : List (Text × Value)) (id : ℕ) (c : Conversation) (s : Session backend)
      → identity (process_chat_message backend fields id c s).1 ≡ identity s
  process-identity fields id c s =
      process-IsKept backend SameIdentity identity-IsKept id
        (λ m s own. create_message-identity m s) fields c s
