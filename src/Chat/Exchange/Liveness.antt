-- ===== src/Chat/Exchange/Liveness.antt =====
-- When an exchange is sure to be answered.
use ai_chat_websocket.Prelude.{
  ℕ, ◌≡◌, ◌≢◌, refl, Text, codes, some, some-injective, List, [], ◌∷◌, length, ltb, Result, ok, err,
  Bool-cases, Option-cases, inl, inr,
}
use ai_chat_websocket.Core.Errors.{Error}
use ai_chat_websocket.Chat.Tokens.{Message, get_token_limit}
use ai_chat_websocket.Chat.History.{build_chat_messages, get_conversation_history}
use ai_chat_websocket.Chat.Conversations.{Conversation}
use ai_chat_websocket.Chat.Client.{
  OpenaiError, api_connection_error, api_timeout_error, rate_limit_error, other_openai_error,
  Raised, raised, gave_up, RawStream, Ending, complete, cancelled, failed, ending_error, stream_of,
  stream_chat, handle_openai_errors,
}
use ai_chat_websocket.Chat.Protocol.{Value, text_value, get, or_empty, WsErrorCode, caught, strip}
use ai_chat_websocket.Chat.Session.{
  Backend, Session, Outcome, StoredMessage, max_user_message_length,
}
use ai_chat_websocket.Chat.Exchange.{
  create_message, validate_stripped, validate_message_content, stream_chunks, stream_ai_response,
  assistant_message, user_message, after_save, save_and_finalize_response, respond, exchange,
  rows_of, send_caught, catching, process_chat_message,
}
use ai_chat_websocket.Chat.Exchange.Frames.{Answered, process-Answered}

-- An exception that the consumer answers with an error.
abbrev pub IsCaught : Error → Type 0
IsCaught e = (m : Text × WsErrorCode) × (caught e ≡ some m)

handled-IsCaught : (e : OpenaiError) → IsCaught (handle_openai_errors (raised e))
unfolding handle_openai_errors caught
handled-IsCaught (api_connection_error m) = (_, refl)
handled-IsCaught (api_timeout_error m) = (_, refl)
handled-IsCaught (rate_limit_error m) = (_, refl)
handled-IsCaught (other_openai_error m) = (_, refl)

ending-IsCaught : (e : Ending) (x : Error) → ending_error e ≡ some x → IsCaught x
unfolding caught
ending-IsCaught complete x h = cc h
ending-IsCaught cancelled x h = rw (← some-injective _ _ h) (_, refl)
ending-IsCaught (failed e) x h = rw (← some-injective _ _ h) (handled-IsCaught e)

stream-IsCaught :
    (r : Result Raised RawStream) (x : Error)
    → r ≢ err gave_up
    → (stream_of r).1 ≡ some x
    → IsCaught x
stream-IsCaught (ok s) x kept h = ending-IsCaught s.ending x h
stream-IsCaught (err (raised e)) x kept h = rw (← some-injective _ _ h) (handled-IsCaught e)
stream-IsCaught (err gave_up) x kept h = absurd (kept refl)

module _ (backend : Backend) where
  -- an outcome that the `except` clauses turn into a return
  abbrev Returns : Outcome backend (Unit {0}) → Type 0
  Returns (ok u, s) = Unit
  Returns (err e, s) = IsCaught e

  module _ (c : Conversation)
      (refusals : (m : StoredMessage) (rows : List (ℕ × StoredMessage)) (e : Error)
        → backend.refusal m rows ≡ some e
        → IsCaught e)
      (calls : (ms : List Message)
        → backend.tenacity.call (backend.stream ms c.model c.temperature) ≢ err gave_up) where
    save-Returns :
        (id : ℕ) (history : List Message) (n : ℕ) (answer : Text × (ℕ × ℕ)) (s : Session backend)
        → Returns (save_and_finalize_response backend id c history n (ok answer, s))
    unfolding save_and_finalize_response after_save create_message
    save-Returns id history n (full, used) s =
        elim (Option-cases
          (backend.refusal (assistant_message backend id c full used) s.messages)) [
            | inl saved ↦ rw (saved, create_message) tt
            | inr (e, refused) ↦ rw (refused, create_message) (refusals _ _ e refused)
          ]

    respond-Returns : (id k : ℕ) (s : Session backend) → Returns (respond backend id c (ok k, s))
    unfolding respond stream_ai_response stream_chat save_and_finalize_response
    respond-Returns id k s =
        let (history, total_tokens) =
          get_conversation_history backend.tiktoken c.model (get_token_limit c.model)
            c.system_prompt c.summary (rows_of backend id s.messages) in
        let messages = build_chat_messages c.system_prompt c.summary history in
        let answer =
          stream_of (backend.tenacity.call (backend.stream messages c.model c.temperature)) in
        elim (Option-cases answer.1) [
          | inl whole ↦ rw whole (
              save-Returns id history total_tokens (stream_chunks backend answer.0 [] (0, 0) s).0
                (stream_chunks backend answer.0 [] (0, 0) s).1)
          | inr (e, broken) ↦ rw broken (stream-IsCaught _ e (calls messages) broken)
        ]

    stored-Returns :
        (id : ℕ) (m : StoredMessage) (s : Session backend)
        → Returns (respond backend id c (create_message backend m s))
    unfolding create_message respond
    stored-Returns id m s = elim (Option-cases (backend.refusal m s.messages)) [
      | inl saved ↦
          rw (saved, create_message)
            (respond-Returns id (backend.new_id s.messages)
              (record s { messages = (backend.new_id s.messages, m) ∷ s.messages }))
      | inr (e, refused) ↦ rw (refused, create_message) (refusals m s.messages e refused)
    ]

    exchange-Returns :
        (id : ℕ) (t : Text) (s : Session backend)
        → Returns (exchange backend id c (validate_message_content backend (text_value t) s))
    unfolding exchange validate_message_content validate_stripped
    exchange-Returns id t s = stripped (strip t)
      where
        stripped : (r : Text) → Returns (exchange backend id c (validate_stripped backend r s))
        stripped [] = tt
        stripped (x ∷ r) =
            elim (Bool-cases (ltb max_user_message_length (length (backend.clean (x ∷ r))))) [
              | inl long ↦ rw long tt
              | inr short ↦
                  rw short (stored-Returns id (user_message backend id (backend.clean (x ∷ r))) s)
            ]

    catching-Returns : (o : Outcome backend (Unit {0})) → Returns o → (catching backend o).0 ≡ ok tt
    unfolding catching send_caught
    catching-Returns (ok u, s) h = refl
    catching-Returns (err e, s) (m, h) = rw h

    returned :
        (fields : List (Text × Value)) (id : ℕ) (t : Text) (s : Session backend)
        → or_empty (get (codes "content") fields) ≡ text_value t
        → (process_chat_message backend fields id c s).0 ≡ ok tt
    unfolding process_chat_message
    returned fields id t s given = rw given (catching-Returns _ (exchange-Returns id t s))

    -- A message whose content is a text, or is left out, is always answered, provided that the database
    -- refuses a message only with exceptions that are caught and that the retries of the AI service do
    -- not give up.
    pub always-Answered :
        (fields : List (Text × Value)) (id : ℕ) (t : Text) (s : Session backend)
        → or_empty (get (codes "content") fields) ≡ text_value t
        → Answered backend id s (process_chat_message backend fields id c s).1
    always-Answered fields id t s given =
        process-Answered backend fields id c s (returned fields id t s given)
