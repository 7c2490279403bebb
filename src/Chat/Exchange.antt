-- ===== src/Chat/Exchange.antt =====
-- One exchange of a chat: `_process_chat_message` of backend/apps/chat/consumers.py and what it
-- calls, and `create_message` of services.py.
pub mod Kept
pub mod Failures
pub mod Content
pub mod Frames
pub mod Liveness
pub mod Stored
pub mod Isolation
mod Tests
use ai_chat_websocket.Prelude.{
  ℕ, ◌+◌, Text, codes, Bool, true, false, Option, none, some, List, [], ◌∷◌, ◌++◌, length, ltb,
  Result, ok, err, ◌==◌, nat_eq, if◌then◌else◌,
}
use ai_chat_websocket.Core.Errors.{Error, attribute_error}
use ai_chat_websocket.Chat.Tokens.{Message, message, get_token_limit, should_summarize}
use ai_chat_websocket.Chat.History.{build_chat_messages, get_conversation_history}
use ai_chat_websocket.Chat.Conversations.{Conversation}
use ai_chat_websocket.Chat.Client.{Chunk, content, usage, stream_chat}
use ai_chat_websocket.Chat.Protocol.{
  Value, text_value, other_value, get, or_empty, WsErrorCode, empty_content, message_too_long,
  chat_stream, caught, strip,
}
use ai_chat_websocket.Chat.Session.{
  StoredMessage, max_user_message_length, Backend, Session, Outcome, send, send_error,
}

module _ (backend : Backend) where
  -- `_send_stream`
  unfoldable pub send_stream : Text → Bool → Option ℕ → Session backend → Session backend
  send_stream text done message_id s = send backend (chat_stream text done message_id) s

  -- `create_message`
  unfoldable pub create_message : StoredMessage → Session backend → Outcome backend ℕ
  create_message m s = elim (backend.refusal m s.messages) [
    | some e ↦ (err e, s)
    | none ↦
        let id = backend.new_id s.messages in (ok id, record s { messages = (id, m) ∷ s.messages })
  ]

  -- `_validate_message_content`, on the content without the spaces around it
  unfoldable pub validate_stripped : Text → Session backend → Outcome backend (Option Text)
  validate_stripped [] s =
      (ok none, send_error backend (codes "Message content is required") empty_content s)
  validate_stripped (c ∷ raw) s =
      let cleaned = backend.clean (c ∷ raw) in
      if ltb max_user_message_length (length cleaned)
      then (
        ok none,
        send_error backend (codes "Message exceeds maximum length of 10000") message_too_long s,
      )
      else (ok (some cleaned), s)

  -- A value that is not a text has no `strip`.
  unfoldable pub validate_message_content : Value → Session backend → Outcome backend (Option Text)
  unfolding validate_stripped
  validate_message_content (text_value t) s = validate_stripped (strip t) s
  validate_message_content (other_value b) s = (err attribute_error, s)

  -- the loop of `_stream_ai_response`: the text so far and the usage
  unfoldable pub stream_chunks :
      List Chunk → Text → ℕ × ℕ → Session backend → (Text × (ℕ × ℕ)) × Session backend
  unfolding send_stream
  stream_chunks [] full_response used s = ((full_response, used), s)
  stream_chunks (content delta ∷ chunks) full_response used s =
      stream_chunks chunks (full_response ++ delta) used (send_stream delta false none s)
  stream_chunks (usage prompt completion ∷ chunks) full_response used s =
      stream_chunks chunks full_response (prompt, completion) s

  abbrev pub raise_at_end : {A : Type 0} → Option Error → A → Result Error A
  raise_at_end none a = ok a
  raise_at_end (some e) a = err e

  unfoldable pub stream_ai_response :
      List Message → Conversation → Session backend → Outcome backend (Text × (ℕ × ℕ))
  unfolding stream_chunks
  stream_ai_response messages c s =
      let (chunks, ending) =
        stream_chat backend.tenacity (backend.stream messages c.model c.temperature) in
      let (answer, s') = stream_chunks chunks [] (0, 0) s in (raise_at_end ending answer, s')

  abbrev pub assistant_message : ℕ → Conversation → Text → ℕ × ℕ → StoredMessage
  assistant_message id c full_response used = record {
    conversation_id = id;
    role = codes "assistant";
    content = full_response;
    prompt_tokens = some used.0;
    completion_tokens = some used.1;
    model_used = c.model;
  }

  abbrev pub user_message : ℕ → Text → StoredMessage
  user_message id text = record {
    conversation_id = id;
    role = codes "user";
    content = text;
    prompt_tokens = none;
    completion_tokens = none;
    model_used = [];
  }

  -- what becomes of the task that the field had, if it still runs
  abbrev pub orphan : Option (List Message × ℕ) → List (List Message × ℕ) → List (List Message × ℕ)
  orphan none tasks = tasks
  orphan (some task) tasks = task ∷ tasks

  -- what `_save_and_finalize_response` does when the message is saved under `message_id`
  unfoldable pub finalize_response :
      ℕ → Conversation → Text → ℕ → List Message → Session backend → Session backend
  unfolding send_stream
  finalize_response message_id c full_response updated_total_tokens history s =
      let s' = send_stream [] true (some message_id) s in
      let task : List Message × ℕ =
        (history ++ message (codes "assistant") full_response ∷ [], updated_total_tokens) in
      if should_summarize updated_total_tokens c.model
      then record s' { summary_task = some task; orphaned = orphan s'.summary_task s'.orphaned }
      else s'

  unfoldable pub after_save :
      Outcome backend ℕ → Conversation → Text → ℕ → List Message → Outcome backend (Unit {0})
  unfolding finalize_response
  after_save (err e, s) c full_response updated_total_tokens history = (err e, s)
  after_save (ok message_id, s) c full_response updated_total_tokens history =
      (ok tt, finalize_response message_id c full_response updated_total_tokens history s)

  unfoldable pub save_and_finalize_response :
      ℕ
      → Conversation
      → List Message
      → ℕ
      → Outcome backend (Text × (ℕ × ℕ))
      → Outcome backend (Unit {0})
  unfolding after_save create_message
  save_and_finalize_response id c history total_tokens (err e, s) = (err e, s)
  save_and_finalize_response id c history total_tokens (ok (full_response, used), s) =
      after_save (create_message (assistant_message id c full_response used) s) c full_response
        (total_tokens + used.1) history

  -- The rows of a conversation, as the query of the history gives them.
  unfoldable pub rows_of : ℕ → List (ℕ × StoredMessage) → List Message
  rows_of id [] = []
  rows_of id ((k, m) ∷ rows) =
      let rest = rows_of id rows in
      if m.conversation_id == id then message m.role m.content ∷ rest else rest

  -- the exchange after the user's message is saved
  unfoldable pub respond : ℕ → Conversation → Outcome backend ℕ → Outcome backend (Unit {0})
  unfolding save_and_finalize_response stream_ai_response rows_of
  respond id c (err e, s) = (err e, s)
  respond id c (ok user_message_id, s) =
      let (history, total_tokens) =
        get_conversation_history backend.tiktoken c.model (get_token_limit c.model) c.system_prompt
          c.summary (rows_of id s.messages) in
      save_and_finalize_response id c history total_tokens
        (stream_ai_response (build_chat_messages c.system_prompt c.summary history) c s)

  unfoldable pub exchange :
      ℕ → Conversation → Outcome backend (Option Text) → Outcome backend (Unit {0})
  unfolding respond create_message
  exchange id c (err e, s) = (err e, s)
  exchange id c (ok none, s) = (ok tt, s)
  exchange id c (ok (some text), s) = respond id c (create_message (user_message id text) s)

  -- the `except` clauses
  unfoldable pub send_caught :
      Option (Text × WsErrorCode) → Error → Session backend → Outcome backend (Unit {0})
  send_caught none e s = (err e, s)
  send_caught (some (m, code)) e s = (ok tt, send_error backend m code s)

  unfoldable pub catching : Outcome backend (Unit {0}) → Outcome backend (Unit {0})
  unfolding send_caught
  catching (ok u, s) = (ok u, s)
  catching (err e, s) = send_caught (caught e) e s

  unfoldable pub process_chat_message :
      List (Text × Value) → ℕ → Conversation → Session backend → Outcome backend (Unit {0})
  unfolding exchange validate_message_content catching
  process_chat_message fields id c s =
      catching
        (exchange id c (validate_message_content (or_empty (get (codes "content") fields)) s))
