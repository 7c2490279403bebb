-- ===== src/Chat/Turns.antt =====
-- `_process_chat_message` of backend/apps/chat/consumers.py with its awaits: between them the summary of an
-- earlier exchange, the heartbeat and the timeout run.
pub mod Refinement
pub mod View
pub mod Written
pub mod Rows
pub mod Race
mod Tests
use ai_chat_websocket.Prelude.{
  ℕ, ◌+◌, Text, codes, Bool, true, false, Option, none, some, List, [], ◌∷◌, ◌++◌, Result, ok, err,
}
use ai_chat_websocket.Core.Errors.{Error, invalid_state_error}
use ai_chat_websocket.Chat.Tokens.{Message, get_token_limit}
use ai_chat_websocket.Chat.History.{build_chat_messages, get_conversation_history}
use ai_chat_websocket.Chat.Conversations.{Conversation}
use ai_chat_websocket.Chat.Client.{Chunk, content, usage, stream_chat}
use ai_chat_websocket.Chat.Protocol.{Value, get, or_empty, internal_error}
use ai_chat_websocket.Chat.Session.{Backend, Session, Outcome, send_error, auth_timeout, heartbeat}
use ai_chat_websocket.Chat.Exchange.{
  send_stream, create_message, validate_message_content, assistant_message, user_message,
  finalize_response, rows_of, catching,
}
use ai_chat_websocket.Chat.Consumer.{run_summary, run_orphan}

-- Where the exchange waits: for the user's message to be saved, for the history, for the coroutine to go on
-- with the history, for the next chunk of the answer, or for the answer to be saved.
pub data Turn : Type 0 where
  finished : Result Error (Unit {0}) → Turn
  saving : Text → Turn
  reading : Turn
  counted : List Message → ℕ → Turn
  streaming : List Message → ℕ → List Chunk → Option Error → Text → ℕ × ℕ → Turn
  storing : List Message → ℕ → Text → ℕ × ℕ → Turn

-- `id` is `self.conversation_id`, which nothing changes any more.
module _ (backend : Backend) (id : ℕ) where
  abbrev pub TurnMachine : Type 0
  TurnMachine = Turn × Session backend

  -- the end, by a return or through the `except` clauses
  unfoldable pub finish : Outcome backend (Unit {0}) → TurnMachine
  unfolding catching
  finish o = let (r, s) = catching backend o in (finished r, s)

  abbrev pub after_validation : Outcome backend (Option Text) → TurnMachine
  after_validation (err e, s) = finish (err e, s)
  after_validation (ok none, s) = finish (ok tt, s)
  after_validation (ok (some text), s) = (saving text, s)

  abbrev pub begin_with : Option Conversation → List (Text × Value) → Session backend → TurnMachine
  begin_with none fields s =
      (finished (ok tt), send_error backend (codes "Invalid conversation state") internal_error s)
  begin_with (some c) fields s =
      after_validation
        (validate_message_content backend (or_empty (get (codes "content") fields)) s)

  -- up to the first await
  unfoldable pub begin_turn : List (Text × Value) → Session backend → TurnMachine
  unfolding finish
  begin_turn fields s = begin_with s.conversation fields s

  abbrev pub after_user_message : Outcome backend ℕ → TurnMachine
  after_user_message (err e, s) = finish (err e, s)
  after_user_message (ok k, s) = (reading, s)

  -- `_get_history_with_token_limit`
  abbrev pub read_history : Option Conversation → Session backend → TurnMachine
  read_history none s =
      finish (err (invalid_state_error (codes "Conversation required for getting history")), s)
  read_history (some c) s =
      let (history, total_tokens) =
        get_conversation_history backend.tiktoken c.model (get_token_limit c.model) c.system_prompt
          c.summary (rows_of backend id s.messages) in
      (counted history total_tokens, s)

  -- `_build_chat_messages` and the start of `_stream_ai_response`
  unfoldable pub start_stream :
      Option Conversation → List Message → ℕ → Session backend → TurnMachine
  unfolding finish
  start_stream none history total_tokens s =
      finish (err (invalid_state_error (codes "Conversation required for building messages")), s)
  start_stream (some c) history total_tokens s =
      let messages = build_chat_messages c.system_prompt c.summary history in
      let (chunks, ending) =
        stream_chat backend.tenacity (backend.stream messages c.model c.temperature) in
      (streaming history total_tokens chunks ending [] (0, 0), s)

  abbrev pub end_stream :
      List Message → ℕ → Option Error → Text → ℕ × ℕ → Session backend → TurnMachine
  end_stream history total_tokens none full_response used s =
      (storing history total_tokens full_response used, s)
  end_stream history total_tokens (some e) full_response used s = finish (err e, s)

  unfoldable pub next_chunk :
      List Message → ℕ → List Chunk → Option Error → Text → ℕ × ℕ → Session backend → TurnMachine
  unfolding finish send_stream
  next_chunk history total_tokens [] ending full_response used s =
      end_stream history total_tokens ending full_response used s
  next_chunk history total_tokens (content delta ∷ chunks) ending full_response used s = (
    streaming history total_tokens chunks ending (full_response ++ delta) used,
    send_stream backend delta false none s,
  )
  next_chunk history total_tokens (usage prompt completion ∷ chunks) ending full_response used s =
      (streaming history total_tokens chunks ending full_response (prompt, completion), s)

  abbrev pub after_answer_saved :
      Outcome backend ℕ → Conversation → Text → ℕ → List Message → TurnMachine
  after_answer_saved (err e, s) c full_response updated_total_tokens history = finish (err e, s)
  after_answer_saved (ok message_id, s) c full_response updated_total_tokens history =
      finish
        (ok tt, finalize_response backend message_id c full_response updated_total_tokens history s)

  -- `_save_and_finalize_response`
  unfoldable pub store_answer :
      Option Conversation → List Message → ℕ → Text → ℕ × ℕ → Session backend → TurnMachine
  unfolding finish create_message finalize_response
  store_answer none history total_tokens full_response used s =
      finish (err (invalid_state_error (codes "Conversation required for saving response")), s)
  store_answer (some c) history total_tokens full_response used s =
      after_answer_saved
        (create_message backend (assistant_message backend id c full_response used) s) c
        full_response (total_tokens + used.1) history

  -- from one await to the next
  unfoldable pub next_turn : TurnMachine → TurnMachine
  unfolding finish create_message start_stream next_chunk store_answer rows_of
  next_turn (finished r, s) = (finished r, s)
  next_turn (saving text, s) =
      after_user_message (create_message backend (user_message backend id text) s)
  next_turn (reading, s) = read_history s.conversation s
  next_turn (counted history total_tokens, s) = start_stream s.conversation history total_tokens s
  next_turn (streaming history total_tokens chunks ending full_response used, s) =
      next_chunk history total_tokens chunks ending full_response used s
  next_turn (storing history total_tokens full_response used, s) =
      store_answer s.conversation history total_tokens full_response used s

  -- What can happen at any of these points.
  pub data TurnMove : TurnMachine → TurnMachine → Type 0 where
    resumed : (m : TurnMachine) → TurnMove m (next_turn m)
    summarized :
        (now : ℕ) (at : Turn) (s : Session backend)
        → TurnMove (at, s) (at, run_summary backend now s)
    orphan_done :
        (now n : ℕ) (at : Turn) (s : Session backend)
        → TurnMove (at, s) (at, run_orphan backend now n s)
    beat : (at : Turn) (s : Session backend) → TurnMove (at, s) (at, heartbeat backend s)
    elapsed : (at : Turn) (s : Session backend) → TurnMove (at, s) (at, auth_timeout backend s)

  pub data TurnReach (m : TurnMachine) : TurnMachine → Type 0 where
    here : TurnReach m m
    next : {n o : TurnMachine} → TurnReach m n → TurnMove n o → TurnReach m o

  -- The exchange when nothing else runs.
  pub data Runs : TurnMachine → TurnMachine → Type 0 where
    arrived : (m : TurnMachine) → Runs m m
    onward : {m n : TurnMachine} → Runs (next_turn m) n → Runs m n
