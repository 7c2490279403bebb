-- ===== src/Chat/Consumer.antt =====
-- `receive` of `ChatConsumer` of backend/apps/chat/consumers.py. One call of `receive`, one timeout, one
-- heartbeat and one finished summary are single steps.
pub mod Branches
pub mod Access
pub mod Login
pub mod Orphans
pub mod Tests
use ai_chat_websocket.Prelude.{
  ℕ, zero, suc, ◌+◌, ℤ, pos, String, Text, codes, Bool, true, false, Option, none, some, List, [],
  ◌∷◌, ◌++◌, map, filter, length, ltb, Result, ok, err, ◌==◌, nat_eq, if◌then◌else◌,
}
use ai_chat_websocket.Platform.KeyStore.{KeyStore}
use ai_chat_websocket.Platform.Cache.{Cache}
use ai_chat_websocket.Platform.Redis.{Redis}
use ai_chat_websocket.Core.Errors.{Error, attribute_error, ai_service_error}
use ai_chat_websocket.Core.RateLimit.{Verdict, Limiter, check_ws_rate_limit}
use ai_chat_websocket.Chat.Tokens.{Message, message, Tiktoken, get_token_limit, should_summarize}
use ai_chat_websocket.Chat.History.{build_chat_messages, get_conversation_history}
use ai_chat_websocket.Chat.Conversations.{
  Conversation, conversation_not_found, get_conversation, update_conversation_summary,
}
use ai_chat_websocket.Chat.Client.{
  Tenacity, OpenaiError, RawStream, Response, Chunk, content, usage, stream_chat, chat,
}
use ai_chat_websocket.Chat.Protocol.{
  Value, text_value, other_value, Json, object, not_object, get, truthy, or_empty, is_text,
  WsErrorCode, invalid_json, unknown_type, auth_required, auth_failed, auth_timed_out,
  no_conversation, rate_limit_exceeded, already_processing, internal_error, empty_content,
  message_too_long, Frame, auth_success, chat_stream, chat_error, ping, caught, strip,
}
use ai_chat_websocket.Chat.Session.{
  StoredMessage, max_user_message_length, ws_message_rate_limit, ws_rate_limit_window, Backend,
  Session, Outcome, send, send_error, handle_auth, auth_timeout, heartbeat, disconnect, connect,
}
use ai_chat_websocket.Chat.Exchange.{process_chat_message}
use ai_chat_websocket.Chat.Summary.{generate_summary}

abbrev pub cons_rest : {A : Type 0} → A → Option A × List A → Option A × List A
cons_rest x (found, rest) = (found, x ∷ rest)

-- one of the tasks, and the others
abbrev pub pick_task : {A : Type 0} → ℕ → List A → Option A × List A
pick_task n [] = (none, [])
pick_task zero (x ∷ xs) = (some x, xs)
pick_task (suc n) (x ∷ xs) = cons_rest x (pick_task n xs)

module _ (backend : Backend) where
  -- `async with self._processing_lock`
  abbrev pub released : Outcome backend (Unit {0}) → Outcome backend (Unit {0})
  released (r, s) = (r, record s { locked = false })

  abbrev pub refused : ℕ → Text
  refused retry_after =
      codes "Rate limit exceeded. Try again in "
      ++ (backend.show_number retry_after ++ codes " seconds.")

  -- The two `if not`s of `_handle_chat_message`, on the answer of the limiter.
  unfoldable pub when_allowed :
      Verdict
      → List (Text × Value)
      → ℕ
      → Conversation
      → Session backend
      → Outcome backend (Unit {0})
  unfolding process_chat_message
  when_allowed (is_allowed, retry_after) fields id c s =
      if is_allowed
      then (if s.locked
          then (
            ok tt,
            send_error backend (codes "Already processing a message") already_processing s,
          )
          else released (process_chat_message backend fields id c (record s { locked = true })))
      else (ok tt, send_error backend (refused retry_after) rate_limit_exceeded s)

  unfoldable pub handle_active :
      ℕ → List (Text × Value) → Conversation → ℕ → ℕ → Session backend → Outcome backend (Unit {0})
  unfolding when_allowed
  handle_active now fields c id user_id s =
      let (verdict, limits') =
        check_ws_rate_limit backend.redis backend.show_time backend.cache backend.fail_closed
          backend.connected (backend.show_id user_id) "message" ws_message_rate_limit
          ws_rate_limit_window now s.limits in
      when_allowed verdict fields id c (record s { limits = limits' })

  abbrev pub no_active : Session backend → Outcome backend (Unit {0})
  no_active s = (ok tt, send_error backend (codes "No active conversation") no_conversation s)

  unfoldable pub handle_with :
      Option Conversation
      → Option ℕ
      → Option ℕ
      → ℕ
      → List (Text × Value)
      → Session backend
      → Outcome backend (Unit {0})
  unfolding handle_active
  handle_with none id user_id now fields s = no_active s
  handle_with (some c) none user_id now fields s = no_active s
  handle_with (some c) (some id) none now fields s = no_active s
  handle_with (some c) (some id) (some user_id) now fields s =
      handle_active now fields c id user_id s

  unfoldable pub handle_chat_message :
      ℕ → List (Text × Value) → Session backend → Outcome backend (Unit {0})
  unfolding handle_with
  handle_chat_message now fields s =
      handle_with s.conversation s.conversation_id s.user now fields s

  -- A value that is not an object has no `get`.
  unfoldable pub dispatch : Option Json → ℕ → Session backend → Outcome backend (Unit {0})
  unfolding handle_chat_message handle_auth
  dispatch none now s = (ok tt, send_error backend (codes "Invalid JSON") invalid_json s)
  dispatch (some not_object) now s = (err attribute_error, s)
  dispatch (some (object fields)) now s =
      let msg_type = get (codes "type") fields in
      if is_text (codes "auth") msg_type
      then (ok tt, handle_auth backend fields s)
      else (if is_text (codes "pong") msg_type
          then (ok tt, s)
          else (if s.is_authenticated
              then (if is_text (codes "chat.message") msg_type
                  then handle_chat_message now fields s
                  else (ok tt, send_error backend (codes "Unknown message type") unknown_type s))
              else (ok tt, send_error backend (codes "Authentication required") auth_required s)))

  unfoldable pub receive : ℕ → Text → Session backend → Outcome backend (Unit {0})
  unfolding dispatch
  receive now text_data s = dispatch (backend.loads text_data) now s

  -- The summary task runs to its end.
  unfoldable pub run_summary : ℕ → Session backend → Session backend
  unfolding generate_summary
  run_summary now s =
      generate_summary backend now s.summary_task s.conversation s.conversation_id
        (record s { summary_task = none })

  -- A summary task that no field points to any more runs to its end.
  unfoldable pub run_orphan : ℕ → ℕ → Session backend → Session backend
  unfolding generate_summary
  run_orphan now n s =
      let (task, rest) = pick_task n s.orphaned in
      generate_summary backend now task s.conversation s.conversation_id
        (record s { orphaned = rest })

  -- What happens to a connection after `connect`.
  pub data Step : Session backend → Session backend → Type 0 where
    received :
        (now : ℕ) (text_data : Text) (s : Session backend) → Step s (receive now text_data s).1
    timed_out : (s : Session backend) → Step s (auth_timeout backend s)
    beat : (s : Session backend) → Step s (heartbeat backend s)
    summarized : (now : ℕ) (s : Session backend) → Step s (run_summary now s)
    orphan_done : (now n : ℕ) (s : Session backend) → Step s (run_orphan now n s)
    disconnected : (s : Session backend) → Step s (disconnect backend s)
