-- ===== src/Chat/Session.antt =====
-- The state of `ChatConsumer` of backend/apps/chat/consumers.py, with its connection and login.
use ai_chat_websocket.Prelude.{
  ℕ, ℤ, String, Text, codes, Bool, true, false, Option, none, some, List, [], ◌∷◌, ◌++◌, Result, ok,
  err, nat_eq, if◌then◌else◌,
}
use ai_chat_websocket.Platform.KeyStore.{KeyStore}
use ai_chat_websocket.Platform.Cache.{Cache}
use ai_chat_websocket.Platform.Redis.{Redis}
use ai_chat_websocket.Core.Errors.{Error}
use ai_chat_websocket.Core.RateLimit.{Limiter}
use ai_chat_websocket.Chat.Tokens.{Message, Tiktoken}
use ai_chat_websocket.Chat.Conversations.{Conversation, get_conversation}
use ai_chat_websocket.Chat.Client.{Tenacity, OpenaiError, RawStream, Response}
use ai_chat_websocket.Chat.Protocol.{
  Value, Json, get, truthy, or_empty, WsErrorCode, auth_failed, auth_timed_out, no_conversation,
  internal_error, Frame, auth_success, chat_error, ping,
}

pub record StoredMessage : Type 0 where
  pub conversation_id : ℕ
  pub role : Text
  pub content : Text
  pub prompt_tokens : Option ℕ
  pub completion_tokens : Option ℕ
  pub model_used : Text

-- `MAX_USER_MESSAGE_LENGTH`, `WS_MESSAGE_RATE_LIMIT` and `WS_RATE_LIMIT_WINDOW`
abbrev pub max_user_message_length : ℕ
max_user_message_length = 10000

abbrev pub ws_message_rate_limit : ℕ
ws_message_rate_limit = 20

abbrev pub ws_rate_limit_window : ℕ
ws_rate_limit_window = 60

-- What the consumer runs on. `refusal` is the exception that inserting a row raises, if it raises one;
-- `show_number` is `str` of a number and `show_id` of a user's id; `clean` is `nh3.clean` without tags.
-- `stream` and `answer` are the attempts of the AI service on a request.
pub record Backend : Type 1 where
  pub conversations : KeyStore ℕ Conversation
  pub redis : Redis
  pub cache : Cache (List ℕ)
  pub show_time : ℕ → String
  pub fail_closed : Bool
  pub connected : Bool
  pub tiktoken : Tiktoken
  pub tenacity : Tenacity
  pub loads : Text → Option Json
  pub auth_helper : Option (Value → Option ℕ)
  pub clean : Text → Text
  pub show_number : ℕ → Text
  pub show_id : ℕ → String
  pub refusal : StoredMessage → List (ℕ × StoredMessage) → Option Error
  pub new_id : List (ℕ × StoredMessage) → ℕ
  pub stream : List Message → Text → ℤ → ℕ → Result OpenaiError RawStream
  pub answer : List Message → Text → ℕ → Result OpenaiError Response

module _ (backend : Backend) where
  abbrev pub Limits : Type 0
  Limits = Limiter backend.redis backend.show_time backend.cache backend.fail_closed

  -- The fields of the consumer, with the frames and the close codes it has sent, and what it shares
  -- with the rest of the program: the tables and the limiter. `messages` has the newest row first.
  -- A summary task is `(messages, token_count)`; `summary_task` is none when it has ended, and `orphaned` has the
  -- tasks that still run when the field is given another one.
  pub record Session : Type 0 where
    pub conversation_id : Option ℕ
    pub conversation : Option Conversation
    pub user : Option ℕ
    pub is_authenticated : Bool
    pub locked : Bool
    pub auth_timeout_task : Bool
    pub heartbeat_task : Bool
    pub summary_task : Option (List Message × ℕ)
    pub orphaned : List (List Message × ℕ)
    pub accepted : Bool
    pub sent : List Frame
    pub closed : List ℕ
    pub conversations : backend.conversations.State
    pub messages : List (ℕ × StoredMessage)
    pub limits : Limits

  -- What a coroutine returns or raises, and the state it leaves.
  abbrev pub Outcome : Type 0 → Type 0
  Outcome A = Result Error A × Session

  unfoldable pub send : Frame → Session → Session
  send frame s = record s { sent = s.sent ++ frame ∷ [] }

  unfoldable pub send_error : Text → WsErrorCode → Session → Session
  unfolding send
  send_error error code s = send (chat_error error code) s

  unfoldable pub close : ℕ → Session → Session
  close code s = record s { closed = s.closed ++ code ∷ [] }

  -- `connect`, from the UUID of the path, `none` where it is not one
  unfoldable pub connect : Option ℕ → Session → Session
  unfolding close
  connect none s = close 4002 s
  connect (some id) s = record s {
    conversation_id = some id;
    accepted = true;
    auth_timeout_task = true;
  }

  -- what `_auth_timeout` does once AUTH_TIMEOUT has passed, if it is not cancelled
  unfoldable pub auth_timeout : Session → Session
  unfolding send_error close
  auth_timeout s =
      if s.auth_timeout_task
      then (if s.is_authenticated
          then record s { auth_timeout_task = false }
          else close 4001 (
              send_error (codes "Authentication timeout") auth_timed_out
                (record s { auth_timeout_task = false })))
      else s

  -- one round of `_heartbeat`
  unfoldable pub heartbeat : Session → Session
  unfolding send
  heartbeat s = if s.heartbeat_task then send ping s else s

  unfoldable pub disconnect : Session → Session
  disconnect s = record s { auth_timeout_task = false; heartbeat_task = false; summary_task = none }

  unfoldable pub fail_auth : Text → WsErrorCode → ℕ → Session → Session
  unfolding send_error close
  fail_auth error code close_code s = close close_code (send_error error code s)

  -- `_handle_auth`, from the inside out
  unfoldable pub with_conversation : ℕ → ℕ → Result Error Conversation → Session → Session
  unfolding fail_auth send
  with_conversation id user_id (err e) s =
      fail_auth (codes "Conversation not found") no_conversation 4004 s
  with_conversation id user_id (ok c) s = send (auth_success id) (record s {
    conversation = some c;
    user = some user_id;
    is_authenticated = true;
    auth_timeout_task = false;
    heartbeat_task = true;
  })

  -- No row has the key None.
  abbrev pub find_conversation : Option ℕ → ℕ → Session → Session
  find_conversation none user_id s =
      fail_auth (codes "Conversation not found") no_conversation 4004 s
  find_conversation (some id) user_id s =
      with_conversation id user_id
        (get_conversation backend.conversations id user_id s.conversations) s

  unfoldable pub with_user : Option ℕ → Session → Session
  unfolding with_conversation fail_auth
  with_user none s = fail_auth (codes "Invalid or expired token") auth_failed 4001 s
  with_user (some user_id) s = find_conversation s.conversation_id user_id s

  unfoldable pub with_helper : Option (Value → Option ℕ) → Value → Session → Session
  unfolding with_user fail_auth
  with_helper none token s = fail_auth (codes "Internal error") internal_error 4001 s
  with_helper (some helper) token s = with_user (helper token) s

  unfoldable pub handle_auth : List (Text × Value) → Session → Session
  unfolding with_helper fail_auth
  handle_auth fields s =
      let token = or_empty (get (codes "token") fields) in
      if s.is_authenticated
      then s
      else (if truthy token
          then with_helper backend.auth_helper token s
          else fail_auth (codes "Token is required") auth_failed 4001 s)
