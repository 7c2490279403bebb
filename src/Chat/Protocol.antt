-- ===== src/Chat/Protocol.antt =====
-- The messages of the WebSocket in backend/apps/chat/consumers.py: what arrives, what is sent.
use mathlib.Core.List.{reverse}
use ai_chat_websocket.Prelude.{
  ℕ, Text, codes, Bool, true, false, ◌&&◌, ◌||◌, Option, none, some, List, [], ◌∷◌, leb, ◌==◌,
  nat_eq, text_eq, if◌then◌else◌,
}
use ai_chat_websocket.Core.Errors.{
  Error, ai_service_error, invalid_state_error, integrity_error, database_error, timeout_error,
  connection_error,
}

-- A value of JSON: a text, or something else with its truth value in Python.
pub data Value : Type 0 where
  text_value : Text → Value
  other_value : Bool → Value

-- What `orjson.loads` makes of a message: an object, or another value.
pub data Json : Type 0 where
  object : List (Text × Value) → Json
  not_object : Json

-- `data.get(key)`
unfoldable pub get : Text → List (Text × Value) → Option Value
get key [] = none
get key ((k, v) ∷ rest) = if k == key then some v else get key rest

abbrev pub truthy : Value → Bool
truthy (text_value []) = false
truthy (text_value (c ∷ s)) = true
truthy (other_value b) = b

abbrev pub or_empty : Option Value → Value
or_empty none = text_value []
or_empty (some v) = v

-- `msg_type == ...`
abbrev pub is_text : Text → Option Value → Bool
is_text s none = false
is_text s (some (text_value t)) = t == s
is_text s (some (other_value b)) = false

pub data WsErrorCode : Type 0 where
  invalid_json unknown_type auth_required auth_failed auth_timed_out no_conversation : WsErrorCode
  rate_limit_exceeded already_processing internal_error empty_content message_too_long : WsErrorCode
  ai_timeout ai_error : WsErrorCode

-- The frames that the consumer sends.
pub data Frame : Type 0 where
  auth_success : ℕ → Frame
  chat_stream : Text → Bool → Option ℕ → Frame
  chat_error : Text → WsErrorCode → Frame
  ping : Frame

-- The `except` clauses of `_process_chat_message`: the error that is sent, `none` where the exception
-- passes through.
unfoldable pub caught : Error → Option (Text × WsErrorCode)
caught timeout_error = some (codes "AI response timed out", ai_timeout)
caught (ai_service_error m) = some (m, ai_error)
caught integrity_error = some (codes "Database error occurred", internal_error)
caught database_error = some (codes "Database error occurred", internal_error)
caught connection_error = some (codes "Connection error occurred", internal_error)
caught (invalid_state_error m) = some (codes "Invalid conversation state", internal_error)
caught _ = none

-- The characters that `str.strip` removes.
abbrev pub is_space : ℕ → Bool
is_space c =
    (leb 9 c && leb c 13)
    || (leb 28 c && leb c 32)
    || c == 133
    || c == 160
    || c == 5760
    || (leb 8192 c && leb c 8202)
    || c == 8232
    || c == 8233
    || c == 8239
    || c == 8287
    || c == 12288

unfoldable pub lstrip : Text → Text
lstrip [] = []
lstrip (c ∷ s) = if is_space c then lstrip s else c ∷ s

unfoldable pub strip : Text → Text
unfolding lstrip
strip s = reverse (lstrip (reverse (lstrip s)))
