-- ===== src/Chat/History.antt =====
-- `get_conversation_history_with_token_limit` of backend/apps/chat/services.py, and the messages that
-- `_build_chat_messages` of backend/apps/chat/consumers.py makes of it.
pub mod Window
pub mod Budget
mod Tests
use mathlib.Core.List.{reverse}
use ai_chat_websocket.Prelude.{ℕ, ◌+◌, Text, codes, List, [], ◌∷◌, ◌++◌, ltb, if◌then◌else◌}
use ai_chat_websocket.Chat.Tokens.{
  Message, message, Tiktoken, count_messages_tokens, get_token_limit,
}

-- `f"對話摘要：{summary}"`
abbrev pub summary_text : Text → Text
summary_text summary = 0x5c0d ∷ 0x8a71 ∷ 0x6458 ∷ 0x8981 ∷ 0xff1a ∷ summary

-- `[...] if text else []`
abbrev pub unless_empty : Text → List Message → List Message
unless_empty [] ms = []
unless_empty (c ∷ s) ms = ms

-- the system messages that are counted before the history
unfoldable pub reserved_messages : Text → Text → List Message
reserved_messages system_prompt summary =
    unless_empty system_prompt (message (codes "system") system_prompt ∷ [])
    ++ unless_empty summary (message (codes "system") (summary_text summary) ∷ [])

-- `_build_chat_messages`: the system prompt is sent even if it is empty
unfoldable pub build_chat_messages : Text → Text → List Message → List Message
build_chat_messages system_prompt summary history =
    (message (codes "system") system_prompt
      ∷ unless_empty summary (message (codes "system") (summary_text summary) ∷ []))
    ++ history

module _ (tiktoken : Tiktoken) (model : Text) where
  abbrev pub tokens_if_any : List Message → ℕ
  tokens_if_any [] = 0
  tokens_if_any (m ∷ ms) = count_messages_tokens tiktoken model (m ∷ ms)

  -- The loop over the messages, newest first. `available_tokens` may be negative in the program, so
  -- `current + tokens > max_tokens - reserved` is tested with `reserved` on the other side.
  unfoldable pub select_messages : ℕ → ℕ → List Message → List Message → ℕ → List Message × ℕ
  select_messages max_tokens reserved [] selected current = (selected, current)
  select_messages max_tokens reserved (m ∷ ms) selected current =
      let msg_tokens = count_messages_tokens tiktoken model (m ∷ []) in
      let rest =
        select_messages max_tokens reserved ms (selected ++ m ∷ []) (current + msg_tokens) in
      if ltb max_tokens (reserved + (current + msg_tokens)) then (selected, current) else rest

  -- `newest_first` is the query's answer, ordered by `-created_at`; `max_tokens` is the argument, or
  -- `get_token_limit(model)` where it is None.
  unfoldable pub get_conversation_history : ℕ → Text → Text → List Message → List Message × ℕ
  unfolding select_messages
  get_conversation_history max_tokens system_prompt summary newest_first =
      let reserved = tokens_if_any (reserved_messages system_prompt summary) in
      let (selected, current) = select_messages max_tokens reserved newest_first [] 0 in
      (reverse selected, reserved + current)
