-- ===== src/Chat/Summary.antt =====
-- The summary of a long conversation: `_generate_summary` of backend/apps/chat/consumers.py and
-- `build_summary_messages` of services.py.
use ai_chat_websocket.Prelude.{
  ℕ, Text, codes, Option, none, some, List, [], ◌∷◌, ◌++◌, Result, ok, err, ◌==◌, nat_eq, text_eq,
  if◌then◌else◌,
}
use ai_chat_websocket.Core.Errors.{Error}
use ai_chat_websocket.Chat.Tokens.{Message, message}
use ai_chat_websocket.Chat.Conversations.{Conversation, with_summary, update_conversation_summary}
use ai_chat_websocket.Chat.Client.{chat}
use ai_chat_websocket.Chat.Session.{Backend, Session}

abbrev pub summary_prompt : Text → Text
summary_prompt history_text =
    codes "請將以下對話歷史摘要成 200 字以內的重點：\n- 保留關鍵資訊和用戶偏好\n- 保留重要的上下文\n- 使用繁體中文\n\n對話歷史：\n"
    ++ history_text
    ++ codes "\n\n請直接輸出摘要內容，不需要其他說明。"

-- `msg[key]`, for a key that is there
unfoldable pub field : Text → Message → Text
field key [] = []
field key ((k, v) ∷ rest) = if k == key then v else field key rest

abbrev pub line : Message → Text
line m = field (codes "role") m ++ (codes ": " ++ field (codes "content") m)

-- `"\n".join(f"{msg['role']}: {msg['content']}" for msg in messages)`
unfoldable pub history_text : List Message → Text
unfolding field
history_text [] = []
history_text (m ∷ []) = line m
history_text (m ∷ n ∷ ms) = line m ++ (codes "\n" ++ history_text (n ∷ ms))

unfoldable pub build_summary_messages : List Message → List Message
unfolding history_text
build_summary_messages ms = message (codes "user") (summary_prompt (history_text ms)) ∷ []

module _ (backend : Backend) where
  -- `_generate_summary`, on the answer of the service. An exception leaves all as it is.
  unfoldable pub save_summary : ℕ → Text → ℕ → ℕ → Conversation → Session backend → Session backend
  save_summary now summary token_count id c s =
      let (result, t) =
        update_conversation_summary backend.conversations id summary token_count now c
          s.conversations in
      record s { conversations = t; conversation = some (with_summary summary token_count now c) }

  unfoldable pub after_answer :
      Result Error (Text × (ℕ × ℕ)) → ℕ → ℕ → ℕ → Conversation → Session backend → Session backend
  unfolding save_summary
  after_answer (err e) now token_count id c s = s
  after_answer (ok ([], used)) now token_count id c s = s
  after_answer (ok (x ∷ summary, used)) now token_count id c s =
      save_summary now (x ∷ summary) token_count id c s

  unfoldable pub generate_summary :
      ℕ
      → Option (List Message × ℕ)
      → Option Conversation
      → Option ℕ
      → Session backend
      → Session backend
  unfolding after_answer
  generate_summary now none c id s = s
  generate_summary now (some task) none id s = s
  generate_summary now (some task) (some c) none s = s
  generate_summary now (some (messages, token_count)) (some c) (some id) s =
      after_answer
        (chat backend.tenacity (backend.answer (build_summary_messages messages) c.model)) now
        token_count id c s
