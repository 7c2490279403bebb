-- ===== src/Chat/Turns/Written.antt =====
-- What an exchange may have written and shown at its end (consumers.py).
use ai_chat_websocket.Prelude.{◌++◌, ℕ, ◌≡◌, Text, codes, Option, none, some, List, [], ◌∷◌, ok}
use ai_chat_websocket.Core.Errors.{Error}
use ai_chat_websocket.Chat.Tokens.{Message}
use ai_chat_websocket.Chat.Conversations.{Conversation}
use ai_chat_websocket.Chat.Client.{Chunk, content, usage, stream_chat}
use ai_chat_websocket.Chat.Protocol.{Value}
use ai_chat_websocket.Chat.Session.{Backend, Session, StoredMessage}
use ai_chat_websocket.Chat.Exchange.{validate_message_content}
use ai_chat_websocket.Chat.Turns.View.{shown_text}

-- the text and the usage of a stream of chunks
abbrev pub collected : List Chunk → Text → ℕ × ℕ → Text × (ℕ × ℕ)
collected [] full used = (full, used)
collected (content d ∷ chunks) full used = collected chunks (full ++ d) used
collected (usage prompt completion ∷ chunks) full used = collected chunks full (prompt, completion)

-- a message of the user, and an answer with the number of its tokens
abbrev pub question_row : ℕ → Text → StoredMessage
question_row id text = record {
  conversation_id = id;
  role = codes "user";
  content = text;
  prompt_tokens = none;
  completion_tokens = none;
  model_used = [];
}

abbrev pub answer_row : ℕ → Text → Text → ℕ × ℕ → StoredMessage
answer_row id model text (prompt, completion) = record {
  conversation_id = id;
  role = codes "assistant";
  content = text;
  prompt_tokens = some prompt;
  completion_tokens = some completion;
  model_used = model;
}

module _ (backend : Backend) where
  abbrev pub View : Type 0
  View = List (ℕ × StoredMessage) × Text

  -- A stream of the AI service, to some messages, that holds this text and usage and ends like this.
  abbrev pub IsStreamed : Text × (ℕ × ℕ) → Option Error → Type 0
  IsStreamed reply ending =
      (messages : List Message) × (c : Conversation) × (let stream =
          stream_chat backend.tenacity (backend.stream messages c.model c.temperature) in
        (reply ≡ collected stream.0 [] (0, 0)) × (ending ≡ stream.1))

  -- `v` is the content that was received, in session `start`.
  module _ (id : ℕ) (v : Value) (start : Session backend) where
    -- the user's message alone, with the text that the validation of the content gives
    abbrev pub IsQuestion : List (ℕ × StoredMessage) → Type 0
    IsQuestion rows =
        (k : ℕ) × (text : Text) × ((validate_message_content backend v start).0 ≡ ok (some text))
        × (rows ≡ (k, question_row id text) ∷ start.messages)

    -- the text that the client was shown since
    abbrev pub IsShown : Text → Text → Type 0
    IsShown shown full = shown ≡ shown_text start.sent ++ full

    -- What is written at the end: nothing, the user's message, or that and after it the answer, which is all of a
    -- stream that ended without an error, and all that the client was shown.
    pub data Wrote : View → Type 0 where
      nothing : {shown : Text} → Wrote (start.messages, shown)
      question :
          {rows : List (ℕ × StoredMessage)} {shown : Text} → IsQuestion rows → Wrote (rows, shown)
      both :
          {rows : List (ℕ × StoredMessage)} {shown : Text} (k : ℕ) (c : Conversation)
          (answer : Text) (used : ℕ × ℕ)
          → IsQuestion rows
          → IsStreamed (answer, used) none
          → IsShown shown answer
          → Wrote ((k, answer_row id c.model answer used) ∷ rows, shown)
