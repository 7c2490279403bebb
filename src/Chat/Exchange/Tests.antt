-- ===== src/Chat/Exchange/Tests.antt =====
-- The theorems on exchanges that are answered, at concrete inputs.
use ai_chat_websocket.Prelude.{refl, codes, none, some, [], ◌∷◌, List, Text, err, true, false}
use ai_chat_websocket.Platform.LocalRedis.{no_sets}
use ai_chat_websocket.Chat.Protocol.{Value, get, text_value}
use ai_chat_websocket.Chat.Client.{other_openai_error, is_retryable}
use ai_chat_websocket.Chat.Client.Retrying.{tries}
use ai_chat_websocket.Chat.Session.{Backend, Session}
use ai_chat_websocket.Chat.Exchange.{process_chat_message}
use ai_chat_websocket.Chat.Exchange.Frames.{Answered}
use ai_chat_websocket.Chat.Exchange.Liveness.{always-Answered}
use ai_chat_websocket.Chat.Consumer.Tests.{overloaded, talk}

-- The backend with a service that refuses the request for good.
abbrev refusing : Backend
refusing = record overloaded {
  stream = λ ms model temperature i. err (other_openai_error (codes "bad request"));
}

abbrev open_session : Session refusing
open_session = record {
  conversation_id = some 5;
  conversation = some talk;
  user = some 1;
  is_authenticated = true;
  locked = false;
  auth_timeout_task = false;
  heartbeat_task = true;
  summary_task = none;
  orphaned = [];
  accepted = true;
  sent = [];
  closed = [];
  conversations = λ id. some talk;
  messages = [];
  limits = record { sorted_sets = no_sets; cached = λ k. none };
}

abbrev question : List (Text × Value)
question = (codes "content", text_value (codes "hello")) ∷ []

always-Answered_example :
    Answered refusing 5 open_session (process_chat_message refusing question 5 talk open_session).1
unfolding is_retryable tries get
always-Answered_example =
    always-Answered refusing talk (λ m rows e h. cc h) (λ ms h. cc h) question 5 (codes "hello")
      open_session refl
