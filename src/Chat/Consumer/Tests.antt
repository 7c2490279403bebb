-- ===== src/Chat/Consumer/Tests.antt =====
-- The theorems on the consumer at concrete inputs.
use ai_chat_websocket.Chat.Protocol.{strip}
use ai_chat_websocket.Prelude.{
  ℕ, Text, arith, pos, nat_eq, ◌≡◌, refl, codes, true, false, none, some, List, [], ◌∷◌, ok, err,
  length,
}
use ai_chat_websocket.Platform.KeyStore.{accepting}
use ai_chat_websocket.Platform.Cache.{timed}
use ai_chat_websocket.Platform.LocalRedis.{local_redis, no_sets}
use ai_chat_websocket.Core.Errors.{retry_error}
use ai_chat_websocket.Chat.Tokens.{Tiktoken}
use ai_chat_websocket.Chat.Conversations.{Conversation}
use ai_chat_websocket.Chat.Client.{rate_limit_error, is_retryable}
use ai_chat_websocket.Chat.Client.Retrying.{retrying}
use ai_chat_websocket.Chat.Protocol.{text_value, object}
use ai_chat_websocket.Chat.Session.{Backend, Session, Limits}
use ai_chat_websocket.Chat.Exchange.{respond, catching}
use ai_chat_websocket.Chat.Exchange.Failures.{exhausted_uncaught, identity}
use ai_chat_websocket.Chat.Protocol.{Value, get}
use ai_chat_websocket.Chat.Exchange.{process_chat_message}
use ai_chat_websocket.Chat.Conversations.{get_conversation}
use ai_chat_websocket.Chat.Endpoints.{unhandled}
use ai_chat_websocket.Chat.Responses.{list_messages_response}
use ai_chat_websocket.Chat.Responses.Unreadable.{cleaned_away_unreadable}
use ai_chat_websocket.Chat.Tokens.{
  message, should_summarize, get_summary_threshold_tokens, get_token_limit,
}
use ai_chat_websocket.Chat.Conversations.{with_summary}
use ai_chat_websocket.Chat.Client.{chat}
use ai_chat_websocket.Chat.Client.Retrying.{tries}
use ai_chat_websocket.Chat.Session.{disconnect}
use ai_chat_websocket.Chat.Exchange.{finalize_response}
use ai_chat_websocket.Chat.Consumer.{run_summary, run_orphan}
use ai_chat_websocket.Chat.Consumer.Orphans.{stale_summary}
use ai_chat_websocket.Chat.Consumer.{receive, received}
use ai_chat_websocket.Chat.Consumer.Access.{shared, unauthenticated_receive}
use ai_chat_websocket.Chat.Consumer.Login.{IsLoggedIn, Step-IsLoggedIn}

abbrev pub by_character : Tiktoken
by_character = record {
  Encoding = Unit {0};
  encoding_for_model = λ model. none;
  cl100k_base = tt;
  encoded_length = λ encoding s. length s;
}

-- A backend whose AI service is overloaded and for which every message is a login with token "t".
abbrev pub overloaded : Backend
overloaded = record {
  conversations = accepting (λ c. true);
  redis = local_redis;
  cache = timed (List ℕ);
  show_time = λ now. "";
  fail_closed = false;
  connected = true;
  tiktoken = by_character;
  tenacity = retrying;
  loads = λ s. some (
      object
        ((codes "type", text_value (codes "auth")) ∷ (codes "token", text_value (codes "t")) ∷ []));
  auth_helper = some (λ token. some 1);
  clean = λ s. s;
  show_number = λ n. codes "1";
  show_id = λ id. "1";
  refusal = λ m rows. none;
  new_id = λ rows. length rows;
  stream = λ ms model temperature i. err (rate_limit_error (codes "slow down"));
  answer = λ ms model i. err (rate_limit_error (codes "slow down"));
}

abbrev pub talk : Conversation
talk = record {
  id = 5;
  user_id = 1;
  title = codes "first";
  model = codes "gpt-4o";
  system_prompt = codes "be brief";
  temperature = pos 700;
  is_archived = false;
  summary = [];
  summary_token_count = 0;
  last_summarized_at = none;
}

abbrev pub fresh_limits : Limits overloaded
fresh_limits = record { sorted_sets = no_sets; cached = λ k. none }

abbrev pub waiting : Session overloaded
waiting = record {
  conversation_id = some 5;
  conversation = none;
  user = none;
  is_authenticated = false;
  locked = false;
  auth_timeout_task = true;
  heartbeat_task = false;
  summary_task = none;
  orphaned = [];
  accepted = true;
  sent = [];
  closed = [];
  conversations = λ id. some talk;
  messages = [];
  limits = fresh_limits;
}

unauthenticated_receive_example :
    shared overloaded (receive overloaded 9 (codes "{}") waiting).1 ≡ shared overloaded waiting
unauthenticated_receive_example = unauthenticated_receive overloaded 9 (codes "{}") waiting refl

Step-IsLoggedIn_example :
    IsLoggedIn overloaded (identity overloaded (receive overloaded 9 (codes "{}") waiting).1)
Step-IsLoggedIn_example =
    Step-IsLoggedIn overloaded waiting (receive overloaded 9 (codes "{}") waiting).1
      (received 9 (codes "{}") waiting) (λ e. cc e, refl)

exhausted_uncaught_example :
    catching overloaded (respond overloaded 5 talk (ok 0, waiting)) ≡ (err retry_error, waiting)
unfolding is_retryable
exhausted_uncaught_example =
    exhausted_uncaught overloaded 5 0 talk waiting
      (λ ms i lt. (rate_limit_error (codes "slow down"), refl, refl))

-- The backend with a cleaning that leaves nothing, as `nh3.clean` does of a message of tags alone.
abbrev tags_only : Backend
tags_only = record overloaded { clean = λ s. [] }

abbrev tags_waiting : Session tags_only
tags_waiting = record {
  conversation_id = some 5;
  conversation = none;
  user = none;
  is_authenticated = false;
  locked = false;
  auth_timeout_task = true;
  heartbeat_task = false;
  summary_task = none;
  orphaned = [];
  accepted = true;
  sent = [];
  closed = [];
  conversations = λ id. some talk;
  messages = [];
  limits = record { sorted_sets = no_sets; cached = λ k. none };
}

abbrev bold_nothing : List (Text × Value)
bold_nothing = (codes "content", text_value (codes " <b></b>")) ∷ []

cleaned_away_unreadable_example :
    let after = (process_chat_message tags_only bold_nothing 5 talk tags_waiting).1 in
    list_messages_response tags_only.conversations 5 1 1 20 after.conversations after.messages
    ≡ unhandled
unfolding strip get get_conversation
cleaned_away_unreadable_example =
    cleaned_away_unreadable tags_only bold_nothing 5 1 20 talk tags_waiting (codes " <b></b>") b'<'
      (codes "b></b>") refl refl refl refl refl (omega arith) (omega arith)

-- The backend with a service that writes summaries.
abbrev summarizing : Backend
summarizing = record overloaded {
  answer = λ ms model i. ok (record { message = some (codes "new"); response_usage = none });
}

abbrev summarizing_twice : Session summarizing
summarizing_twice = record {
  conversation_id = some 5;
  conversation = some talk;
  user = some 1;
  is_authenticated = true;
  locked = true;
  auth_timeout_task = false;
  heartbeat_task = true;
  summary_task = some (message (codes "user") (codes "hi") ∷ [], 9);
  orphaned = [];
  accepted = true;
  sent = [];
  closed = [];
  conversations = λ id. some talk;
  messages = [];
  limits = record { sorted_sets = no_sets; cached = λ k. none };
}

stale_summary_example :
    let ordered = finalize_response summarizing 3 talk (codes "yes") 1000000 [] summarizing_twice in
    let written = with_summary (codes "new") 1000000 50 talk in
    ((disconnect summarizing ordered).orphaned ≡ (message (codes "user") (codes "hi") ∷ [], 9) ∷ [])
    × ((run_orphan summarizing 60 0 (disconnect summarizing ordered)).conversation
        ≡ some (with_summary (codes "new") 9 60 talk))
    × ((run_summary summarizing 50 ordered).conversation ≡ some written)
    × ((run_orphan summarizing 60 0 (run_summary summarizing 50 ordered)).conversation
        ≡ some (with_summary (codes "new") 9 60 written))
unfolding chat tries should_summarize get_summary_threshold_tokens get_token_limit
stale_summary_example =
    stale_summary summarizing 50 60 5 3 1000000 9 b'n' b'n' talk (codes "yes") []
      (message (codes "user") (codes "hi") ∷ []) (codes "ew") (codes "ew") (0, 0) (0, 0)
      summarizing_twice refl refl refl refl refl refl refl
