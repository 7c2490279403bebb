-- ===== src/Chat/Turns/Tests.antt =====
-- An exchange with its awaits at concrete inputs.
use ai_chat_websocket.Prelude.{
  length, ◌*◌, ◌+◌, ◌≡◌, refl, codes, Text, List, true, false, none, some, [], ◌∷◌, ok,
}
use ai_chat_websocket.Platform.LocalRedis.{no_sets}
use ai_chat_websocket.Chat.Tokens.{
  message, get_token_limit, count_message_tokens, count_messages_tokens,
}
use ai_chat_websocket.Chat.History.{summary_text, build_chat_messages, get_conversation_history}
use ai_chat_websocket.Chat.Client.{stream_chat, chat}
use ai_chat_websocket.Chat.Client.Retrying.{tries}
use ai_chat_websocket.Chat.Protocol.{Value, text_value, get, or_empty}
use ai_chat_websocket.Chat.Session.{Backend, Session}
use ai_chat_websocket.Chat.Exchange.{rows_of, process_chat_message}
use ai_chat_websocket.Chat.Consumer.{run_summary}
use ai_chat_websocket.Chat.Consumer.Tests.{overloaded, talk}
use ai_chat_websocket.Chat.Turns.{
  finished, reading, counted, streaming, begin_turn, next_turn, Runs,
}
use ai_chat_websocket.Chat.Turns.Refinement.{Runs-process, Runs-TurnReach}
use ai_chat_websocket.Chat.Turns.View.{view}
use ai_chat_websocket.Chat.Turns.Written.{Wrote}
use ai_chat_websocket.Chat.Turns.Rows.{reach-Wrote}
use ai_chat_websocket.Chat.Turns.Race.{summary_not_counted}

-- The backend with a service that answers requests for a summary.
abbrev summarizing : Backend
summarizing = record overloaded {
  answer = λ ms model i. ok (record { message = some (codes "greetings"); response_usage = none });
}

-- a connection with the summary of its last exchange still to come
abbrev chatting : Session summarizing
chatting = record {
  conversation_id = some 5;
  conversation = some talk;
  user = some 1;
  is_authenticated = true;
  locked = true;
  auth_timeout_task = false;
  heartbeat_task = true;
  summary_task = some (message (codes "user") (codes "hi") ∷ [], 9);
  orphaned = [];
  accepted = true;
  sent = [];
  closed = [];
  conversations = λ id. some talk;
  messages = [];
  limits = record { sorted_sets = no_sets; cached = λ k. none };
}

abbrev greeting : List (Text × Value)
greeting = (codes "content", text_value (codes "hello")) ∷ []

Runs-process_example :
    let (r, s') = process_chat_message summarizing greeting 5 talk chatting in
    Runs summarizing 5 (begin_turn summarizing 5 greeting chatting) (finished r, s')
Runs-process_example = Runs-process summarizing 5 talk greeting chatting refl

reach-Wrote_example :
    Wrote summarizing 5
      (or_empty (get (codes "content") greeting))
      chatting
      (view summarizing (process_chat_message summarizing greeting 5 talk chatting).1)
reach-Wrote_example =
    reach-Wrote summarizing 5 greeting chatting
      (process_chat_message summarizing greeting 5 talk chatting).1
      (process_chat_message summarizing greeting 5 talk chatting).0
      (Runs-TurnReach summarizing 5 (Runs-process summarizing 5 talk greeting chatting refl))

summary_not_counted_example :
    let (history, total) =
      get_conversation_history summarizing.tiktoken talk.model
        (get_token_limit talk.model)
        talk.system_prompt
        talk.summary
        (rows_of summarizing 5 chatting.messages) in
    let after = run_summary summarizing 50 chatting in
    let sent = build_chat_messages talk.system_prompt (codes "greetings") history in
    let (chunks, ending) =
      stream_chat summarizing.tenacity (summarizing.stream sent talk.model talk.temperature) in
    (next_turn summarizing 5 (reading, chatting) ≡ (counted history total, chatting))
    × (next_turn summarizing 5 (counted history total, after)
        ≡ (streaming history total chunks ending [] (0, 0), after))
    × (count_messages_tokens summarizing.tiktoken talk.model sent + 3 * length history
        ≡ total
          + count_message_tokens summarizing.tiktoken talk.model
              (message (codes "system") (summary_text (codes "greetings"))))
unfolding chat tries
summary_not_counted_example =
    summary_not_counted summarizing 50 5 9 b'g' (message (codes "user") (codes "hi") ∷ [])
      (codes "reetings") (0, 0) talk chatting refl refl refl (λ e. cc e) refl refl
