-- ===== src/Chat/Turns/Race.antt =====
-- A summary that is finished while an exchange waits for its history.
use ai_chat_websocket.Prelude.{
  length, ◌*◌, ◌≢◌, ℕ, ◌+◌, ◌≡◌, refl, ap, Text, codes, some, List, [], ◌∷◌, ok, arith,
}
use ai_chat_websocket.Chat.Tokens.{
  Message, message, Tiktoken, get_token_limit, count_message_tokens, count_messages_tokens,
  sum_tokens,
}
use ai_chat_websocket.Chat.History.{summary_text, build_chat_messages, get_conversation_history}
use ai_chat_websocket.Chat.History.Window.{get_conversation_history-IsHistory}
use ai_chat_websocket.Chat.History.Budget.{history-eq-total, sent_tokens}
use ai_chat_websocket.Chat.Conversations.{Conversation, with_summary}
use ai_chat_websocket.Chat.Client.{stream_chat, chat}
use ai_chat_websocket.Chat.Session.{Backend, Session}
use ai_chat_websocket.Chat.Exchange.{rows_of}
use ai_chat_websocket.Chat.Summary.{
  build_summary_messages, generate_summary, after_answer, save_summary,
}
use ai_chat_websocket.Chat.Consumer.{run_summary}
use ai_chat_websocket.Chat.Turns.{
  reading, counted, streaming, read_history, start_stream, next_turn,
}

-- The summary that is there when the messages are sent, but was not when they were counted, is sent on top.
added_summary :
    (tiktoken : Tiktoken) (model system_prompt : Text) (d : ℕ) (summary : Text)
    (history : List Message)
    → count_messages_tokens tiktoken model (build_chat_messages system_prompt (d ∷ summary) history)
      ≡ count_messages_tokens tiktoken model (build_chat_messages system_prompt [] history)
        + count_message_tokens tiktoken model
            (message (codes "system") (summary_text (d ∷ summary)))
unfolding build_chat_messages count_messages_tokens sum_tokens
added_summary tiktoken model system_prompt d summary history = omega arith

-- The same against the total that the history comes with.
sent-total :
    (tiktoken : Tiktoken) (model : Text) (max_tokens : ℕ) (system_prompt before : Text) (d : ℕ)
    (summary : Text) (rows : List Message)
    → system_prompt ≢ []
    → before ≡ []
    → let (history, total) =
        get_conversation_history tiktoken model max_tokens system_prompt before rows in
      count_messages_tokens tiktoken model (build_chat_messages system_prompt (d ∷ summary) history)
        + 3 * length history
      ≡ total
        + count_message_tokens tiktoken model
            (message (codes "system") (summary_text (d ∷ summary)))
sent-total tiktoken model max_tokens [] before d summary rows given none_yet = absurd (given refl)
sent-total tiktoken model max_tokens (p ∷ ps) (b ∷ bs) d summary rows given none_yet =
    absurd (cc none_yet)
sent-total tiktoken model max_tokens (p ∷ ps) [] d summary rows given none_yet =
    let answer = get_conversation_history tiktoken model max_tokens (p ∷ ps) [] rows in
    omega (
      arith,
      added_summary tiktoken model (p ∷ ps) d summary answer.0,
      sent_tokens tiktoken model p ps [] answer.0,
      history-eq-total tiktoken model max_tokens _ rows answer
          (get_conversation_history-IsHistory tiktoken model max_tokens (p ∷ ps) [] rows),
    )

module _ (backend : Backend) where
  summary_done :
      (now id n d : ℕ) (ms : List Message) (summary : Text) (used : ℕ × ℕ) (c : Conversation)
      (s : Session backend)
      → s.summary_task ≡ some (ms, n)
      → s.conversation ≡ some c
      → s.conversation_id ≡ some id
      → chat backend.tenacity (backend.answer (build_summary_messages ms) c.model)
        ≡ ok (d ∷ summary, used)
      → (run_summary backend now s).conversation ≡ some (with_summary (d ∷ summary) n now c)
  unfolding run_summary generate_summary after_answer save_summary
  summary_done now id n d ms summary used c s task talk place answer =
      rw (run_summary, task, talk, place, generate_summary, answer) refl

  -- In a conversation with a system prompt and no summary yet, if the summary of an earlier exchange is finished
  -- after the history has been counted and before the exchange goes on, then the summary is sent all the
  -- same. The total that was counted against the limit counts every message of the history with 3 tokens
  -- that a list of messages has once, and otherwise what would have been sent; what is sent now, with
  -- those 3 tokens for every message of the history, is that total and the tokens of the message with
  -- the summary.
  pub summary_not_counted :
      (now id n d : ℕ) (ms : List Message) (summary : Text) (used : ℕ × ℕ) (c : Conversation)
      (s : Session backend)
      → s.summary_task ≡ some (ms, n)
      → s.conversation ≡ some c
      → s.conversation_id ≡ some id
      → c.system_prompt ≢ []
      → c.summary ≡ []
      → chat backend.tenacity (backend.answer (build_summary_messages ms) c.model)
        ≡ ok (d ∷ summary, used)
      → let (history, total) =
          get_conversation_history backend.tiktoken c.model
            (get_token_limit c.model)
            c.system_prompt
            c.summary
            (rows_of backend id s.messages) in
        let after = run_summary backend now s in
        let sent = build_chat_messages c.system_prompt (d ∷ summary) history in
        let (chunks, ending) =
          stream_chat backend.tenacity (backend.stream sent c.model c.temperature) in
        (next_turn backend id (reading, s) ≡ (counted history total, s))
        × (next_turn backend id (counted history total, after)
            ≡ (streaming history total chunks ending [] (0, 0), after))
        × (count_messages_tokens backend.tiktoken c.model sent + 3 * length history
            ≡ total
              + count_message_tokens backend.tiktoken c.model
                  (message (codes "system") (summary_text (d ∷ summary))))
  unfolding next_turn start_stream with_summary
  summary_not_counted now id n d ms summary used c s task talk place given fresh answer =
      let (history, total) =
        get_conversation_history backend.tiktoken c.model (get_token_limit c.model) c.system_prompt
          c.summary (rows_of backend id s.messages) in
      let after = run_summary backend now s in
      (
        ap (λ o. read_history backend id o s) talk,
        ap (λ o. start_stream backend id o history total after)
            (summary_done now id n d ms summary used c s task talk place answer),
        sent-total backend.tiktoken c.model (get_token_limit c.model) c.system_prompt c.summary d
            summary (rows_of backend id s.messages) given fresh,
      )
