-- ===== src/Chat/History/Budget.antt =====
-- The tokens of the messages that are sent, against the limit that the history was cut to.
use mathlib.Core.List.{reverse, reverse-append}
use ai_chat_websocket.Prelude.{
  length-append, ℕ, ◌+◌, ◌*◌, ◌≤◌, length, ◌≡◌, ◌≢◌, refl, ap, ◌∙◌, Text, codes, List, [], ◌∷◌,
  arith, ltb, false,
}
use ai_chat_websocket.Chat.Tokens.{
  Message, message, Tiktoken, count_message_tokens, sum_tokens, sum_tokens-append,
  count_messages_tokens,
}
use ai_chat_websocket.Chat.History.{
  reserved_messages, build_chat_messages, tokens_if_any, get_conversation_history,
}
use ai_chat_websocket.Chat.History.Window.{
  cost, cost_all, IsHistory, get_conversation_history-IsHistory,
}

module _ (tiktoken : Tiktoken) (model : Text) where
  sum_tokens-reverse :
      (ms : List Message) → sum_tokens tiktoken model (reverse ms) ≡ sum_tokens tiktoken model ms
  unfolding sum_tokens
  sum_tokens-reverse [] = refl
  sum_tokens-reverse (m ∷ ms) =
      ap (sum_tokens tiktoken model) (reverse-append (m ∷ []) ms)
      ∙ sum_tokens-append tiktoken model (reverse ms) (m ∷ [])
      ∙ omega (arith, sum_tokens-reverse ms)

  length-reverse : (ms : List Message) → length (reverse ms) ≡ length ms
  length-reverse [] = refl
  length-reverse (m ∷ ms) =
      ap length (reverse-append (m ∷ []) ms)
      ∙ length-append (reverse ms) (m ∷ [])
      ∙ omega (arith, length-reverse ms)

  -- A message that is counted alone counts 3 tokens more than in a list.
  cost_all-eq-sum_tokens :
      (ms : List Message)
      → cost_all tiktoken model ms ≡ sum_tokens tiktoken model ms + 3 * length ms
  unfolding sum_tokens count_messages_tokens
  cost_all-eq-sum_tokens [] = omega arith
  cost_all-eq-sum_tokens (m ∷ ms) = omega (arith, cost_all-eq-sum_tokens ms)

  sum_tokens-le-cost_all :
      (ms : List Message) → sum_tokens tiktoken model ms ≤ cost_all tiktoken model ms
  unfolding sum_tokens count_messages_tokens
  sum_tokens-le-cost_all [] = omega arith
  sum_tokens-le-cost_all (m ∷ ms) = omega (arith, sum_tokens-le-cost_all ms)

  history-le-total :
      (max_tokens reserved : ℕ) (newest_first : List Message) (answer : List Message × ℕ)
      → IsHistory tiktoken model max_tokens reserved newest_first answer
      → reserved + sum_tokens tiktoken model answer.0 ≤ answer.1
  history-le-total max_tokens reserved newest_first answer h = omega (
    arith,
    h.total,
    ap (sum_tokens tiktoken model) h.chronological,
    sum_tokens-reverse h.picked,
    sum_tokens-le-cost_all h.picked,
  )

  pub history-eq-total :
      (max_tokens reserved : ℕ) (newest_first : List Message) (answer : List Message × ℕ)
      → IsHistory tiktoken model max_tokens reserved newest_first answer
      → reserved + sum_tokens tiktoken model answer.0 + 3 * length answer.0 ≡ answer.1
  history-eq-total max_tokens reserved newest_first answer h = omega (
    arith,
    h.total,
    ap (sum_tokens tiktoken model) h.chronological,
    sum_tokens-reverse h.picked,
    ap length h.chronological,
    length-reverse h.picked,
    cost_all-eq-sum_tokens h.picked,
  )

  -- With a system prompt, what is sent has the reserved messages and then the history.
  pub sent_tokens :
      (c : ℕ) (s summary : Text) (history : List Message)
      → count_messages_tokens tiktoken model (build_chat_messages (c ∷ s) summary history)
        ≡ tokens_if_any tiktoken model (reserved_messages (c ∷ s) summary)
          + sum_tokens tiktoken model history
  unfolding build_chat_messages reserved_messages count_messages_tokens sum_tokens
  sent_tokens c s [] history = omega arith
  sent_tokens c s (d ∷ t) history = omega arith

  -- With a system prompt whose reserved messages fit the limit, the messages that are sent to the AI
  -- service, the system prompt, the summary and the history, count no more tokens than the returned
  -- total, and that is within the limit.
  pub sent-le-limit :
      (max_tokens : ℕ) (system_prompt summary : Text) (newest_first : List Message)
      → system_prompt ≢ []
      → tokens_if_any tiktoken model (reserved_messages system_prompt summary) ≤ max_tokens
      → let (history, total) =
          get_conversation_history tiktoken model max_tokens system_prompt summary newest_first in
        (count_messages_tokens tiktoken model (build_chat_messages system_prompt summary history)
          ≤ total)
        × (total ≤ max_tokens)
  sent-le-limit max_tokens [] summary newest_first given fits = absurd (given refl)
  sent-le-limit max_tokens (c ∷ s) summary newest_first given fits =
      let h =
        get_conversation_history-IsHistory tiktoken model max_tokens (c ∷ s) summary newest_first in
      (
        omega (
          arith,
          sent_tokens c s summary
              (get_conversation_history tiktoken model max_tokens (c ∷ s) summary newest_first).0,
          history-le-total max_tokens _ newest_first _ h,
        ),
        h.within fits,
      )

  -- With no system prompt and no summary nothing is reserved, but a system message is still sent: a
  -- single message that exactly fills the limit is kept, and what is sent then exceeds the limit by
  -- the tokens of that system message.
  pub empty_prompt_exceeds :
      (max_tokens : ℕ) (m : Message)
      → cost tiktoken model m ≡ max_tokens
      → let (history, total) = get_conversation_history tiktoken model max_tokens [] [] (m ∷ []) in
        (total ≡ max_tokens)
        × (count_messages_tokens tiktoken model (build_chat_messages [] [] history)
            ≡ max_tokens + count_message_tokens tiktoken model (message (codes "system") []))
  unfolding get_conversation_history count_messages_tokens sum_tokens build_chat_messages
      reserved_messages
  empty_prompt_exceeds max_tokens m e =
      let keep : ltb max_tokens (0 + (0 + cost tiktoken model m)) ≡ false = ground arith in
      rw keep (omega arith, omega arith)
