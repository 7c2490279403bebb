-- ===== src/Chat/History/Tests.antt =====
-- The theorems on the history at concrete inputs, with a tokenizer of one token for each character.
use ai_chat_websocket.Prelude.{◌+◌, ◌≤◌, ◌≡◌, refl, codes, none, [], ◌∷◌, length, arith}
use ai_chat_websocket.Chat.Tokens.{
  Message, message, Tiktoken, count_messages_tokens, count_message_tokens,
}
use ai_chat_websocket.Chat.History.{
  build_chat_messages, get_conversation_history, reserved_messages, tokens_if_any,
}
use ai_chat_websocket.Chat.History.Window.{IsHistory, get_conversation_history-IsHistory}
use ai_chat_websocket.Chat.History.Budget.{sent-le-limit, empty_prompt_exceeds}

abbrev by_character : Tiktoken
by_character = record {
  Encoding = Unit {0};
  encoding_for_model = λ model. none;
  cl100k_base = tt;
  encoded_length = λ encoding s. length s;
}

abbrev hello : Message
hello = message (codes "user") (codes "hello")

abbrev good_day : Message
good_day = message (codes "user") (codes "good day")

-- Of two messages the newest fits into 40 tokens beside the system prompt.
newest_only :
    get_conversation_history by_character [] 40 (codes "be brief") [] (hello ∷ good_day ∷ [])
    ≡ (hello ∷ [], 37)
unfolding get_conversation_history count_messages_tokens reserved_messages count_message_tokens
newest_only = refl

get_conversation_history-IsHistory_example :
    IsHistory by_character [] 40
      (tokens_if_any by_character [] (reserved_messages (codes "be brief") []))
      (hello ∷ good_day ∷ [])
      (get_conversation_history by_character [] 40 (codes "be brief") [] (hello ∷ good_day ∷ []))
get_conversation_history-IsHistory_example =
    get_conversation_history-IsHistory by_character [] 40 (codes "be brief") []
      (hello ∷ good_day ∷ [])

sent-le-limit_example :
    let (history, total) =
      get_conversation_history by_character [] 40 (codes "be brief") [] (hello ∷ good_day ∷ []) in
    (count_messages_tokens by_character [] (build_chat_messages (codes "be brief") [] history)
      ≤ total)
    × (total ≤ 40)
unfolding count_messages_tokens reserved_messages count_message_tokens
sent-le-limit_example =
    sent-le-limit by_character [] 40 (codes "be brief") [] (hello ∷ good_day ∷ []) (λ e. cc e)
      (omega arith)

empty_prompt_exceeds_example :
    let (history, total) = get_conversation_history by_character [] 16 [] [] (hello ∷ []) in
    (total ≡ 16)
    × (count_messages_tokens by_character [] (build_chat_messages [] [] history)
        ≡ 16 + count_message_tokens by_character [] (message (codes "system") []))
unfolding count_message_tokens
empty_prompt_exceeds_example =
    empty_prompt_exceeds by_character [] 16 hello (unfold count_messages_tokens in refl)
