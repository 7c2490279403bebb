-- ===== src/Chat/Tokens.antt =====
-- backend/apps/chat/ai/tokenizer.py. The tokenizer, tiktoken, is a parameter.
use ai_chat_websocket.Prelude.{
  ℕ, ◌+◌, ◌*◌, ◌/◌, ◌≡◌, Text, codes, Bool, Option, none, some, List, [], ◌∷◌, ◌++◌, ◌==◌, text_eq,
  ltb, if◌then◌else◌, arith,
}

-- A message for the AI service: a dict of texts.
abbrev pub Message : Type 0
Message = List (Text × Text)

abbrev pub message : Text → Text → Message
message role content = (codes "role", role) ∷ (codes "content", content) ∷ []

-- `encoding_for_model` answers `none` where it raises KeyError; `encoded_length` is
-- `len(encoding.encode(text))`.
pub record Tiktoken : Type 1 where
  pub Encoding : Type 0
  pub encoding_for_model : Text → Option Encoding
  pub cl100k_base : Encoding
  pub encoded_length : Encoding → Text → ℕ

abbrev pub default_token_limit : ℕ
default_token_limit = 16000

abbrev pub tokens_per_message : ℕ
tokens_per_message = 4

abbrev pub tokens_per_name : ℕ
tokens_per_name = 1

abbrev pub model_token_limits : List (Text × ℕ)
model_token_limits =
    (codes "gpt-4o", 32000)
    ∷ (codes "gpt-4o-mini", 32000)
    ∷ (codes "gpt-4-turbo", 32000)
    ∷ (codes "gpt-3.5-turbo", 12000)
    ∷ []

unfoldable pub limit_in : List (Text × ℕ) → Text → ℕ
limit_in [] model = default_token_limit
limit_in ((m, limit) ∷ rest) model = if m == model then limit else limit_in rest model

unfoldable pub get_token_limit : Text → ℕ
unfolding limit_in
get_token_limit model = limit_in model_token_limits model

-- `int(limit * 0.7)`: for the four limits in use the product in floating point is the exact one.
unfoldable pub get_summary_threshold_tokens : Text → ℕ
get_summary_threshold_tokens model = get_token_limit model * 7 / 10

unfoldable pub should_summarize : ℕ → Text → Bool
should_summarize token_count model = ltb (get_summary_threshold_tokens model) token_count

module _ (tiktoken : Tiktoken) where
  unfoldable pub get_encoding : Text → tiktoken.Encoding
  get_encoding model = elim (tiktoken.encoding_for_model model) [
    | none ↦ tiktoken.cl100k_base
    | some e ↦ e
  ]

  abbrev pub value_tokens : tiktoken.Encoding → Text → Text → ℕ
  value_tokens encoding key [] = 0
  value_tokens encoding key (c ∷ s) =
      tiktoken.encoded_length encoding (c ∷ s)
      + (if key == codes "name" then tokens_per_name else 0)

  unfoldable pub items_tokens : tiktoken.Encoding → Message → ℕ
  items_tokens encoding [] = 0
  items_tokens encoding ((key, value) ∷ rest) =
      value_tokens encoding key value + items_tokens encoding rest

  unfoldable pub count_message_tokens : Text → Message → ℕ
  unfolding items_tokens
  count_message_tokens model m = tokens_per_message + items_tokens (get_encoding model) m

  unfoldable pub sum_tokens : Text → List Message → ℕ
  sum_tokens model [] = 0
  sum_tokens model (m ∷ ms) = count_message_tokens model m + sum_tokens model ms

  unfoldable pub count_messages_tokens : Text → List Message → ℕ
  unfolding sum_tokens
  count_messages_tokens model ms = sum_tokens model ms + 3

  pub sum_tokens-append :
      (model : Text) (xs ys : List Message)
      → sum_tokens model (xs ++ ys) ≡ sum_tokens model xs + sum_tokens model ys
  unfolding sum_tokens
  sum_tokens-append model [] ys = omega arith
  sum_tokens-append model (x ∷ xs) ys = omega (arith, sum_tokens-append model xs ys)
