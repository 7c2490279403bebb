-- ===== src/Chat/Client.antt =====
-- backend/apps/chat/ai/client.py, the client of the AI service. The service and the retries of the
-- library tenacity are parameters.
pub mod Singleton
pub mod Failures
pub mod Retrying
use ai_chat_websocket.Prelude.{
  ℕ, ◌<◌, ◌≡◌, Text, codes, Bool, true, false, Option, none, some, List, [], ◌∷◌, ◌++◌, Result, ok,
  err,
}
use ai_chat_websocket.Core.Errors.{Error, ai_service_error, timeout_error, retry_error}

-- The exceptions of the openai library, with their messages.
pub data OpenaiError : Type 0 where
  api_connection_error api_timeout_error rate_limit_error other_openai_error : Text → OpenaiError

-- `RETRYABLE_EXCEPTIONS`
unfoldable pub is_retryable : OpenaiError → Bool
is_retryable (other_openai_error m) = false
is_retryable _ = true

abbrev pub error_text : OpenaiError → Text
error_text (api_connection_error m) = m
error_text (api_timeout_error m) = m
error_text (rate_limit_error m) = m
error_text (other_openai_error m) = m

-- What leaves a function under `@retry`: an exception that is not retried, or tenacity's RetryError.
pub data Raised : Type 0 where
  raised : OpenaiError → Raised
  gave_up : Raised

abbrev pub max_attempts : ℕ
max_attempts = 4

-- `call f` is the call of a function under `@retry(stop=stop_after_attempt(4),
-- retry=retry_if_exception_type(RETRYABLE_EXCEPTIONS))` whose attempt number `i`, from 0 on, answers
-- `f i`. Without `reraise=True`, RetryError is raised when the last attempt fails.
pub record Tenacity : Type 1 where
  pub call : {A : Type 0} → (ℕ → Result OpenaiError A) → Result Raised A
  pub call-answered :
      {A : Type 0} (f : ℕ → Result OpenaiError A) (k : ℕ) (a : A)
      → k < max_attempts
      → ((i : ℕ) → i < k → (e : OpenaiError) × (f i ≡ err e) × (is_retryable e ≡ true))
      → f k ≡ ok a
      → call f ≡ ok a
  pub call-gave_up :
      {A : Type 0} (f : ℕ → Result OpenaiError A)
      → ((i : ℕ) → i < max_attempts → (e : OpenaiError) × (f i ≡ err e) × (is_retryable e ≡ true))
      → call f ≡ err gave_up

-- `handle_openai_errors`: an exception that it does not know passes through.
unfoldable pub handle_openai_errors : Raised → Error
handle_openai_errors (raised (other_openai_error m)) =
    ai_service_error (codes "OpenAI API error: " ++ m)
handle_openai_errors (raised e) =
    ai_service_error (codes "OpenAI API temporarily unavailable: " ++ error_text e)
handle_openai_errors gave_up = retry_error

-- A chunk of the service: the text of its first choice, if it has one, and its usage.
pub record RawChunk : Type 0 where
  pub delta : Option Text
  pub usage : Option (ℕ × ℕ)

-- `cancelled`: the caller's timeout ends the wait for the next chunk.
pub data Ending : Type 0 where
  complete cancelled : Ending
  failed : OpenaiError → Ending

pub record RawStream : Type 0 where
  pub chunks : List RawChunk
  pub ending : Ending

pub data Chunk : Type 0 where
  content : Text → Chunk
  usage : ℕ → ℕ → Chunk

-- `if delta and delta.content`
abbrev pub content_chunk : Option Text → List Chunk
content_chunk none = []
content_chunk (some []) = []
content_chunk (some (c ∷ s)) = content (c ∷ s) ∷ []

abbrev pub usage_chunk : Option (ℕ × ℕ) → List Chunk
usage_chunk none = []
usage_chunk (some (prompt, completion)) = usage prompt completion ∷ []

unfoldable pub yielded : List RawChunk → List Chunk
yielded [] = []
yielded (r ∷ rs) = content_chunk r.delta ++ (usage_chunk r.usage ++ yielded rs)

abbrev pub ending_error : Ending → Option Error
ending_error complete = none
ending_error cancelled = some timeout_error
ending_error (failed e) = some (handle_openai_errors (raised e))

-- The chunks of `stream_chat` and the exception that ends them, if one does.
abbrev pub stream_of : Result Raised RawStream → List Chunk × Option Error
stream_of (err r) = ([], some (handle_openai_errors r))
stream_of (ok s) = (yielded s.chunks, ending_error s.ending)

-- The answer of a call without a stream; `message` is the text of the first choice.
pub record Response : Type 0 where
  pub message : Option Text
  pub response_usage : Option (ℕ × ℕ)

-- An empty text stands for None too, which the caller does not tell apart.
abbrev pub content_or_empty : Option Text → Text
content_or_empty none = []
content_or_empty (some m) = m

abbrev pub usage_or_zero : Option (ℕ × ℕ) → ℕ × ℕ
usage_or_zero none = (0, 0)
usage_or_zero (some u) = u

abbrev pub chat_of : Result Raised Response → Result Error (Text × (ℕ × ℕ))
chat_of (err r) = err (handle_openai_errors r)
chat_of (ok r) = ok (content_or_empty r.message, usage_or_zero r.response_usage)

module _ (tenacity : Tenacity) where
  unfoldable pub stream_chat : (ℕ → Result OpenaiError RawStream) → List Chunk × Option Error
  unfolding yielded handle_openai_errors
  stream_chat attempts = stream_of (tenacity.call attempts)

  unfoldable pub chat : (ℕ → Result OpenaiError Response) → Result Error (Text × (ℕ × ℕ))
  unfolding handle_openai_errors
  chat attempts = chat_of (tenacity.call attempts)
