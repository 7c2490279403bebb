-- ===== src/Chat/Client/Failures.antt =====
-- What a failed call of the AI service looks like to the consumer.
use ai_chat_websocket.Prelude.{ℕ, ◌<◌, ◌≡◌, true, some, [], Result, err}
use ai_chat_websocket.Core.Errors.{retry_error}
use ai_chat_websocket.Chat.Client.{
  OpenaiError, is_retryable, max_attempts, Tenacity, RawStream, Response, stream_chat, chat,
}

-- Where all four attempts fail with an exception that is retried, no AIServiceError is raised:
-- RetryError leaves `stream_chat` and `chat`, before any chunk.
exhausted_raises_retry_error :
    (tenacity : Tenacity) (f : ℕ → Result OpenaiError RawStream)
    (g : ℕ → Result OpenaiError Response)
    → ((i : ℕ) → i < max_attempts → (e : OpenaiError) × (f i ≡ err e) × (is_retryable e ≡ true))
    → ((i : ℕ) → i < max_attempts → (e : OpenaiError) × (g i ≡ err e) × (is_retryable e ≡ true))
    → (stream_chat tenacity f ≡ ([], some retry_error)) × (chat tenacity g ≡ err retry_error)
unfolding stream_chat chat
exhausted_raises_retry_error tenacity f g h k =
    (rw (tenacity.call-gave_up f h), rw (tenacity.call-gave_up g k))
