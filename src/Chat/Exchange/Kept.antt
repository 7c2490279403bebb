-- ===== src/Chat/Exchange/Kept.antt =====
-- What every part of an exchange keeps: a relation on sessions that sending a frame and ordering a summary keep,
-- and that a stored message takes one further, holds between the beginning and the end.
use ai_chat_websocket.Prelude.{
  ℕ, ◌+◌, ◌≡◌, refl, Text, codes, true, false, Option, none, some, List, [], ◌∷◌, ◌++◌, length, ltb,
  ok, err, Bool-cases, inl, inr,
}
use ai_chat_websocket.Chat.Tokens.{Message, get_token_limit, should_summarize}
use ai_chat_websocket.Chat.History.{build_chat_messages, get_conversation_history}
use ai_chat_websocket.Chat.Conversations.{Conversation}
use ai_chat_websocket.Chat.Client.{Chunk, content, usage, stream_chat}
use ai_chat_websocket.Chat.Protocol.{
  Value, text_value, other_value, get, or_empty, Frame, WsErrorCode, chat_stream, caught, strip,
}
use ai_chat_websocket.Chat.Session.{
  Backend, Session, Outcome, StoredMessage, send, send_error, max_user_message_length,
}
use ai_chat_websocket.Chat.Exchange.{
  send_stream, create_message, validate_stripped, validate_message_content, stream_chunks,
  stream_ai_response, assistant_message, user_message, finalize_response, after_save,
  save_and_finalize_response, respond, exchange, rows_of, send_caught, catching,
  process_chat_message,
}

-- `R n` relates two sessions between which at most `n` messages are stored.
pub record IsKept (backend : Backend) (R : ℕ → Session backend → Session backend → Type 0)
    : Type 0 where
  pub same : (n : ℕ) (s : Session backend) → R n s s
  pub then_on : (n k : ℕ) (s t u : Session backend) → R n s t → R k t u → R (k + n) s u
  pub sends : (frame : Frame) (s : Session backend) → R 0 s (send backend frame s)
  pub orders :
      (task : Option (List Message × ℕ)) (tasks : List (List Message × ℕ)) (s : Session backend)
      → R 0 s (record s { summary_task = task; orphaned = tasks })

module _ (backend : Backend) (R : ℕ → Session backend → Session backend → Type 0)
    (kept : IsKept backend R) where
  pub validate-IsKept :
      (v : Value) (s : Session backend) → R 0 s (validate_message_content backend v s).1
  unfolding validate_message_content validate_stripped send_error
  validate-IsKept (other_value b) s = kept.same 0 s
  validate-IsKept (text_value t) s = stripped (strip t)
    where
      stripped : (r : Text) → R 0 s (validate_stripped backend r s).1
      stripped [] = kept.sends _ s
      stripped (x ∷ r) =
          elim (Bool-cases (ltb max_user_message_length (length (backend.clean (x ∷ r))))) [
            | inl long ↦ rw long (kept.sends _ s)
            | inr short ↦ rw short (kept.same 0 s)
          ]

  stream_chunks-IsKept :
      (chunks : List Chunk) (full : Text) (used : ℕ × ℕ) (s : Session backend)
      → R 0 s (stream_chunks backend chunks full used s).1
  unfolding stream_chunks send_stream
  stream_chunks-IsKept [] full used s = kept.same 0 s
  stream_chunks-IsKept (content d ∷ cs) full used s =
      kept.then_on 0 0 s (send_stream backend d false none s) _
        (kept.sends (chat_stream d false none) s)
        (stream_chunks-IsKept cs (full ++ d) used (send_stream backend d false none s))
  stream_chunks-IsKept (usage p q ∷ cs) full used s = stream_chunks-IsKept cs full (p, q) s

  pub finalize-IsKept :
      (k : ℕ) (c : Conversation) (full : Text) (n : ℕ) (history : List Message)
      (s : Session backend)
      → R 0 s (finalize_response backend k c full n history s)
  unfolding finalize_response send_stream
  finalize-IsKept k c full n history s =
      let last = chat_stream [] true (some k) in
      elim (Bool-cases (should_summarize n c.model)) [
        | inl long ↦ rw long (
            kept.then_on 0 0 s (send backend last s) _ (kept.sends last s)
              (kept.orders _ _ (send backend last s)))
        | inr short ↦ rw short (kept.sends last s)
      ]

  pub catching-IsKept : (o : Outcome backend (Unit {0})) → R 0 o.1 (catching backend o).1
  unfolding catching send_caught send_error
  catching-IsKept (ok u, s) = kept.same 0 s
  catching-IsKept (err e, s) = sent (caught e)
    where
      sent : (o : Option (Text × WsErrorCode)) → R 0 s (send_caught backend o e s).1
      sent none = kept.same 0 s
      sent (some (m, code)) = kept.sends _ s

  module _ (id : ℕ)
      (creates : (m : StoredMessage) (s : Session backend)
        → m.conversation_id ≡ id
        → R 1 s (create_message backend m s).1) where
    after_save-IsKept :
        (o : Outcome backend ℕ) (c : Conversation) (full : Text) (n : ℕ) (history : List Message)
        → R 0 o.1 (after_save backend o c full n history).1
    unfolding after_save
    after_save-IsKept (err e, s) c full n history = kept.same 0 s
    after_save-IsKept (ok k, s) c full n history = finalize-IsKept k c full n history s

    save-IsKept :
        (c : Conversation) (history : List Message) (n : ℕ) (o : Outcome backend (Text × (ℕ × ℕ)))
        → R 1 o.1 (save_and_finalize_response backend id c history n o).1
    unfolding save_and_finalize_response
    save-IsKept c history n (err e, s) = kept.same 1 s
    save-IsKept c history n (ok (full, used), s) =
        let m = assistant_message backend id c full used in
        kept.then_on 1 0 s (create_message backend m s).1 _ (creates m s refl)
          (after_save-IsKept (create_message backend m s) c full (n + used.1) history)

    pub respond-IsKept :
        (c : Conversation) (o : Outcome backend ℕ) → R 1 o.1 (respond backend id c o).1
    unfolding respond stream_ai_response
    respond-IsKept c (err e, s) = kept.same 1 s
    respond-IsKept c (ok k, s) =
        let (history, total_tokens) =
          get_conversation_history backend.tiktoken c.model (get_token_limit c.model)
            c.system_prompt c.summary (rows_of backend id s.messages) in
        let messages = build_chat_messages c.system_prompt c.summary history in
        let chunks =
          (stream_chat backend.tenacity (backend.stream messages c.model c.temperature)).0 in
        kept.then_on 0 1 s (stream_ai_response backend messages c s).1 _
          (stream_chunks-IsKept chunks [] (0, 0) s)
          (save-IsKept c history total_tokens (stream_ai_response backend messages c s))

    exchange-IsKept :
        (c : Conversation) (o : Outcome backend (Option Text)) → R 2 o.1 (exchange backend id c o).1
    unfolding exchange
    exchange-IsKept c (err e, s) = kept.same 2 s
    exchange-IsKept c (ok none, s) = kept.same 2 s
    exchange-IsKept c (ok (some t), s) =
        let m = user_message backend id t in
        kept.then_on 1 1 s (create_message backend m s).1 _ (creates m s refl)
          (respond-IsKept c (create_message backend m s))

    pub process-IsKept :
        (fields : List (Text × Value)) (c : Conversation) (s : Session backend)
        → R 2 s (process_chat_message backend fields id c s).1
    unfolding process_chat_message
    process-IsKept fields c s =
        let v = or_empty (get (codes "content") fields) in
        let validated = validate_message_content backend v s in
        let exchanged = exchange backend id c validated in
        kept.then_on 2 0 s exchanged.1 _
          (kept.then_on 0 2 s validated.1 _ (validate-IsKept v s) (exchange-IsKept c validated))
          (catching-IsKept exchanged)
