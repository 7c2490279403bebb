-- ===== src/Chat/Exchange/Frames.antt =====
-- The frames that an exchange sends: pieces of the answer, then one frame that ends it.
use mathlib.Core.List.{append_assoc, append-nil}
use ai_chat_websocket.Prelude.{
  ℕ, ◌+◌, ◌≡◌, refl, ap, sym, ◌∙◌, Text, codes, true, false, Option, none, some, List, [], ◌∷◌,
  ◌++◌, map, length, ltb, ok, err, Bool-cases, Option-cases, inl, inr,
}
use ai_chat_websocket.Chat.Tokens.{Message, get_token_limit, should_summarize}
use ai_chat_websocket.Chat.History.{build_chat_messages, get_conversation_history}
use ai_chat_websocket.Chat.Conversations.{Conversation}
use ai_chat_websocket.Chat.Client.{Chunk, content, usage, stream_chat}
use ai_chat_websocket.Chat.Protocol.{
  Value, text_value, other_value, get, or_empty, WsErrorCode, Frame, chat_stream, chat_error,
  caught, strip,
}
use ai_chat_websocket.Chat.Session.{
  Backend, Session, Outcome, StoredMessage, send, send_error, max_user_message_length,
}
use ai_chat_websocket.Chat.Exchange.{
  send_stream, create_message, validate_stripped, validate_message_content, stream_chunks,
  stream_ai_response, assistant_message, user_message, finalize_response, after_save,
  save_and_finalize_response, respond, exchange, rows_of, send_caught, catching,
  process_chat_message,
}

-- the pieces of text among the chunks
abbrev pub deltas : List Chunk → List Text
deltas [] = []
deltas (content d ∷ cs) = d ∷ deltas cs
deltas (usage p q ∷ cs) = deltas cs

abbrev pub concat : List Text → Text
concat [] = []
concat (d ∷ ds) = d ++ concat ds

abbrev pub delta_frames : List Text → List Frame
delta_frames = map (λ d. chat_stream d false none)

module _ (backend : Backend) where
  -- How an exchange on conversation `id` that began in `before` has ended: the client has been sent
  -- some pieces, and then either that the answer is complete, with the id under which the table has
  -- the pieces joined as a message of the assistant, or one error.
  pub data Answered (id : ℕ) (before after : Session backend) : Type 0 where
    completed :
        (pieces : List Text) (message_id : ℕ) (answer : StoredMessage)
        (rows : List (ℕ × StoredMessage))
        → after.sent
          ≡ before.sent ++ (delta_frames pieces ++ chat_stream [] true (some message_id) ∷ [])
        → after.messages ≡ (message_id, answer) ∷ rows
        → answer.content ≡ concat pieces
        → answer.conversation_id ≡ id
        → answer.role ≡ codes "assistant"
        → Answered id before after
    failed :
        (pieces : List Text) (error : Text) (code : WsErrorCode)
        → after.sent ≡ before.sent ++ (delta_frames pieces ++ chat_error error code ∷ [])
        → Answered id before after

  -- what holds when an exchange returns or raises
  abbrev Ends : ℕ → Session backend → Outcome backend (Unit {0}) → Type 0
  Ends id before (ok u, s) = Answered id before s
  Ends id before (err e, s) = (pieces : List Text) × (s.sent ≡ before.sent ++ delta_frames pieces)

  stream_chunks-sent :
      (cs : List Chunk) (full : Text) (used : ℕ × ℕ) (s : Session backend)
      → ((stream_chunks backend cs full used s).0.0 ≡ full ++ concat (deltas cs))
        × ((stream_chunks backend cs full used s).1.sent ≡ s.sent ++ delta_frames (deltas cs))
  unfolding stream_chunks send_stream send
  stream_chunks-sent [] full used s = (sym (append-nil full), sym (append-nil s.sent))
  stream_chunks-sent (content d ∷ cs) full used s =
      let (text, frames) =
        stream_chunks-sent cs (full ++ d) used (send_stream backend d false none s) in
      (
        text ∙ append_assoc full d (concat (deltas cs)),
        frames ∙ append_assoc s.sent (chat_stream d false none ∷ []) (delta_frames (deltas cs)),
      )
  stream_chunks-sent (usage p q ∷ cs) full used s = stream_chunks-sent cs full (p, q) s

  finalize-fields :
      (k : ℕ) (c : Conversation) (full : Text) (n : ℕ) (history : List Message)
      (s : Session backend)
      → ((finalize_response backend k c full n history s).sent
          ≡ s.sent ++ chat_stream [] true (some k) ∷ [])
        × ((finalize_response backend k c full n history s).messages ≡ s.messages)
  unfolding finalize_response send_stream send
  finalize-fields k c full n history s = elim (Bool-cases (should_summarize n c.model)) [
    | inl long ↦ rw long (refl, refl)
    | inr short ↦ rw short (refl, refl)
  ]

  save-Ends :
      (id : ℕ) (c : Conversation) (history : List Message) (n : ℕ) (used : ℕ × ℕ)
      (pieces : List Text) (full : Text) (before s : Session backend)
      → full ≡ concat pieces
      → s.sent ≡ before.sent ++ delta_frames pieces
      → Ends id before (save_and_finalize_response backend id c history n (ok (full, used), s))
  unfolding save_and_finalize_response after_save create_message
  save-Ends id c history n used pieces full before s joined sent =
      elim (Option-cases (backend.refusal (assistant_message backend id c full used) s.messages)) [
        | inr (e, raised) ↦ rw (raised, create_message) (pieces, sent)
        | inl saved ↦
            let answer = assistant_message backend id c full used in
            let k = backend.new_id s.messages in
            let s' : Session backend = record s { messages = (k, answer) ∷ s.messages } in
            let last = chat_stream [] true (some k) ∷ [] in
            let (frames, rows) = finalize-fields k c full (n + used.1) history s' in
            rw (saved, create_message)
              (completed pieces k answer s.messages
                (frames
                  ∙ ap (λ l. l ++ last) sent
                  ∙ append_assoc before.sent (delta_frames pieces) last)
                rows joined refl refl)
      ]

  respond-Ends :
      (id : ℕ) (c : Conversation) (before s : Session backend) (k : ℕ)
      → s.sent ≡ before.sent
      → Ends id before (respond backend id c (ok k, s))
  unfolding respond stream_ai_response save_and_finalize_response
  respond-Ends id c before s k same =
      let (history, total_tokens) =
        get_conversation_history backend.tiktoken c.model (get_token_limit c.model) c.system_prompt
          c.summary (rows_of backend id s.messages) in
      let messages = build_chat_messages c.system_prompt c.summary history in
      let (chunks, ending) =
        stream_chat backend.tenacity (backend.stream messages c.model c.temperature) in
      let (text, frames) = stream_chunks-sent chunks [] (0, 0) s in
      let sent : (stream_chunks backend chunks [] (0, 0) s).1.sent
          ≡ before.sent ++ delta_frames (deltas chunks) =
        frames ∙ ap (λ l. l ++ delta_frames (deltas chunks)) same in
      elim (Option-cases ending) [
        | inl whole ↦ rw whole (
            save-Ends id c history total_tokens (stream_chunks backend chunks [] (0, 0) s).0.1
              (deltas chunks) (stream_chunks backend chunks [] (0, 0) s).0.0 before
              (stream_chunks backend chunks [] (0, 0) s).1 text sent)
        | inr (e, broken) ↦ rw broken (deltas chunks, sent)
      ]

  stored-Ends :
      (id : ℕ) (c : Conversation) (before : Session backend) (m : StoredMessage)
      → Ends id before (respond backend id c (create_message backend m before))
  unfolding create_message respond
  stored-Ends id c before m = elim (Option-cases (backend.refusal m before.messages)) [
    | inr (e, raised) ↦ rw (raised, create_message) ([], sym (append-nil before.sent))
    | inl saved ↦
        rw (saved, create_message)
          (respond-Ends id c before
            (record before { messages = (backend.new_id before.messages, m) ∷ before.messages })
            (backend.new_id before.messages) refl)
  ]

  exchange-Ends :
      (id : ℕ) (c : Conversation) (s : Session backend) (v : Value)
      → Ends id s (exchange backend id c (validate_message_content backend v s))
  unfolding exchange validate_message_content validate_stripped send_error send
  exchange-Ends id c s (other_value b) = ([], sym (append-nil s.sent))
  exchange-Ends id c s (text_value t) = stripped (strip t)
    where
      stripped : (r : Text) → Ends id s (exchange backend id c (validate_stripped backend r s))
      stripped [] = failed [] _ _ refl
      stripped (x ∷ r) =
          elim (Bool-cases (ltb max_user_message_length (length (backend.clean (x ∷ r))))) [
            | inl long ↦ rw long (failed [] _ _ refl)
            | inr short ↦
                rw short (stored-Ends id c s (user_message backend id (backend.clean (x ∷ r))))
          ]

  catching-Ends :
      (id : ℕ) (before : Session backend) (o : Outcome backend (Unit {0}))
      → Ends id before o
      → Ends id before (catching backend o)
  unfolding catching send_caught send_error send
  catching-Ends id before (ok u, s) h = h
  catching-Ends id before (err e, s) (pieces, sent) = handler (caught e)
    where
      handler : (o : Option (Text × WsErrorCode)) → Ends id before (send_caught backend o e s)
      handler none = (pieces, sent)
      handler (some (m, code)) = failed pieces m code (
          ap (λ l. l ++ chat_error m code ∷ []) sent
          ∙ append_assoc before.sent (delta_frames pieces) (chat_error m code ∷ []))

  returned-Answered :
      (id : ℕ) (before : Session backend) (o : Outcome backend (Unit {0}))
      → Ends id before o
      → o.0 ≡ ok tt
      → Answered id before o.1
  returned-Answered id before (ok u, s) h e = h
  returned-Answered id before (err e', s) h e = cc e

  -- Every message that is processed without an uncaught exception is answered exactly once: the
  -- client gets pieces of the answer and then either the end of the answer, and the pieces joined are
  -- the message of the assistant that the table has under the id in that frame, or one error.
  pub process-Answered :
      (fields : List (Text × Value)) (id : ℕ) (c : Conversation) (s : Session backend)
      → (process_chat_message backend fields id c s).0 ≡ ok tt
      → Answered id s (process_chat_message backend fields id c s).1
  unfolding process_chat_message
  process-Answered fields id c s e =
      returned-Answered id s _
        (catching-Ends id s _ (exchange-Ends id c s (or_empty (get (codes "content") fields)))) e
