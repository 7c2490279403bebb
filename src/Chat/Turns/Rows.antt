-- ===== src/Chat/Turns/Rows.antt =====
-- The rows that an exchange writes, whatever runs between its awaits.
use mathlib.Core.List.{append_assoc, append-nil}
use ai_chat_websocket.Prelude.{
  false, ◌++◌, ℕ, ◌+◌, ◌≡◌, refl, ap, sym, ◌∙◌, subst, Text, codes, Option, none, some, List, [],
  ◌∷◌, Result, ok, err, Option-cases, inl, inr,
}
use ai_chat_websocket.Core.Errors.{Error, invalid_state_error}
use ai_chat_websocket.Chat.Tokens.{Message}
use ai_chat_websocket.Chat.History.{build_chat_messages}
use ai_chat_websocket.Chat.Conversations.{Conversation}
use ai_chat_websocket.Chat.Client.{Chunk, content, usage}
use ai_chat_websocket.Chat.Protocol.{Value, get, or_empty, chat_stream}
use ai_chat_websocket.Chat.Session.{Backend, Session, Outcome, StoredMessage, send, send_error}
use ai_chat_websocket.Chat.Exchange.{
  send_stream, create_message, validate_message_content, assistant_message, user_message,
  finalize_response,
}
use ai_chat_websocket.Chat.Turns.{
  Turn, finished, saving, reading, counted, streaming, storing, TurnMachine, finish,
  after_validation, begin_with, begin_turn, after_user_message, read_history, start_stream,
  end_stream, next_chunk, store_answer, next_turn, TurnMove, resumed, summarized, orphan_done, beat,
  elapsed, TurnReach, here, next,
}
use ai_chat_websocket.Chat.Turns.Written.{
  collected, View, IsStreamed, IsQuestion, IsShown, Wrote, nothing, question, both,
}
use ai_chat_websocket.Chat.Turns.View.{
  shown_text, shown_text-append, view, catching-view, validate-view, finalize-view, summary-view,
  orphan-view, heartbeat-view, timeout-view,
}

module _ (backend : Backend) where
  module _ (id : ℕ) (v : Value) (start : Session backend) where
    -- what is written and shown while the exchange waits
    abbrev Progress : Turn → View backend → Type 0
    Progress (finished r) (rows, shown) = Wrote backend id v start (rows, shown)
    Progress (saving text) (rows, shown) =
        ((validate_message_content backend v start).0 ≡ ok (some text))
        × (rows ≡ start.messages)
        × IsShown backend id v start shown []
    Progress reading (rows, shown) =
        IsQuestion backend id v start rows × IsShown backend id v start shown []
    Progress (counted history total) (rows, shown) =
        IsQuestion backend id v start rows × IsShown backend id v start shown []
    Progress (streaming history total chunks ending full used) (rows, shown) =
        IsQuestion backend id v start rows
        × IsStreamed backend (collected chunks full used) ending
        × IsShown backend id v start shown full
    Progress (storing history total full used) (rows, shown) =
        IsQuestion backend id v start rows
        × IsStreamed backend (full, used) none
        × IsShown backend id v start shown full

    abbrev HasProgress : TurnMachine backend id → Type 0
    HasProgress m = Progress m.0 (view backend m.1)

    finish-Wrote :
        (o : Outcome backend (Unit {0}))
        → Wrote backend id v start (view backend o.1)
        → HasProgress (finish backend id o)
    unfolding finish
    finish-Wrote o w = subst (Wrote backend id v start) (sym (catching-view backend o)) w

    unwritten :
        (rows : List (ℕ × StoredMessage)) (shown : Text)
        → rows ≡ start.messages
        → Wrote backend id v start (rows, shown)
    unwritten rows shown e = subst (λ l. Wrote backend id v start (l, shown)) (sym e) nothing

    saving-Progress :
        (text : Text) (s : Session backend)
        → Progress (saving text) (view backend s)
        → HasProgress (
            after_user_message backend id (create_message backend (user_message backend id text) s))
    unfolding create_message
    saving-Progress text s (accepted, e, shown) =
        elim (Option-cases (backend.refusal (user_message backend id text) s.messages)) [
          | inr (x, refused) ↦
              rw (refused, create_message) (finish-Wrote (err x, s) (unwritten s.messages _ e))
          | inl saved ↦
              rw (saved, create_message)
                (
                  (
                    backend.new_id s.messages,
                    text,
                    accepted,
                    ap (λ l. (backend.new_id s.messages, user_message backend id text) ∷ l) e,
                  ),
                  shown,
                )
        ]

    reading-Progress :
        (o : Option Conversation) (s : Session backend)
        → Progress reading (view backend s)
        → HasProgress (read_history backend id o s)
    reading-Progress none s h = finish-Wrote _ (question h.0)
    reading-Progress (some c) s h = h

    start-Progress :
        (o : Option Conversation) (history : List Message) (total : ℕ) (s : Session backend)
        → Progress (counted history total) (view backend s)
        → HasProgress (start_stream backend id o history total s)
    unfolding start_stream
    start-Progress none history total s h =
        finish-Wrote
          (err (invalid_state_error (codes "Conversation required for building messages")), s)
          (question h.0)
    start-Progress (some c) history total s h =
        let messages = build_chat_messages c.system_prompt c.summary history in
        (h.0, (messages, c, (refl, refl)), h.1)

    ended-Progress :
        (history : List Message) (total : ℕ) (ending : Option Error) (full : Text) (used : ℕ × ℕ)
        (s : Session backend)
        → Progress (streaming history total [] ending full used) (view backend s)
        → HasProgress (end_stream backend id history total ending full used s)
    ended-Progress history total none full used s h = h
    ended-Progress history total (some e) full used s h = finish-Wrote (err e, s) (question h.0)

    chunk-Progress :
        (history : List Message) (total : ℕ) (chunks : List Chunk) (ending : Option Error)
        (full : Text) (used : ℕ × ℕ) (s : Session backend)
        → Progress (streaming history total chunks ending full used) (view backend s)
        → HasProgress (next_chunk backend id history total chunks ending full used s)
    unfolding next_chunk send_stream send
    chunk-Progress history total [] ending full used s h =
        ended-Progress history total ending full used s h
    chunk-Progress history total (content d ∷ chunks) ending full used s (q, streamed, shown) = (
      q,
      streamed,
      shown_text-append s.sent (chat_stream d false none)
          ∙ ap (λ t. t ++ d) shown
          ∙ append_assoc (shown_text start.sent) full d,
    )
    chunk-Progress history total (usage p r ∷ chunks) ending full used s h = h

    store-Progress :
        (o : Option Conversation) (history : List Message) (total : ℕ) (full : Text) (used : ℕ × ℕ)
        (s : Session backend)
        → Progress (storing history total full used) (view backend s)
        → HasProgress (store_answer backend id o history total full used s)
    unfolding store_answer create_message
    store-Progress none history total full used s h =
        finish-Wrote
          (err (invalid_state_error (codes "Conversation required for saving response")), s)
          (question h.0)
    store-Progress (some c) history total full used s (q, streamed, shown) =
        let m = assistant_message backend id c full used in
        elim (Option-cases (backend.refusal m s.messages)) [
          | inr (x, refused) ↦ rw (refused, create_message) (finish-Wrote (err x, s) (question q))
          | inl saved ↦
              let k = backend.new_id s.messages in
              let s' : Session backend = record s { messages = (k, m) ∷ s.messages } in
              rw (saved, create_message)
                (finish-Wrote
                  (ok tt, finalize_response backend k c full (total + used.1) history s')
                  (subst (Wrote backend id v start)
                    (sym (finalize-view backend k c full (total + used.1) history s'))
                    (both k c full used q streamed shown)))
        ]

    next-Progress :
        (m : TurnMachine backend id) → HasProgress m → HasProgress (next_turn backend id m)
    unfolding next_turn
    next-Progress (finished r, s) h = h
    next-Progress (saving text, s) h = saving-Progress text s h
    next-Progress (reading, s) h = reading-Progress s.conversation s h
    next-Progress (counted history total, s) h = start-Progress s.conversation history total s h
    next-Progress (streaming history total chunks ending full used, s) h =
        chunk-Progress history total chunks ending full used s h
    next-Progress (storing history total full used, s) h =
        store-Progress s.conversation history total full used s h

    move-Progress :
        {m n : TurnMachine backend id} → TurnMove backend id m n → HasProgress m → HasProgress n
    move-Progress (resumed m) h = next-Progress m h
    move-Progress (summarized now at s) h = subst (Progress at) (sym (summary-view backend now s)) h
    move-Progress (orphan_done now n at s) h =
        subst (Progress at) (sym (orphan-view backend now n s)) h
    move-Progress (beat at s) h = subst (Progress at) (sym (heartbeat-view backend s)) h
    move-Progress (elapsed at s) h = subst (Progress at) (sym (timeout-view backend s)) h

    reach-Progress :
        {m n : TurnMachine backend id} → HasProgress m → TurnReach backend id m n → HasProgress n
    reach-Progress h here = h
    reach-Progress h (next r move) = move-Progress move (reach-Progress h r)

    validated-Progress :
        (o : Outcome backend (Option Text))
        → o.0 ≡ (validate_message_content backend v start).0
        → view backend o.1 ≡ view backend start
        → HasProgress (after_validation backend id o)
    validated-Progress (err e, s) same h =
        finish-Wrote (err e, s) (unwritten s.messages _ (ap (λ w. w.0) h))
    validated-Progress (ok none, s) same h =
        finish-Wrote (ok tt, s) (unwritten s.messages _ (ap (λ w. w.0) h))
    validated-Progress (ok (some text), s) same h =
        (sym same, ap (λ w. w.0) h, ap (λ w. w.1) h ∙ sym (append-nil (shown_text start.sent)))

  begin-Progress :
      (id : ℕ) (o : Option Conversation) (fields : List (Text × Value)) (s : Session backend)
      → HasProgress id
          (or_empty (get (codes "content") fields))
          s
          (begin_with backend id o fields s)
  unfolding send_error send
  begin-Progress id none fields s = nothing
  begin-Progress id (some c) fields s =
      let v = or_empty (get (codes "content") fields) in
      validated-Progress id v s (validate_message_content backend v s) refl
        (validate-view backend v s)

  -- Whatever summaries, heartbeats and timeouts run between its awaits, an exchange that has come to its end has
  -- written nothing, the user's message, or the user's message and after it the answer of the
  -- assistant, all to its conversation. The user's message is the text that the validation of the received
  -- content gives. The answer has the text and the usage of a stream of the AI service that ended
  -- without an error, and the text is all that the client was shown during the exchange.
  pub reach-Wrote :
      (id : ℕ) (fields : List (Text × Value)) (s s' : Session backend) (r : Result Error (Unit {0}))
      → TurnReach backend id (begin_turn backend id fields s) (finished r, s')
      → Wrote backend id (or_empty (get (codes "content") fields)) s (view backend s')
  unfolding begin_turn
  reach-Wrote id fields s s' r reach =
      reach-Progress id (or_empty (get (codes "content") fields)) s
        (begin-Progress id s.conversation fields s) reach
