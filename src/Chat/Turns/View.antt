-- ===== src/Chat/Turns/View.antt =====
-- What the client was shown of answers, and the steps that change neither that nor the stored messages
-- (consumers.py).
use mathlib.Core.List.{append-nil}
use ai_chat_websocket.Prelude.{
  ℕ, ◌≡◌, refl, ap, sym, ◌∙◌, Text, codes, Option, none, some, List, [], ◌∷◌, ◌++◌, Result, ok, err,
  true, false, Bool-cases, inl, inr, ltb, length,
}
use mathlib.Core.List.{append_assoc}
use ai_chat_websocket.Core.Errors.{Error}
use ai_chat_websocket.Chat.Tokens.{Message, should_summarize}
use ai_chat_websocket.Chat.Conversations.{Conversation}
use ai_chat_websocket.Chat.Client.{chat}
use ai_chat_websocket.Chat.Protocol.{
  Value, text_value, other_value, Frame, chat_stream, chat_error, ping, WsErrorCode, auth_timed_out,
  caught, strip,
}
use ai_chat_websocket.Chat.Session.{
  Backend, Session, Outcome, StoredMessage, send, send_error, close, auth_timeout, heartbeat,
  max_user_message_length,
}
use ai_chat_websocket.Chat.Exchange.{
  send_stream, validate_stripped, validate_message_content, finalize_response, send_caught,
  catching,
}
use ai_chat_websocket.Chat.Summary.{
  build_summary_messages, save_summary, after_answer, generate_summary,
}
use ai_chat_websocket.Chat.Consumer.{run_summary, pick_task, run_orphan}
use ai_chat_websocket.Chat.Consumer.Branches.{if-keeps}

abbrev pub frame_text : Frame → Text
frame_text (chat_stream text done message_id) = text
frame_text frame = []

-- the texts of all `chat_stream` frames, joined
abbrev pub shown_text : List Frame → Text
shown_text [] = []
shown_text (frame ∷ frames) = frame_text frame ++ shown_text frames

pub shown_text-append :
    (frames : List Frame) (frame : Frame)
    → shown_text (frames ++ frame ∷ []) ≡ shown_text frames ++ frame_text frame
shown_text-append [] frame = append-nil (frame_text frame)
shown_text-append (f ∷ frames) frame =
    ap (λ t. frame_text f ++ t) (shown_text-append frames frame)
    ∙ sym (append_assoc (frame_text f) (shown_text frames) (frame_text frame))

module _ (backend : Backend) where
  -- the stored messages, newest first, and the text that the client was shown
  abbrev pub view : Session backend → List (ℕ × StoredMessage) × Text
  view s = (s.messages, shown_text s.sent)

  pub send-view :
      (frame : Frame) (s : Session backend)
      → frame_text frame ≡ []
      → view (send backend frame s) ≡ view s
  unfolding send
  send-view frame s e =
      ap (λ t. (s.messages, t))
        (shown_text-append s.sent frame
          ∙ ap (λ t. shown_text s.sent ++ t) e
          ∙ append-nil (shown_text s.sent))

  pub catching-view : (o : Outcome backend (Unit {0})) → view (catching backend o).1 ≡ view o.1
  unfolding catching send_caught send_error
  catching-view (ok u, s) = refl
  catching-view (err e, s) = told (caught e)
    where
      told : (o : Option (Text × WsErrorCode)) → view (send_caught backend o e s).1 ≡ view s
      told none = refl
      told (some (m, code)) = send-view (chat_error m code) s refl

  pub validate-view :
      (v : Value) (s : Session backend) → view (validate_message_content backend v s).1 ≡ view s
  unfolding validate_message_content validate_stripped send_error
  validate-view (other_value b) s = refl
  validate-view (text_value t) s = stripped (strip t)
    where
      stripped : (r : Text) → view (validate_stripped backend r s).1 ≡ view s
      stripped [] = send-view (chat_error _ _) s refl
      stripped (x ∷ r) =
          elim (Bool-cases (ltb max_user_message_length (length (backend.clean (x ∷ r))))) [
            | inl long ↦ rw long (send-view (chat_error _ _) s refl)
            | inr short ↦ rw short refl
          ]

  pub finalize-view :
      (k : ℕ) (c : Conversation) (full : Text) (n : ℕ) (history : List Message)
      (s : Session backend)
      → view (finalize_response backend k c full n history s) ≡ view s
  unfolding finalize_response send_stream
  finalize-view k c full n history s =
      let last = send-view (chat_stream [] true (some k)) s refl in
      elim (Bool-cases (should_summarize n c.model)) [
        | inl long ↦ rw long last
        | inr short ↦ rw short last
      ]

  generated-view :
      (now : ℕ) (task : Option (List Message × ℕ)) (c : Option Conversation) (id : Option ℕ)
      (s : Session backend)
      → view (generate_summary backend now task c id s) ≡ view s
  unfolding generate_summary after_answer save_summary
  generated-view now none c id s = refl
  generated-view now (some task) none id s = refl
  generated-view now (some task) (some c) none s = refl
  generated-view now (some (ms, n)) (some c) (some id) s =
      answered (chat backend.tenacity (backend.answer (build_summary_messages ms) c.model))
    where
      answered :
          (r : Result Error (Text × (ℕ × ℕ))) → view (after_answer backend r now n id c s) ≡ view s
      answered (err e) = refl
      answered (ok ([], used)) = refl
      answered (ok (x ∷ t, used)) = refl

  pub summary-view : (now : ℕ) (s : Session backend) → view (run_summary backend now s) ≡ view s
  unfolding run_summary
  summary-view now s = generated-view now s.summary_task s.conversation s.conversation_id _

  pub orphan-view : (now n : ℕ) (s : Session backend) → view (run_orphan backend now n s) ≡ view s
  unfolding run_orphan
  orphan-view now n s =
      generated-view now (pick_task n s.orphaned).0 s.conversation s.conversation_id _

  pub heartbeat-view : (s : Session backend) → view (heartbeat backend s) ≡ view s
  unfolding heartbeat
  heartbeat-view s =
      if-keeps (λ (t : Session backend). view t ≡ view s) s.heartbeat_task _ s
        (send-view ping s refl) refl

  pub timeout-view : (s : Session backend) → view (auth_timeout backend s) ≡ view s
  unfolding auth_timeout send_error close
  timeout-view s =
      let P : Session backend → Type 0 = λ t. view t ≡ view s in
      if-keeps P s.auth_timeout_task _ s
        (if-keeps P s.is_authenticated _ _ refl (
          send-view (chat_error (codes "Authentication timeout") auth_timed_out)
            (record s { auth_timeout_task = false }) refl))
        refl
