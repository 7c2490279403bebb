-- ===== src/Chat/Consumer/Orphans.antt =====
-- A summary that is ordered while the one before is still being written.
use ai_chat_websocket.Prelude.{ℕ, ◌≡◌, refl, Text, codes, true, some, List, [], ◌∷◌, ◌++◌, ok}
use ai_chat_websocket.Chat.Tokens.{Message, message, should_summarize}
use ai_chat_websocket.Chat.Conversations.{Conversation, with_summary}
use ai_chat_websocket.Chat.Client.{chat}
use ai_chat_websocket.Chat.Session.{Backend, Session, send, disconnect}
use ai_chat_websocket.Chat.Exchange.{send_stream, finalize_response}
use ai_chat_websocket.Chat.Summary.{
  build_summary_messages, generate_summary, after_answer, save_summary,
}
use ai_chat_websocket.Chat.Consumer.{run_summary, run_orphan}

module _ (backend : Backend) where
  generated :
      (now id n d : ℕ) (ms : List Message) (summary : Text) (used : ℕ × ℕ) (c : Conversation)
      (s : Session backend)
      → chat backend.tenacity (backend.answer (build_summary_messages ms) c.model)
        ≡ ok (d ∷ summary, used)
      → (generate_summary backend now (some (ms, n)) (some c) (some id) s).conversation
        ≡ some (with_summary (d ∷ summary) n now c)
  unfolding generate_summary after_answer save_summary
  generated now id n d ms summary used c s answer = rw (generate_summary, answer) refl

  -- When an exchange orders a summary while the summary of an earlier exchange is still being written, the
  -- consumer forgets the earlier task: it goes on after a disconnect, and when it ends after the new
  -- one it replaces the new summary and its token count with the old.
  pub stale_summary :
      (now later id k n old_n d e : ℕ) (c : Conversation) (full : Text)
      (history old_ms : List Message) (new old : Text) (used used' : ℕ × ℕ) (s : Session backend)
      → s.conversation ≡ some c
      → s.conversation_id ≡ some id
      → s.summary_task ≡ some (old_ms, old_n)
      → s.orphaned ≡ []
      → should_summarize n c.model ≡ true
      → chat backend.tenacity (
          backend.answer
            (build_summary_messages (history ++ message (codes "assistant") full ∷ []))
            c.model)
        ≡ ok (d ∷ new, used)
      → chat backend.tenacity (backend.answer (build_summary_messages old_ms) c.model)
        ≡ ok (e ∷ old, used')
      → let ordered = finalize_response backend k c full n history s in
        let written = with_summary (d ∷ new) n now c in
        ((disconnect backend ordered).orphaned ≡ (old_ms, old_n) ∷ [])
        × ((run_orphan backend later 0 (disconnect backend ordered)).conversation
            ≡ some (with_summary (e ∷ old) old_n later c))
        × ((run_summary backend now ordered).conversation ≡ some written)
        × ((run_orphan backend later 0 (run_summary backend now ordered)).conversation
            ≡ some (with_summary (e ∷ old) old_n later written))
  unfolding finalize_response send_stream send run_summary run_orphan disconnect generate_summary
      after_answer save_summary with_summary
  stale_summary now later id k n old_n d e c full history old_ms new old used used' s talk place
        task none_left long answer answer' =
      rw (finalize_response, long, task, none_left, talk, place, generate_summary, answer, answer')
        (refl, refl, refl, refl)
