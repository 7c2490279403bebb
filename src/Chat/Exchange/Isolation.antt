-- ===== src/Chat/Exchange/Isolation.antt =====
-- An exchange touches its own conversation alone.
use ai_chat_websocket.Prelude.{
  ℕ, ◌+◌, ◌≤◌, ◌≡◌, ◌≢◌, refl, ap, sym, ◌∙◌, Text, true, List, [], ◌∷◌, ◌++◌, length, length-append,
  filter-append, Bool-cases, inl, inr, ◌==◌, nat_eq, nat_beq, nat_beq_iff, and-elim, arith,
}
use ai_chat_websocket.Chat.Conversations.{Conversation}
use ai_chat_websocket.Chat.Protocol.{Value}
use ai_chat_websocket.Chat.Session.{Backend, Session, StoredMessage}
use ai_chat_websocket.Chat.Exchange.{process_chat_message}
use ai_chat_websocket.Chat.Exchange.Stored.{all_of, of_conversation, process-Grows}

none-of_other :
    (id j : ℕ) (rows : List (ℕ × StoredMessage))
    → j ≢ id
    → all_of id rows ≡ true
    → of_conversation j rows ≡ []
none-of_other id j [] ne h = refl
none-of_other id j ((n, m) ∷ rows) ne h =
    let (first, others) = and-elim (m.conversation_id == id) _ h in
    elim (Bool-cases (nat_beq m.conversation_id j)) [
      | inl same ↦ absurd (
          ne (
            sym ((nat_beq_iff m.conversation_id j).0 same)
            ∙ (nat_beq_iff m.conversation_id id).0 first))
      | inr other ↦ rw other (none-of_other id j rows ne others)
    ]

module _ (backend : Backend) where
  -- An exchange on a conversation, however it ends, adds at most two messages to that conversation, and
  -- leaves the messages of every other conversation and the table of conversations as they are.
  pub process-isolated :
      (fields : List (Text × Value)) (id j : ℕ) (c : Conversation) (s : Session backend)
      → j ≢ id
      → let after = (process_chat_message backend fields id c s).1 in
        (of_conversation j after.messages ≡ of_conversation j s.messages)
        × (length after.messages ≤ 2 + length s.messages)
        × (after.conversations ≡ s.conversations)
  process-isolated fields id j c s ne =
      let after = (process_chat_message backend fields id c s).1 in
      let g = process-Grows backend fields id c s in
      let e = length-append g.added s.messages in
      let n = ap (λ (l : List (ℕ × StoredMessage)). length l) g.rows in
      let few = g.few in
      (
        ap (of_conversation j) g.rows
            ∙ filter-append _ g.added s.messages
            ∙ ap (λ l. l ++ of_conversation j s.messages) (none-of_other id j g.added ne g.own),
        omega (arith, e, n, few),
        g.kept,
      )
