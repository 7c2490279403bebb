-- ===== src/Chat/Exchange/Stored.antt =====
-- What an exchange stores.
use mathlib.Core.List.{append_assoc}
use ai_chat_websocket.Prelude.{
  ℕ, ◌+◌, ◌≤◌, ◌≡◌, refl, ap, sym, ◌∙◌, Text, Bool, true, ◌&&◌, List, [], ◌∷◌, ◌++◌, length,
  length-append, filter, Option-cases, inl, inr, ◌==◌, nat_eq, nat_beq_iff, and-intro, and-elim,
  arith,
}
use ai_chat_websocket.Chat.Conversations.{Conversation}
use ai_chat_websocket.Chat.Protocol.{Value}
use ai_chat_websocket.Chat.Session.{Backend, Session, Outcome, StoredMessage, send}
use ai_chat_websocket.Chat.Exchange.Kept.{IsKept, respond-IsKept, catching-IsKept, process-IsKept}
use ai_chat_websocket.Chat.Exchange.{create_message, respond, catching, process_chat_message}

-- whether all rows are of this conversation
abbrev pub all_of : ℕ → List (ℕ × StoredMessage) → Bool
all_of id [] = true
all_of id ((k, m) ∷ rows) = m.conversation_id == id && all_of id rows

-- the rows of a conversation
abbrev pub of_conversation : ℕ → List (ℕ × StoredMessage) → List (ℕ × StoredMessage)
of_conversation id = filter (λ (row : ℕ × StoredMessage). row.1.conversation_id == id)

all_of-append :
    (id : ℕ) (xs ys : List (ℕ × StoredMessage))
    → all_of id xs ≡ true
    → all_of id ys ≡ true
    → all_of id (xs ++ ys) ≡ true
all_of-append id [] ys h k = k
all_of-append id ((n, m) ∷ xs) ys h k =
    let (first, others) = and-elim (m.conversation_id == id) _ h in
    and-intro _ _ first (all_of-append id xs ys others k)

module _ (backend : Backend) where
  -- At most `n` rows are added, all to this conversation, and the conversations stay as they are.
  pub record Grows (id n : ℕ) (before after : Session backend) : Type 0 where
    pub added : List (ℕ × StoredMessage)
    pub rows : after.messages ≡ added ++ before.messages
    pub few : length added ≤ n
    pub own : all_of id added ≡ true
    pub kept : after.conversations ≡ before.conversations

  unchanged-Grows :
      (id n : ℕ) (s t : Session backend)
      → t.messages ≡ s.messages
      → t.conversations ≡ s.conversations
      → Grows id n s t
  unchanged-Grows id n s t rows kept = record {
    added = [];
    rows = rows;
    few = omega arith;
    own = refl;
    kept = kept;
  }

  pub Grows-trans :
      (id n k : ℕ) (s t u : Session backend)
      → Grows id n s t
      → Grows id k t u
      → Grows id (k + n) s u
  Grows-trans id n k s t u g h = record {
    added = h.added ++ g.added;
    rows = h.rows ∙ ap (λ l. h.added ++ l) g.rows ∙ sym (append_assoc h.added g.added s.messages);
    few =
        let e = length-append h.added g.added in
        let a = g.few in let b = h.few in omega (arith, e, a, b);
    own = all_of-append id h.added g.added h.own g.own;
    kept = h.kept ∙ g.kept;
  }

  pub create_message-Grows :
      (id : ℕ) (m : StoredMessage) (s : Session backend)
      → m.conversation_id ≡ id
      → Grows id 1 s (create_message backend m s).1
  unfolding create_message
  create_message-Grows id m s e = elim (Option-cases (backend.refusal m s.messages)) [
    | inr (x, refused) ↦ rw (refused, create_message) (unchanged-Grows id 1 s s refl refl)
    | inl saved ↦
        rw (saved, create_message)
          record {
            added = (backend.new_id s.messages, m) ∷ [];
            rows = refl;
            few = omega arith;
            own = and-intro _ _ ((nat_beq_iff m.conversation_id id).1 e) refl;
            kept = refl;
          }
  ]

  Grows-IsKept : (id : ℕ) → IsKept backend (Grows id)
  unfolding send
  Grows-IsKept id = record {
    same = λ n s. unchanged-Grows id n s s refl refl;
    then_on = Grows-trans id;
    sends = λ frame s. unchanged-Grows id 0 s (send backend frame s) refl refl;
    orders = λ task tasks s. unchanged-Grows id 0 s _ refl refl;
  }

  pub respond-Grows :
      (id : ℕ) (c : Conversation) (o : Outcome backend ℕ)
      → Grows id 1 o.1 (respond backend id c o).1
  respond-Grows id c o =
      respond-IsKept backend (Grows id) (Grows-IsKept id) id (create_message-Grows id) c o

  pub catching-Grows :
      (id : ℕ) (o : Outcome backend (Unit {0})) → Grows id 0 o.1 (catching backend o).1
  catching-Grows id o = catching-IsKept backend (Grows id) (Grows-IsKept id) o

  pub process-Grows :
      (fields : List (Text × Value)) (id : ℕ) (c : Conversation) (s : Session backend)
      → Grows id 2 s (process_chat_message backend fields id c s).1
  process-Grows fields id c s =
      process-IsKept backend (Grows id) (Grows-IsKept id) id (create_message-Grows id) fields c s
