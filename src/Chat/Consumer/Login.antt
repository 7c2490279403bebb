-- ===== src/Chat/Consumer/Login.antt =====
-- Whose conversation a connection serves.
use ai_chat_websocket.Prelude.{
  ℕ, ◌≡◌, refl, sym, subst, Text, codes, Bool, true, false, Option, none, some, List, [], ◌∷◌,
  Result, ok, err, nat_beq_iff,
}
use ai_chat_websocket.Core.Errors.{Error}
use ai_chat_websocket.Core.RateLimit.{Verdict}
use ai_chat_websocket.Chat.Tokens.{Message}
use ai_chat_websocket.Chat.Conversations.{Conversation, get_conversation, with_summary}
use ai_chat_websocket.Chat.Conversations.Ownership.{get-eq-ok}
use ai_chat_websocket.Chat.Client.{chat}
use ai_chat_websocket.Chat.Protocol.{
  Value, Json, object, not_object, get, truthy, or_empty, is_text,
}
use ai_chat_websocket.Chat.Session.{
  Backend, Session, Outcome, send, send_error, close, fail_auth, with_conversation,
  find_conversation, with_user, with_helper, handle_auth, auth_timeout, heartbeat, disconnect,
}
use ai_chat_websocket.Chat.Exchange.Failures.{identity, process-identity}
use ai_chat_websocket.Chat.Summary.{
  save_summary, after_answer, generate_summary, build_summary_messages,
}
use ai_chat_websocket.Chat.Consumer.{
  when_allowed, handle_active, handle_with, handle_chat_message, dispatch, receive, run_summary,
  pick_task, run_orphan, orphan_done, Step, received, timed_out, beat, summarized, disconnected,
}
use ai_chat_websocket.Chat.Consumer.Branches.{if-keeps}

module _ (backend : Backend) where
  -- An authenticated connection has a user, an id and the conversation with that id, which is the user's, and
  -- between two steps the lock is free.
  abbrev pub Identity : Type 0
  Identity = Bool × Option Conversation × Option ℕ × Option ℕ × Bool

  abbrev pub Owns : Option Conversation → Option ℕ → Option ℕ → Type 0
  Owns (some c) (some user_id) (some id) = (c.user_id ≡ user_id) × (c.id ≡ id)
  Owns _ _ _ = ⊥

  abbrev pub IsLoggedIn : Identity → Type 0
  IsLoggedIn (authenticated, c, u, id, locked) =
      (authenticated ≡ true → Owns c u id) × (locked ≡ false)

  found-IsLoggedIn :
      (id user_id : ℕ) (r : Result Error Conversation) (s : Session backend)
      → s.conversation_id ≡ some id
      → get_conversation backend.conversations id user_id s.conversations ≡ r
      → IsLoggedIn (identity backend s)
      → IsLoggedIn (identity backend (with_conversation backend id user_id r s))
  unfolding with_conversation fail_auth send_error send close
  found-IsLoggedIn id user_id (err e) s place found h = h
  found-IsLoggedIn id user_id (ok c) s place found h =
      let (there, here, mine) =
        get-eq-ok backend.conversations id user_id s.conversations c found in
      (
        λ k.
            subst (Owns (some c) (some user_id)) (sym place)
              ((nat_beq_iff c.user_id user_id).0 mine, (nat_beq_iff c.id id).0 here),
        h.1,
      )

  pub find-IsLoggedIn :
      (o : Option ℕ) (user_id : ℕ) (s : Session backend)
      → s.conversation_id ≡ o
      → IsLoggedIn (identity backend s)
      → IsLoggedIn (identity backend (find_conversation backend o user_id s))
  unfolding fail_auth send_error send close
  find-IsLoggedIn none user_id s place h = h
  find-IsLoggedIn (some id) user_id s place h = found-IsLoggedIn id user_id _ s place refl h

  user-IsLoggedIn :
      (o : Option ℕ) (s : Session backend)
      → IsLoggedIn (identity backend s)
      → IsLoggedIn (identity backend (with_user backend o s))
  unfolding with_user fail_auth send_error send close
  user-IsLoggedIn none s h = h
  user-IsLoggedIn (some u) s h = find-IsLoggedIn s.conversation_id u s refl h

  helper-IsLoggedIn :
      (g : Option (Value → Option ℕ)) (token : Value) (s : Session backend)
      → IsLoggedIn (identity backend s)
      → IsLoggedIn (identity backend (with_helper backend g token s))
  unfolding with_helper fail_auth send_error send close
  helper-IsLoggedIn none token s h = h
  helper-IsLoggedIn (some g) token s h = user-IsLoggedIn (g token) s h

  auth-IsLoggedIn :
      (fields : List (Text × Value)) (s : Session backend)
      → IsLoggedIn (identity backend s)
      → IsLoggedIn (identity backend (handle_auth backend fields s))
  unfolding handle_auth fail_auth send_error send close
  auth-IsLoggedIn fields s h =
      let P : Session backend → Type 0 = λ t. IsLoggedIn (identity backend t) in
      if-keeps P s.is_authenticated s _ h (
        if-keeps P (truthy (or_empty (get (codes "token") fields))) _ _
          (helper-IsLoggedIn backend.auth_helper (or_empty (get (codes "token") fields)) s h) h)

  allowed-IsLoggedIn :
      (v : Verdict) (fields : List (Text × Value)) (id : ℕ) (c : Conversation) (s : Session backend)
      → IsLoggedIn (identity backend s)
      → IsLoggedIn (identity backend (when_allowed backend v fields id c s).1)
  unfolding when_allowed send_error send
  allowed-IsLoggedIn (true, n) fields id c s h = rw h.1 (
    λ k.
        subst (λ (i : Identity). i.0 ≡ true → Owns i.1 i.2 i.3)
          (sym (process-identity backend fields id c (record s { locked = true }))) h.0 k,
    refl,
  )
  allowed-IsLoggedIn (false, n) fields id c s h = h

  handle-IsLoggedIn :
      (c : Option Conversation) (id user_id : Option ℕ) (now : ℕ) (fields : List (Text × Value))
      (s : Session backend)
      → IsLoggedIn (identity backend s)
      → IsLoggedIn (identity backend (handle_with backend c id user_id now fields s).1)
  unfolding handle_with handle_active send_error send
  handle-IsLoggedIn none id user_id now fields s h = h
  handle-IsLoggedIn (some c) none user_id now fields s h = h
  handle-IsLoggedIn (some c) (some id) none now fields s h = h
  handle-IsLoggedIn (some c) (some id) (some u) now fields s h =
      allowed-IsLoggedIn _ fields id c _ h

  dispatch-IsLoggedIn :
      (o : Option Json) (now : ℕ) (s : Session backend)
      → IsLoggedIn (identity backend s)
      → IsLoggedIn (identity backend (dispatch backend o now s).1)
  unfolding dispatch handle_chat_message send_error send
  dispatch-IsLoggedIn none now s h = h
  dispatch-IsLoggedIn (some not_object) now s h = h
  dispatch-IsLoggedIn (some (object fields)) now s h =
      let P : Outcome backend (Unit {0}) → Type 0 = λ o. IsLoggedIn (identity backend o.1) in
      let handled : P (handle_chat_message backend now fields s) =
        handle-IsLoggedIn s.conversation s.conversation_id s.user now fields s h in
      if-keeps P (is_text (codes "auth") (get (codes "type") fields)) _ _
        (auth-IsLoggedIn fields s h)
        (if-keeps P (is_text (codes "pong") (get (codes "type") fields)) _ _ h (
          if-keeps P s.is_authenticated _ _
            (if-keeps P (is_text (codes "chat.message") (get (codes "type") fields)) _ _ handled h)
            h))

  after_answer-IsLoggedIn :
      (r : Result Error (Text × (ℕ × ℕ))) (now token_count id : ℕ) (c : Conversation)
      (s : Session backend)
      → s.conversation ≡ some c
      → IsLoggedIn (identity backend s)
      → IsLoggedIn (identity backend (after_answer backend r now token_count id c s))
  unfolding after_answer save_summary with_summary
  after_answer-IsLoggedIn (err e) now token_count id c s e' h = h
  after_answer-IsLoggedIn (ok ([], used)) now token_count id c s e' h = h
  after_answer-IsLoggedIn (ok (x ∷ t, used)) now token_count id c s e' h = (
    λ k. owns s.user s.conversation_id (subst (λ o. Owns o s.user s.conversation_id) e' (h.0 k)),
    h.1,
  )
    where
      owns :
          (u i : Option ℕ)
          → Owns (some c) u i
          → Owns (some (with_summary (x ∷ t) token_count now c)) u i
      owns none i o = o
      owns (some u) none o = o
      owns (some u) (some i) o = o

  summary-IsLoggedIn :
      (now : ℕ) (task : Option (List Message × ℕ)) (o : Option Conversation) (id : Option ℕ)
      (s : Session backend)
      → s.conversation ≡ o
      → IsLoggedIn (identity backend s)
      → IsLoggedIn (identity backend (generate_summary backend now task o id s))
  unfolding generate_summary
  summary-IsLoggedIn now none o id s e h = h
  summary-IsLoggedIn now (some task) none id s e h = h
  summary-IsLoggedIn now (some task) (some c) none s e h = h
  summary-IsLoggedIn now (some (ms, n)) (some c) (some id) s e h =
      after_answer-IsLoggedIn
        (chat backend.tenacity (backend.answer (build_summary_messages ms) c.model)) now n id c s e
        h

  -- Every step of a connection keeps this: once it is authenticated it serves the conversation with its
  -- `conversation_id`, which is a conversation of its user, and the lock is free when the next message arrives.
  pub Step-IsLoggedIn :
      (s t : Session backend)
      → Step backend s t
      → IsLoggedIn (identity backend s)
      → IsLoggedIn (identity backend t)
  unfolding receive auth_timeout heartbeat run_summary run_orphan disconnect send_error send close
  Step-IsLoggedIn _ _ (received now text_data s) h =
      dispatch-IsLoggedIn (backend.loads text_data) now s h
  Step-IsLoggedIn _ _ (timed_out s) h =
      let P : Session backend → Type 0 = λ t. IsLoggedIn (identity backend t) in
      if-keeps P s.auth_timeout_task _ s (if-keeps P s.is_authenticated _ _ h h) h
  Step-IsLoggedIn _ _ (beat s) h =
      if-keeps (λ t. IsLoggedIn (identity backend t)) s.heartbeat_task _ s h h
  Step-IsLoggedIn _ _ (summarized now s) h =
      summary-IsLoggedIn now s.summary_task s.conversation s.conversation_id _ refl h
  Step-IsLoggedIn _ _ (orphan_done now n s) h =
      summary-IsLoggedIn now (pick_task n s.orphaned).0 s.conversation s.conversation_id _ refl h
  Step-IsLoggedIn _ _ (disconnected s) h = h
