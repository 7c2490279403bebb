-- ===== src/Chat/Awaits/Race.antt =====
-- The timeout against the login.
use ai_chat_websocket.Prelude.{
  ℕ, ◌≡◌, refl, ap, ◌∙◌, Text, codes, true, false, Option, some, List, [], ◌∷◌, ◌++◌, ok,
}
use ai_chat_websocket.Chat.Conversations.{Conversation, get_conversation}
use ai_chat_websocket.Chat.Protocol.{
  Value, get, truthy, or_empty, auth_success, chat_error, auth_timed_out,
}
use ai_chat_websocket.Chat.Session.{
  Backend, Session, send, send_error, close, with_conversation, find_conversation, auth_timeout,
}
use ai_chat_websocket.Chat.Awaits.{
  ready, for_user, for_conversation, Machine, call_helper, begin_auth, with_answer, ask_helper,
  resume,
}
use ai_chat_websocket.Chat.Consumer.Branches.{if_true, if_false}

module _ (backend : Backend) where
  -- the login with the timeout while it waits for the conversation
  abbrev pub overtaken : List (Text × Value) → Session backend → Machine backend
  overtaken fields s =
      let (at, s') = resume backend (begin_auth backend fields s) in
      resume backend (at, auth_timeout backend s')

  -- what the timeout leaves of a connection that is not authenticated
  abbrev expired : Session backend → Session backend
  expired s = close backend 4001 (
      send_error backend (codes "Authentication timeout") auth_timed_out
        (record s { auth_timeout_task = false }))

  expired_lem :
      (s : Session backend)
      → s.is_authenticated ≡ false
      → s.auth_timeout_task ≡ true
      → auth_timeout backend s ≡ expired s
  unfolding auth_timeout send_error send close
  expired_lem s waiting running =
      let P : Session backend → Type 0 = λ t. t ≡ expired s in
      if_true P s.auth_timeout_task _ _ running (if_false P s.is_authenticated _ _ waiting refl)

  begin_waits :
      (fields : List (Text × Value)) (helper : Value → Option ℕ) (s : Session backend)
      → backend.auth_helper ≡ some helper
      → truthy (or_empty (get (codes "token") fields)) ≡ true
      → s.is_authenticated ≡ false
      → begin_auth backend fields s ≡ (for_user (or_empty (get (codes "token") fields)), s)
  unfolding begin_auth
  begin_waits fields helper s e given waiting =
      let token = or_empty (get (codes "token") fields) in
      let P : Machine backend → Type 0 = λ m. m ≡ (for_user token, s) in
      if_false P s.is_authenticated _ _ waiting
        (if_true P (truthy token) _ _ given (ap (λ h. call_helper backend h token s) e))

  user_known :
      (token : Value) (helper : Value → Option ℕ) (user_id : ℕ) (s : Session backend)
      → backend.auth_helper ≡ some helper
      → helper token ≡ some user_id
      → resume backend (for_user token, s) ≡ (for_conversation user_id, s)
  unfolding resume
  user_known token helper user_id s e known =
      ap (λ h. ask_helper backend h token s) e ∙ ap (λ o. with_answer backend o s) known

  conversation_known :
      (user_id id : ℕ) (c : Conversation) (s : Session backend)
      → s.conversation_id ≡ some id
      → get_conversation backend.conversations id user_id s.conversations ≡ ok c
      → resume backend (for_conversation user_id, s)
        ≡ (ready, with_conversation backend id user_id (ok c) s)
  unfolding resume
  conversation_known user_id id c s here' found =
      ap (λ o. (ready, find_conversation backend o user_id s)) here'
      ∙ ap (λ r. (ready, with_conversation backend id user_id r s)) found

  -- If the timeout passes while a valid login waits for its conversation, the client is told that it timed
  -- out and the connection is closed with 4001, and then the login goes on: the connection counts as
  -- authenticated, its heartbeat runs and success is sent after the close.
  pub login_after_timeout :
      (fields : List (Text × Value)) (helper : Value → Option ℕ) (user_id id : ℕ) (c : Conversation)
      (s : Session backend)
      → backend.auth_helper ≡ some helper
      → truthy (or_empty (get (codes "token") fields)) ≡ true
      → helper (or_empty (get (codes "token") fields)) ≡ some user_id
      → s.conversation_id ≡ some id
      → get_conversation backend.conversations id user_id s.conversations ≡ ok c
      → s.is_authenticated ≡ false
      → s.auth_timeout_task ≡ true
      → let after = (overtaken fields s).1 in
        (after.is_authenticated ≡ true)
        × (after.heartbeat_task ≡ true)
        × (after.closed ≡ s.closed ++ 4001 ∷ [])
        × (after.sent
            ≡ (s.sent ++ chat_error (codes "Authentication timeout") auth_timed_out ∷ [])
              ++ auth_success id ∷ [])
  unfolding with_conversation send_error send close
  login_after_timeout fields helper user_id id c s e given known here found waiting running =
      let token = or_empty (get (codes "token") fields) in
      let waits : resume backend (begin_auth backend fields s) ≡ (for_conversation user_id, s) =
        ap (resume backend) (begin_waits fields helper s e given waiting)
        ∙ user_known token helper user_id s e known in
      let ends : overtaken fields s
          ≡ (ready, with_conversation backend id user_id (ok c) (expired s)) =
        ap (λ m. resume backend (m.0, auth_timeout backend m.1)) waits
        ∙ ap (λ t. resume backend (for_conversation user_id, t)) (expired_lem s waiting running)
        ∙ conversation_known user_id id c (expired s) here found in
      rw ends (refl, refl, refl, refl)
