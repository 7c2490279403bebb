-- ===== src/Chat/Awaits.antt =====
-- `_handle_auth` of backend/apps/chat/consumers.py with its awaits: between them the timeout, the
-- heartbeat and other requests run.
pub mod Refinement
pub mod Race
mod Tests
use ai_chat_websocket.Prelude.{ℕ, Text, codes, Bool, Option, none, some, List, if◌then◌else◌}
use ai_chat_websocket.Chat.Protocol.{Value, get, truthy, or_empty, auth_failed, internal_error}
use ai_chat_websocket.Chat.Session.{
  Backend, Session, fail_auth, find_conversation, auth_timeout, heartbeat,
}

-- Where the handler waits: nowhere, for `auth_helper(token)`, or for `_get_conversation`.
pub data Await : Type 0 where
  ready : Await
  for_user : Value → Await
  for_conversation : ℕ → Await

module _ (backend : Backend) where
  abbrev pub Machine : Type 0
  Machine = Await × Session backend

  abbrev pub call_helper : Option (Value → Option ℕ) → Value → Session backend → Machine
  call_helper none token s =
      (ready, fail_auth backend (codes "Internal error") internal_error 4001 s)
  call_helper (some helper) token s = (for_user token, s)

  -- up to the first await
  unfoldable pub begin_auth : List (Text × Value) → Session backend → Machine
  begin_auth fields s =
      let token = or_empty (get (codes "token") fields) in
      if s.is_authenticated
      then (ready, s)
      else (if truthy token
          then call_helper backend.auth_helper token s
          else (ready, fail_auth backend (codes "Token is required") auth_failed 4001 s))

  abbrev pub with_answer : Option ℕ → Session backend → Machine
  with_answer none s =
      (ready, fail_auth backend (codes "Invalid or expired token") auth_failed 4001 s)
  with_answer (some user_id) s = (for_conversation user_id, s)

  abbrev pub ask_helper : Option (Value → Option ℕ) → Value → Session backend → Machine
  ask_helper none token s = (ready, s)
  ask_helper (some helper) token s = with_answer (helper token) s

  -- from one await to the next
  unfoldable pub resume : Machine → Machine
  resume (ready, s) = (ready, s)
  resume (for_user token, s) = ask_helper backend.auth_helper token s
  resume (for_conversation user_id, s) =
      (ready, find_conversation backend s.conversation_id user_id s)

  -- What can happen to a connection at any of these points; `t` is the table of conversations after
  -- another request.
  pub data Move : Machine → Machine → Type 0 where
    received :
        (fields : List (Text × Value)) (s : Session backend) → Move (ready, s) (begin_auth fields s)
    resumed : (m : Machine) → Move m (resume m)
    elapsed : (at : Await) (s : Session backend) → Move (at, s) (at, auth_timeout backend s)
    beat : (at : Await) (s : Session backend) → Move (at, s) (at, heartbeat backend s)
    written :
        (at : Await) (s : Session backend) (t : backend.conversations.State)
        → Move (at, s) (at, record s { conversations = t })

  pub data Reach (m : Machine) : Machine → Type 0 where
    here : Reach m m
    next : {n o : Machine} → Reach m n → Move n o → Reach m o
