-- ===== src/Chat/Consumer/Access.antt =====
-- What a connection can do before it has authenticated.
use ai_chat_websocket.Prelude.{
  ℕ, ◌≡◌, refl, Text, codes, false, Option, none, some, List, Result, ok, err,
}
use ai_chat_websocket.Core.Errors.{Error}
use ai_chat_websocket.Chat.Tokens.{Message}
use ai_chat_websocket.Chat.Conversations.{Conversation}
use ai_chat_websocket.Chat.Protocol.{
  Value, Json, object, not_object, get, truthy, or_empty, is_text,
}
use ai_chat_websocket.Chat.Session.{
  Backend, Session, Outcome, StoredMessage, Limits, send, send_error, close, fail_auth,
  with_conversation, find_conversation, with_user, with_helper, handle_auth,
}
use ai_chat_websocket.Chat.Consumer.{dispatch, receive}
use ai_chat_websocket.Chat.Consumer.Branches.{if-keeps, if_false}

module _ (backend : Backend) where
  -- What the connection shares with the rest of the program, and the summary that it has ordered.
  abbrev pub shared :
      Session backend
      → List (ℕ × StoredMessage)
        × Limits backend
        × backend.conversations.State
        × Option (List Message × ℕ)
        × List (List Message × ℕ)
  shared s = (s.messages, s.limits, s.conversations, s.summary_task, s.orphaned)

  found-shared :
      (id user_id : ℕ) (r : Result Error Conversation) (s : Session backend)
      → shared (with_conversation backend id user_id r s) ≡ shared s
  unfolding with_conversation fail_auth send_error send close
  found-shared id user_id (err e) s = refl
  found-shared id user_id (ok c) s = refl

  find-shared :
      (o : Option ℕ) (user_id : ℕ) (s : Session backend)
      → shared (find_conversation backend o user_id s) ≡ shared s
  unfolding fail_auth send_error send close
  find-shared none user_id s = refl
  find-shared (some id) user_id s = found-shared id user_id _ s

  user-shared : (o : Option ℕ) (s : Session backend) → shared (with_user backend o s) ≡ shared s
  unfolding with_user fail_auth send_error send close
  user-shared none s = refl
  user-shared (some u) s = find-shared s.conversation_id u s

  helper-shared :
      (h : Option (Value → Option ℕ)) (token : Value) (s : Session backend)
      → shared (with_helper backend h token s) ≡ shared s
  unfolding with_helper fail_auth send_error send close
  helper-shared none token s = refl
  helper-shared (some h) token s = user-shared (h token) s

  auth-shared :
      (fields : List (Text × Value)) (s : Session backend)
      → shared (handle_auth backend fields s) ≡ shared s
  unfolding handle_auth fail_auth send_error send close
  auth-shared fields s =
      let P : Session backend → Type 0 = λ t. shared t ≡ shared s in
      if-keeps P s.is_authenticated s _ refl (
        if-keeps P (truthy (or_empty (get (codes "token") fields))) _ _
          (helper-shared backend.auth_helper (or_empty (get (codes "token") fields)) s) refl)

  dispatch-shared :
      (o : Option Json) (now : ℕ) (s : Session backend)
      → s.is_authenticated ≡ false
      → shared (dispatch backend o now s).1 ≡ shared s
  unfolding dispatch send_error send
  dispatch-shared none now s h = refl
  dispatch-shared (some not_object) now s h = refl
  dispatch-shared (some (object fields)) now s h =
      let P : Outcome backend (Unit {0}) → Type 0 = λ o. shared o.1 ≡ shared s in
      if-keeps P (is_text (codes "auth") (get (codes "type") fields)) _ _ (auth-shared fields s) (
        if-keeps P (is_text (codes "pong") (get (codes "type") fields)) _ _ refl
          (if_false P s.is_authenticated _ _ h refl))

  -- Whatever a client sends before it has authenticated, no message is stored, no conversation is
  -- changed, no request is counted by the limiter and no summary is ordered.
  pub unauthenticated_receive :
      (now : ℕ) (text_data : Text) (s : Session backend)
      → s.is_authenticated ≡ false
      → shared (receive backend now text_data s).1 ≡ shared s
  unfolding receive
  unauthenticated_receive now text_data s h = dispatch-shared (backend.loads text_data) now s h
