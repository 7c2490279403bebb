-- ===== src/Chat/Middleware/Revoked.antt =====
-- A revoked token at the WebSocket.
use ai_chat_websocket.Prelude.{
  ℕ, ◌+◌, ◌*◌, ◌≤◌, ◌≡◌, ap, ◌∙◌, ◌⊎◌, String, Text, codes, Bool, true, false, Option, List,
}
use ai_chat_websocket.Platform.Cache.{Cache}
use ai_chat_websocket.Platform.Jwt.{Jwt, Payload}
use ai_chat_websocket.Users.Tokens.{access, blacklist_token}
use ai_chat_websocket.Users.Tokens.Revocation.{IsRevocable, revoked_rejected}
use ai_chat_websocket.Chat.Protocol.{Value, text_value, get, or_empty, truthy, auth_failed}
use ai_chat_websocket.Chat.Session.{
  Backend, Session, fail_auth, with_user, with_helper, handle_auth,
}
use ai_chat_websocket.Chat.Consumer.Branches.{if_true, if_false}
use ai_chat_websocket.Chat.Middleware.{Scope, get_user, with_auth_helper}

-- `objects` finds the users by their ids; the consumer knows a user by its id.
module _ (backend : Backend) (jwt : Jwt) (cache : Cache Bool) (string_of : Text → String)
    (objects : ℕ → Option ℕ) where
  -- Once an access token is revoked no WebSocket can log in with it, except perhaps in the last second
  -- before it expires: the login is answered that the token is invalid and the connection is closed with
  -- 4001.
  pub revoked-handle_auth :
      (text : Text) (p : Payload) (jti : String) (exp now later : ℕ) (c : cache.State)
      (scope : Scope ℕ) (fields : List (Text × Value)) (s : Session backend)
      → IsRevocable jwt (string_of text) p jti exp
      → now ≤ later
      → (later + 1000000 ≤ exp * 1000000) ⊎ (exp * 1000000 ≤ later)
      → backend.auth_helper
        ≡ (with_auth_helper jwt cache string_of objects later
            (blacklist_token jwt cache (string_of text) now c)
            scope).auth_helper
      → or_empty (get (codes "token") fields) ≡ text_value text
      → truthy (text_value text) ≡ true
      → s.is_authenticated ≡ false
      → handle_auth backend fields s
        ≡ fail_auth backend (codes "Invalid or expired token") auth_failed 4001 s
  unfolding handle_auth with_helper with_user with_auth_helper get_user
  revoked-handle_auth text p jti exp now later c scope fields s r h ended helper given nonempty
        waiting =
      let refused =
        revoked_rejected jwt cache objects (string_of text) access p jti exp now later c r h
          ended in
      let P : Session backend → Type 0 =
        λ t. t ≡ fail_auth backend (codes "Invalid or expired token") auth_failed 4001 s in
      let token = or_empty (get (codes "token") fields) in
      if_false P s.is_authenticated _ _ waiting (
        if_true P (truthy token) _ _ (ap truthy given ∙ nonempty) (
          ap (λ v. with_helper backend backend.auth_helper v s) given
          ∙ ap (λ o. with_helper backend o (text_value text) s) helper
          ∙ ap (λ o. with_user backend o s) refused))
