-- ===== src/Chat/Middleware.antt =====
-- backend/apps/chat/middleware.py: how a WebSocket connection gets to know its user.
pub mod Revoked
mod Tests
use ai_chat_websocket.Prelude.{ℕ, String, Text, Bool, Option, none, some}
use ai_chat_websocket.Platform.Cache.{Cache}
use ai_chat_websocket.Platform.Jwt.{Jwt}
use ai_chat_websocket.Users.Tokens.{access, get_user_from_token}
use ai_chat_websocket.Chat.Protocol.{Value, text_value, other_value}

-- The part of the scope that the middleware sets and the consumer reads.
pub record Scope (User : Type 0) : Type 0 where
  pub user : Option User
  pub auth_helper : Option (Value → Option User)

-- `string_of` is the same text as a String. A token that is no text is refused by PyJWT.
module _ (jwt : Jwt) (cache : Cache Bool) (string_of : Text → String) {User : Type 0}
    (users : ℕ → Option User) where
  unfoldable pub get_user : ℕ → cache.State → Value → Option User
  get_user now s (text_value token) =
      get_user_from_token jwt cache users (string_of token) access now s
  get_user now s (other_value b) = none

  -- `JWTAuthMiddleware.__call__`, before it hands the connection on
  unfoldable pub with_auth_helper : ℕ → cache.State → Scope User → Scope User
  unfolding get_user
  with_auth_helper now s scope = record scope { user = none; auth_helper = some (get_user now s) }
