-- ===== src/Platform/Jwt.antt =====
-- PyJWT and the token classes of ninja_jwt, as backend/apps/users uses them.
use ai_chat_websocket.Prelude.{ℕ, ◌*◌, String, Bool, false, Option, none, some, leb, if◌then◌else◌}

-- The claims of a token that the program reads; an absent claim is `none`. `exp` is in seconds.
pub record Payload : Type 0 where
  pub token_type : Option String
  pub jti : Option String
  pub user_id : Option ℕ
  pub exp : Option ℕ

-- `exp` has passed at a time in microseconds
abbrev pub is_expired : Option ℕ → ℕ → Bool
is_expired none now = false
is_expired (some exp) now = leb (exp * 1000000) now

abbrev pub if_current : Option Payload → ℕ → Option Payload
if_current none now = none
if_current (some p) now = if is_expired p.exp now then none else some p

-- `signed_payload` is `jwt.decode` with `verify_exp` off, and `none` where it raises: a bad signature,
-- another algorithm, or no token at all. With `verify_exp` on, a token is refused from `exp` on.
pub record Jwt : Type 0 where
  pub signed_payload : String → Option Payload
  -- `str(RefreshToken(token).access_token)` at a time, `none` where it raises
  pub access_of : String → ℕ → Option String
  -- `str(RefreshToken.for_user(user))` at a time
  pub refresh_for_user : ℕ → ℕ → String
