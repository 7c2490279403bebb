-- ===== src/Users/Tokens.antt =====
-- backend/apps/users/jwt_utils.py, auth.py, the blacklist of services.py and the token endpoints of
-- api.py. Times are in microseconds.
pub mod Revocation
pub mod Rotation
pub mod Concurrency
mod Tests
use Prim.Native.String.{◌++◌ as str_append}
use ai_chat_websocket.Prelude.{
  ℕ, zero, suc, ◌+◌, ◌-◌, ◌*◌, ◌/◌, String, codes, Bool, true, false, Option, none, some, ltb,
  Result, ok, err, or_raise, ◌>>=◌, ◌>>◌, ◌==◌, string_eq, if◌then◌else◌,
}
use ai_chat_websocket.Platform.Cache.{Cache}
use ai_chat_websocket.Platform.Jwt.{Jwt, Payload, if_current}
use ai_chat_websocket.Core.Errors.{Error, authentication_error}

pub data TokenType : Type 0 where
  access refresh : TokenType

unfoldable pub type_value : TokenType → String
type_value access = "access"
type_value refresh = "refresh"

-- `verify_exp` says whether an expired token is refused.
unfoldable pub decode_jwt_token : Jwt → String → Bool → ℕ → Option Payload
decode_jwt_token jwt token verify_exp now =
    if verify_exp then if_current (jwt.signed_payload token) now else jwt.signed_payload token

abbrev pub blacklist_key : String → String
blacklist_key jti = str_append "token_blacklist:" jti

-- `if not jti`: a missing or an empty claim
abbrev pub non_empty : Option String → Option String
non_empty none = none
non_empty (some jti) = if jti == "" then none else some jti

-- `payload.get("exp", 0)`
abbrev pub exp_or_zero : Option ℕ → ℕ
exp_or_zero none = 0
exp_or_zero (some exp) = exp

-- `max(int(exp - time.time()), 0)`
unfoldable pub blacklist_ttl : Option ℕ → ℕ → ℕ
blacklist_ttl exp now = (exp_or_zero exp * 1000000 - now) / 1000000

module _ (jwt : Jwt) (cache : Cache Bool) where
  unfoldable pub blacklist_jti : Option String → Option ℕ → ℕ → cache.State → cache.State
  unfolding blacklist_ttl
  blacklist_jti none exp now s = s
  blacklist_jti (some jti) exp now s =
      let ttl = blacklist_ttl exp now in
      if ltb 0 ttl then cache.set (blacklist_key jti) true (ttl * 1000000) now s else s

  unfoldable pub blacklist_payload : Option Payload → ℕ → cache.State → cache.State
  unfolding blacklist_jti
  blacklist_payload none now s = s
  blacklist_payload (some p) now s = blacklist_jti (non_empty p.jti) p.exp now s

  unfoldable pub blacklist_token : String → ℕ → cache.State → cache.State
  unfolding blacklist_payload decode_jwt_token
  blacklist_token token now s = blacklist_payload (decode_jwt_token jwt token false now) now s

  abbrev pub cached_flag : Option Bool → Bool
  cached_flag none = false
  cached_flag (some b) = b

  unfoldable pub is_token_blacklisted : String → ℕ → cache.State → Bool
  is_token_blacklisted jti now s = cached_flag (cache.get (blacklist_key jti) now s)

  -- `jti and is_token_blacklisted(jti)`
  unfoldable pub is_revoked : Option String → ℕ → cache.State → Bool
  unfolding is_token_blacklisted
  is_revoked none now s = false
  is_revoked (some jti) now s = is_token_blacklisted jti now s

  abbrev pub has_type : TokenType → Payload → Bool
  has_type t p = elim p.token_type [ none ↦ false | some v ↦ v == type_value t ]

  -- `users id` is `User.objects.get(id=id)`, `none` where there is no such user.
  module _ {User : Type 0} (users : ℕ → Option User) where
    unfoldable pub user_of_payload : TokenType → Option Payload → ℕ → cache.State → Option User
    user_of_payload t none now s = none
    user_of_payload t (some p) now s =
        if has_type t p
        then (if is_revoked (non_empty p.jti) now s
            then none
            else (elim p.user_id [ none ↦ none | some id ↦ users id ]))
        else none

    unfoldable pub get_user_from_token : String → TokenType → ℕ → cache.State → Option User
    unfolding user_of_payload decode_jwt_token is_revoked
    get_user_from_token token t now s =
        user_of_payload t (decode_jwt_token jwt token true now) now s

    -- `refresh_token` of api.py, from the decoded cookie: the new access and refresh tokens
    abbrev pub raise : {A : Type 0} → String → cache.State → Result Error A × cache.State
    raise m s = (err (authentication_error (codes m)), s)

    unfoldable pub rotate :
        String → ℕ → ℕ → cache.State → Result Error (String × String) × cache.State
    rotate cookie user_id now s = elim (jwt.access_of cookie now) [
      | none ↦ raise "Invalid refresh token" s
      | some token ↦ (ok (token, jwt.refresh_for_user user_id now), blacklist_token cookie now s)
    ]

    -- `if not user_id` refuses 0 too.
    unfoldable pub refresh_user :
        String → Option ℕ → ℕ → cache.State → Result Error (String × String) × cache.State
    unfolding rotate
    refresh_user cookie none now s = raise "Invalid refresh token" s
    refresh_user cookie (some zero) now s = raise "Invalid refresh token" s
    refresh_user cookie (some (suc n)) now s = elim (users (suc n)) [
      | none ↦ raise "User not found" s
      | some user ↦ rotate cookie (suc n) now s
    ]

    unfoldable pub refresh_payload :
        String → Option Payload → ℕ → cache.State → Result Error (String × String) × cache.State
    unfolding refresh_user
    refresh_payload cookie none now s = raise "Invalid or expired refresh token" s
    refresh_payload cookie (some p) now s =
        if has_type refresh p
        then (if is_revoked (non_empty p.jti) now s
            then raise "Token has been revoked" s
            else refresh_user cookie p.user_id now s)
        else raise "Invalid token type" s

    -- `cookie` is the refresh token of the request, if it has one
    unfoldable pub refresh_token :
        Option String → ℕ → cache.State → Result Error (String × String) × cache.State
    unfolding refresh_payload decode_jwt_token
    refresh_token cookie now s = elim (non_empty cookie) [
      | none ↦ raise "No refresh token provided" s
      | some token ↦ refresh_payload token (decode_jwt_token jwt token true now) now s
    ]

  abbrev pub blacklist_if_any : Option String → ℕ → cache.State → cache.State
  blacklist_if_any none now s = s
  blacklist_if_any (some token) now s = blacklist_token token now s

  -- `logout`, from the bearer token of the header, the cookie and the token of the request's body
  unfoldable pub logout :
      Option String → Option String → Option String → ℕ → cache.State → cache.State
  unfolding blacklist_token
  logout bearer cookie body now s =
      blacklist_if_any (non_empty body) now
        (blacklist_if_any (non_empty cookie) now (blacklist_if_any bearer now s))
