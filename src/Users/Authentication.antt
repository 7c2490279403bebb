-- ===== src/Users/Authentication.antt =====
-- `JWTAuth` of backend/apps/users/auth.py, which guards the endpoints.
use ai_chat_websocket.Prelude.{
  ℕ, ◌+◌, ◌*◌, ◌≤◌, ◌≡◌, String, Text, codes, Bool, true, false, Option, none, some, leb, Result,
  err, if◌then◌else◌, arith,
}
use ai_chat_websocket.Platform.Cache.{Cache}
use ai_chat_websocket.Platform.Jwt.{Jwt, Payload}
use ai_chat_websocket.Users.Tokens.{
  access, decode_jwt_token, non_empty, is_revoked, is_token_blacklisted, has_type, logout,
  blacklist_token,
}
use ai_chat_websocket.Users.Tokens.Revocation.{IsRevocable, revoked_until}

-- `base` is `authenticate` of ninja_jwt; an error is the message of AuthenticationFailed.
module _ (jwt : Jwt) (cache : Cache Bool) {User : Type 0}
    (base : String → ℕ → Result Text User) where
  unfoldable pub authenticate_payload : Option Payload → String → ℕ → cache.State → Result Text User
  authenticate_payload none token now s = base token now
  authenticate_payload (some p) token now s =
      if has_type jwt cache access p
      then (if is_revoked jwt cache (non_empty p.jti) now s
          then err (codes "Token has been revoked")
          else base token now)
      else err (codes "Invalid token type")

  unfoldable pub authenticate : String → ℕ → cache.State → Result Text User
  unfolding authenticate_payload decode_jwt_token
  authenticate token now s = authenticate_payload (decode_jwt_token jwt token true now) token now s

  listed_refused :
      (token : String) (p : Payload) (jti : String) (exp now : ℕ) (s : cache.State)
      → IsRevocable jwt token p jti exp
      → has_type jwt cache access p ≡ true
      → leb (exp * 1000000) now ≡ false
      → is_token_blacklisted jwt cache jti now s ≡ true
      → authenticate token now s ≡ err (codes "Token has been revoked")
  unfolding authenticate is_revoked
  listed_refused token p jti exp now s r typed current listed =
      rw (r.signed, r.has_exp, current, typed, r.has_jti, listed)

  -- After logging out with an access token its requests are refused as revoked, until the last second
  -- before it expires.
  logged_out_refused :
      (token : String) (p : Payload) (jti : String) (exp now t : ℕ) (s : cache.State)
      → IsRevocable jwt token p jti exp
      → has_type jwt cache access p ≡ true
      → now ≤ t
      → t + 1000000 ≤ exp * 1000000
      → authenticate token t (logout jwt cache (some token) none none now s)
        ≡ err (codes "Token has been revoked")
  unfolding logout
  logged_out_refused token p jti exp now t s r typed h le =
      let current : leb (exp * 1000000) t ≡ false = ground arith in
      listed_refused token p jti exp t (blacklist_token jwt cache token now s) r typed current
        (revoked_until jwt cache token p jti exp now t s r h le)
