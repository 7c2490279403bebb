-- ===== src/Users/Endpoints.antt =====
-- The endpoints of backend/apps/users/api.py with the cookie of the refresh token. `debug` is
-- settings.DEBUG; the counts of the throttles are the framework's.
pub mod Session
mod Tests
use ai_chat_websocket.Prelude.{
  ℕ, ◌*◌, ◌≡◌, ◌≢◌, ◌+◌, ◌≤◌, refl, String, Text, codes, Bool, true, false, not, Option, none, some,
  List, [], ◌∷◌, Result, ok, err, ◌==◌, string_eq, ◌&&◌,
}
use ai_chat_websocket.Platform.Cache.{Cache}
use ai_chat_websocket.Platform.Jwt.{Jwt, Payload}
use ai_chat_websocket.Core.Errors.{Error, authentication_error}
use ai_chat_websocket.Users.Tokens.{refresh, has_type, blacklist_token, refresh_token, logout}

-- The arguments of `set_cookie`.
pub record Cookie : Type 0 where
  pub key : String
  pub value : String
  pub max_age : ℕ
  pub http_only : Bool
  pub secure : Bool
  pub same_site : String
  pub path : String

-- What a response tells the browser to do with its cookies.
pub data CookieChange : Type 0 where
  set_cookie : Cookie → CookieChange
  delete_cookie : (key path same_site : String) → CookieChange

abbrev pub refresh_token_cookie_name : String
refresh_token_cookie_name = "refresh_token"

abbrev pub refresh_token_cookie_path : String
refresh_token_cookie_path = "/api/auth/"

abbrev pub refresh_token_max_age : ℕ
refresh_token_max_age = 7 * 24 * 60 * 60

unfoldable pub set_refresh_token_cookie : Bool → String → CookieChange
set_refresh_token_cookie debug token = set_cookie (record {
  key = refresh_token_cookie_name;
  value = token;
  max_age = refresh_token_max_age;
  http_only = true;
  secure = not debug;
  same_site = "Lax";
  path = refresh_token_cookie_path;
})

unfoldable pub clear_refresh_token_cookie : CookieChange
clear_refresh_token_cookie = delete_cookie refresh_token_cookie_name refresh_token_cookie_path "Lax"

module _ (debug : Bool) where
  -- `check` is Django's `authenticate` of an email and a password, and `pair_for_user` the texts of
  -- `RefreshToken.for_user(user)` and of its access token at a time. The answer is the access token.
  unfoldable pub login :
      (Text → Text → Option ℕ)
      → (ℕ → ℕ → String × String)
      → Text
      → Text
      → ℕ
      → Result Error String × List CookieChange
  unfolding set_refresh_token_cookie
  login check pair_for_user email password now = elim (check email password) [
    | none ↦ (err (authentication_error (codes "Invalid email or password")), [])
    | some user_id ↦
        let (refresh_token_str, access_token) = pair_for_user user_id now in
        (ok access_token, set_refresh_token_cookie debug refresh_token_str ∷ [])
  ]

  -- the response of `refresh_token` from the two new tokens
  unfoldable pub answer_tokens :
      Result Error (String × String) → Result Error String × List CookieChange
  unfolding set_refresh_token_cookie
  answer_tokens (err e) = (err e, [])
  answer_tokens (ok (access_token, new_refresh_token)) =
      (ok access_token, set_refresh_token_cookie debug new_refresh_token ∷ [])

  module _ (jwt : Jwt) (cache : Cache Bool) where
    unfoldable pub refresh_token_api :
        {User : Type 0}
        → (ℕ → Option User)
        → Option String
        → ℕ
        → cache.State
        → (Result Error String × List CookieChange) × cache.State
    unfolding answer_tokens
    refresh_token_api users cookie now s =
        let (r, s') = refresh_token jwt cache users cookie now s in (answer_tokens r, s')

    unfoldable pub logout_api :
        Option String
        → Option String
        → Option String
        → ℕ
        → cache.State
        → (Text × List CookieChange) × cache.State
    unfolding clear_refresh_token_cookie
    logout_api bearer cookie body now s = (
      (codes "Successfully logged out", clear_refresh_token_cookie ∷ []),
      logout jwt cache bearer cookie body now s,
    )
