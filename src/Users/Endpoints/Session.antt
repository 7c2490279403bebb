-- ===== src/Users/Endpoints/Session.antt =====
-- A browser with the cookie of the refresh token.
use ai_chat_websocket.Prelude.{
  ℕ, ◌*◌, ◌≡◌, ◌≢◌, ◌+◌, ◌≤◌, refl, ap, String, codes, Bool, true, Option, none, some, List, [],
  ◌∷◌, Result, err, ◌==◌, string_eq, ◌&&◌, if◌then◌else◌, ◌∙◌,
}
use ai_chat_websocket.Platform.Cache.{Cache}
use ai_chat_websocket.Platform.Jwt.{Jwt, Payload}
use ai_chat_websocket.Core.Errors.{Error, authentication_error}
use ai_chat_websocket.Users.Tokens.{refresh, has_type, blacklist_token, refresh_token, logout}
use ai_chat_websocket.Users.Tokens.Revocation.{IsRevocable, not_empty}
use ai_chat_websocket.Users.Tokens.Rotation.{replayed, refresh_token-payload}
use ai_chat_websocket.Users.Endpoints.{
  CookieChange, set_cookie, delete_cookie, refresh_token_cookie_name, refresh_token_cookie_path,
  answer_tokens, refresh_token_api, logout_api,
}

-- What a browser keeps under a key and a path: a cookie is replaced, or removed, by a change with the same
-- key and the same path.
unfoldable pub browse : String → String → List CookieChange → Option String → Option String
browse key path [] kept = kept
browse key path (set_cookie c ∷ changes) kept =
    browse key path changes (if c.key == key && c.path == path then some c.value else kept)
browse key path (delete_cookie k p same_site ∷ changes) kept =
    browse key path changes (if k == key && p == path then none else kept)

abbrev pub keeps : List CookieChange → Option String → Option String
keeps = browse refresh_token_cookie_name refresh_token_cookie_path

module _ (debug : Bool) (jwt : Jwt) (cache : Cache Bool) {User : Type 0}
    (users : ℕ → Option User) where
  logout-cookie :
      (bearer cookie : String) (now : ℕ) (s : cache.State)
      → cookie ≢ ""
      → logout jwt cache (some bearer) (some cookie) none now s
        ≡ blacklist_token jwt cache cookie now (blacklist_token jwt cache bearer now s)
  unfolding logout
  logout-cookie bearer cookie now s given = rw (logout, not_empty cookie given)

  copy_refused :
      (bearer cookie : String) (p : Payload) (jti : String) (exp now t : ℕ) (s : cache.State)
      → IsRevocable jwt cookie p jti exp
      → has_type jwt cache refresh p ≡ true
      → cookie ≢ ""
      → now ≤ t
      → t + 1000000 ≤ exp * 1000000
      → let after = logout jwt cache (some bearer) (some cookie) none now s in
        refresh_token_api debug jwt cache users (some cookie) t after
        ≡ ((err (authentication_error (codes "Token has been revoked")), []), after)
  unfolding refresh_token_api answer_tokens
  copy_refused bearer cookie p jti exp now t s r typed given h le =
      let after = logout jwt cache (some bearer) (some cookie) none now s in
      ap (λ (x : Result Error (String × String) × cache.State). (answer_tokens debug x.0, x.1))
        (refresh_token-payload jwt cache users cookie p jti exp t after r given le
          ∙ replayed jwt cache users cookie p jti exp now t (blacklist_token jwt cache bearer now s)
              after r typed (logout-cookie bearer cookie now s given) h le)

  -- Logging out ends the session of a browser: it drops its refresh token, without one a refresh is
  -- refused, and whoever has kept a copy is refused too, as revoked, until the last second before the
  -- token expires.
  pub logout-ends :
      (bearer cookie : String) (p : Payload) (jti : String) (exp now t : ℕ) (s : cache.State)
      → IsRevocable jwt cookie p jti exp
      → has_type jwt cache refresh p ≡ true
      → cookie ≢ ""
      → now ≤ t
      → t + 1000000 ≤ exp * 1000000
      → let response = logout_api debug jwt cache (some bearer) (some cookie) none now s in
        let after = response.1 in
        (keeps response.0.1 (some cookie) ≡ none)
        × (refresh_token_api debug jwt cache users none t after
            ≡ ((err (authentication_error (codes "No refresh token provided")), []), after))
        × (refresh_token_api debug jwt cache users (some cookie) t after
            ≡ ((err (authentication_error (codes "Token has been revoked")), []), after))
  unfolding logout_api refresh_token_api browse refresh_token
  logout-ends bearer cookie p jti exp now t s r typed given h le =
      (refl, refl, copy_refused bearer cookie p jti exp now t s r typed given h le)
