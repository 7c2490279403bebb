-- ===== src/Config/Production.antt =====
-- What the settings decide for the rest of the program.
use ai_chat_websocket.Prelude.{ℕ, ◌≡◌, ◌↔◌, refl, String, Bool, true, false, ◌∷◌, arith}
use ai_chat_websocket.Core.RateLimit.Connection.{is_fail_closed}
use ai_chat_websocket.Users.Endpoints.{
  CookieChange, set_cookie, delete_cookie, set_refresh_token_cookie,
}
use ai_chat_websocket.Config.{
  Settings, base, local, prod, allowed_hosts_origin_validator, websocket_application,
}

abbrev pub is_secure : CookieChange → Bool
is_secure (set_cookie cookie) = cookie.secure
is_secure (delete_cookie key path same_site) = true

-- Whatever the environment says, DEBUG included, production is not in debug mode: the refresh token is in a
-- cookie for HTTPS alone, the origin of every WebSocket connection is checked first, and without
-- Redis the limiter refuses. Only the last also holds of local development, whose cookie is not secure.
pub prod_hardened :
    (settings : Settings) (token : String)
    → ((prod settings).debug ≡ false)
      × (is_secure (set_refresh_token_cookie (prod settings).debug token) ≡ true)
      × (websocket_application (prod settings)
          ≡ allowed_hosts_origin_validator ∷ websocket_application (local settings))
      × (is_fail_closed (prod settings).ratelimit_fail_closed ≡ true)
      × (is_fail_closed (local settings).ratelimit_fail_closed ≡ true)
      × (is_secure (set_refresh_token_cookie (local settings).debug token) ≡ false)
unfolding prod local base websocket_application set_refresh_token_cookie
prod_hardened settings token = (refl, refl, refl, refl, refl, refl)

abbrev pub max_age_of : CookieChange → ℕ
max_age_of (set_cookie cookie) = cookie.max_age
max_age_of (delete_cookie key path same_site) = 0

-- The cookie of the refresh token lives as long as the token in it exactly where
-- JWT_REFRESH_TOKEN_EXPIRE_DAYS is 7, its default: with any other lifetime the browser keeps the cookie
-- for 7 days all the same.
pub cookie_lifetime :
    (settings : Settings) (debug : Bool) (token : String)
    → (max_age_of (set_refresh_token_cookie debug token) ≡ (prod settings).refresh_token_lifetime)
      ↔ (settings.jwt_refresh_token_expire_days ≡ 7)
unfolding prod base set_refresh_token_cookie
cookie_lifetime settings debug token = (λ h. omega (arith, h), λ h. omega (arith, h))
