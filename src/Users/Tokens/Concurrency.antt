-- ===== src/Users/Tokens/Concurrency.antt =====
-- Two calls of `refresh_token` of backend/apps/users/api.py with the same cookie at the same time: each
-- reads the blacklist before the other writes to it.
use ai_chat_websocket.Prelude.{
  ℕ, zero, suc, ◌≡◌, refl, ap, ◌∙◌, String, codes, Option, none, some, Result, ok, err,
  if◌then◌else◌, Bool, true, Bool-cases, Option-cases, inl, inr,
}
use ai_chat_websocket.Platform.Cache.{Cache}
use ai_chat_websocket.Platform.Jwt.{Jwt, Payload}
use ai_chat_websocket.Core.Errors.{Error, authentication_error}
use ai_chat_websocket.Users.Tokens.{
  refresh, decode_jwt_token, non_empty, is_revoked, has_type, rotate, refresh_user, refresh_payload,
  refresh_token,
}

module _ (jwt : Jwt) (cache : Cache Bool) {User : Type 0} (users : ℕ → Option User) where
  -- `refresh_token` up to the test of the blacklist: the cookie and the user's id of its payload
  unfoldable pub check_payload :
      String → Option Payload → ℕ → cache.State → Result Error (String × Option ℕ)
  check_payload cookie none now s =
      err (authentication_error (codes "Invalid or expired refresh token"))
  check_payload cookie (some p) now s =
      if has_type jwt cache refresh p
      then (if is_revoked jwt cache (non_empty p.jti) now s
          then err (authentication_error (codes "Token has been revoked"))
          else ok (cookie, p.user_id))
      else err (authentication_error (codes "Invalid token type"))

  unfoldable pub check_refresh : Option String → ℕ → cache.State → Result Error (String × Option ℕ)
  unfolding check_payload
  check_refresh cookie now s = elim (non_empty cookie) [
    | none ↦ err (authentication_error (codes "No refresh token provided"))
    | some token ↦ check_payload token (decode_jwt_token jwt token true now) now s
  ]

  -- the rest of it, on the blacklist as it is by then
  unfoldable pub finish_refresh :
      Result Error (String × Option ℕ)
      → ℕ
      → cache.State
      → Result Error (String × String) × cache.State
  finish_refresh (err e) now s = (err e, s)
  finish_refresh (ok (cookie, user_id)) now s = refresh_user jwt cache users cookie user_id now s

  payload-parts :
      (cookie : String) (o : Option Payload) (now : ℕ) (s : cache.State)
      → finish_refresh (check_payload cookie o now s) now s
        ≡ refresh_payload jwt cache users cookie o now s
  unfolding check_payload finish_refresh refresh_payload
  payload-parts cookie none now s = refl
  payload-parts cookie (some p) now s = elim (Bool-cases (has_type jwt cache refresh p)) [
    | inr other ↦ rw other refl
    | inl typed ↦ elim (Bool-cases (is_revoked jwt cache (non_empty p.jti) now s)) [
      | inl revoked ↦ rw (typed, revoked) refl
      | inr valid ↦ rw (typed, valid) refl
    ]
  ]

  -- One after the other, the two parts are `refresh_token`.
  finish-check :
      (cookie : Option String) (now : ℕ) (s : cache.State)
      → finish_refresh (check_refresh cookie now s) now s
        ≡ refresh_token jwt cache users cookie now s
  unfolding check_refresh refresh_token finish_refresh
  finish-check cookie now s = elim (Option-cases (non_empty cookie)) [
    | inl missing ↦ rw (check_refresh, refresh_token, missing) refl
    | inr (token, given) ↦
        rw (check_refresh, refresh_token, given)
          (payload-parts token (decode_jwt_token jwt token true now) now s)
  ]

  user-result :
      (cookie : String) (id : Option ℕ) (now : ℕ) (s s' : cache.State)
      → (refresh_user jwt cache users cookie id now s).0
        ≡ (refresh_user jwt cache users cookie id now s').0
  unfolding refresh_user rotate
  user-result cookie none now s s' = refl
  user-result cookie (some zero) now s s' = refl
  user-result cookie (some (suc n)) now s s' = elim (Option-cases (users (suc n))) [
    | inl unknown ↦ rw (refresh_user, unknown) refl
    | inr (user, known) ↦ elim (Option-cases (jwt.access_of cookie now)) [
      | inl none_made ↦ rw (refresh_user, known, rotate, none_made) refl
      | inr (token, made) ↦ rw (refresh_user, known, rotate, made) refl
    ]
  ]

  -- What the second part answers does not depend on the blacklist.
  finish-result :
      (checked : Result Error (String × Option ℕ)) (now : ℕ) (s s' : cache.State)
      → (finish_refresh checked now s).0 ≡ (finish_refresh checked now s').0
  unfolding finish_refresh
  finish-result (err e) now s s' = refl
  finish-result (ok (cookie, id)) now s s' = user-result cookie id now s s'

  -- The second of two concurrent refreshes: both are checked in `s`, then the first goes on, then the second.
  abbrev pub second_of_two :
      Option String → ℕ → ℕ → cache.State → Result Error (String × String) × cache.State
  second_of_two cookie now later s =
      let first = finish_refresh (check_refresh cookie now s) now s in
      finish_refresh (check_refresh cookie later s) later first.1

  -- A refresh token can be used twice at the same time: if each of two refreshes with it would be
  -- answered new tokens on its own, and both have passed the blacklist before one of them revokes the
  -- token, then both are answered new tokens.
  pub concurrent_refresh :
      (cookie : Option String) (now later : ℕ) (s : cache.State) (tokens tokens' : String × String)
      → (refresh_token jwt cache users cookie now s).0 ≡ ok tokens
      → (refresh_token jwt cache users cookie later s).0 ≡ ok tokens'
      → ((finish_refresh (check_refresh cookie now s) now s).0 ≡ ok tokens)
        × ((second_of_two cookie now later s).0 ≡ ok tokens')
  concurrent_refresh cookie now later s tokens tokens' one other =
      let first = finish_refresh (check_refresh cookie now s) now s in
      (
        ap (λ (r : Result Error (String × String) × cache.State). r.0) (finish-check cookie now s)
            ∙ one,
        finish-result (check_refresh cookie later s) later first.1 s
            ∙ ap (λ (r : Result Error (String × String) × cache.State). r.0)
                (finish-check cookie later s)
            ∙ other,
      )
