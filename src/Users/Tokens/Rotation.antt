-- ===== src/Users/Tokens/Rotation.antt =====
-- The rotation of refresh tokens: `refresh_token` of backend/apps/users/api.py.
use ai_chat_websocket.Prelude.{
  ℕ, zero, suc, ◌+◌, ◌*◌, ◌≤◌, ◌≡◌, ◌≢◌, refl, ap, sym, ◌∙◌, String, codes, Bool, true, false,
  Option, none, some, some-injective, leb, Result, ok, err, arith, string_eq, Bool-cases,
  Option-cases, inl, inr,
}
use ai_chat_websocket.Platform.Cache.{Cache}
use ai_chat_websocket.Platform.Jwt.{Jwt, Payload}
use ai_chat_websocket.Core.Errors.{Error, authentication_error}
use ai_chat_websocket.Users.Tokens.{
  refresh, decode_jwt_token, non_empty, is_revoked, is_token_blacklisted, has_type, blacklist_token,
  rotate, refresh_user, refresh_payload, refresh_token,
}
use ai_chat_websocket.Users.Tokens.Revocation.{IsRevocable, not_empty, revoked_until}

module _ (jwt : Jwt) (cache : Cache Bool) {User : Type 0} (users : ℕ → Option User) where
  -- what a refresh has done, when it answers tokens and when it raises
  abbrev Rotated :
      String
      → Option Payload
      → ℕ
      → cache.State
      → Result Error (String × String) × cache.State
      → Type 0
  Rotated cookie o now s (ok tokens, s') =
      (s' ≡ blacklist_token jwt cache cookie now s)
      × ((p : Payload) → o ≡ some p → has_type jwt cache refresh p ≡ true)
  Rotated cookie o now s (err e, s') = s' ≡ s

  rotate-Rotated :
      (cookie : String) (id now : ℕ) (s : cache.State) (o : Option Payload)
      → ((p : Payload) → o ≡ some p → has_type jwt cache refresh p ≡ true)
      → Rotated cookie o now s (rotate jwt cache users cookie id now s)
  unfolding rotate
  rotate-Rotated cookie id now s o typed = elim (Option-cases (jwt.access_of cookie now)) [
    | inl none_made ↦ rw (rotate, none_made) refl
    | inr (token, made) ↦ rw (rotate, made) (refl, typed)
  ]

  user-Rotated :
      (cookie : String) (id : Option ℕ) (now : ℕ) (s : cache.State) (o : Option Payload)
      → ((p : Payload) → o ≡ some p → has_type jwt cache refresh p ≡ true)
      → Rotated cookie o now s (refresh_user jwt cache users cookie id now s)
  unfolding refresh_user
  user-Rotated cookie none now s o typed = refl
  user-Rotated cookie (some zero) now s o typed = refl
  user-Rotated cookie (some (suc n)) now s o typed = elim (Option-cases (users (suc n))) [
    | inl unknown ↦ rw (refresh_user, unknown) refl
    | inr (user, known) ↦ rw (refresh_user, known) (rotate-Rotated cookie (suc n) now s o typed)
  ]

  payload-Rotated :
      (cookie : String) (o : Option Payload) (now : ℕ) (s : cache.State)
      → Rotated cookie o now s (refresh_payload jwt cache users cookie o now s)
  unfolding refresh_payload
  payload-Rotated cookie none now s = refl
  payload-Rotated cookie (some p) now s = elim (Bool-cases (has_type jwt cache refresh p)) [
    | inr other ↦ rw other refl
    | inl typed ↦ elim (Bool-cases (is_revoked jwt cache (non_empty p.jti) now s)) [
      | inl revoked ↦ rw (typed, revoked) refl
      | inr valid ↦
          let same = λ (q : Payload) (e : some p ≡ some q).
            ap (has_type jwt cache refresh) (sym (some-injective p q e)) ∙ typed in
          rw (typed, valid) (user-Rotated cookie p.user_id now s (some p) same)
    ]
  ]

  answered :
      (cookie : String) (o : Option Payload) (now : ℕ) (s : cache.State)
      (r : Result Error (String × String) × cache.State) (tokens : String × String)
      → Rotated cookie o now s r
      → r.0 ≡ ok tokens
      → Rotated cookie o now s (ok tokens, r.1)
  answered cookie o now s (ok made, s') tokens h e = h
  answered cookie o now s (err e', s') tokens h e = cc e

  decoded_until :
      (cookie : String) (p : Payload) (jti : String) (exp now : ℕ)
      → IsRevocable jwt cookie p jti exp
      → now + 1000000 ≤ exp * 1000000
      → decode_jwt_token jwt cookie true now ≡ some p
  unfolding decode_jwt_token
  decoded_until cookie p jti exp now r le =
      let current : leb (exp * 1000000) now ≡ false = ground arith in
      rw (r.signed, r.has_exp, current)

  pub refresh_token-payload :
      (cookie : String) (p : Payload) (jti : String) (exp now : ℕ) (s : cache.State)
      → IsRevocable jwt cookie p jti exp
      → cookie ≢ ""
      → now + 1000000 ≤ exp * 1000000
      → refresh_token jwt cache users (some cookie) now s
        ≡ refresh_payload jwt cache users cookie (some p) now s
  unfolding refresh_token
  refresh_token-payload cookie p jti exp now s r given le =
      rw (refresh_token, not_empty cookie given)
        (ap (λ o. refresh_payload jwt cache users cookie o now s)
          (decoded_until cookie p jti exp now r le))

  pub replayed :
      (cookie : String) (p : Payload) (jti : String) (exp now t : ℕ) (s after : cache.State)
      → IsRevocable jwt cookie p jti exp
      → has_type jwt cache refresh p ≡ true
      → after ≡ blacklist_token jwt cache cookie now s
      → now ≤ t
      → t + 1000000 ≤ exp * 1000000
      → refresh_payload jwt cache users cookie (some p) t after
        ≡ (err (authentication_error (codes "Token has been revoked")), after)
  unfolding refresh_payload is_revoked
  replayed cookie p jti exp now t s after r typed e h le =
      let listed : is_token_blacklisted jwt cache jti t after ≡ true =
        ap (is_token_blacklisted jwt cache jti t) e
        ∙ revoked_until jwt cache cookie p jti exp now t s r h le in
      rw (typed, r.has_jti, listed)

  -- A refresh token is accepted once: after a refresh that answers new tokens, the same refresh token is
  -- refused as revoked and changes nothing, until the last second before it expires.
  pub refresh_once :
      (cookie : String) (p : Payload) (jti : String) (exp now t : ℕ) (s : cache.State)
      (tokens : String × String)
      → IsRevocable jwt cookie p jti exp
      → cookie ≢ ""
      → now ≤ t
      → t + 1000000 ≤ exp * 1000000
      → (refresh_token jwt cache users (some cookie) now s).0 ≡ ok tokens
      → let after = (refresh_token jwt cache users (some cookie) now s).1 in
        refresh_token jwt cache users (some cookie) t after
        ≡ (err (authentication_error (codes "Token has been revoked")), after)
  refresh_once cookie p jti exp now t s tokens r given h le done =
      let first = refresh_token-payload cookie p jti exp now s r given (omega arith) in
      let (revoked, typed) =
        answered cookie (some p) now s (refresh_payload jwt cache users cookie (some p) now s)
          tokens (payload-Rotated cookie (some p) now s) (sym (ap (λ x. x.0) first) ∙ done) in
      let after = (refresh_token jwt cache users (some cookie) now s).1 in
      refresh_token-payload cookie p jti exp t after r given le
      ∙ replayed cookie p jti exp now t s after r (typed p refl) (ap (λ x. x.1) first ∙ revoked) h
          le
