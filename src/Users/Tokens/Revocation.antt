-- ===== src/Users/Tokens/Revocation.antt =====
-- Revoked tokens: from when, until when, and against which other calls a revocation holds.
use text.Mathlib.TextLemmas.{append_cancel_left}
use ai_chat_websocket.Prelude.{
  ℕ, ◌+◌, ◌-◌, ◌*◌, ◌/◌, ◌≤◌, ◌<◌, ◌≡◌, ◌≢◌, ◌⊎◌, inl, inr, refl, ap, ◌∙◌, sym, String, Bool, true,
  false, Option, none, some, ltb, leb, ◌==◌, string_eq, if◌then◌else◌, arith, Bool-cases,
  some-injective,
}
use ai_chat_websocket.Platform.Cache.{Cache}
use ai_chat_websocket.Platform.Jwt.{Jwt, Payload}
use ai_chat_websocket.Users.Tokens.{
  TokenType, decode_jwt_token, blacklist_key, blacklist_ttl, non_empty, blacklist_jti,
  blacklist_payload, blacklist_token, is_token_blacklisted, is_revoked, has_type, user_of_payload,
  get_user_from_token, logout,
}

-- The claims of a token that a revocation needs: it is signed, has an id and an expiry.
pub record IsRevocable (jwt : Jwt) (token : String) (p : Payload) (jti : String) (exp : ℕ)
    : Type 0 where
  pub signed : jwt.signed_payload token ≡ some p
  pub has_jti : non_empty p.jti ≡ some jti
  pub has_exp : p.exp ≡ some exp

pub not_empty : (s : String) → s ≢ "" → (s == "") ≡ false
not_empty s given = elim (Bool-cases (s == "")) [
  | inl empty ↦ absurd (given ((string_eq.equal_iff s "").0 empty))
  | inr nonempty ↦ nonempty
]

module _ (jwt : Jwt) (cache : Cache Bool) where
  blacklist_token-set :
      (token : String) (p : Payload) (jti : String) (exp now : ℕ) (s : cache.State)
      → IsRevocable jwt token p jti exp
      → blacklist_token jwt cache token now s ≡ (
          if ltb 0 (blacklist_ttl (some exp) now)
          then cache.set (blacklist_key jti) true (blacklist_ttl (some exp) now * 1000000) now s
          else s)
  unfolding blacklist_token blacklist_payload blacklist_jti decode_jwt_token
  blacklist_token-set token p jti exp now s r = rw (r.signed, r.has_jti, r.has_exp)

  -- A revocation holds from then on until the last second before the token expires.
  pub revoked_until :
      (token : String) (p : Payload) (jti : String) (exp now t : ℕ) (s : cache.State)
      → IsRevocable jwt token p jti exp
      → now ≤ t
      → t + 1000000 ≤ exp * 1000000
      → is_token_blacklisted jwt cache jti t (blacklist_token jwt cache token now s) ≡ true
  unfolding is_token_blacklisted blacklist_ttl
  revoked_until token p jti exp now t s r h le =
      let ttl = (exp * 1000000 - now) / 1000000 in
      let some_time : ltb 0 ttl ≡ true = ground arith in
      let e : blacklist_token jwt cache token now s
          ≡ cache.set (blacklist_key jti) true (ttl * 1000000) now s =
        blacklist_token-set token p jti exp now s r ∙ rw some_time in
      rw (e, cache.get-set_live (blacklist_key jti) true (ttl * 1000000) now t s h (omega arith))

  ended_unlisted :
      (token : String) (p : Payload) (jti : String) (exp now later : ℕ) (s : cache.State)
      → IsRevocable jwt token p jti exp
      → ((at : ℕ) → cache.get (blacklist_key jti) at s ≡ none)
      → now + blacklist_ttl (some exp) now * 1000000 ≤ later
      → is_token_blacklisted jwt cache jti later (blacklist_token jwt cache token now s) ≡ false
  unfolding is_token_blacklisted
  ended_unlisted token p jti exp now later s r fresh ended =
      let e = blacklist_token-set token p jti exp now s r in
      elim (Bool-cases (ltb 0 (blacklist_ttl (some exp) now))) [
        | inl some_time ↦ rw (
          e,
          some_time,
          cache.get-set_expired (blacklist_key jti) true (blacklist_ttl (some exp) now * 1000000)
              now later s ended,
        )
        | inr no_time ↦ rw (e, no_time, fresh later)
      ]

  -- Revoking a token with another id changes nothing for this one.
  blacklist_jti-ne :
      (j : Option String) (exp : Option ℕ) (jti : String) (now t : ℕ) (s : cache.State)
      → j ≢ some jti
      → is_token_blacklisted jwt cache jti t (blacklist_jti jwt cache j exp now s)
        ≡ is_token_blacklisted jwt cache jti t s
  unfolding blacklist_jti is_token_blacklisted
  blacklist_jti-ne none exp jti now t s ne = refl
  blacklist_jti-ne (some other) exp jti now t s ne =
      elim (Bool-cases (ltb 0 (blacklist_ttl exp now))) [
        | inl some_time ↦ rw (
          some_time,
          cache.get-set_ne (blacklist_key other) (blacklist_key jti) true
              (blacklist_ttl exp now * 1000000) now t s
              (λ e. ne (ap some (append_cancel_left "token_blacklist:" other jti e))),
        )
        | inr no_time ↦ rw no_time
      ]

  -- The id of a token, as far as it decodes.
  abbrev pub jti_of : Option Payload → Option String
  jti_of none = none
  jti_of (some p) = non_empty p.jti

  pub blacklist_token-ne :
      (token jti : String) (now t : ℕ) (s : cache.State)
      → jti_of (jwt.signed_payload token) ≢ some jti
      → is_token_blacklisted jwt cache jti t (blacklist_token jwt cache token now s)
        ≡ is_token_blacklisted jwt cache jti t s
  unfolding blacklist_token decode_jwt_token
  blacklist_token-ne token jti now t s ne = payload-ne (jwt.signed_payload token) ne
    where
      payload-ne :
          (o : Option Payload)
          → jti_of o ≢ some jti
          → is_token_blacklisted jwt cache jti t (blacklist_payload jwt cache o now s)
            ≡ is_token_blacklisted jwt cache jti t s
      payload-ne none h = refl
      payload-ne (some p) h = blacklist_jti-ne (non_empty p.jti) p.exp jti now t s h

  -- Logging out with a bearer token and a refresh cookie of different ids revokes both, until the
  -- last second before each expires.
  logout_revokes_both :
      (bearer cookie : String) (p q : Payload) (jti jti' : String) (exp exp' now t : ℕ)
      (s : cache.State)
      → IsRevocable jwt bearer p jti exp
      → IsRevocable jwt cookie q jti' exp'
      → cookie ≢ ""
      → jti ≢ jti'
      → now ≤ t
      → t + 1000000 ≤ exp * 1000000
      → t + 1000000 ≤ exp' * 1000000
      → let s' = logout jwt cache (some bearer) (some cookie) none now s in
        (is_token_blacklisted jwt cache jti t s' ≡ true)
        × (is_token_blacklisted jwt cache jti' t s' ≡ true)
  unfolding logout
  logout_revokes_both bearer cookie p q jti jti' exp exp' now t s r r' given ne h le le' =
      let there = not_empty cookie given in
      let other_id : jti_of (jwt.signed_payload cookie) ≢ some jti =
        λ e. ne (some-injective jti jti' (sym e ∙ ap jti_of r'.signed ∙ r'.has_jti)) in
      rw there (
        blacklist_token-ne cookie jti now t (blacklist_token jwt cache bearer now s) other_id
            ∙ revoked_until bearer p jti exp now t s r h le,
        revoked_until cookie q jti' exp' now t (blacklist_token jwt cache bearer now s) r' h le',
      )

  module _ {User : Type 0} (users : ℕ → Option User) where
    expired_rejected :
        (token : String) (t : TokenType) (p : Payload) (jti : String) (exp now : ℕ)
        (s : cache.State)
        → IsRevocable jwt token p jti exp
        → exp * 1000000 ≤ now
        → get_user_from_token jwt cache users token t now s ≡ none
    unfolding get_user_from_token user_of_payload decode_jwt_token
    expired_rejected token t p jti exp now s r h =
        let over : leb (exp * 1000000) now ≡ true = ground arith in rw (r.signed, r.has_exp, over)

    listed_rejected :
        (token : String) (t : TokenType) (p : Payload) (jti : String) (exp now : ℕ)
        (s : cache.State)
        → IsRevocable jwt token p jti exp
        → is_token_blacklisted jwt cache jti now s ≡ true
        → get_user_from_token jwt cache users token t now s ≡ none
    unfolding get_user_from_token user_of_payload decode_jwt_token is_revoked
    listed_rejected token t p jti exp now s r h = elim (Bool-cases (leb (exp * 1000000) now)) [
      | inl over ↦ rw (r.signed, r.has_exp, over)
      | inr current ↦ elim (Bool-cases (has_type jwt cache t p)) [
        | inl typed ↦ rw (r.signed, r.has_exp, current, typed, r.has_jti, h)
        | inr other ↦ rw (r.signed, r.has_exp, current, other)
      ]
    ]

    -- A token that is signed and has an id and an expiry gives no user from its revocation on,
    -- except perhaps in the last second before it expires.
    pub revoked_rejected :
        (token : String) (t : TokenType) (p : Payload) (jti : String) (exp now later : ℕ)
        (s : cache.State)
        → IsRevocable jwt token p jti exp
        → now ≤ later
        → (later + 1000000 ≤ exp * 1000000) ⊎ (exp * 1000000 ≤ later)
        → get_user_from_token jwt cache users token t later (blacklist_token jwt cache token now s)
          ≡ none
    revoked_rejected token t p jti exp now later s r h (inl before) =
        listed_rejected token t p jti exp later (blacklist_token jwt cache token now s) r
          (revoked_until token p jti exp now later s r h before)
    revoked_rejected token t p jti exp now later s r h (inr over) =
        expired_rejected token t p jti exp later (blacklist_token jwt cache token now s) r over

    -- Once its blacklist entry has ended, which is up to a second before the token does since the
    -- timeout is rounded down to whole seconds, a revoked token of the right type gives its user
    -- again, if nothing else has listed its id.
    pub revoked_gap :
        (token : String) (t : TokenType) (p : Payload) (jti : String) (exp now later id : ℕ)
        (s : cache.State)
        → IsRevocable jwt token p jti exp
        → has_type jwt cache t p ≡ true
        → p.user_id ≡ some id
        → ((at : ℕ) → cache.get (blacklist_key jti) at s ≡ none)
        → now + blacklist_ttl (some exp) now * 1000000 ≤ later
        → later < exp * 1000000
        → get_user_from_token jwt cache users token t later (blacklist_token jwt cache token now s)
          ≡ users id
    unfolding get_user_from_token user_of_payload decode_jwt_token is_revoked
    revoked_gap token t p jti exp now later id s r typed owner fresh ended current =
        let valid : leb (exp * 1000000) later ≡ false = ground arith in
        rw (
          r.signed,
          r.has_exp,
          valid,
          typed,
          r.has_jti,
          ended_unlisted token p jti exp now later s r fresh ended,
          owner,
        )
