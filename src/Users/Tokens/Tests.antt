-- ===== src/Users/Tokens/Tests.antt =====
-- The theorems on revoked tokens at concrete inputs.
use ai_chat_websocket.Prelude.{
  ℕ, ◌≡◌, refl, String, Bool, Option, none, some, ◌==◌, string_eq, if◌then◌else◌, inl, arith,
}
use ai_chat_websocket.Platform.Cache.{timed, Entries}
use ai_chat_websocket.Platform.Jwt.{Jwt, Payload}
use ai_chat_websocket.Users.Tokens.{
  type_value, access, blacklist_ttl, blacklist_token, get_user_from_token,
}
use ai_chat_websocket.Users.Tokens.Revocation.{IsRevocable, revoked_rejected, revoked_gap}

abbrev claims : String → Payload
claims id = record { token_type = some "access"; jti = some id; user_id = some 7; exp = some 100 }

abbrev two_tokens : Jwt
two_tokens = record {
  signed_payload = λ token.
      if token == "a"
      then some (claims "x")
      else (if token == "b" then some (claims "y") else none);
  access_of = λ token now. none;
  refresh_for_user = λ id now. "";
}

abbrev no_entries : Entries Bool
no_entries key = none

abbrev only_seven : ℕ → Option String
only_seven id = some "ann"

a_IsRevocable : IsRevocable two_tokens "a" (claims "x") "x" 100
a_IsRevocable = record { signed = refl; has_jti = refl; has_exp = refl }

b_IsRevocable : IsRevocable two_tokens "b" (claims "y") "y" 100
b_IsRevocable = record { signed = refl; has_jti = refl; has_exp = refl }

revoked_rejected_example :
    get_user_from_token two_tokens
      (timed Bool)
      only_seven
      "a"
      access
      50000000
      (blacklist_token two_tokens (timed Bool) "a" 10500000 no_entries)
    ≡ none
revoked_rejected_example =
    revoked_rejected two_tokens (timed Bool) only_seven "a" access (claims "x") "x" 100 10500000
      50000000 no_entries a_IsRevocable (omega arith) (inl (omega arith))

revoked_gap_example :
    get_user_from_token two_tokens
      (timed Bool)
      only_seven
      "a"
      access
      99700000
      (blacklist_token two_tokens (timed Bool) "a" 10500000 no_entries)
    ≡ some "ann"
unfolding type_value blacklist_ttl
revoked_gap_example =
    revoked_gap two_tokens (timed Bool) only_seven "a" access (claims "x") "x" 100 10500000 99700000
      7 no_entries a_IsRevocable refl refl (λ at. refl) (omega arith) (omega arith)
