-- ===== src/Users/Endpoints/Tests.antt =====
-- Login, refresh and logout at concrete tokens.
use ai_chat_websocket.Prelude.{
  ℕ, ◌≡◌, refl, String, codes, Bool, false, Option, none, some, [], ok, err, ◌==◌, string_eq,
  if◌then◌else◌, arith, text_eq,
}
use ai_chat_websocket.Platform.Cache.{timed, Entries}
use ai_chat_websocket.Platform.Jwt.{Jwt, Payload}
use ai_chat_websocket.Core.Errors.{authentication_error}
use ai_chat_websocket.Users.Tokens.{type_value, is_revoked, refresh_token}
use ai_chat_websocket.Users.Tokens.Revocation.{IsRevocable}
use ai_chat_websocket.Users.Tokens.Rotation.{refresh_once}
use ai_chat_websocket.Users.Tokens.Concurrency.{
  check_refresh, finish_refresh, second_of_two, concurrent_refresh,
}
use ai_chat_websocket.Users.Endpoints.{login, refresh_token_api, logout_api}
use ai_chat_websocket.Users.Endpoints.Session.{browse, keeps, logout-ends}

abbrev claims : Payload
claims = record { token_type = some "refresh"; jti = some "x"; user_id = some 7; exp = some 100 }

-- The token "r" is the refresh token of user 7.
abbrev one_token : Jwt
one_token = record {
  signed_payload = λ token. if token == "r" then some claims else none;
  access_of = λ token now. some "a";
  refresh_for_user = λ id now. "r2";
}

abbrev no_entries : Entries Bool
no_entries key = none

abbrev only_seven : ℕ → Option String
only_seven id = some "ann"

r_IsRevocable : IsRevocable one_token "r" claims "x" 100
r_IsRevocable = record { signed = refl; has_jti = refl; has_exp = refl }

login_keeps :
    keeps
      (login false (λ e p. some 7) (λ id now. ("r", "a")) (codes "ann@x.org") (codes "pw") 0).1
      none
    ≡ some "r"
unfolding browse login
login_keeps = refl

login_refused :
    login false (λ e p. none) (λ id now. ("r", "a")) (codes "ann@x.org") (codes "pw") 0
    ≡ (err (authentication_error (codes "Invalid email or password")), [])
unfolding login
login_refused = refl

refresh_once_example :
    let after =
      (refresh_token one_token (timed Bool) only_seven (some "r") 10500000 no_entries).1 in
    refresh_token one_token (timed Bool) only_seven (some "r") 50000000 after
    ≡ (err (authentication_error (codes "Token has been revoked")), after)
unfolding refresh_token type_value is_revoked
refresh_once_example =
    refresh_once one_token (timed Bool) only_seven "r" claims "x" 100 10500000 50000000 no_entries
      ("a", "r2") r_IsRevocable (λ e. cc e) (omega arith) (omega arith) refl

logout-ends_example :
    let response =
      logout_api false one_token (timed Bool) (some "b") (some "r") none 10500000 no_entries in
    let after = response.1 in
    (keeps response.0.1 (some "r") ≡ none)
    × (refresh_token_api false one_token (timed Bool) only_seven none 50000000 after
        ≡ ((err (authentication_error (codes "No refresh token provided")), []), after))
    × (refresh_token_api false one_token (timed Bool) only_seven (some "r") 50000000 after
        ≡ ((err (authentication_error (codes "Token has been revoked")), []), after))
unfolding type_value
logout-ends_example =
    logout-ends false one_token (timed Bool) only_seven "b" "r" claims "x" 100 10500000 50000000
      no_entries r_IsRevocable refl (λ e. cc e) (omega arith) (omega arith)

concurrent_refresh_example :
    let first =
      finish_refresh one_token
        (timed Bool)
        only_seven
        (check_refresh one_token (timed Bool) only_seven (some "r") 10500000 no_entries)
        10500000
        no_entries in
    (first.0 ≡ ok ("a", "r2"))
    × ((second_of_two one_token (timed Bool) only_seven (some "r") 10500000 10600000 no_entries).0
        ≡ ok ("a", "r2"))
unfolding refresh_token type_value is_revoked
concurrent_refresh_example =
    concurrent_refresh one_token (timed Bool) only_seven (some "r") 10500000 10600000 no_entries
      ("a", "r2") ("a", "r2") refl refl
