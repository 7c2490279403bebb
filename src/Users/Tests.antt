-- ===== src/Users/Tests.antt =====
-- Registration and the guard of the endpoints at concrete inputs.
use ai_chat_websocket.Prelude.{
  ℕ, ◌≡◌, refl, String, Text, codes, Bool, none, some, Result, ok, ◌==◌, string_eq, if◌then◌else◌,
  leb, ◌&&◌,
}
use ai_chat_websocket.Platform.Cache.{Entries}
use ai_chat_websocket.Platform.Jwt.{Jwt, Payload}
use ai_chat_websocket.Users.Registration.{User, validate_password_complexity}

accepted_password :
    validate_password_complexity (λ c. leb b'0' c && leb c b'9') (codes "Correct-Horse-7") ≡ none
unfolding validate_password_complexity
accepted_password = refl

abbrev ann : User
ann = record { email = codes "ann@x.org"; username = codes "ann"; password = codes "h" }

abbrev access_claims : Payload
access_claims = record {
  token_type = some "access";
  jti = some "x";
  user_id = some 7;
  exp = some 100;
}

abbrev one_token : Jwt
one_token = record {
  signed_payload = λ token. if token == "a" then some access_claims else none;
  access_of = λ token now. none;
  refresh_for_user = λ id now. "";
}

abbrev nothing_listed : Entries Bool
nothing_listed key = none

abbrev always_seven : String → ℕ → Result Text ℕ
always_seven token now = ok 7
