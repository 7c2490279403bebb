-- ===== src/Chat/Middleware/Tests.antt =====
-- A revoked token at the WebSocket, at concrete inputs.
use ai_chat_websocket.Prelude.{
  ℕ, ◌≡◌, refl, String, Text, codes, Bool, true, false, Option, none, some, [], ◌∷◌, List, inl,
  arith, ◌==◌, string_eq, if◌then◌else◌,
}
use ai_chat_websocket.Platform.Cache.{timed, Entries}
use ai_chat_websocket.Platform.Jwt.{Jwt, Payload}
use ai_chat_websocket.Platform.LocalRedis.{no_sets}
use ai_chat_websocket.Users.Tokens.{blacklist_token}
use ai_chat_websocket.Users.Tokens.Revocation.{IsRevocable}
use ai_chat_websocket.Chat.Protocol.{Value, text_value, get, auth_failed}
use ai_chat_websocket.Chat.Session.{Backend, Session, fail_auth, handle_auth}
use ai_chat_websocket.Chat.Consumer.Tests.{overloaded, talk}
use ai_chat_websocket.Chat.Middleware.{Scope, with_auth_helper}
use ai_chat_websocket.Chat.Middleware.Revoked.{revoked-handle_auth}

abbrev claims : Payload
claims = record { token_type = some "access"; jti = some "x"; user_id = some 7; exp = some 100 }

abbrev one_token : Jwt
one_token = record {
  signed_payload = λ token. if token == "a" then some claims else none;
  access_of = λ token now. none;
  refresh_for_user = λ id now. "";
}

abbrev no_entries : Entries Bool
no_entries key = none

abbrev only_seven : ℕ → Option ℕ
only_seven id = some 7

-- every text as the token "a"
abbrev always_a : Text → String
always_a t = "a"

abbrev no_scope : Scope ℕ
no_scope = record { user = none; auth_helper = none }

-- The backend behind the middleware at second 50, after the token was revoked in second 10.
abbrev guarded : Backend
guarded = record overloaded {
  auth_helper =
      (with_auth_helper one_token (timed Bool) always_a only_seven 50000000
        (blacklist_token one_token (timed Bool) "a" 10500000 no_entries) no_scope).auth_helper;
}

abbrev waiting : Session guarded
waiting = record {
  conversation_id = some 5;
  conversation = none;
  user = none;
  is_authenticated = false;
  locked = false;
  auth_timeout_task = true;
  heartbeat_task = false;
  summary_task = none;
  orphaned = [];
  accepted = true;
  sent = [];
  closed = [];
  conversations = λ id. some talk;
  messages = [];
  limits = record { sorted_sets = no_sets; cached = λ k. none };
}

a_IsRevocable : IsRevocable one_token "a" claims "x" 100
a_IsRevocable = record { signed = refl; has_jti = refl; has_exp = refl }

abbrev with_token : List (Text × Value)
with_token = (codes "token", text_value (codes "a")) ∷ []

revoked-handle_auth_example :
    handle_auth guarded with_token waiting
    ≡ fail_auth guarded (codes "Invalid or expired token") auth_failed 4001 waiting
unfolding get
revoked-handle_auth_example =
    revoked-handle_auth guarded one_token (timed Bool) always_a only_seven (codes "a") claims "x"
      100 10500000 50000000 no_entries no_scope with_token waiting a_IsRevocable (omega arith)
      (inl (omega arith)) refl refl refl refl
