-- ===== src/Chat/Awaits/Tests.antt =====
-- The theorems on the login with its awaits at concrete inputs.
use ai_chat_websocket.Prelude.{◌≡◌, refl, codes, Text, List, true, some, [], ◌∷◌, ◌++◌}
use ai_chat_websocket.Chat.Protocol.{
  Value, get, text_value, chat_error, auth_timed_out, auth_success,
}
use ai_chat_websocket.Chat.Conversations.{get_conversation}
use ai_chat_websocket.Chat.Consumer.Tests.{overloaded, talk, waiting}
use ai_chat_websocket.Chat.Awaits.Race.{overtaken, login_after_timeout}

abbrev login : List (Text × Value)
login = (codes "token", text_value (codes "t")) ∷ []

login_after_timeout_example :
    let after = (overtaken overloaded login waiting).1 in
    (after.is_authenticated ≡ true)
    × (after.heartbeat_task ≡ true)
    × (after.closed ≡ [] ++ 4001 ∷ [])
    × (after.sent
        ≡ ([] ++ chat_error (codes "Authentication timeout") auth_timed_out ∷ [])
          ++ auth_success 5 ∷ [])
unfolding get get_conversation
login_after_timeout_example =
    login_after_timeout overloaded login (λ token. some 1) 1 5 talk waiting refl refl refl refl refl
      refl refl
