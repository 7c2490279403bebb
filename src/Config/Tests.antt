-- ===== src/Config/Tests.antt =====
-- The settings of an environment with the required variables alone.
use ai_chat_websocket.Prelude.{◌≡◌, refl, codes, [], ◌∷◌}
use ai_chat_websocket.Chat.Protocol.{strip}
use ai_chat_websocket.Config.{with_defaults, parse_comma_separated, get_allowed_hosts}

default_hosts :
    get_allowed_hosts (with_defaults "s" "redis://r" "j")
    ≡ codes "localhost" ∷ codes "127.0.0.1" ∷ []
unfolding get_allowed_hosts strip
default_hosts = refl

-- Empty pieces and spaces are dropped.
untidy_hosts : parse_comma_separated (codes " a ,, b,") ≡ codes "a" ∷ codes "b" ∷ []
unfolding parse_comma_separated strip
untidy_hosts = refl
