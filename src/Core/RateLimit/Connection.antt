-- ===== src/Core/RateLimit/Connection.antt =====
-- The connection to Redis of backend/apps/core/ratelimit.py, which the limiter keeps between its calls, and the
-- settings that it reads.
use ai_chat_websocket.Prelude.{
  ℕ, String, Bool, true, false, Option, none, some, List, ◌==◌, string_eq, if◌then◌else◌,
}
use ai_chat_websocket.Platform.Cache.{Cache}
use ai_chat_websocket.Platform.Redis.{Redis}
use ai_chat_websocket.Core.RateLimit.{Verdict, Limiter, check_ws_rate_limit}

-- `getattr(settings, "RATELIMIT_FAIL_CLOSED", True)`
abbrev pub is_fail_closed : Option Bool → Bool
is_fail_closed none = true
is_fail_closed (some b) = b

-- `location` is that of the default cache, and `redis_url` the setting REDIS_URL, if they are there.
unfoldable pub get_redis_url : Option String → Option String → Option String
get_redis_url none redis_url = redis_url
get_redis_url (some location) redis_url = if location == "" then redis_url else some location

abbrev pub is_client : {Client : Type 0} → Option Client → Bool
is_client none = false
is_client (some client) = true

-- `ping` says whether a client answers at the moment, and `from_url` is `redis.from_url`, `none` where
-- it raises. The state is `_redis_client`.
module _ {Client : Type 0} (from_url : String → Option Client) (ping : Client → Bool) where
  abbrev pub try_client : Option Client → Option Client × Option Client
  try_client none = (none, none)
  try_client (some client) = if ping client then (some client, some client) else (none, some client)

  -- from the second `if` on, where `_redis_client` is None
  unfoldable pub new_redis_client : Option String → Option Client × Option Client
  new_redis_client none = (none, none)
  new_redis_client (some url) = if url == "" then (none, none) else try_client (from_url url)

  unfoldable pub get_redis_client : Option String → Option Client → Option Client × Option Client
  unfolding new_redis_client
  get_redis_client url none = new_redis_client url
  get_redis_client url (some client) =
      let fresh = new_redis_client url in if ping client then (some client, some client) else fresh

  -- `check_ws_rate_limit` with the connection it looks up first
  module _ (redis : Redis) (show_time : ℕ → String) (cache : Cache (List ℕ))
      (fail_closed : Option Bool) where
    unfoldable pub check_ws_rate_limit_from :
        Option String
        → Option Client
        → String
        → String
        → ℕ
        → ℕ
        → ℕ
        → Limiter redis show_time cache (is_fail_closed fail_closed)
        → (Verdict × Limiter redis show_time cache (is_fail_closed fail_closed)) × Option Client
    unfolding get_redis_client check_ws_rate_limit
    check_ws_rate_limit_from url kept identifier action max_requests window_seconds now l =
        let (client, kept') = get_redis_client url kept in
        (
          check_ws_rate_limit redis show_time cache (is_fail_closed fail_closed) (is_client client)
              identifier action max_requests window_seconds now l,
          kept',
        )
