-- ===== src/Core/RateLimit.antt =====
-- backend/apps/core/ratelimit.py: the sliding-window limit on WebSocket messages. Times are in
-- microseconds of the Unix clock, so `int(seconds)` is a division by `second`. Where the waiting time of a refusal
-- would be negative it is cut off at 0, and the outer `max` gives 1 as in the source.
pub mod Window
pub mod Sliding
pub mod Specification
pub mod Concurrency
pub mod Retry
pub mod Agreement
pub mod Outcomes
pub mod Connection
pub mod Outage
mod Tests
use Prim.Native.String.{◌++◌ as str_append}
use ai_chat_websocket.Prelude.{
  ℕ, ◌+◌, ◌-◌, ◌*◌, ◌/◌, max, String, Bool, true, false, Option, none, some, List, [], ◌∷◌, ◌++◌,
  length, filter, ltb, leb, if◌then◌else◌,
}
use ai_chat_websocket.Platform.Cache.{Cache}
use ai_chat_websocket.Platform.Redis.{Redis}

abbrev pub second : ℕ
second = 1000000

-- (is_allowed, retry_after in seconds)
abbrev pub Verdict : Type 0
Verdict = Bool × ℕ

pub rate_limit_key : String → String → String
rate_limit_key identifier action =
    str_append "ws_ratelimit:" (str_append action (str_append ":" identifier))

-- `[ts for ts in timestamps if ts > now - window_seconds]`: the difference may be negative, so the window is on the other
-- side
abbrev pub live : ℕ → ℕ → List ℕ → List ℕ
live window now = filter (λ ts. ltb now (ts + window))

-- `min(timestamps) if timestamps else now`
unfoldable pub oldest_or : ℕ → List ℕ → ℕ
oldest_or now [] = now
oldest_or now (t ∷ []) = t
oldest_or now (t ∷ u ∷ ts) = let m = oldest_or now (u ∷ ts) in if ltb m t then m else t

-- `max(int(oldest + window_seconds - now) + 1, 1)`
unfoldable pub retry_after : ℕ → ℕ → ℕ → ℕ
retry_after oldest window now = max ((oldest + window - now) / second + 1) 1

abbrev pub stored : Option (List ℕ) → List ℕ
stored none = []
stored (some ts) = ts

module _ (cache : Cache (List ℕ)) where
  -- the body of `with _fallback_lock`, on the timestamps that are still in the window
  unfoldable pub decide : List ℕ → String → ℕ → ℕ → ℕ → cache.State → Verdict × cache.State
  unfolding oldest_or retry_after
  decide timestamps key max_requests window_seconds now s =
      if leb max_requests (length timestamps)
      then ((false, retry_after (oldest_or now timestamps) (window_seconds * second) now), s)
      else (
        (true, 0),
        cache.set key (timestamps ++ now ∷ []) ((window_seconds + 60) * second) now s,
      )

module _ (cache : Cache (List ℕ)) (fail_closed : Bool) where
  unfoldable pub fallback_rate_limit : String → ℕ → ℕ → ℕ → cache.State → Verdict × cache.State
  unfolding decide
  fallback_rate_limit key max_requests window_seconds now s =
      if fail_closed
      then ((false, 60), s)
      else decide cache (live (window_seconds * second) now (stored (cache.get key now s))) key
          max_requests window_seconds now s

-- A refusal on the Redis path, from the answer of `zrange(zset_key, 0, 0, withscores=True)`.
unfoldable pub refuse : List (String × ℕ) → ℕ → ℕ → Verdict
unfolding retry_after
refuse [] window now = (false, 1)
refuse ((member, oldest) ∷ _) window now = (false, retry_after oldest window now)

module _ (redis : Redis) (show_time : ℕ → String) where
  answer_refusal : Option (List (String × ℕ)) → ℕ → ℕ → Option Verdict
  unfolding refuse
  answer_refusal none window now = none
  answer_refusal (some l) window now = some (refuse l window now)

  answer_add : Option redis.State → redis.State → Option Verdict × redis.State
  answer_add none s = (none, s)
  answer_add (some t) s = (some (true, 0), t)

  -- what follows the first pipeline, given its answer
  after_count :
      Option (ℕ × redis.State)
      → String
      → ℕ
      → ℕ
      → ℕ
      → String
      → redis.State
      → Option Verdict × redis.State
  unfolding answer_refusal answer_add
  after_count none zset_key max_requests window_seconds now identifier s = (none, s)
  after_count (some (current_count, t)) zset_key max_requests window_seconds now identifier s =
      if leb max_requests current_count
      then (answer_refusal (redis.oldest zset_key t) (window_seconds * second) now, t)
      else answer_add
          (redis.add zset_key (str_append (show_time now) (str_append ":" identifier)) now
            ((window_seconds + 60) * second) t)
          t

  -- `none` is an exception of the Redis client
  unfoldable pub redis_rate_limit :
      String → ℕ → ℕ → ℕ → String → redis.State → Option Verdict × redis.State
  unfolding after_count
  redis_rate_limit key max_requests window_seconds now identifier s =
      let zset_key = str_append key ":zset" in
      after_count (redis.prune_and_count zset_key now (window_seconds * second) s) zset_key
        max_requests window_seconds now identifier s

module _ (redis : Redis) (show_time : ℕ → String) (cache : Cache (List ℕ))
    (fail_closed : Bool) where
  pub record Limiter : Type 0 where
    pub sorted_sets : redis.State
    pub cached : cache.State

  -- `except Exception`: the fallback answers, and what Redis has done stays done
  or_fallback : Option Verdict × redis.State → String → ℕ → ℕ → ℕ → cache.State → Verdict × Limiter
  unfolding fallback_rate_limit
  or_fallback (some v, r) key max_requests window_seconds now c =
      (v, record { sorted_sets = r; cached = c })
  or_fallback (none, r) key max_requests window_seconds now c =
      let (v, c') = fallback_rate_limit cache fail_closed key max_requests window_seconds now c in
      (v, record { sorted_sets = r; cached = c' })

  -- `connected` says whether `_get_redis_client` has a client to give
  unfoldable pub check_ws_rate_limit :
      Bool → String → String → ℕ → ℕ → ℕ → Limiter → Verdict × Limiter
  unfolding or_fallback redis_rate_limit rate_limit_key
  check_ws_rate_limit connected identifier action max_requests window_seconds now l =
      let key = rate_limit_key identifier action in
      or_fallback
        (if connected
          then redis_rate_limit redis show_time key max_requests window_seconds now identifier
              l.sorted_sets
          else (none, l.sorted_sets))
        key max_requests window_seconds now l.cached
