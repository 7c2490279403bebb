-- ===== src/Core/RateLimit/Retry.antt =====
-- The waiting time that a refusal announces (ratelimit.py).
use ai_chat_websocket.Prelude.{
  ℕ, ◌+◌, ◌*◌, ◌≤◌, ◌<◌, ◌≡◌, ap, ◌∙◌, Bool, true, false, List, [], ◌∷◌, arith, leb, length, String,
}
use ai_chat_websocket.Platform.Cache.{Cache}
use ai_chat_websocket.Core.RateLimit.{
  second, live, stored, oldest_or, retry_after, fallback_rate_limit,
}
use ai_chat_websocket.Core.RateLimit.Window.{
  UpTo, UpTo-mono, UpTo-live, oldest_or-le, count_in_window-eq-live, live-live, live_drops,
}
use ai_chat_websocket.Core.RateLimit.Sliding.{Tracks}

-- Long enough for the oldest request to leave the window, and at most a second more.
retry_after_bounds :
    (oldest now window_seconds : ℕ)
    → oldest ≤ now
    → (1 ≤ retry_after oldest (window_seconds * second) now)
      × (retry_after oldest (window_seconds * second) now ≤ window_seconds + 1)
      × (oldest + window_seconds * second
          ≤ now + retry_after oldest (window_seconds * second) now * second)
unfolding retry_after
retry_after_bounds oldest now window_seconds h = omega arith

live_after_wait :
    (window now t max_requests : ℕ) (xs : List ℕ)
    → oldest_or now xs + window ≤ t
    → 0 < max_requests
    → length xs ≤ max_requests
    → length (live window t xs) < max_requests
live_after_wait window now t max_requests [] h pos few = omega arith
live_after_wait window now t max_requests (x ∷ xs) h pos few =
    ground (arith, live_drops window now t x xs h)

module _ (cache : Cache (List ℕ)) (key : String) (max_requests window_seconds : ℕ) where
  abbrev pub attempt : ℕ → cache.State → Bool × ℕ
  attempt now s = (fallback_rate_limit cache false key max_requests window_seconds now s).0

  refusal_retry :
      (now : ℕ) (s : cache.State)
      → (attempt now s).0 ≡ false
      → let ts = live (window_seconds * second) now (stored (cache.get key now s)) in
        (leb max_requests (length ts) ≡ true)
        × ((attempt now s).1 ≡ retry_after (oldest_or now ts) (window_seconds * second) now)
  unfolding fallback_rate_limit
  refusal_retry now s h = ground arith

  admits :
      (now : ℕ) (s : cache.State)
      → length (live (window_seconds * second) now (stored (cache.get key now s))) < max_requests
      → (attempt now s).0 ≡ true
  unfolding fallback_rate_limit
  admits now s h = ground arith

  -- The same, read off the log of admitted requests.
  refusal_logged :
      (last now : ℕ) (log : List ℕ) (s : cache.State)
      → Tracks cache key max_requests window_seconds last log s
      → last ≤ now
      → (attempt now s).0 ≡ false
      → let ts = live (window_seconds * second) now log in
        (length ts ≤ max_requests)
        × ((attempt now s).1 ≡ retry_after (oldest_or now ts) (window_seconds * second) now)
        × (oldest_or now ts ≤ now)
  refusal_logged last now log s tr h refused =
      let past : UpTo now log = UpTo-mono (window_seconds * second) last now log h tr.past in
      (
        omega
            (arith, tr.bounded now, count_in_window-eq-live (window_seconds * second) now log past),
        (refusal_retry now s refused).1
            ∙ ap (λ ts. retry_after (oldest_or now ts) (window_seconds * second) now)
                (tr.agrees now h),
        oldest_or-le (window_seconds * second) now (live (window_seconds * second) now log)
            (UpTo-live (window_seconds * second) now now log past),
      )

  admits_after :
      (last now t : ℕ) (log : List ℕ) (s : cache.State)
      → 0 < max_requests
      → Tracks cache key max_requests window_seconds last log s
      → last ≤ now
      → now ≤ t
      → length (live (window_seconds * second) now log) ≤ max_requests
      → oldest_or now (live (window_seconds * second) now log) + window_seconds * second ≤ t
      → (attempt t s).0 ≡ true
  admits_after last now t log s pos tr h le few over = admits t s (
      rw (tr.agrees t (omega arith), ← live-live (window_seconds * second) now t log le)
        (live_after_wait (window_seconds * second) now t max_requests
          (live (window_seconds * second) now log) over pos few))

  -- Where `RATELIMIT_FAIL_CLOSED` is off (by default it is on, and the fallback tells every request to wait 60
  -- seconds): a request that the fallback refuses is told to wait between 1 and `window_seconds` + 1 seconds,
  -- and a request made after exactly that wait is admitted, if none was made in between and the limit is not
  -- 0.
  pub retry_after_suffices :
      (last now : ℕ) (log : List ℕ) (s : cache.State)
      → 0 < max_requests
      → Tracks cache key max_requests window_seconds last log s
      → last ≤ now
      → (attempt now s).0 ≡ false
      → (1 ≤ (attempt now s).1)
        × ((attempt now s).1 ≤ window_seconds + 1)
        × ((attempt (now + (attempt now s).1 * second) s).0 ≡ true)
  retry_after_suffices last now log s pos tr h refused =
      let (few, e, old) = refusal_logged last now log s tr h refused in
      let ts = live (window_seconds * second) now log in
      let (low, high, wait) = retry_after_bounds (oldest_or now ts) now window_seconds old in
      rw e (low, high, admits_after last now _ log s pos tr h (omega arith) few wait)
