-- ===== src/Core/RateLimit/Specification.antt =====
-- The limiter of ratelimit.py against what it promises: a log of the admitted requests and a count.
use ai_chat_websocket.Prelude.{
  ℕ, ◌*◌, ◌≤◌, ◌≡◌, refl, ap, ◌∙◌, sym, false, none, List, [], ◌∷◌, ◌++◌, arith, ltb, leb, length,
  if◌then◌else◌, Bool-cases, inl, inr, String,
}
use ai_chat_websocket.Platform.Cache.{Cache}
use ai_chat_websocket.Platform.Redis.{IsSorted}
use ai_chat_websocket.Core.RateLimit.{second, live, stored, decide, fallback_rate_limit}
use ai_chat_websocket.Core.RateLimit.Window.{count_in_window, UpTo-mono, count_in_window-eq-live}
use ai_chat_websocket.Core.RateLimit.Sliding.{
  admitted, Tracks, fallback-Tracks, empty-Tracks, from_zero,
}

-- A limiter that remembers every admitted request: the next one is admitted if fewer than `max_requests`
-- lie in the window that ends with it.
unfoldable pub allowed : ℕ → ℕ → List ℕ → List ℕ → List ℕ
allowed max_requests window [] log = log
allowed max_requests window (now ∷ times) log =
    allowed max_requests window times
      (if ltb (count_in_window window now log) max_requests then log ++ now ∷ [] else log)

module _ (cache : Cache (List ℕ)) (key : String) (max_requests window_seconds : ℕ) where
  verdict-Tracks :
      (last now : ℕ) (log : List ℕ) (s : cache.State)
      → Tracks cache key max_requests window_seconds last log s
      → last ≤ now
      → (fallback_rate_limit cache false key max_requests window_seconds now s).0.0
        ≡ ltb (count_in_window (window_seconds * second) now log) max_requests
  unfolding fallback_rate_limit decide
  verdict-Tracks last now log s tr h =
      let window = window_seconds * second in
      let same : length (live window now (stored (cache.get key now s)))
          ≡ count_in_window window now log =
        ap length (tr.agrees now h)
        ∙ sym (count_in_window-eq-live window now log (UpTo-mono window last now log h tr.past)) in
      elim (Bool-cases
        (leb max_requests (length (live window now (stored (cache.get key now s)))))) [
          | inl full ↦ rw full (ground (arith, same))
          | inr room ↦ rw room (ground (arith, same))
        ]

  admitted-allowed :
      (last : ℕ) (times log : List ℕ) (s : cache.State)
      → Tracks cache key max_requests window_seconds last log s
      → IsSorted (last ∷ times)
      → (admitted cache key max_requests window_seconds times log s).0
        ≡ allowed max_requests (window_seconds * second) times log
  unfolding admitted allowed
  admitted-allowed last [] log s tr h = refl
  admitted-allowed last (now ∷ times) log s tr h =
      admitted-allowed now times _ _
        (fallback-Tracks cache key max_requests window_seconds last now log s tr h.0) h.1
      ∙ ap
          (λ b.
            allowed max_requests (window_seconds * second) times
              (if b then log ++ now ∷ [] else log))
          (verdict-Tracks last now log s tr h.0)

  -- Where `RATELIMIT_FAIL_CLOSED` is off (by default it is on, and the fallback refuses every request): for requests
  -- with one key in ascending order of time, from a cache that holds nothing for the key, the fallback
  -- admits exactly the requests that a limiter with a complete log admits, although its cache drops old
  -- times and whole entries.
  pub admitted-eq-allowed :
      (times : List ℕ) (s : cache.State)
      → IsSorted times
      → ((now : ℕ) → cache.get key now s ≡ none)
      → (admitted cache key max_requests window_seconds times [] s).0
        ≡ allowed max_requests (window_seconds * second) times []
  admitted-eq-allowed times s h empty =
      admitted-allowed 0 times [] s (empty-Tracks cache key max_requests window_seconds s empty)
        (from_zero times h)
