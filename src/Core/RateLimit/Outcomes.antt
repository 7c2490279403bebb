-- ===== src/Core/RateLimit/Outcomes.antt =====
-- `check_ws_rate_limit`: which limiter answers.
use ai_chat_websocket.Prelude.{
  ℕ, ◌≡◌, refl, Option, Bool, true, false, none, some, String, Bool-cases, List, ◌⊎◌, inl, inr,
}
use ai_chat_websocket.Platform.Cache.{Cache}
use ai_chat_websocket.Platform.Redis.{Redis}
use ai_chat_websocket.Core.RateLimit.{
  Verdict, Limiter, or_fallback, rate_limit_key, redis_rate_limit, check_ws_rate_limit,
}

or_fallback-none :
    (redis : Redis) (show_time : ℕ → String) (cache : Cache (List ℕ))
    (p : Option Verdict × redis.State) (key : String) (max_requests window_seconds now : ℕ)
    (c : cache.State)
    → p.0 ≡ none
    → let (v, l) = or_fallback redis show_time cache true p key max_requests window_seconds now c in
      (v ≡ (false, 60)) × (l.cached ≡ c)
unfolding or_fallback
or_fallback-none redis show_time cache (some v, r) key max_requests window_seconds now c h = cc
or_fallback-none redis show_time cache (none, r) key max_requests window_seconds now c h =
    (refl, refl)

module _ (redis : Redis) (show_time : ℕ → String) (cache : Cache (List ℕ)) (connected : Bool)
    (identifier action : String) (max_requests window_seconds now : ℕ) where
  -- With RATELIMIT_FAIL_CLOSED, whenever there is no Redis client or Redis raises, the request is
  -- refused for 60 seconds and the Django cache is not touched.
  pub fail_closed_refuses :
      (l : Limiter redis show_time cache true)
      → (connected ≡ false)
        ⊎ ((redis_rate_limit redis show_time
              (rate_limit_key identifier action)
              max_requests
              window_seconds
              now
              identifier
              l.sorted_sets).0
            ≡ none)
      → let (v, l') =
          check_ws_rate_limit redis show_time cache true connected identifier action max_requests
            window_seconds now l in
        (v ≡ (false, 60)) × (l'.cached ≡ l.cached)
  unfolding check_ws_rate_limit
  fail_closed_refuses l (inl e) =
      or_fallback-none redis show_time cache _ (rate_limit_key identifier action) max_requests
        window_seconds now l.cached (rw e)
  fail_closed_refuses l (inr e) = elim (Bool-cases connected) [
    | inl up ↦
        or_fallback-none redis show_time cache _ (rate_limit_key identifier action) max_requests
          window_seconds now l.cached (rw up e)
    | inr down ↦
        or_fallback-none redis show_time cache _ (rate_limit_key identifier action) max_requests
          window_seconds now l.cached (rw down)
  ]
