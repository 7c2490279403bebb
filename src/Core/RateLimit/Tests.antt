-- ===== src/Core/RateLimit/Tests.antt =====
-- Runs of the limiter, and its theorems at concrete requests.
use ai_chat_websocket.Prelude.{
  ℕ, ◌≤◌, ◌≡◌, refl, Bool, true, false, none, some, List, [], ◌∷◌, arith, Option, length, String,
  ◌==◌, nat_eq, if◌then◌else◌, ◌*◌, ◌+◌,
}
use ai_chat_websocket.Platform.Cache.{timed, Entries}
use ai_chat_websocket.Platform.LocalRedis.{local_redis, no_sets}
use ai_chat_websocket.Core.RateLimit.Connection.{check_ws_rate_limit_from}
use ai_chat_websocket.Core.RateLimit.Outage.{outage-and_recovery}
use ai_chat_websocket.Core.RateLimit.{
  Limiter, check_ws_rate_limit, second, Verdict, fallback_rate_limit, redis_rate_limit, decide,
  live,
}
use ai_chat_websocket.Core.RateLimit.Window.{count_in_window}
use ai_chat_websocket.Core.RateLimit.Sliding.{
  Tracks, admitted, admitted-le-max, empty-Tracks, fallback-Tracks,
}
use ai_chat_websocket.Core.RateLimit.Retry.{attempt, retry_after_suffices}
use ai_chat_websocket.Core.RateLimit.Agreement.{scores, redis-eq-decide}
use ai_chat_websocket.Core.RateLimit.Specification.{allowed, admitted-eq-allowed}
use ai_chat_websocket.Core.RateLimit.Concurrency.{
  all_admitted, counted_together, concurrent_overshoot,
}

abbrev cold : Entries (List ℕ)
cold k = none

-- seconds 1000, 1010, 1020 and 1061, at most two in a minute
abbrev requests : List ℕ
requests = 1000000000 ∷ 1010000000 ∷ 1020000000 ∷ 1061000000 ∷ []

third_is_refused :
    (admitted (timed (List ℕ)) "k" 2 60 requests [] cold).0
    ≡ 1000000000 ∷ 1010000000 ∷ 1061000000 ∷ []
unfolding admitted fallback_rate_limit
third_is_refused = refl

admitted-le-max_example :
    count_in_window (60 * second) 1061000000 (admitted (timed (List ℕ)) "k" 2 60 requests [] cold).0
    ≤ 2
admitted-le-max_example =
    admitted-le-max (timed (List ℕ)) "k" 2 60 requests cold 1061000000 (omega arith) (λ now. refl)

abbrev after_one : Entries (List ℕ)
after_one = (timed (List ℕ)).set "k" (1000000000 ∷ []) (120 * second) 1000000000 cold

after_one-Tracks : Tracks (timed (List ℕ)) "k" 1 60 1000000000 (1000000000 ∷ []) after_one
unfolding fallback_rate_limit
after_one-Tracks =
    fallback-Tracks (timed (List ℕ)) "k" 1 60 0 1000000000 [] cold
      (empty-Tracks (timed (List ℕ)) "k" 1 60 cold (λ now. refl)) (omega arith)

abbrev second_attempt : Bool × ℕ
second_attempt = attempt (timed (List ℕ)) "k" 1 60 1010500000 after_one

second_attempt_waits : second_attempt ≡ (false, 50)
unfolding fallback_rate_limit
second_attempt_waits = refl

retry_after_suffices_example :
    (1 ≤ second_attempt.1)
    × (second_attempt.1 ≤ 61)
    × ((attempt (timed (List ℕ)) "k" 1 60 (1010500000 + second_attempt.1 * second) after_one).0
        ≡ true)
retry_after_suffices_example =
    retry_after_suffices (timed (List ℕ)) "k" 1 60 1000000000 1010500000 (1000000000 ∷ []) after_one
      (omega arith) after_one-Tracks (omega arith) (unfold fallback_rate_limit in refl)

redis-eq-decide_example :
    (true, 0)
    ≡ (decide
        (timed (List ℕ))
        (live (60 * second) 1000000000 (scores []))
        "k"
        2
        60
        1000000000
        cold).0
redis-eq-decide_example =
    redis-eq-decide local_redis (λ t. "t") (timed (List ℕ)) 2 60 1000000000 "k" "u" no_sets cold
      (true, 0) (omega arith) (unfold redis_rate_limit in refl)

admitted-eq-allowed_example :
    (admitted (timed (List ℕ)) "k" 2 60 requests [] cold).0 ≡ allowed 2 (60 * second) requests []
admitted-eq-allowed_example =
    admitted-eq-allowed (timed (List ℕ)) "k" 2 60 requests cold (omega arith) (λ now. refl)

-- Three requests of one client within a second where one is allowed in a minute.
abbrev burst : List ℕ
burst = 1000000 ∷ 1000001 ∷ 1000002 ∷ []

abbrev show_burst : ℕ → String
show_burst now = if now == 1000000 then "1" else (if now == 1000001 then "2" else "3")

abbrev after_burst : List (Option Verdict) × local_redis.State
after_burst = counted_together local_redis show_burst "k" "u" 1 60 burst 0 no_sets

concurrent_overshoot_example :
    (after_burst.0 ≡ all_admitted burst)
    × (length (local_redis.entries "k" after_burst.1)
        ≡ length (local_redis.entries "k" no_sets) + length burst)
concurrent_overshoot_example =
    concurrent_overshoot local_redis show_burst "k" "u" 1 60 burst 0 no_sets
      (λ m score ttl r. (_, refl)) (omega arith)
      ((refl, (refl, (refl, tt)), (refl, (refl, tt), (refl, tt, tt))))

-- one client, for whatever URL
abbrev only_client : String → Option (Unit {0})
only_client url = some tt

abbrev empty_limiter : Limiter local_redis (λ now. "t") (timed (List ℕ)) true
empty_limiter = record { sorted_sets = no_sets; cached = cold }

outage-and_recovery_example :
    let during =
      check_ws_rate_limit_from only_client
        (λ c. false)
        local_redis
        (λ now. "t")
        (timed (List ℕ))
        none
        (some "redis://localhost")
        (some tt)
        "u"
        "message"
        20
        60
        1000000000
        empty_limiter in
    (during.0.0 ≡ (false, 60))
    × ((check_ws_rate_limit_from only_client
          (λ c. true)
          local_redis
          (λ now. "t")
          (timed (List ℕ))
          none
          (some "redis://localhost")
          during.1
          "u"
          "message"
          20
          60
          1001000000
          during.0.1).0
        ≡ check_ws_rate_limit local_redis
            (λ now. "t")
            (timed (List ℕ))
            true
            true
            "u"
            "message"
            20
            60
            1001000000
            empty_limiter)
outage-and_recovery_example =
    outage-and_recovery only_client local_redis (λ now. "t") (timed (List ℕ)) (λ c. false)
      (λ c. true) none "redis://localhost" tt (some tt) "u" "message" 20 60 1000000000 1001000000
      empty_limiter (λ c. refl) refl refl refl refl
