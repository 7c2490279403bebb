-- ===== src/Core/RateLimit/Outage.antt =====
-- The limiter while Redis is away, and when it is back.
use ai_chat_websocket.Prelude.{
  ℕ, ◌≡◌, refl, ap, ◌∙◌, String, Bool, true, false, Option, none, some, List, ◌==◌, string_eq, inl,
  inr, Bool-cases,
}
use ai_chat_websocket.Platform.Cache.{Cache}
use ai_chat_websocket.Platform.Redis.{Redis}
use ai_chat_websocket.Core.RateLimit.{
  Verdict, Limiter, or_fallback, fallback_rate_limit, check_ws_rate_limit,
}
use ai_chat_websocket.Core.RateLimit.Connection.{
  is_fail_closed, try_client, new_redis_client, get_redis_client, is_client,
  check_ws_rate_limit_from,
}

module _ {Client : Type 0} (from_url : String → Option Client) where
  -- No client that there is or that would be made answers.
  no_client :
      (ping : Client → Bool) (url : Option String) (kept : Option Client)
      → ((client : Client) → ping client ≡ false)
      → (get_redis_client from_url ping url kept).0 ≡ none
  unfolding get_redis_client new_redis_client
  no_client ping url kept down = by_kept kept
    where
      tried : (o : Option Client) → (try_client from_url ping o).0 ≡ none
      tried none = refl
      tried (some client) = rw (down client) refl

      fresh : (o : Option String) → (new_redis_client from_url ping o).0 ≡ none
      fresh none = refl
      fresh (some u) = elim (Bool-cases (u == "")) [
        | inl empty ↦ rw empty refl
        | inr given ↦ rw given (tried (from_url u))
      ]

      by_kept : (o : Option Client) → (get_redis_client from_url ping url o).0 ≡ none
      by_kept none = fresh url
      by_kept (some client) = rw (down client) (fresh url)

  -- A configured Redis that answers gives a client, whichever one was kept.
  a_client :
      (ping : Client → Bool) (url : String) (client : Client) (kept : Option Client)
      → (url == "") ≡ false
      → from_url url ≡ some client
      → ping client ≡ true
      → is_client (get_redis_client from_url ping (some url) kept).0 ≡ true
  unfolding get_redis_client new_redis_client
  a_client ping url client none given made up = rw (given, made, up) refl
  a_client ping url client (some old) given made up = elim (Bool-cases (ping old)) [
    | inl answers ↦ rw answers refl
    | inr silent ↦ rw (silent, given, made, up) refl
  ]

module _ {Client : Type 0} (from_url : String → Option Client) (redis : Redis)
    (show_time : ℕ → String) (cache : Cache (List ℕ)) where
  refused_unconnected :
      (fail_closed : Bool) (identifier action : String) (max_requests window_seconds now : ℕ)
      (l : Limiter redis show_time cache fail_closed)
      → fail_closed ≡ true
      → check_ws_rate_limit redis show_time cache fail_closed false identifier action max_requests
          window_seconds now l
        ≡ ((false, 60), l)
  unfolding check_ws_rate_limit or_fallback fallback_rate_limit
  refused_unconnected true identifier action max_requests window_seconds now l h = refl
  refused_unconnected false identifier action max_requests window_seconds now l h = cc h

  -- Where the limiter fails closed, as it does by default, and the settings have the URL of a Redis, an outage
  -- passes without a trace: while no client answers, a request is refused for 60 seconds and nothing is counted, and once Redis
  -- answers again the next request is decided by Redis as if the outage had not been, whatever client
  -- was kept before.
  pub outage-and_recovery :
      (down up : Client → Bool) (fail_closed : Option Bool) (url : String) (client : Client)
      (kept : Option Client) (identifier action : String)
      (max_requests window_seconds now later : ℕ)
      (l : Limiter redis show_time cache (is_fail_closed fail_closed))
      → ((other : Client) → down other ≡ false)
      → (url == "") ≡ false
      → from_url url ≡ some client
      → up client ≡ true
      → is_fail_closed fail_closed ≡ true
      → let during =
          check_ws_rate_limit_from from_url down redis show_time cache fail_closed
            (some url)
            kept
            identifier
            action
            max_requests
            window_seconds
            now
            l in
        (during.0.0 ≡ (false, 60))
        × ((check_ws_rate_limit_from from_url up redis show_time cache fail_closed
              (some url)
              during.1
              identifier
              action
              max_requests
              window_seconds
              later
              during.0.1).0
            ≡ check_ws_rate_limit redis show_time cache
                (is_fail_closed fail_closed)
                true
                identifier
                action
                max_requests
                window_seconds
                later
                l)
  unfolding check_ws_rate_limit_from
  outage-and_recovery down up fail_closed url client kept identifier action max_requests
        window_seconds now later l silent given made answers closed =
      let kept' = (get_redis_client from_url down (some url) kept).1 in
      let check : Bool
          → ℕ
          → Limiter redis show_time cache (is_fail_closed fail_closed)
          → Verdict × Limiter redis show_time cache (is_fail_closed fail_closed) =
        check_of (is_fail_closed fail_closed) identifier action max_requests window_seconds in
      let refused : check (is_client (get_redis_client from_url down (some url) kept).0) now l
          ≡ ((false, 60), l) =
        ap (λ (o : Option Client). check (is_client o) now l)
          (no_client from_url down (some url) kept silent)
        ∙ refused_unconnected (is_fail_closed fail_closed) identifier action max_requests
            window_seconds now l closed in
      (
        ap (λ r. r.0) refused,
        ap (λ r. check (is_client (get_redis_client from_url up (some url) kept').0) later r.1)
              refused
            ∙ ap (λ b. check b later l) (a_client from_url up url client kept' given made answers),
      )
    where
      check_of :
          (fc : Bool)
          → String
          → String
          → ℕ
          → ℕ
          → Bool
          → ℕ
          → Limiter redis show_time cache fc
          → Verdict × Limiter redis show_time cache fc
      check_of fc identifier action max_requests window_seconds connected now l =
          check_ws_rate_limit redis show_time cache fc connected identifier action max_requests
            window_seconds now l
