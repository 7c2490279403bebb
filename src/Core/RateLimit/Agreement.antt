-- ===== src/Core/RateLimit/Agreement.antt =====
-- `_redis_rate_limit` against `_fallback_rate_limit`: two implementations of one decision.
use Prim.Native.String.{◌++◌ as str_append}
use mathlib.Core.Option.{some-injective}
use ai_chat_websocket.Prelude.{
  ℕ, ◌+◌, ◌*◌, ◌<◌, ◌≡◌, refl, ap, ◌∙◌, sym, true, false, Option, none, some, List, [], ◌∷◌, arith,
  ltb, leb, length, map, take, filter-map, length-map, String, Bool-cases, Option-cases, inl, inr,
}
use ai_chat_websocket.Platform.Cache.{Cache}
use ai_chat_websocket.Platform.Redis.{Redis, IsSorted}
use ai_chat_websocket.Core.RateLimit.{
  Verdict, second, live, oldest_or, retry_after, refuse, decide, after_count, answer_refusal,
  answer_add, redis_rate_limit,
}

-- the time stamps of the members of a sorted set
abbrev pub scores : List (String × ℕ) → List ℕ
scores = map (λ e. e.1)

oldest_or-sorted : (now x : ℕ) (xs : List ℕ) → IsSorted (x ∷ xs) → oldest_or now (x ∷ xs) ≡ x
unfolding oldest_or
oldest_or-sorted now x [] h = refl
oldest_or-sorted now x (y ∷ xs) h = ground (arith, oldest_or-sorted now y xs h.1)

-- On a sorted set with members, `zrange(0, 0)` gives the refusal that `min` gives.
refuse-sorted :
    (xs : List (String × ℕ)) (window now : ℕ)
    → IsSorted (scores xs)
    → 0 < length xs
    → refuse (take 1 xs) window now ≡ (false, retry_after (oldest_or now (scores xs)) window now)
unfolding refuse
refuse-sorted [] window now h pos = absurd (omega arith)
refuse-sorted ((m, t) ∷ xs) window now h pos =
    ap (λ (o : ℕ). (false, retry_after o window now)) (sym (oldest_or-sorted now t (scores xs) h))

module _ (redis : Redis) (show_time : ℕ → String) (cache : Cache (List ℕ))
    (max_requests window_seconds : ℕ) where
  decide_full :
      (ts : List ℕ) (key : String) (now : ℕ) (c : cache.State)
      → leb max_requests (length ts) ≡ true
      → (decide cache ts key max_requests window_seconds now c).0
        ≡ (false, retry_after (oldest_or now ts) (window_seconds * second) now)
  unfolding decide
  decide_full ts key now c h = rw h

  decide_room :
      (ts : List ℕ) (key : String) (now : ℕ) (c : cache.State)
      → leb max_requests (length ts) ≡ false
      → (decide cache ts key max_requests window_seconds now c).0 ≡ (true, 0)
  unfolding decide
  decide_room ts key now c h = rw h

  answer_refusal-some :
      (zset_key : String) (t : redis.State) (now : ℕ) (v : Verdict)
      → 0 < length (redis.entries zset_key t)
      → answer_refusal redis show_time (redis.oldest zset_key t) (window_seconds * second) now
        ≡ some v
      → v ≡ (
        false,
        retry_after
            (oldest_or now (scores (redis.entries zset_key t)))
            (window_seconds * second)
            now,
      )
  unfolding answer_refusal
  answer_refusal-some zset_key t now v pos h = elim (Option-cases (redis.oldest zset_key t)) [
    | inl e ↦ cc (rw e at h)
    | inr (l, e) ↦
        sym (some-injective _ _ (rw e at h))
        ∙ ap (λ k. refuse k (window_seconds * second) now) (redis.oldest_lem zset_key l t e)
        ∙ refuse-sorted (redis.entries zset_key t) (window_seconds * second) now
            (redis.entries-IsSorted zset_key t) pos
  ]

  answer_add-some :
      (o : Option redis.State) (s : redis.State) (v : Verdict)
      → (answer_add redis show_time o s).0 ≡ some v
      → v ≡ (true, 0)
  unfolding answer_add
  answer_add-some none s v h = cc
  answer_add-some (some t) s v h = cc

  after_count-eq-decide :
      (now : ℕ) (zset_key key identifier : String) (s t : redis.State) (c : cache.State)
      (v : Verdict)
      → 0 < max_requests
      → (after_count redis show_time
          (some (length (redis.entries zset_key t), t))
          zset_key
          max_requests
          window_seconds
          now
          identifier
          s).0
        ≡ some v
      → v
        ≡ (decide cache (scores (redis.entries zset_key t)) key max_requests window_seconds now c).0
  unfolding after_count
  after_count-eq-decide now zset_key key identifier s t c v pos h =
      let xs = redis.entries zset_key t in
      let len : length (scores xs) ≡ length xs = length-map (λ e. e.1) xs in
      elim (Bool-cases (leb max_requests (length xs))) [
        | inl full ↦
            answer_refusal-some zset_key t now v (ground arith) (rw full at h)
            ∙ sym (decide_full (scores xs) key now c (rw len full))
        | inr room ↦
            answer_add-some _ t v (rw room at h)
            ∙ sym (decide_room (scores xs) key now c (rw len room))
      ]

  -- When Redis answers, its verdict and its waiting time are those that the fallback would compute
  -- from the timestamps of the members, provided that the limit is not 0.
  pub redis-eq-decide :
      (now : ℕ) (key identifier : String) (s : redis.State) (c : cache.State) (v : Verdict)
      → 0 < max_requests
      → (redis_rate_limit redis show_time key max_requests window_seconds now identifier s).0
        ≡ some v
      → v
        ≡ (decide cache
            (live (window_seconds * second) now (scores (redis.entries (str_append key ":zset") s)))
            key
            max_requests
            window_seconds
            now
            c).0
  unfolding redis_rate_limit after_count
  redis-eq-decide now key identifier s c v pos h =
      elim (Option-cases
        (redis.prune_and_count (str_append key ":zset") now (window_seconds * second) s)) [
          | inl e ↦ cc (rw e at h)
          | inr ((n, t), e) ↦
              let (kept, count) = redis.prune_and_count_lem _ _ _ n s t e in
              after_count-eq-decide now (str_append key ":zset") key identifier s t c v pos
                (rw (e, count) at h)
              ∙ ap (λ ts. (decide cache ts key max_requests window_seconds now c).0)
                  (ap scores kept
                    ∙ sym (filter-map (λ x. ltb now (x + window_seconds * second)) _ _))
        ]
