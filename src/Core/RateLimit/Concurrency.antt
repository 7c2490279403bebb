-- ===== src/Core/RateLimit/Concurrency.antt =====
-- Requests of one client at the same time: `_redis_rate_limit` counts and adds in two transactions.
use Prim.Native.String.{◌++◌ as str_append}
use ai_chat_websocket.Prelude.{
  ℕ, ◌+◌, ◌*◌, ◌<◌, ◌≡◌, refl, ap, true, false, Option, some, List, [], ◌∷◌, length, leb, arith,
  String, ◌==◌, string_eq,
}
use ai_chat_websocket.Platform.Redis.{Redis, has_member}
use ai_chat_websocket.Core.RateLimit.{Verdict, second, after_count, answer_add}

abbrev pub all_admitted : List ℕ → List (Option Verdict)
all_admitted [] = []
all_admitted (now ∷ times) = some (true, 0) ∷ all_admitted times

module _ (redis : Redis) (show_time : ℕ → String) (zset_key identifier : String)
    (max_requests window_seconds : ℕ) where
  abbrev pub member_at : ℕ → String
  member_at now = str_append (show_time now) (str_append ":" identifier)

  -- Requests that have all been given the count `count` before any of them adds its member; then they go
  -- on, one after another.
  unfoldable pub counted_together : List ℕ → ℕ → redis.State → List (Option Verdict) × redis.State
  unfolding after_count
  counted_together [] count s = ([], s)
  counted_together (now ∷ times) count s =
      let (v, s') =
        after_count redis show_time (some (count, s)) zset_key max_requests window_seconds now
          identifier s in
      let (vs, t) = counted_together times count s' in (v ∷ vs, t)

  abbrev pub NoneAt : ℕ → List ℕ → Type 0
  NoneAt now [] = Unit
  NoneAt now (t ∷ times) = ((member_at now == member_at t) ≡ false) × NoneAt now times

  -- The members are new and differ from one another.
  abbrev pub AreNew : List ℕ → redis.State → Type 0
  AreNew [] s = Unit
  AreNew (now ∷ times) s =
      (has_member (member_at now) (redis.entries zset_key s) ≡ false)
      × NoneAt now times
      × AreNew times s

  AreNew-add :
      (now : ℕ) (times : List ℕ) (ttl : ℕ) (s t : redis.State)
      → redis.add zset_key (member_at now) now ttl s ≡ some t
      → NoneAt now times
      → AreNew times s
      → AreNew times t
  AreNew-add now [] ttl s t added apart new = tt
  AreNew-add now (u ∷ times) ttl s t added apart new = (
    redis.add_other zset_key (member_at now) (member_at u) now ttl s t added apart.0 new.0,
    new.1,
    AreNew-add now times ttl s t added apart.1 new.2,
  )

  -- Any number of requests that are counted together are all admitted if there was room for one, and
  -- the sorted set then has a member for each, however far that is over the limit.
  pub concurrent_overshoot :
      (times : List ℕ) (count : ℕ) (s : redis.State)
      → ((m : String) (score ttl : ℕ) (r : redis.State)
          → (t : redis.State) × (redis.add zset_key m score ttl r ≡ some t))
      → count < max_requests
      → AreNew times s
      → ((counted_together times count s).0 ≡ all_admitted times)
        × (length (redis.entries zset_key (counted_together times count s).1)
            ≡ length (redis.entries zset_key s) + length times)
  unfolding counted_together after_count answer_add
  concurrent_overshoot [] count s works room new = (refl, omega arith)
  concurrent_overshoot (now ∷ times) count s works room new =
      let ttl = (window_seconds + 60) * second in
      let (t, added) = works (member_at now) now ttl s in
      let free : leb max_requests count ≡ false = ground arith in
      let (vs, len) =
        concurrent_overshoot times count t works room
          (AreNew-add now times ttl s t added new.1 new.2) in
      let one = redis.add_length zset_key (member_at now) now ttl s t added new.0 in
      rw (free, added, answer_add) (ap (λ l. some (true, 0) ∷ l) vs, omega (arith, len, one))
