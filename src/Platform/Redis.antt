-- ===== src/Platform/Redis.antt =====
-- The Redis commands on sorted sets that apps/core/ratelimit.py calls. Each function is one
-- transaction or one command; `none` is an exception of the client.
use ai_chat_websocket.Prelude.{
  ℕ, ◌≡◌, String, Option, some, List, ◌∷◌, length, filter, ltb, ◌≤◌, [], take, map, Bool, false,
  ◌||◌, ◌==◌, string_eq, ◌+◌,
}

-- Times in ascending order.
abbrev pub IsSorted : List ℕ → Type 0
IsSorted [] = Unit
IsSorted (x ∷ []) = Unit
IsSorted (x ∷ y ∷ l) = (x ≤ y) × IsSorted (y ∷ l)

-- whether a sorted set has the member
abbrev pub has_member : String → List (String × ℕ) → Bool
has_member m [] = false
has_member m (e ∷ l) = e.0 == m || has_member m l

pub record Redis : Type 1 where
  pub State : Type 0
  -- the members of a sorted set with their scores, lowest score first
  pub entries : String → State → List (String × ℕ)
  -- `pipe.zremrangebyscore(k, 0, now - window); pipe.zcard(k); pipe.execute()`, with the count; the
  -- difference may be negative
  pub prune_and_count : String → ℕ → ℕ → State → Option (ℕ × State)
  -- `zrange(k, 0, 0, withscores=True)`
  pub oldest : String → State → Option (List (String × ℕ))
  -- `pipe.zadd(k, {member: score}); pipe.expire(k, ttl); pipe.execute()`
  pub add : String → String → ℕ → ℕ → State → Option State
  pub prune_and_count_lem :
      (k : String) (now window n : ℕ) (s t : State)
      → prune_and_count k now window s ≡ some (n, t)
      → (entries k t ≡ filter (λ e. ltb now (e.1 + window)) (entries k s))
        × (n ≡ length (entries k t))
  pub oldest_lem :
      (k : String) (l : List (String × ℕ)) (s : State)
      → oldest k s ≡ some l
      → l ≡ take 1 (entries k s)
  pub entries-IsSorted : (k : String) (s : State) → IsSorted (map (λ e. e.1) (entries k s))
  -- `zadd` of a member that is not there makes one more, and adds no other.
  pub add_length :
      (k m : String) (score ttl : ℕ) (s t : State)
      → add k m score ttl s ≡ some t
      → has_member m (entries k s) ≡ false
      → length (entries k t) ≡ length (entries k s) + 1
  pub add_other :
      (k m j : String) (score ttl : ℕ) (s t : State)
      → add k m score ttl s ≡ some t
      → (m == j) ≡ false
      → has_member j (entries k s) ≡ false
      → has_member j (entries k t) ≡ false
