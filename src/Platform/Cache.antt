-- ===== src/Platform/Cache.antt =====
-- Django's cache with timeouts, as apps/core/ratelimit.py and apps/users/services.py use it.
use ai_chat_websocket.Prelude.{
  ℕ, ◌+◌, ◌≤◌, ◌<◌, ◌≡◌, ◌≢◌, Option, none, some, String, arith, ◌==◌, string_eq, if◌then◌else◌,
  ltb, Bool-cases, inl, inr, ==_refl,
}

-- `get k t s` is `cache.get(k)` at time `t`; `set k v ttl t s` is `cache.set(k, v, timeout=ttl)` at
-- time `t`. An entry is there until its timeout has passed, and then it is not.
pub record Cache (V : Type 0) : Type 1 where
  pub State : Type 0
  pub get : String → ℕ → State → Option V
  pub set : String → V → ℕ → ℕ → State → State
  pub get-set_live :
      (k : String) (v : V) (ttl now t : ℕ) (s : State)
      → now ≤ t
      → t < now + ttl
      → get k t (set k v ttl now s) ≡ some v
  pub get-set_expired :
      (k : String) (v : V) (ttl now t : ℕ) (s : State)
      → now + ttl ≤ t
      → get k t (set k v ttl now s) ≡ none
  pub get-set_ne :
      (k j : String) (v : V) (ttl now t : ℕ) (s : State)
      → k ≢ j
      → get j t (set k v ttl now s) ≡ get j t s

-- A cache that keeps every entry with the time at which it ends.
abbrev pub Entries : Type 0 → Type 0
Entries V = String → Option (V × ℕ)

module _ {V : Type 0} where
  abbrev pub unless_over : ℕ → Option (V × ℕ) → Option V
  unless_over t none = none
  unless_over t (some (v, end)) = if ltb t end then some v else none

  abbrev pub get_entry : String → ℕ → Entries V → Option V
  get_entry k t s = unless_over t (s k)

  abbrev pub set_entry : String → V → ℕ → ℕ → Entries V → Entries V
  set_entry k v ttl now s j = if k == j then some (v, now + ttl) else s j

  pub get_entry_live :
      (k : String) (v : V) (ttl now t : ℕ) (s : Entries V)
      → now ≤ t
      → t < now + ttl
      → get_entry k t (set_entry k v ttl now s) ≡ some v
  get_entry_live k v ttl now t s h lt = rw (==_refl k) (ground arith)

  pub get_entry_expired :
      (k : String) (v : V) (ttl now t : ℕ) (s : Entries V)
      → now + ttl ≤ t
      → get_entry k t (set_entry k v ttl now s) ≡ none
  get_entry_expired k v ttl now t s h = rw (==_refl k) (ground arith)

  pub get_entry_ne :
      (k j : String) (v : V) (ttl now t : ℕ) (s : Entries V)
      → k ≢ j
      → get_entry j t (set_entry k v ttl now s) ≡ get_entry j t s
  get_entry_ne k j v ttl now t s ne = elim (Bool-cases (k == j)) [
    | inl same ↦ absurd (ne ((string_eq.equal_iff k j).0 same))
    | inr other ↦ rw other
  ]

abbrev pub timed : (V : Type 0) → Cache V
timed V = record {
  State = Entries V;
  get = get_entry;
  set = set_entry;
  get-set_live = get_entry_live;
  get-set_expired = get_entry_expired;
  get-set_ne = get_entry_ne;
}
