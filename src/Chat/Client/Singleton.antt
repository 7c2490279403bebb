-- ===== src/Chat/Client/Singleton.antt =====
-- `get_openai_client` of backend/apps/chat/ai/client.py, called by any number of threads. The reset, which
-- is for tests, is left out.
pub mod Once
mod Tests
use ai_chat_websocket.Prelude.{ℕ, ◌+◌, ◌≡◌, Option, none, some, ◌==◌, nat_eq, if◌then◌else◌}

-- Where a thread is in the function: before the first test, before the lock, before the second test,
-- before the assignment, before the return, and after it.
pub data Place : Type 0 where
  entering wants_lock has_lock creating leaving : Place
  returned : Option ℕ → Place

-- A client is known by its number among the ones that were made.
pub record Shared : Type 0 where
  pub client : Option ℕ
  pub lock : Option ℕ
  pub created : ℕ
  pub place : ℕ → Place

abbrev pub moved : ℕ → Place → (ℕ → Place) → ℕ → Place
moved t p place u = if t == u then p else place u

-- What a thread `t` may do next.
pub data ThreadStep (t : ℕ) (s : Shared) : Shared → Type 0 where
  found :
      (c : ℕ)
      → s.place t ≡ entering
      → s.client ≡ some c
      → ThreadStep t s (record s { place = moved t leaving s.place })
  missed :
      s.place t ≡ entering
      → s.client ≡ none
      → ThreadStep t s (record s { place = moved t wants_lock s.place })
  locked :
      s.place t ≡ wants_lock
      → s.lock ≡ none
      → ThreadStep t s (record s { lock = some t; place = moved t has_lock s.place })
  found_inside :
      (c : ℕ)
      → s.place t ≡ has_lock
      → s.client ≡ some c
      → ThreadStep t s (record s { lock = none; place = moved t leaving s.place })
  missed_inside :
      s.place t ≡ has_lock
      → s.client ≡ none
      → ThreadStep t s (record s { place = moved t creating s.place })
  made :
      s.place t ≡ creating
      → ThreadStep t s (record s {
        client = some s.created;
        lock = none;
        created = s.created + 1;
        place = moved t leaving s.place;
      })
  gave :
      s.place t ≡ leaving
      → ThreadStep t s (record s { place = moved t (returned s.client) s.place })

-- when the program starts
abbrev pub at_start : Shared
at_start = record { client = none; lock = none; created = 0; place = λ t. entering }

pub data Happens : Shared → Type 0 where
  started : Happens at_start
  steps : {s s' : Shared} (t : ℕ) → Happens s → ThreadStep t s s' → Happens s'
