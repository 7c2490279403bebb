-- ===== src/Chat/Client/Singleton/Tests.antt =====
-- Two threads that both miss the client, one of which makes it.
use ai_chat_websocket.Prelude.{ℕ, ◌≤◌, ◌≡◌, refl, Option, some}
use ai_chat_websocket.Chat.Client.Singleton.{
  creating, returned, Shared, missed, locked, missed_inside, made, gave, Happens, started, steps,
}
use ai_chat_websocket.Chat.Client.Singleton.Once.{Happens-one}

abbrev run : (s : Shared) × Happens s
run = (
  _,
  steps 1
      (steps 1
        (steps 1
          (steps 1 (steps 2 (steps 1 started (missed refl refl)) (missed refl refl))
            (locked refl refl))
          (missed_inside refl refl))
        (made refl))
      (gave refl),
)

one_made : run.0.created ≡ 1
one_made = refl

Happens-one_example :
    (run.0.created ≤ 1)
    × ((t : ℕ) (r : Option ℕ) → run.0.place t ≡ returned r → r ≡ some 0)
    × ((t u : ℕ) → run.0.place t ≡ creating → run.0.place u ≡ creating → t ≡ u)
Happens-one_example = Happens-one run.1
