-- ===== src/Core/RateLimit/Sliding.antt =====
-- The limit holds over every window: `_fallback_rate_limit` under any sequence of requests.
use ai_chat_websocket.Prelude.{
  ℕ, ◌+◌, ◌*◌, ◌≤◌, ◌<◌, ◌≡◌, ap, ◌∙◌, sym, false, none, List, [], ◌∷◌, ◌++◌, arith, ltb, leb,
  length, filter-append, if◌then◌else◌, Bool-cases, inl, inr, String,
}
use ai_chat_websocket.Platform.Cache.{Cache}
use ai_chat_websocket.Platform.Redis.{IsSorted}
use ai_chat_websocket.Core.RateLimit.{second, live, stored, fallback_rate_limit}
use ai_chat_websocket.Core.RateLimit.Window.{
  count_in_window, UpTo, UpTo-mono, UpTo-append, live-live, live_over, count_in_window-le-live,
  count_in_window-append,
}

pub from_zero : (times : List ℕ) → IsSorted times → IsSorted (0 ∷ times)
from_zero [] h = tt
from_zero (x ∷ xs) h = (omega arith, h)

module _ (cache : Cache (List ℕ)) (key : String) (max_requests window_seconds : ℕ) where
  -- Requests with one key, in order: the times that were admitted after `log`, and the cache.
  unfoldable pub admitted : List ℕ → List ℕ → cache.State → List ℕ × cache.State
  admitted [] log s = (log, s)
  admitted (now ∷ times) log s =
      let (v, s') = fallback_rate_limit cache false key max_requests window_seconds now s in
      admitted times (if v.0 then log ++ now ∷ [] else log) s'

  abbrev window : ℕ
  window = window_seconds * second

  -- What the cache holds for the key, read at `last` or later, is what `log` has in the window.
  pub record Tracks (last : ℕ) (log : List ℕ) (s : cache.State) : Type 0 where
    pub agrees :
        (now : ℕ)
        → last ≤ now
        → live (window_seconds * second) now (stored (cache.get key now s))
          ≡ live (window_seconds * second) now log
    pub past : UpTo last log
    pub bounded : (t : ℕ) → count_in_window (window_seconds * second) t log ≤ max_requests

  agrees_later :
      (last now t : ℕ) (log : List ℕ) (s : cache.State) (ts : List ℕ)
      → UpTo now log
      → now ≤ t
      → ts ≡ live window now log
      → live window t (
          stored (
            cache.get key t
              (cache.set key (ts ++ now ∷ []) ((window_seconds + 60) * second) now s)))
        ≡ live window t (log ++ now ∷ [])
  agrees_later last now t log s ts u h e =
      elim (Bool-cases (ltb t (now + (window_seconds + 60) * second))) [
        | inl fresh ↦
            rw
              (cache.get-set_live key (ts ++ now ∷ []) ((window_seconds + 60) * second) now t s h
                (ground arith))
              (rw e (
                filter-append (λ x. ltb t (x + window)) (live window now log) (now ∷ [])
                ∙ ap (λ l. l ++ live window t (now ∷ [])) (live-live window now t log h)
                ∙ sym (filter-append (λ x. ltb t (x + window)) log (now ∷ []))))
        | inr over ↦
            rw
              (cache.get-set_expired key (ts ++ now ∷ []) ((window_seconds + 60) * second) now t s
                (ground arith))
              (sym (
                live_over window now t (log ++ now ∷ [])
                  (UpTo-append window now now log (omega arith) u) (ground arith)))
      ]

  admit-Tracks :
      (last now : ℕ) (log : List ℕ) (s : cache.State) (ts : List ℕ)
      → Tracks last log s
      → last ≤ now
      → ts ≡ live window now log
      → length ts < max_requests
      → Tracks now
          (log ++ now ∷ [])
          (cache.set key (ts ++ now ∷ []) ((window_seconds + 60) * second) now s)
  admit-Tracks last now log s ts tr h e room = record {
    agrees =
        λ t le. agrees_later last now t log s ts (UpTo-mono window last now log h tr.past) le e;
    past = UpTo-append window last now log h tr.past;
    bounded = λ t. ground (
      arith,
      tr.bounded t,
      count_in_window-append window now t log,
      count_in_window-le-live window now t log,
      ap length e,
    );
  }

  pub fallback-Tracks :
      (last now : ℕ) (log : List ℕ) (s : cache.State)
      → Tracks last log s
      → last ≤ now
      → let (v, s') = fallback_rate_limit cache false key max_requests window_seconds now s in
        Tracks now (if v.0 then log ++ now ∷ [] else log) s'
  unfolding fallback_rate_limit
  fallback-Tracks last now log s tr h =
      elim (Bool-cases
        (leb max_requests (length (live window now (stored (cache.get key now s)))))) [
          | inl full ↦ rw full (record {
            agrees = λ t le. tr.agrees t (omega arith);
            past = UpTo-mono window last now log h tr.past;
            bounded = tr.bounded;
          })
          | inr room ↦ rw room (admit-Tracks last now log s _ tr h (tr.agrees now h) (ground arith))
        ]

  admitted-Tracks :
      (last : ℕ) (times log : List ℕ) (s : cache.State)
      → Tracks last log s
      → IsSorted (last ∷ times)
      → (end : ℕ) × Tracks end (admitted times log s).0 (admitted times log s).1
  unfolding admitted
  admitted-Tracks last [] log s tr h = (last, tr)
  admitted-Tracks last (now ∷ times) log s tr h =
      admitted-Tracks now times _ _ (fallback-Tracks last now log s tr h.0) h.1

  pub empty-Tracks : (s : cache.State) → ((now : ℕ) → cache.get key now s ≡ none) → Tracks 0 [] s
  empty-Tracks s empty = record {
    agrees = λ now h. rw (empty now);
    past = tt;
    bounded = λ t. omega arith;
  }

  -- Where `RATELIMIT_FAIL_CLOSED` is off: however the requests with one key arrive, in ascending order of time and from a cache that
  -- holds nothing for the key, the admitted ones number at most `max_requests` in every window of
  -- `window_seconds`, where it ends at a request or not.
  pub admitted-le-max :
      (times : List ℕ) (s : cache.State) (t : ℕ)
      → IsSorted times
      → ((now : ℕ) → cache.get key now s ≡ none)
      → count_in_window (window_seconds * second) t (admitted times [] s).0 ≤ max_requests
  admitted-le-max times s t h empty =
      (admitted-Tracks 0 times [] s (empty-Tracks s empty) (from_zero times h)).1.bounded t
