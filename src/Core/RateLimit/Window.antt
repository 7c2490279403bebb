-- ===== src/Core/RateLimit/Window.antt =====
-- Lemmas on the timestamps that lie in a window (ratelimit.py).
use ai_chat_websocket.Prelude.{
  ℕ, ◌+◌, ◌≤◌, ◌<◌, ◌≡◌, refl, Bool, ◌&&◌, List, [], ◌∷◌, ◌++◌, arith, ltb, leb, length, filter,
  length-filter, filter-filter, length-filter_mono, if◌then◌else◌,
}
use ai_chat_websocket.Core.RateLimit.{live, oldest_or}

-- `x` lies in the window of length `window` that ends at `t`.
abbrev pub in_window : ℕ → ℕ → ℕ → Bool
in_window window t x = ltb t (x + window) && leb x t

-- how many of the times lie in that window
abbrev pub count_in_window : ℕ → ℕ → List ℕ → ℕ
count_in_window window t xs = length (filter (in_window window t) xs)

-- no time is later than `last`
abbrev pub UpTo : ℕ → List ℕ → Type 0
UpTo last [] = Unit
UpTo last (x ∷ xs) = (x ≤ last) × UpTo last xs

module _ (window : ℕ) where
  pub UpTo-mono : (a b : ℕ) (xs : List ℕ) → a ≤ b → UpTo a xs → UpTo b xs
  UpTo-mono a b [] h u = tt
  UpTo-mono a b (x ∷ xs) h u = (omega arith, UpTo-mono a b xs h u.1)

  pub UpTo-append : (a b : ℕ) (xs : List ℕ) → a ≤ b → UpTo a xs → UpTo b (xs ++ b ∷ [])
  UpTo-append a b [] h u = (omega arith, tt)
  UpTo-append a b (x ∷ xs) h u = (omega arith, UpTo-append a b xs h u.1)

  pub live-live :
      (now t : ℕ) (xs : List ℕ) → now ≤ t → live window t (live window now xs) ≡ live window t xs
  live-live now t xs h =
      filter-filter (λ x. ltb t (x + window)) (λ x. ltb now (x + window)) xs (λ x. ground arith)

  pub live_over :
      (last t : ℕ) (xs : List ℕ) → UpTo last xs → last + window ≤ t → live window t xs ≡ []
  live_over last t [] u h = refl
  live_over last t (x ∷ xs) u h = ground (arith, live_over last t xs u.1 h)

  pub count_in_window-le-live :
      (now t : ℕ) (xs : List ℕ)
      → now ≤ t
      → count_in_window window t xs ≤ length (live window now xs)
  count_in_window-le-live now t xs h =
      length-filter_mono (in_window window t) (λ x. ltb now (x + window)) xs (λ x. ground arith)

  -- A later request does not count in an earlier window, and counts once in its own and later ones.
  pub count_in_window-append :
      (now t : ℕ) (xs : List ℕ)
      → count_in_window window t (xs ++ now ∷ [])
        ≡ count_in_window window t xs + (if in_window window t now then 1 else 0)
  count_in_window-append now t [] = ground arith
  count_in_window-append now t (x ∷ xs) = ground (arith, count_in_window-append now t xs)

  -- A window that ends after every time holds the live ones.
  pub count_in_window-eq-live :
      (now : ℕ) (xs : List ℕ)
      → UpTo now xs
      → count_in_window window now xs ≡ length (live window now xs)
  count_in_window-eq-live now [] u = refl
  count_in_window-eq-live now (x ∷ xs) u = ground (arith, count_in_window-eq-live now xs u.1)

  pub UpTo-live : (t now : ℕ) (xs : List ℕ) → UpTo now xs → UpTo now (live window t xs)
  UpTo-live t now [] u = tt
  UpTo-live t now (x ∷ xs) u = ground (arith, UpTo-live t now xs u.1)

  pub oldest_or-le : (now : ℕ) (xs : List ℕ) → UpTo now xs → oldest_or now xs ≤ now
  unfolding oldest_or
  oldest_or-le now [] u = omega arith
  oldest_or-le now (x ∷ []) u = omega arith
  oldest_or-le now (x ∷ y ∷ xs) u = ground (arith, oldest_or-le now (y ∷ xs) u.1)

  -- Once the oldest of some times has left the window, fewer are live.
  pub live_drops :
      (now t x : ℕ) (xs : List ℕ)
      → oldest_or now (x ∷ xs) + window ≤ t
      → length (live window t (x ∷ xs)) < length (x ∷ xs)
  unfolding oldest_or
  live_drops now t x [] h = ground arith
  live_drops now t x (y ∷ xs) h =
      ground (arith, live_drops now t y xs, length-filter (λ e. ltb t (e + window)) (y ∷ xs))
