-- ===== src/Chat/Client/Retrying.antt =====
-- A concrete `@retry` with four attempts, as tenacity documents it.
use ai_chat_websocket.Prelude.{
  ℕ, zero, suc, ◌+◌, ◌≤◌, ◌<◌, ◌≡◌, refl, ◌∙◌, true, Result, ok, err, if◌then◌else◌, arith, nat_beq,
  nat_beq_iff, Bool-cases, inl, inr, ap,
}
use ai_chat_websocket.Chat.Client.{
  OpenaiError, is_retryable, Raised, raised, gave_up, max_attempts, Tenacity,
}

module _ {A : Type 0} (f : ℕ → Result OpenaiError A) where
  unfoldable pub tries : ℕ → ℕ → Result Raised A
  tries zero i = err gave_up
  tries (suc k) i =
      let rest = tries k (suc i) in
      elim (f i) [ ok a ↦ ok a | err e ↦ if is_retryable e then rest else err (raised e) ]

  abbrev pub AttemptFails : ℕ → Type 0
  AttemptFails i = (e : OpenaiError) × (f i ≡ err e) × (is_retryable e ≡ true)

  pub tries-fail : (k i : ℕ) → AttemptFails i → tries (suc k) i ≡ tries k (suc i)
  unfolding tries
  tries-fail k i (e, failed, again) = rw (failed, again, tries)

  pub tries-gave_up : (k i : ℕ) → ((j : ℕ) → j < i + k → AttemptFails j) → tries k i ≡ err gave_up
  unfolding tries
  tries-gave_up zero i h = refl
  tries-gave_up (suc k) i h =
      tries-fail k i (h i (omega arith)) ∙ tries-gave_up k (suc i) (λ j lt. h j (omega arith))

  pub tries-answered :
      (k i n : ℕ) (a : A)
      → i ≤ n
      → n < i + k
      → ((j : ℕ) → j < n → AttemptFails j)
      → f n ≡ ok a
      → tries k i ≡ ok a
  unfolding tries
  tries-answered zero i n a le lt h e = absurd (omega arith)
  tries-answered (suc k) i n a le lt h e = elim (Bool-cases (nat_beq i n)) [
    | inl here ↦ let now : f i ≡ ok a = ap f ((nat_beq_iff i n).0 here) ∙ e in rw (now, tries)
    | inr later ↦
        tries-fail k i (h i (ground arith))
        ∙ tries-answered k (suc i) n a (ground arith) (omega arith) h e
  ]

abbrev pub retrying : Tenacity
retrying = record {
  call = λ f. tries f max_attempts 0;
  call-answered =
      λ f k a lt h e. tries-answered f max_attempts 0 k a (omega arith) (omega arith) h e;
  call-gave_up = λ f h. tries-gave_up f max_attempts 0 (λ j lt. h j (omega arith));
}
