-- ===== src/Chat/History/Window.antt =====
-- The history is the longest run of newest messages that fits.
use mathlib.Core.List.{reverse, append-nil, append_assoc}
use ai_chat_websocket.Prelude.{
  ℕ, ◌+◌, ◌≤◌, ◌<◌, ◌≡◌, refl, subst, ap, sym, ◌∙◌, Text, List, [], ◌∷◌, ◌++◌, ltb, arith,
  Bool-cases, inl, inr,
}
use ai_chat_websocket.Chat.Tokens.{Message, Tiktoken, count_messages_tokens}
use ai_chat_websocket.Chat.History.{
  select_messages, get_conversation_history, tokens_if_any, reserved_messages,
}

module _ (tiktoken : Tiktoken) (model : Text) where
  abbrev pub cost : Message → ℕ
  cost m = count_messages_tokens tiktoken model (m ∷ [])

  -- what the program adds up for the messages that it takes
  abbrev pub cost_all : List Message → ℕ
  cost_all [] = 0
  cost_all (m ∷ ms) = cost m + cost_all ms

  module _ (max_tokens reserved : ℕ) where
    -- The next older message, if there is one, does not fit beside what is taken.
    abbrev pub NextTooLong : ℕ → List Message → Type 0
    NextTooLong taken [] = Unit
    NextTooLong taken (m ∷ ms) = max_tokens < reserved + (taken + cost m)

    -- `picked` are the newest messages, `left` the older ones.
    pub record IsCut (newest_first picked left : List Message) (before : ℕ) : Type 0 where
      pub split : newest_first ≡ picked ++ left
      pub fits : reserved + before ≤ max_tokens → reserved + (before + cost_all picked) ≤ max_tokens
      pub longest : NextTooLong (before + cost_all picked) left

    pub record Cut (newest_first selected : List Message) (before : ℕ) : Type 0 where
      pub picked : List Message
      pub left : List Message
      pub is_cut : IsCut newest_first picked left before
      pub result :
          select_messages tiktoken model max_tokens reserved newest_first selected before
          ≡ (selected ++ picked, before + cost_all picked)

    -- the pair of two equations
    both :
        (xs ys : List Message) (n k : ℕ)
        → xs ≡ ys
        → n ≡ k
        → ◌≡◌ {A = List Message × ℕ} (xs, n) (ys, k)
    both xs ys n k p q = λ i. (p i, q i)

    pub select_messages-Cut :
        (newest_first selected : List Message) (before : ℕ) → Cut newest_first selected before
    unfolding select_messages
    select_messages-Cut [] selected before = record {
      picked = [];
      left = [];
      is_cut = record { split = refl; fits = λ h. omega arith; longest = tt };
      result =
          both selected (selected ++ []) before (before + 0) (sym (append-nil selected))
            (omega arith);
    }
    select_messages-Cut (m ∷ ms) selected before =
        elim (Bool-cases (ltb max_tokens (reserved + (before + cost m)))) [
          | inl over ↦ record {
            picked = [];
            left = m ∷ ms;
            is_cut = record { split = refl; fits = λ h. omega arith; longest = ground arith };
            result = rw over (
                both selected (selected ++ []) before (before + 0) (sym (append-nil selected))
                  (omega arith));
          }
          | inr fit ↦
              let c = select_messages-Cut ms (selected ++ m ∷ []) (before + cost m) in
              let more : before + cost m + cost_all c.picked
                  ≡ before + (cost m + cost_all c.picked) =
                omega arith in
              record {
                picked = m ∷ c.picked;
                left = c.left;
                is_cut = record {
                  split = ap (λ l. m ∷ l) c.is_cut.split;
                  fits = λ h. omega (arith, more, c.is_cut.fits (ground arith));
                  longest = subst (λ t. NextTooLong t c.left) more c.is_cut.longest;
                };
                result = rw fit (
                    c.result
                    ∙ both ((selected ++ m ∷ []) ++ c.picked) (selected ++ m ∷ c.picked)
                        (before + cost m + cost_all c.picked)
                        (before + (cost m + cost_all c.picked))
                        (append_assoc selected (m ∷ []) c.picked) more);
              }
        ]

  -- The history is chronological, it is the newest part of the conversation, its cost with the reserved
  -- tokens is what is returned, that total stays within the limit if the reserved tokens do, and the
  -- newest message that is left out would not have fitted.
  pub record IsHistory (max_tokens reserved : ℕ) (newest_first : List Message)
      (answer : List Message × ℕ) : Type 0 where
    pub picked : List Message
    pub left : List Message
    pub chronological : answer.0 ≡ reverse picked
    pub total : answer.1 ≡ reserved + cost_all picked
    pub split : newest_first ≡ picked ++ left
    pub within : reserved ≤ max_tokens → answer.1 ≤ max_tokens
    pub longest : NextTooLong max_tokens reserved (cost_all picked) left

  -- The history is the longest run of newest messages that fits the limit beside the reserved ones,
  -- in chronological order; the total that comes with it is the sum of their tokens, and is within
  -- the limit if the reserved tokens are.
  pub get_conversation_history-IsHistory :
      (max_tokens : ℕ) (system_prompt summary : Text) (newest_first : List Message)
      → IsHistory max_tokens
          (tokens_if_any tiktoken model (reserved_messages system_prompt summary))
          newest_first
          (get_conversation_history tiktoken model max_tokens system_prompt summary newest_first)
  unfolding get_conversation_history
  get_conversation_history-IsHistory max_tokens system_prompt summary newest_first =
      let reserved = tokens_if_any tiktoken model (reserved_messages system_prompt summary) in
      let c = select_messages-Cut max_tokens reserved newest_first [] 0 in
      record {
        picked = c.picked;
        left = c.left;
        chronological = ap (λ r. reverse r.0) c.result;
        total = ap (λ r. reserved + r.1) c.result ∙ omega arith;
        split = c.is_cut.split;
        within = λ h. omega (arith, ap (λ r. r.1) c.result, c.is_cut.fits (omega arith));
        longest =
            let e : 0 + cost_all c.picked ≡ cost_all c.picked = omega arith in
            subst (λ t. NextTooLong max_tokens reserved t c.left) e c.is_cut.longest;
      }
