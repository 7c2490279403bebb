-- ===== src/Chat/Exchange/Content.antt =====
-- What passes as the content of a message.
use ai_chat_websocket.Prelude.{
  ℕ, ◌≤◌, ◌≡◌, sym, subst, Text, some, some-injective, [], ◌∷◌, length, ltb, ok, ok-injective,
  arith, Bool-cases, inl, inr,
}
use ai_chat_websocket.Chat.Protocol.{text_value, strip}
use ai_chat_websocket.Chat.Session.{Backend, Session, max_user_message_length}
use ai_chat_websocket.Chat.Exchange.{validate_stripped, validate_message_content}

module _ (backend : Backend) where
  stripped_le :
      (raw : Text) (s : Session backend) (content : Text)
      → (validate_stripped backend raw s).0 ≡ ok (some content)
      → (content ≡ backend.clean raw) × (length content ≤ max_user_message_length)
  unfolding validate_stripped
  stripped_le [] s content h = cc h
  stripped_le (c ∷ raw) s content h =
      elim (Bool-cases (ltb max_user_message_length (length (backend.clean (c ∷ raw))))) [
        | inl long ↦ cc (rw long at h)
        | inr short ↦
            let e : backend.clean (c ∷ raw) ≡ content =
              some-injective _ _ (ok-injective _ _ (rw short at h)) in
            (sym e, subst (λ t. length t ≤ max_user_message_length) e (ground arith))
      ]

  -- A content that is accepted is the cleaned text of the message, without the spaces around it, and has
  -- at most 10000 characters.
  accepted_content :
      (t : Text) (s : Session backend) (content : Text)
      → (validate_message_content backend (text_value t) s).0 ≡ ok (some content)
      → (content ≡ backend.clean (strip t)) × (length content ≤ max_user_message_length)
  unfolding validate_message_content
  accepted_content t s content h = stripped_le (strip t) s content h

  -- A message of which cleaning leaves nothing is accepted with an empty content: that it is not empty
  -- is tested before it is cleaned.
  pub cleaned_away :
      (t : Text) (c : ℕ) (raw : Text) (s : Session backend)
      → strip t ≡ c ∷ raw
      → backend.clean (c ∷ raw) ≡ []
      → validate_message_content backend (text_value t) s ≡ (ok (some []), s)
  unfolding validate_message_content validate_stripped
  cleaned_away t c raw s e gone = rw (e, gone)
