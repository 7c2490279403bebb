-- ===== src/Chat/Awaits/Refinement.antt =====
-- The awaits implement the single step, and keep what it keeps.
use ai_chat_websocket.Prelude.{ℕ, ◌≡◌, refl, ap, ◌∙◌, Text, codes, Option, none, some, List}
use ai_chat_websocket.Chat.Protocol.{Value, get, truthy, or_empty}
use ai_chat_websocket.Chat.Session.{Backend, Session, with_user, with_helper, handle_auth}
use ai_chat_websocket.Chat.Consumer.Branches.{if-related}
use ai_chat_websocket.Chat.Awaits.{
  ready, Machine, call_helper, begin_auth, with_answer, ask_helper, resume,
}

module _ (backend : Backend) where
  resume_twice-helper :
      (h : Option (Value → Option ℕ)) (token : Value) (s : Session backend)
      → backend.auth_helper ≡ h
      → resume backend (resume backend (call_helper backend h token s))
        ≡ (ready, with_helper backend h token s)
  unfolding resume with_helper
  resume_twice-helper none token s e = refl
  resume_twice-helper (some helper) token s e =
      ap (λ h. resume backend (ask_helper backend h token s)) e ∙ answered (helper token)
    where
      answered :
          (o : Option ℕ) → resume backend (with_answer backend o s) ≡ (ready, with_user backend o s)
      answered none = refl
      answered (some user_id) = refl

  -- When nothing happens in between, the handler with its awaits does what `_handle_auth` does as a
  -- single step.
  resume-handle_auth :
      (fields : List (Text × Value)) (s : Session backend)
      → resume backend (resume backend (begin_auth backend fields s))
        ≡ (ready, handle_auth backend fields s)
  unfolding resume begin_auth handle_auth
  resume-handle_auth fields s =
      let R : Machine backend → Session backend → Type 0 =
        λ m t. resume backend (resume backend m) ≡ (ready, t) in
      let token = or_empty (get (codes "token") fields) in
      if-related R s.is_authenticated _ _ s _ refl (
        if-related R (truthy token) _ _ (with_helper backend backend.auth_helper token s) _
          (resume_twice-helper backend.auth_helper token s refl) refl)
