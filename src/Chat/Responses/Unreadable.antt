-- ===== src/Chat/Responses/Unreadable.antt =====
-- Stored messages that do not fit the response schema.
use mathlib.Core.List.{reverse, reverse-append, reverse-cons}
use ai_chat_websocket.Prelude.{
  ℕ, ◌+◌, ◌*◌, ◌-◌, take, ◌≤◌, ◌≡◌, refl, ap, ◌∙◌, Text, codes, Bool, true, false, none, List, [],
  ◌∷◌, ◌++◌, length, length-append, length-filter, take_all, filter, filter-append, ok, ◌==◌,
  nat_eq, nat_beq_iff, Bool-cases, inl, inr, arith,
}
use ai_chat_websocket.Platform.KeyStore.{KeyStore}
use ai_chat_websocket.Chat.Pages.{paginate}
use ai_chat_websocket.Chat.Pages.Walk.{items-paginate, drop_zero}
use ai_chat_websocket.Chat.Listing.{messages_follow_access}
use ai_chat_websocket.Chat.Conversations.{Conversation, get_conversation}
use ai_chat_websocket.Chat.Protocol.{Value, text_value, get, or_empty, strip}
use ai_chat_websocket.Chat.Session.{Backend, Session, StoredMessage}
use ai_chat_websocket.Chat.Exchange.{
  user_message, create_message, respond, exchange, catching, validate_message_content,
  process_chat_message,
}
use ai_chat_websocket.Chat.Exchange.Content.{cleaned_away}
use ai_chat_websocket.Chat.Exchange.Stored.{
  of_conversation, Grows-trans, respond-Grows, catching-Grows,
}
use ai_chat_websocket.Chat.Endpoints.{unhandled, reply, page_in_bounds, list_messages}
use ai_chat_websocket.Chat.Responses.{
  all_fit, message_fits, page_fits, checked, list_messages_response,
}

module _ {A : Type 0} (fits : A → Bool) where
  all_fit-append_left : (xs ys : List A) → all_fit fits xs ≡ false → all_fit fits (xs ++ ys) ≡ false
  all_fit-append_left [] ys h = cc h
  all_fit-append_left (x ∷ xs) ys h = elim (Bool-cases (fits x)) [
    | inl first ↦ rw first (all_fit-append_left xs ys (rw first at h))
    | inr unfit ↦ rw unfit refl
  ]

  all_fit-append_right :
      (xs ys : List A) → all_fit fits ys ≡ false → all_fit fits (xs ++ ys) ≡ false
  all_fit-append_right [] ys h = h
  all_fit-append_right (x ∷ xs) ys h = elim (Bool-cases (fits x)) [
    | inl first ↦ rw first (all_fit-append_right xs ys h)
    | inr unfit ↦ rw unfit refl
  ]

  length-filter-reverse :
      (p : A → Bool) (xs : List A) → length (filter p (reverse xs)) ≡ length (filter p xs)
  length-filter-reverse p [] = refl
  length-filter-reverse p (x ∷ xs) =
      ap (λ l. length (filter p l)) (reverse-cons x xs)
      ∙ ap (λ (l : List A). length l) (filter-append p (reverse xs) (x ∷ []))
      ∙ length-append (filter p (reverse xs)) (filter p (x ∷ []))
      ∙ ground (arith, length-filter-reverse p xs)

  -- A row that is shown and does not fit makes the rows not fit.
  unfit_shown :
      (p : A → Bool) (newer : List A) (x : A) (older : List A)
      → p x ≡ true
      → fits x ≡ false
      → all_fit fits (filter p (reverse (newer ++ x ∷ older))) ≡ false
  unfit_shown p newer x older shown unfit =
      let e : reverse (newer ++ x ∷ older) ≡ (reverse older ++ x ∷ []) ++ reverse newer =
        reverse-append newer (x ∷ older) ∙ ap (λ l. l ++ reverse newer) (reverse-cons x older) in
      let alone : all_fit fits (filter p (x ∷ [])) ≡ false = rw (shown, unfit) refl in
      let before : all_fit fits (filter p (reverse older ++ x ∷ [])) ≡ false =
        ap (all_fit fits) (filter-append p (reverse older) (x ∷ []))
        ∙ all_fit-append_right (filter p (reverse older)) (filter p (x ∷ [])) alone in
      ap (λ l. all_fit fits (filter p l)) e
      ∙ ap (all_fit fits) (filter-append p (reverse older ++ x ∷ []) (reverse newer))
      ∙ all_fit-append_left (filter p (reverse older ++ x ∷ [])) (filter p (reverse newer)) before

first_page :
    {A : Type 0} (page_size : ℕ) (rows : List A)
    → length rows ≤ page_size
    → (paginate 1 page_size rows).items ≡ rows
first_page page_size rows h =
    items-paginate page_size rows 1
    ∙ ap (take page_size) (drop_zero ((1 - 1) * page_size) rows (omega arith))
    ∙ take_all page_size rows h

module _ (conversations : KeyStore ℕ Conversation) where
  pub unfit_page :
      (id user_id page_size : ℕ) (c : Conversation) (t : conversations.State)
      (newer : List (ℕ × StoredMessage)) (k : ℕ) (m : StoredMessage)
      (older : List (ℕ × StoredMessage))
      → get_conversation conversations id user_id t ≡ ok c
      → m.conversation_id ≡ id
      → message_fits m ≡ false
      → length newer + length (of_conversation id older) + 1 ≤ page_size
      → page_size ≤ 100
      → list_messages_response conversations id user_id 1 page_size t (newer ++ (k, m) ∷ older)
        ≡ unhandled
  unfolding list_messages_response list_messages checked reply page_fits
  unfit_page id user_id page_size c t newer k m older owner own unfit some_room small =
      let mine = λ (row : ℕ × StoredMessage). row.1.conversation_id == id in
      let fits = λ (row : ℕ × StoredMessage). message_fits row.1 in
      let all = newer ++ (k, m) ∷ older in
      let shown = filter mine (reverse all) in
      let here = (nat_beq_iff m.conversation_id id).1 own in
      let inside : page_in_bounds 1 page_size ≡ true = ground arith in
      let split =
        length-filter-reverse fits mine all
        ∙ ap (λ (l : List (ℕ × StoredMessage)). length l)
            (filter-append mine newer ((k, m) ∷ older))
        ∙ length-append (filter mine newer) (filter mine ((k, m) ∷ older)) in
      let less = length-filter mine newer in
      let kept : length (filter mine ((k, m) ∷ older)) ≡ 1 + length (filter mine older) =
        rw here (omega arith) in
      let room : length shown ≤ page_size = omega (arith, split, less, kept, some_room) in
      let items = first_page page_size shown room in
      let spoiled : all_fit fits (paginate 1 page_size shown).items ≡ false =
        ap (all_fit fits) items ∙ unfit_shown fits mine newer (k, m) older here unfit in
      let found = messages_follow_access conversations id user_id 1 page_size t all in
      rw (inside, found, owner, spoiled) refl

module _ (backend : Backend) where
  -- the exchange on a message that cleaning leaves empty
  cleaned_away-process :
      (fields : List (Text × Value)) (id : ℕ) (c : Conversation) (s : Session backend) (t : Text)
      (x : ℕ) (raw : Text)
      → or_empty (get (codes "content") fields) ≡ text_value t
      → strip t ≡ x ∷ raw
      → backend.clean (x ∷ raw) ≡ []
      → backend.refusal (user_message backend id []) s.messages ≡ none
      → let k = backend.new_id s.messages in
        let saved : Session backend = record s {
          messages = (k, user_message backend id []) ∷ s.messages;
        } in
        process_chat_message backend fields id c s
        ≡ catching backend (respond backend id c (ok k, saved))
  unfolding process_chat_message exchange create_message
  cleaned_away-process fields id c s t x raw given stripped gone accepted =
      let m = user_message backend id [] in
      let k = backend.new_id s.messages in
      let saved : Session backend = record s { messages = (k, m) ∷ s.messages } in
      let stored : create_message backend m s ≡ (ok k, saved) =
        rw (create_message, accepted) refl in
      ap (λ v. catching backend (exchange backend id c (validate_message_content backend v s)))
        given
      ∙ ap (λ o. catching backend (exchange backend id c o))
          (cleaned_away backend t x raw s stripped gone)
      ∙ ap (λ o. catching backend (respond backend id c o)) stored

  -- A chat message of which cleaning leaves nothing, as `<b></b>`, makes its conversation unreadable: however the
  -- AI service answers, once the message is stored the owner's list of the messages fails with an unhandled
  -- exception, on a first page that has room for all messages, because the empty content does not fit the
  -- response schema.
  pub cleaned_away_unreadable :
      (fields : List (Text × Value)) (id user_id page_size : ℕ) (c : Conversation)
      (s : Session backend) (t : Text) (x : ℕ) (raw : Text)
      → or_empty (get (codes "content") fields) ≡ text_value t
      → strip t ≡ x ∷ raw
      → backend.clean (x ∷ raw) ≡ []
      → backend.refusal (user_message backend id []) s.messages ≡ none
      → get_conversation backend.conversations id user_id s.conversations ≡ ok c
      → length (of_conversation id s.messages) + 2 ≤ page_size
      → page_size ≤ 100
      → let after = (process_chat_message backend fields id c s).1 in
        list_messages_response backend.conversations id user_id 1 page_size after.conversations
          after.messages
        ≡ unhandled
  unfolding message_fits
  cleaned_away_unreadable fields id user_id page_size c s t x raw given stripped gone accepted owner
        room small =
      let k = backend.new_id s.messages in
      let m = user_message backend id [] in
      let saved : Session backend = record s { messages = (k, m) ∷ s.messages } in
      let responded = respond backend id c (ok k, saved) in
      let g =
        Grows-trans backend id 1 0 saved responded.1 (catching backend responded).1
          (respond-Grows backend id c (ok k, saved)) (catching-Grows backend id responded) in
      let few = g.few in
      let answer : Session backend → Type 0 = λ after.
        list_messages_response backend.conversations id user_id 1 page_size after.conversations
          after.messages
        ≡ unhandled in
      let enough : length g.added + length (of_conversation id s.messages) + 1 ≤ page_size =
        omega (arith, few, room) in
      rw (cleaned_away-process fields id c s t x raw given stripped gone accepted, g.rows, g.kept)
        (unfit_page backend.conversations id user_id page_size c s.conversations g.added k m
          s.messages owner refl refl enough small)
