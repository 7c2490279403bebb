-- ===== src/Chat/Turns/Refinement.antt =====
-- The exchange with its awaits implements the single step.
use ai_chat_websocket.Prelude.{
  ℕ, false, ◌+◌, ◌≡◌, refl, ap, sym, ◌∙◌, subst, Text, codes, Option, none, some, List, [], ◌∷◌,
  ◌++◌, ok, err, Bool,
}
use ai_chat_websocket.Core.Errors.{Error}
use ai_chat_websocket.Chat.Tokens.{Message, get_token_limit}
use ai_chat_websocket.Chat.History.{build_chat_messages, get_conversation_history}
use ai_chat_websocket.Chat.Conversations.{Conversation}
use ai_chat_websocket.Chat.Client.{Chunk, content, usage, stream_chat}
use ai_chat_websocket.Chat.Protocol.{Value, get, or_empty}
use ai_chat_websocket.Chat.Session.{Backend, Session, Outcome, send}
use ai_chat_websocket.Chat.Exchange.{
  send_stream, create_message, validate_message_content, stream_chunks, stream_ai_response,
  raise_at_end, assistant_message, user_message, after_save, save_and_finalize_response, respond,
  exchange, rows_of, process_chat_message,
}
use ai_chat_websocket.Chat.Exchange.Failures.{create_message-identity, validate-identity}
use ai_chat_websocket.Chat.Turns.{
  finished, reading, streaming, storing, TurnMachine, finish, after_validation, begin_with,
  begin_turn, after_user_message, read_history, start_stream, next_chunk, after_answer_saved,
  store_answer, next_turn, TurnMove, resumed, TurnReach, here, next, Runs, arrived, onward,
}

module _ (backend : Backend) (id : ℕ) where
  onward_to :
      {m m' n : TurnMachine backend id}
      → next_turn backend id m ≡ m'
      → Runs backend id m' n
      → Runs backend id m n
  onward_to {m} {m'} {n} e r = onward (subst (λ x. Runs backend id x n) (sym e) r)

  module _ (c : Conversation) where
    saved :
        (o : Outcome backend ℕ) (full : Text) (n : ℕ) (history : List Message)
        → after_answer_saved backend id o c full n history
          ≡ finish backend id (after_save backend o c full n history)
    unfolding after_save
    saved (err e, s) full n history = refl
    saved (ok k, s) full n history = refl

    stores :
        (history : List Message) (total : ℕ) (full : Text) (used : ℕ × ℕ) (s : Session backend)
        → s.conversation ≡ some c
        → Runs backend id
            (storing history total full used, s)
            (finish backend id
              (save_and_finalize_response backend id c history total (ok (full, used), s)))
    unfolding next_turn store_answer save_and_finalize_response
    stores history total full used s e =
        onward_to
          (ap (λ o. store_answer backend id o history total full used s) e
            ∙ saved (create_message backend (assistant_message backend id c full used) s) full
                (total + used.1) history)
          (arrived _)

    streams :
        (history : List Message) (total : ℕ) (chunks : List Chunk) (ending : Option Error)
        (full : Text) (used : ℕ × ℕ) (s : Session backend)
        → s.conversation ≡ some c
        → let (answer, s') = stream_chunks backend chunks full used s in
          Runs backend id
            (streaming history total chunks ending full used, s)
            (finish backend id (
              save_and_finalize_response backend id c history total
                (raise_at_end backend ending answer, s')))
    unfolding next_turn next_chunk stream_chunks save_and_finalize_response send_stream send
    streams history total [] none full used s e = onward (stores history total full used s e)
    streams history total [] (some x) full used s e = onward (arrived _)
    streams history total (content d ∷ chunks) ending full used s e = onward (
        streams history total chunks ending (full ++ d) used (send_stream backend d false none s) e)
    streams history total (usage p q ∷ chunks) ending full used s e =
        onward (streams history total chunks ending full (p, q) s e)

    reads :
        (k : ℕ) (s : Session backend)
        → s.conversation ≡ some c
        → Runs backend id (reading, s) (finish backend id (respond backend id c (ok k, s)))
    unfolding next_turn start_stream respond stream_ai_response
    reads k s e =
        let (history, total_tokens) =
          get_conversation_history backend.tiktoken c.model (get_token_limit c.model)
            c.system_prompt c.summary (rows_of backend id s.messages) in
        let messages = build_chat_messages c.system_prompt c.summary history in
        let (chunks, ending) =
          stream_chat backend.tenacity (backend.stream messages c.model c.temperature) in
        onward_to (ap (λ o. read_history backend id o s) e) (
          onward_to (ap (λ o. start_stream backend id o history total_tokens s) e)
            (streams history total_tokens chunks ending [] (0, 0) s e))

    responds :
        (o : Outcome backend ℕ)
        → o.1.conversation ≡ some c
        → Runs backend id
            (after_user_message backend id o)
            (finish backend id (respond backend id c o))
    unfolding respond
    responds (err x, s) e = arrived _
    responds (ok k, s) e = reads k s e

    exchanges :
        (o : Outcome backend (Option Text))
        → o.1.conversation ≡ some c
        → Runs backend id
            (after_validation backend id o)
            (finish backend id (exchange backend id c o))
    unfolding exchange next_turn
    exchanges (err x, s) e = arrived _
    exchanges (ok none, s) e = arrived _
    exchanges (ok (some text), s) e =
        let m = user_message backend id text in
        onward (
          responds (create_message backend m s) (
            ap (λ (i : Bool × Option Conversation × Option ℕ × Option ℕ × Bool). i.1)
              (create_message-identity backend m s)
            ∙ e))

    -- On a connection that has its conversation, when nothing happens in between, the exchange with its
    -- awaits comes to its end, and has then done what `_process_chat_message` does as a single step.
    pub Runs-process :
        (fields : List (Text × Value)) (s : Session backend)
        → s.conversation ≡ some c
        → let (r, s') = process_chat_message backend fields id c s in
          Runs backend id (begin_turn backend id fields s) (finished r, s')
    unfolding begin_turn process_chat_message finish
    Runs-process fields s e =
        let v = or_empty (get (codes "content") fields) in
        let validated = validate_message_content backend v s in
        let kept =
          ap (λ (i : Bool × Option Conversation × Option ℕ × Option ℕ × Bool). i.1)
            (validate-identity backend v s)
          ∙ e in
        subst (λ m. Runs backend id m (finish backend id (exchange backend id c validated)))
          (sym (ap (λ o. begin_with backend id o fields s) e)) (exchanges validated kept)

  move_first :
      {m o n : TurnMachine backend id}
      → TurnMove backend id m o
      → TurnReach backend id o n
      → TurnReach backend id m n
  move_first move here = next here move
  move_first move (next r last) = next (move_first move r) last

  -- Running on is one way that things can go.
  pub Runs-TurnReach :
      {m n : TurnMachine backend id} → Runs backend id m n → TurnReach backend id m n
  Runs-TurnReach (arrived m) = here
  Runs-TurnReach {m} {n} (onward r) = move_first (resumed m) (Runs-TurnReach r)
