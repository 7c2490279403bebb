-- ===== src/Chat/Tests.antt =====
-- The theorems on pages, conversations and the AI client at concrete inputs.
use ai_chat_websocket.Prelude.{
  ℕ, ◌≡◌, ◌≢◌, refl, subst, some-injective, Bool-cases, inl, inr, nat_beq, codes, true, false,
  Option, none, some, List, [], ◌∷◌, pos, err, ◌==◌, nat_eq, text_eq, if◌then◌else◌, arith,
}
use ai_chat_websocket.Platform.KeyStore.{KeyStore, accepting}
use ai_chat_websocket.Chat.Pages.Walk.{walk, walk-eq-rows}
use ai_chat_websocket.Chat.Conversations.{
  Conversation, ConversationUpdate, ConversationCreate, conversation_not_found, get_conversation,
  update_conversation, delete_conversation,
}
use ai_chat_websocket.Chat.Conversations.Ownership.{foreign_not_found}
use ai_chat_websocket.Chat.Conversations.Validity.{is_valid, AllValid}
use ai_chat_websocket.Chat.Endpoints.{
  list_conversations, create_conversation_api, get_conversation_api, update_conversation_api,
  delete_conversation_api,
}
use ai_chat_websocket.Chat.Responses.{
  list_conversations_response, create_conversation_response, get_conversation_response,
  update_conversation_response,
}
use ai_chat_websocket.Chat.Responses.Soundness.{conversations_fit}

abbrev seven : List ℕ
seven = 1 ∷ 2 ∷ 3 ∷ 4 ∷ 5 ∷ 6 ∷ 7 ∷ []

walk-eq-rows_example : walk 3 seven 8 1 ≡ seven
walk-eq-rows_example = walk-eq-rows 3 seven 8 (omega arith) (omega arith)

abbrev table : KeyStore ℕ Conversation
table = accepting (λ c. true)

abbrev first_conversation : Conversation
first_conversation = record {
  id = 5;
  user_id = 1;
  title = codes "first";
  model = codes "gpt-4o";
  system_prompt = codes "be brief";
  temperature = pos 700;
  is_archived = false;
  summary = [];
  summary_token_count = 0;
  last_summarized_at = none;
}

abbrev one_row : ℕ → Option Conversation
one_row id = if id == 5 then some first_conversation else none

abbrev new_title : ConversationUpdate
new_title = record {
  title = some (codes "second");
  model = none;
  system_prompt = none;
  temperature = none;
  is_archived = none;
}

abbrev third : ConversationCreate
third = record {
  title = codes "third";
  model = codes "gpt-4o-mini";
  system_prompt = codes "be kind";
  temperature = pos 0;
}

foreign_not_found_example :
    (get_conversation table 5 2 one_row ≡ err conversation_not_found)
    × (update_conversation table 5 2 new_title one_row ≡ (err conversation_not_found, one_row))
    × (delete_conversation table 5 2 one_row ≡ (err conversation_not_found, one_row))
foreign_not_found_example =
    let other_user : 1 ≢ 2 = λ e. omega (arith, e) in
    foreign_not_found table 5 2 one_row new_title other_user

no_rows-AllValid : AllValid table (λ id. none)
no_rows-AllValid id c e = cc e

one_row-AllValid : AllValid table one_row
one_row-AllValid id c e = elim (Bool-cases (nat_beq id 5)) [
  | inl fifth ↦
      subst (λ d. is_valid d ≡ true) (some-injective first_conversation c (rw fifth at e)) refl
  | inr other ↦ cc (rw other at e)
]

conversations_fit_example :
    (create_conversation_response table 6 1 third one_row
      ≡ create_conversation_api table 6 1 third one_row)
    × (get_conversation_response table 5 1 one_row ≡ get_conversation_api table 5 1 one_row)
    × (update_conversation_response table 5 1 new_title one_row
        ≡ update_conversation_api table 5 1 new_title one_row)
    × (list_conversations_response 1 false 1 20 (first_conversation ∷ [])
        ≡ list_conversations 1 false 1 20 (first_conversation ∷ []))
    × AllValid table (create_conversation_response table 6 1 third one_row).1
    × AllValid table (update_conversation_response table 5 1 new_title one_row).1
    × AllValid table (delete_conversation_api table 5 1 one_row).1
conversations_fit_example =
    conversations_fit table 5 6 1 third new_title one_row false 1 20 (first_conversation ∷ [])
      one_row-AllValid refl
