-- ===== src/Chat/Conversations.antt =====
-- Conversations: backend/apps/chat/models.py, the conversation services of services.py, their request
-- schemas in schemas.py and the endpoints of api.py.
pub mod Ownership
pub mod Validity
pub mod Summaries
use ai_chat_websocket.Prelude.{
  ℕ, ◌≤◌, ℤ, pos, negsuc, Text, codes, Bool, true, false, ◌&&◌, ◌||◌, not, Option, none, some, List,
  [], ◌∷◌, length, leb, Result, ok, err, ◌>>=◌, or_raise, ◌==◌, nat_eq, text_eq, if◌then◌else◌,
}
use ai_chat_websocket.Platform.KeyStore.{KeyStore}
use ai_chat_websocket.Core.Errors.{Error, not_found_error, database_error}

-- A temperature is counted in thousandths.
pub record Conversation : Type 0 where
  pub id : ℕ
  pub user_id : ℕ
  pub title : Text
  pub model : Text
  pub system_prompt : Text
  pub temperature : ℤ
  pub is_archived : Bool
  pub summary : Text
  pub summary_token_count : ℕ
  pub last_summarized_at : Option ℕ

abbrev pub supported_models : List Text
supported_models =
    codes "gpt-4o" ∷ codes "gpt-4o-mini" ∷ codes "gpt-4-turbo" ∷ codes "gpt-3.5-turbo" ∷ []

pub record ConversationCreate : Type 0 where
  pub title : Text
  pub model : Text
  pub system_prompt : Text
  pub temperature : ℤ

pub record ConversationUpdate : Type 0 where
  pub title : Option Text
  pub model : Option Text
  pub system_prompt : Option Text
  pub temperature : Option ℤ
  pub is_archived : Option Bool

-- `Field(min_length=low, max_length=high)`
abbrev pub length_within : ℕ → ℕ → Text → Bool
length_within low high s = leb low (length s) && leb (length s) high

abbrev pub is_one_of : List Text → Text → Bool
is_one_of [] s = false
is_one_of (x ∷ xs) s = x == s || is_one_of xs s

-- `Field(ge=0.0, le=2.0)`
abbrev pub temperature_ok : ℤ → Bool
temperature_ok (pos n) = leb n 2000
temperature_ok (negsuc n) = false

abbrev pub if_given : {A : Type 0} → (A → Bool) → Option A → Bool
if_given p none = true
if_given p (some a) = p a

abbrev pub is_given : {A : Type 0} → Option A → Bool
is_given none = false
is_given (some a) = true

unfoldable pub validate_create : ConversationCreate → Bool
validate_create p =
    length_within 1 255 p.title
    && is_one_of supported_models p.model
    && length_within 1 10000 p.system_prompt
    && temperature_ok p.temperature

unfoldable pub validate_at_least_one_field : ConversationUpdate → Bool
validate_at_least_one_field p =
    is_given p.title
    || is_given p.model
    || is_given p.system_prompt
    || is_given p.temperature
    || is_given p.is_archived

unfoldable pub validate_update : ConversationUpdate → Bool
unfolding validate_at_least_one_field
validate_update p =
    if_given (length_within 1 255) p.title
    && if_given (is_one_of supported_models) p.model
    && if_given (length_within 1 10000) p.system_prompt
    && if_given temperature_ok p.temperature
    && validate_at_least_one_field p

abbrev pub given_or : {A : Type 0} → A → Option A → A
given_or old none = old
given_or old (some new) = new

-- the assignments of `update_conversation`
unfoldable pub with_updates : ConversationUpdate → Conversation → Conversation
with_updates p c = record c {
  title = given_or c.title p.title;
  model = given_or c.model p.model;
  system_prompt = given_or c.system_prompt p.system_prompt;
  temperature = given_or c.temperature p.temperature;
  is_archived = given_or c.is_archived p.is_archived;
}

unfoldable pub new_conversation : ℕ → ℕ → ConversationCreate → Conversation
new_conversation id user_id p = record {
  id = id;
  user_id = user_id;
  title = p.title;
  model = p.model;
  system_prompt = p.system_prompt;
  temperature = p.temperature;
  is_archived = false;
  summary = [];
  summary_token_count = 0;
  last_summarized_at = none;
}

-- the assignments of `update_conversation_summary`
unfoldable pub with_summary : Text → ℕ → ℕ → Conversation → Conversation
with_summary summary token_count now c = record c {
  summary = summary;
  summary_token_count = token_count;
  last_summarized_at = some now;
}

abbrev pub conversation_not_found : Error
conversation_not_found = not_found_error (codes "Conversation not found")

module _ (conversations : KeyStore ℕ Conversation) where
  -- `WHERE id = ... AND user_id = ...`, on the row that the key finds
  abbrev pub owned : ℕ → ℕ → Option Conversation → Option Conversation
  owned id user_id none = none
  owned id user_id (some c) = if c.id == id && c.user_id == user_id then some c else none

  -- `Conversation.objects.get(id=..., user_id=...)`
  unfoldable pub get_conversation : ℕ → ℕ → conversations.State → Result Error Conversation
  get_conversation id user_id t =
      or_raise (owned id user_id (conversations.find id t)) conversation_not_found

  unfoldable pub save_if_changed :
      ℕ
      → ConversationUpdate
      → Conversation
      → conversations.State
      → Result Error Conversation × conversations.State
  save_if_changed id p c t =
      if validate_at_least_one_field p
      then (elim (conversations.put id (with_updates p c) t) [
        | none ↦ (err database_error, t)
        | some t' ↦ (ok (with_updates p c), t')
      ])
      else (ok (with_updates p c), t)

  unfoldable pub update_conversation :
      ℕ
      → ℕ
      → ConversationUpdate
      → conversations.State
      → Result Error Conversation × conversations.State
  unfolding save_if_changed
  update_conversation id user_id p t = elim (get_conversation id user_id t) [
    | err e ↦ (err e, t)
    | ok c ↦ save_if_changed id p c t
  ]

  unfoldable pub delete_conversation :
      ℕ → ℕ → conversations.State → Result Error (Unit {0}) × conversations.State
  delete_conversation id user_id t = elim (get_conversation id user_id t) [
    | err e ↦ (err e, t)
    | ok c ↦ (ok tt, conversations.remove id t)
  ]

  -- `id` is the key that the new row is given
  unfoldable pub create_conversation :
      ℕ
      → ℕ
      → ConversationCreate
      → conversations.State
      → Result Error Conversation × conversations.State
  unfolding new_conversation
  create_conversation id user_id p t =
      elim (conversations.put id (new_conversation id user_id p) t) [
        | none ↦ (err database_error, t)
        | some t' ↦ (ok (new_conversation id user_id p), t')
      ]

  -- `conversation.save(update_fields=[...])` of the fields of the summary: the row keeps its other
  -- fields, and a row that is not there any more is an error.
  unfoldable pub save_summary_fields :
      ℕ → Text → ℕ → ℕ → Option Conversation → conversations.State → Option conversations.State
  unfolding with_summary
  save_summary_fields id summary token_count now none t = none
  save_summary_fields id summary token_count now (some row) t =
      conversations.put id (with_summary summary token_count now row) t

  -- `update_conversation_summary`; the object that it is given keeps the new summary even where the
  -- row is refused.
  unfoldable pub update_conversation_summary :
      ℕ
      → Text
      → ℕ
      → ℕ
      → Conversation
      → conversations.State
      → Result Error Conversation × conversations.State
  unfolding with_summary save_summary_fields
  update_conversation_summary id summary token_count now c t =
      elim (save_summary_fields id summary token_count now (conversations.find id t) t) [
        | none ↦ (err database_error, t)
        | some t' ↦ (ok (with_summary summary token_count now c), t')
      ]
