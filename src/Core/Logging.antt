-- ===== src/Core/Logging.antt =====
-- The log lines of backend/apps/core/log_config.py in production: `_add_context` and the dict that `json_sink`
-- writes.
use ai_chat_websocket.Prelude.{
  ℕ, ◌≡◌, refl, subst, not, ◌∙◌, Text, codes, Bool, true, false, Option, none, some, List, [], ◌∷◌,
  ◌==◌, text_eq, text_beq, if◌then◌else◌, Bool-cases, inl, inr,
}
use ai_chat_websocket.Core.Middleware.{LogContext}

pub data Field : Type 0 where
  text_field : Text → Field
  number_field : ℕ → Field

-- a dict of Python, in the order of its keys
abbrev pub Dict : Type 0
Dict = List (Text × Field)

-- `d[key] = value`: a key that is there keeps its place
unfoldable pub put : Text → Field → Dict → Dict
put key value [] = (key, value) ∷ []
put key value ((k, v) ∷ d) =
    let rest = put key value d in if k == key then (k, value) ∷ d else (k, v) ∷ rest

-- `{**d, **e}`
unfoldable pub merge : Dict → Dict → Dict
unfolding put
merge d [] = d
merge d ((key, value) ∷ e) = merge (put key value d) e

unfoldable pub lookup : Text → Dict → Option Field
lookup key [] = none
lookup key ((k, v) ∷ d) = if k == key then some v else lookup key d

-- The record of a line that loguru gives to the sink. `exception` is the formatted traceback, if the line has
-- an exception.
pub record LogRecord : Type 0 where
  pub time : Text
  pub level : Text
  pub message : Text
  pub name : Text
  pub function : Text
  pub line_number : ℕ
  pub extra : Dict
  pub exception : Option Text

-- `_add_context`
unfoldable pub add_context : LogContext → LogRecord → LogRecord
unfolding put
add_context context r = record r {
  extra = put (codes "request_id") (text_field context.request_id) r.extra;
}

unfoldable pub get_log_context : LogContext → Dict
get_log_context context =
    (codes "request_id", text_field context.request_id)
    ∷ (codes "user_id", text_field context.user_id)
    ∷ []

abbrev pub with_exception : Option Text → Dict → Dict
with_exception none d = d
with_exception (some trace) d = put (codes "exception") (text_field trace) d

-- the dict before the extra fields
abbrev pub base_record : LogContext → LogRecord → Dict
base_record context r =
    merge
      ((codes "timestamp", text_field r.time)
        ∷ (codes "level", text_field r.level)
        ∷ (codes "message", text_field r.message)
        ∷ (codes "module", text_field r.name)
        ∷ (codes "function", text_field r.function)
        ∷ (codes "line", number_field r.line_number)
        ∷ [])
      (get_log_context context)

-- `log_record` of `json_sink`
unfoldable pub json_record : LogContext → LogRecord → Dict
unfolding put merge get_log_context
json_record context r = with_exception r.exception (merge (base_record context r) r.extra)

-- What `setup_logging` adds: the sink of JSON lines or the one of coloured lines, with the lowest level.
pub data Sink : Type 0 where
  json_lines coloured_lines : (level : Text) → Sink

-- from the variable ENV, `local` where it is not set
unfoldable pub setup_logging : Option Text → Sink
setup_logging none = coloured_lines (codes "DEBUG")
setup_logging (some env) =
    if env == codes "prod" then json_lines (codes "INFO") else coloured_lines (codes "DEBUG")

lookup-put_self :
    (key : Text) (value : Field) (d : Dict) → lookup key (put key value d) ≡ some value
unfolding lookup put
lookup-put_self key value [] = rw ((text_eq.equal_iff key key).1 refl) refl
lookup-put_self key value ((k, v) ∷ d) = elim (Bool-cases (text_beq k key)) [
  | inl here ↦ rw here (rw here refl)
  | inr other ↦ rw other (rw other (lookup-put_self key value d))
]

lookup-put_ne :
    (key j : Text) (value : Field) (d : Dict)
    → text_beq key j ≡ false
    → lookup j (put key value d) ≡ lookup j d
unfolding lookup put
lookup-put_ne key j value [] ne = rw ne refl
lookup-put_ne key j value ((k, v) ∷ d) ne = elim (Bool-cases (text_beq k key)) [
  | inl here ↦
      let other : text_beq k j ≡ false = rw ((text_eq.equal_iff k key).0 here) ne in
      rw (here, other) refl
  | inr elsewhere ↦ elim (Bool-cases (text_beq k j)) [
    | inl found ↦ rw (elsewhere, found) refl
    | inr missed ↦ rw (elsewhere, missed) (lookup-put_ne key j value d ne)
  ]
]

-- whether a dict has the key
abbrev has_key : Text → Dict → Bool
has_key key [] = false
has_key key ((k, v) ∷ d) = if k == key then true else has_key key d

lookup-merge_absent :
    (key : Text) (d e : Dict) → has_key key e ≡ false → lookup key (merge d e) ≡ lookup key d
unfolding merge
lookup-merge_absent key d [] h = refl
lookup-merge_absent key d ((k, v) ∷ e) h = elim (Bool-cases (text_beq k key)) [
  | inl here ↦ cc (rw here at h)
  | inr other ↦
      lookup-merge_absent key (put k v d) e (rw other at h) ∙ lookup-put_ne k key v d other
]

-- whether a dict has the key at most once
abbrev has_once : Text → Dict → Bool
has_once key [] = true
has_once key ((k, v) ∷ d) = if k == key then not (has_key key d) else has_once key d

lookup-merge_put :
    (key : Text) (value : Field) (d e : Dict)
    → has_once key e ≡ true
    → lookup key (merge d (put key value e)) ≡ some value
unfolding merge put
lookup-merge_put key value d [] h = lookup-put_self key value d
lookup-merge_put key value d ((k, v) ∷ e) h = elim (Bool-cases (text_beq k key)) [
  | inl here ↦
      let same : k ≡ key = (text_eq.equal_iff k key).0 here in
      let absent : has_key key e ≡ false = absent_of (has_key key e) (rw here at h) in
      rw here (
        lookup-merge_absent key (put k value d) e absent
        ∙ subst (λ j. lookup j (put k value d) ≡ some value) same (lookup-put_self k value d))
  | inr other ↦ rw other (lookup-merge_put key value (put k v d) e (rw other at h))
]
  where
    absent_of : (b : Bool) → not b ≡ true → b ≡ false
    absent_of true n = cc n
    absent_of false n = refl

lookup-with_exception :
    (key : Text) (trace : Option Text) (d : Dict)
    → text_beq (codes "exception") key ≡ false
    → lookup key (with_exception trace d) ≡ lookup key d
lookup-with_exception key none d ne = refl
lookup-with_exception key (some trace) d ne =
    lookup-put_ne (codes "exception") key (text_field trace) d ne

written_user :
    (c : LogContext) (r : LogRecord)
    → lookup (codes "user_id") (base_record c r) ≡ some (text_field c.user_id)
unfolding lookup merge put get_log_context
written_user c r = refl

-- A log line in production carries the request's id and its user's: the id of the context in which the line
-- was logged, and the user of the context in which it is written, unless the line itself has a user_id.
logged_context :
    (logged written : LogContext) (r : LogRecord)
    → has_once (codes "request_id") r.extra ≡ true
    → has_key (codes "user_id") (add_context logged r).extra ≡ false
    → (lookup (codes "request_id") (json_record written (add_context logged r))
        ≡ some (text_field logged.request_id))
      × (lookup (codes "user_id") (json_record written (add_context logged r))
          ≡ some (text_field written.user_id))
unfolding json_record add_context
logged_context logged written r once absent = (
  lookup-with_exception (codes "request_id") r.exception _ refl
      ∙ lookup-merge_put (codes "request_id") (text_field logged.request_id) _ r.extra once,
  lookup-with_exception (codes "user_id") r.exception _ refl
      ∙ lookup-merge_absent (codes "user_id") _
          (put (codes "request_id") (text_field logged.request_id) r.extra) absent
      ∙ written_user written r,
)
