-- ===== src/Unused/Extract/References.antt =====
-- `extract_references` of check_unused_functions.py.
use ai_chat_websocket.Prelude.{
  Text, Option, none, some, List, [], ◌∷◌, ◌++◌, ◌==◌, nat_eq, if◌then◌else◌, map,
}
use ai_chat_websocket.Unused.Syntax.{
  Alias, Node, call_node, name_node, attribute_node, import_names, import_from, string_node,
  other_node,
}
use ai_chat_websocket.Unused.Extract.{Python}

-- `alias.asname if alias.asname else alias.name`
abbrev pub or_name : Option Text → Text → Text
or_name (some (c ∷ s)) name = c ∷ s
or_name (some []) name = name
or_name none name = name

abbrev pub alias_name : Alias → Text
alias_name alias = or_name alias.asname alias.name

-- `name.split(".")[0]`
unfoldable pub first_part : Text → Text
first_part [] = []
first_part (c ∷ s) = if c == b'.' then [] else c ∷ first_part s

-- what follows the last dot, if there is a dot
unfoldable pub last_part : Text → Option Text
last_part [] = none
last_part (c ∷ s) = elim (last_part s) [
  | some part ↦ some part
  | none ↦ if c == b'.' then some s else none
]

unfoldable pub called_name : Node → List Text
called_name (name_node id) = id ∷ []
called_name (attribute_node value attr) = attr ∷ []
called_name node = []

module _ (python : Python) where
  abbrev pub if_identifier : Text → List Text
  if_identifier name = if python.is_identifier name then name ∷ [] else []

  -- a text with dots stands for its last part
  unfoldable pub string_names : Text → List Text
  unfolding last_part
  string_names value = elim (last_part value) [
    | some part ↦ if_identifier part
    | none ↦ if_identifier value
  ]

  unfoldable pub node_references : Node → List Text
  unfolding called_name string_names first_part
  node_references (call_node func args) = called_name func
  node_references (name_node id) = id ∷ []
  node_references (attribute_node value attr) = attr ∷ []
  node_references (import_names aliases) = map (λ a. first_part (alias_name a)) aliases
  node_references (import_from aliases) = map alias_name aliases
  node_references (string_node value) = string_names value
  node_references node = []

  unfoldable pub all_references : List Node → List Text
  unfolding node_references
  all_references [] = []
  all_references (n ∷ ns) = node_references n ++ all_references ns

  unfoldable pub extract_references : Text → List Text
  unfolding all_references
  extract_references source = elim (python.parse source) [
    | none ↦ []
    | some body ↦ all_references (python.walk (other_node body))
  ]
