-- ===== src/Unused/Extract.antt =====
-- What check_unused_functions.py takes from one file: the functions, classes and constants that it
-- defines, and the names that it refers to.
pub mod References
use mathlib.Core.List.{Memᴰ}
use ai_chat_websocket.Prelude.{
  ℕ, Text, codes, Bool, true, false, ◌&&◌, ◌||◌, not, Option, none, some, List, [], ◌∷◌, ◌++◌,
  filter, ◌==◌, nat_eq, text_eq, if◌then◌else◌,
}
use ai_chat_websocket.Unused.Syntax.{
  Node, function_def, class_def, assign, ann_assign, call_node, name_node, attribute_node, Nodes,
  to_list, other_node, iter_child_nodes,
}
use ai_chat_websocket.Unused.Ignored.{ignored_functions, ignored_classes}
use ai_chat_websocket.Unused.Known.{ignored_variables, external_use_decorators}

-- `in` a set of names
unfoldable pub contains : List Text → Text → Bool
contains [] x = false
contains (y ∷ ys) x = y == x || contains ys x

unfoldable pub starts_with : Text → Text → Bool
starts_with [] s = true
starts_with (p ∷ ps) [] = false
starts_with (p ∷ ps) (c ∷ s) = p == c && starts_with ps s

unfoldable pub ends_with : Text → Text → Bool
ends_with p [] = p == []
ends_with p (c ∷ s) = p == c ∷ s || ends_with p s

unfoldable pub any : {A : Type 0} → (A → Bool) → List A → Bool
any p [] = false
any p (x ∷ xs) = p x || any p xs

-- the names with their lines, in the order of a dict
abbrev pub Definitions : Type 0
Definitions = List (Text × ℕ)

-- `definitions[name] = lineno`
unfoldable pub set_item : Text → ℕ → Definitions → Definitions
set_item name lineno [] = (name, lineno) ∷ []
set_item name lineno ((k, v) ∷ ds) =
    let rest = set_item name lineno ds in if k == name then (k, lineno) ∷ ds else (k, v) ∷ rest

abbrev pub underscore : Text
underscore = codes "_"

-- a decorator, or what it calls, under a name of a method in `attrs` or of a function in `ids`
unfoldable pub is_named : List Text → List Text → Node → Bool
unfolding contains
is_named attrs ids (attribute_node value attr) = contains attrs attr
is_named attrs ids (name_node id) = contains ids id
is_named attrs ids node = false

unfoldable pub is_named_decorator : List Text → List Text → Node → Bool
unfolding is_named
is_named_decorator attrs ids (call_node func args) = is_named attrs ids func
is_named_decorator attrs ids node = is_named attrs ids node

unfoldable pub has_external_use_decorator : Nodes → Bool
unfolding is_named_decorator any to_list
has_external_use_decorator decorators =
    any (is_named_decorator external_use_decorators external_use_decorators) (to_list decorators)

unfoldable pub has_external_use_class_decorator : Nodes → Bool
unfolding is_named_decorator any to_list
has_external_use_class_decorator decorators =
    any
      (is_named_decorator (codes "register" ∷ []) (codes "dataclass" ∷ codes "total_ordering" ∷ []))
      (to_list decorators)

unfoldable pub is_ignored_function : Text → Bool
unfolding any starts_with
is_ignored_function name =
    starts_with underscore name
    || any (λ ignored. name == ignored || starts_with ignored name) ignored_functions

unfoldable pub is_ignored_class : Text → Bool
unfolding any starts_with ends_with
is_ignored_class name =
    starts_with underscore name
    || any (λ ignored. name == ignored || ends_with ignored name) ignored_classes

-- one node of the walk
unfoldable pub add_function : Node → Definitions → Definitions
unfolding is_ignored_function has_external_use_decorator set_item
add_function (function_def name lineno before decorators after) ds =
    if is_ignored_function name || has_external_use_decorator decorators
    then ds
    else set_item name lineno ds
add_function node ds = ds

unfoldable pub add_class : Node → Definitions → Definitions
unfolding is_ignored_class has_external_use_class_decorator set_item
add_class (class_def name lineno before decorators after) ds =
    if is_ignored_class name || has_external_use_class_decorator decorators
    then ds
    else set_item name lineno ds
add_class node ds = ds

unfoldable pub add_all :
    {A : Type 0} → (A → Definitions → Definitions) → List A → Definitions → Definitions
add_all add [] ds = ds
add_all add (x ∷ xs) ds = add_all add xs (add x ds)

-- What Python gives: `ast.parse`, `none` for a SyntaxError, the tests on texts, and `ast.walk`, which yields the node and
-- all its descendants.
pub record Python : Type 0 where
  pub parse : Text → Option Nodes
  pub is_upper : Text → Bool
  pub is_identifier : Text → Bool
  pub walk : Node → List Node
  pub walk_root : (tree : Node) → Memᴰ tree (walk tree)
  pub walk_children :
      (tree n child : Node)
      → Memᴰ n (walk tree)
      → Memᴰ child (iter_child_nodes n)
      → Memᴰ child (walk tree)

module _ (python : Python) where
  unfoldable pub extract_function_definitions : Text → Definitions
  unfolding add_all add_function
  extract_function_definitions source = elim (python.parse source) [
    | none ↦ []
    | some body ↦ add_all add_function (python.walk (other_node body)) []
  ]

  unfoldable pub extract_class_definitions : Text → Definitions
  unfolding add_all add_class
  extract_class_definitions source = elim (python.parse source) [
    | none ↦ []
    | some body ↦ add_all add_class (python.walk (other_node body)) []
  ]

  unfoldable pub is_constant : Text → Bool
  unfolding contains starts_with
  is_constant name =
      let rest = filter (λ c. not (c == b'_')) name in
      (python.is_upper name || (not (name == rest) && python.is_upper rest))
      && not (starts_with underscore name)
      && not (contains ignored_variables name)

  -- a target of an assignment on line `lineno`
  unfoldable pub add_target : ℕ → Node → Definitions → Definitions
  unfolding is_constant set_item
  add_target lineno (name_node id) ds = if is_constant id then set_item id lineno ds else ds
  add_target lineno node ds = ds

  -- a statement of the module
  unfoldable pub add_variable : Node → Definitions → Definitions
  unfolding add_all add_target to_list
  add_variable (assign lineno targets value) ds = add_all (add_target lineno) (to_list targets) ds
  add_variable (ann_assign lineno target rest) ds = add_target lineno target ds
  add_variable node ds = ds

  unfoldable pub extract_variable_definitions : Text → Definitions
  unfolding add_all add_variable to_list
  extract_variable_definitions source = elim (python.parse source) [
    | none ↦ []
    | some body ↦ add_all add_variable (to_list body) []
  ]
