-- ===== src/Unused/Syntax.antt =====
-- The syntax trees of Python as far as check_unused_functions.py looks at them.
pub mod Walk
use ai_chat_websocket.Prelude.{ℕ, zero, suc, ◌+◌, Text, Option, List, [], ◌∷◌, ◌++◌}

pub record Alias : Type 0 where
  pub name : Text
  pub asname : Option Text

-- The nodes that are told apart. A function or class has its children before its decorators, these, and
-- its children after them, as the fields of the node are in order; an annotated assignment has its target
-- first, a call its function. `other_node` is any other node.
mutual
  pub data Node : Type 0 where
    function_def class_def : (name : Text) (lineno : ℕ) (before decorators after : Nodes) → Node
    assign : (lineno : ℕ) (targets : Nodes) (value : Node) → Node
    ann_assign : (lineno : ℕ) (target : Node) (rest : Nodes) → Node
    call_node : (func : Node) (args : Nodes) → Node
    name_node : (id : Text) → Node
    attribute_node : (value : Node) (attr : Text) → Node
    import_names import_from : List Alias → Node
    string_node : Text → Node
    other_node : Nodes → Node

  pub data Nodes : Type 0 where
    no_more : Nodes
    more : Node → Nodes → Nodes

unfoldable pub to_list : Nodes → List Node
to_list no_more = []
to_list (more n ns) = n ∷ to_list ns

-- `ast.iter_child_nodes`
unfoldable pub iter_child_nodes : Node → List Node
unfolding to_list
iter_child_nodes (function_def name lineno before decorators after) =
    to_list before ++ (to_list decorators ++ to_list after)
iter_child_nodes (class_def name lineno before decorators after) =
    to_list before ++ (to_list decorators ++ to_list after)
iter_child_nodes (assign lineno targets value) = to_list targets ++ value ∷ []
iter_child_nodes (ann_assign lineno target rest) = target ∷ to_list rest
iter_child_nodes (call_node func args) = func ∷ to_list args
iter_child_nodes (name_node id) = []
iter_child_nodes (attribute_node value attr) = value ∷ []
iter_child_nodes (import_names aliases) = []
iter_child_nodes (import_from aliases) = []
iter_child_nodes (string_node value) = []
iter_child_nodes (other_node children) = to_list children
