-- ===== src/Unused/Syntax/Walk.antt =====
-- A walk of syntax trees that does what the documentation of `ast.walk` says.
use mathlib.Core.List.{Memᴰ}
use mathlib.Core.List.Memᴰ
use ai_chat_websocket.Prelude.{
  ℕ, zero, suc, ◌+◌, ◌≤◌, ◌≡◌, refl, ap, sym, subst, List, [], ◌∷◌, ◌++◌, arith,
}
use ai_chat_websocket.Unused.Syntax.{
  Node, function_def, class_def, assign, ann_assign, call_node, name_node, attribute_node,
  import_names, import_from, string_node, other_node, Nodes, no_more, more, to_list,
  iter_child_nodes,
}

-- the number of nodes
unfoldable mutual
  size : Node → ℕ
  size (function_def name lineno before decorators after) =
      suc (sizes before + (sizes decorators + sizes after))
  size (class_def name lineno before decorators after) =
      suc (sizes before + (sizes decorators + sizes after))
  size (assign lineno targets value) = suc (sizes targets + size value)
  size (ann_assign lineno target rest) = suc (size target + sizes rest)
  size (call_node func args) = suc (size func + sizes args)
  size (name_node id) = 1
  size (attribute_node value attr) = suc (size value)
  size (import_names aliases) = 1
  size (import_from aliases) = 1
  size (string_node value) = 1
  size (other_node children) = suc (sizes children)

  sizes : Nodes → ℕ
  sizes no_more = 0
  sizes (more n ns) = size n + sizes ns

-- The first node of the queue is visited and its children are added to the queue.
unfoldable visit : ℕ → List Node → List Node
unfolding iter_child_nodes
visit zero queue = []
visit (suc fuel) [] = []
visit (suc fuel) (n ∷ queue) = n ∷ visit fuel (queue ++ iter_child_nodes n)

-- as many steps as there are nodes
unfoldable pub walk : Node → List Node
unfolding visit size
walk tree = visit (size tree) (tree ∷ [])

abbrev total : List Node → ℕ
total [] = 0
total (n ∷ ns) = size n + total ns

total-append : (l m : List Node) → total (l ++ m) ≡ total l + total m
total-append [] m = omega arith
total-append (n ∷ l) m = omega (arith, total-append l m)

total-to_list : (ns : Nodes) → total (to_list ns) ≡ sizes ns
unfolding to_list sizes
total-to_list no_more = refl
total-to_list (more n ns) = ap (λ k. size n + k) (total-to_list ns)

total-parts :
    (a b c : Nodes) → total (to_list a ++ (to_list b ++ to_list c)) ≡ sizes a + (sizes b + sizes c)
total-parts a b c = rw (
  total-append (to_list a) (to_list b ++ to_list c),
  total-append (to_list b) (to_list c),
  total-to_list a,
  total-to_list b,
  total-to_list c,
)

size-children : (n : Node) → size n ≡ suc (total (iter_child_nodes n))
unfolding size iter_child_nodes
size-children (function_def name lineno a b c) = ap suc (sym (total-parts a b c))
size-children (class_def name lineno a b c) = ap suc (sym (total-parts a b c))
size-children (assign lineno targets value) =
    let parts = total-append (to_list targets) (value ∷ []) in
    let t = total-to_list targets in omega (arith, parts, t)
size-children (ann_assign lineno target rest) =
    ap (λ k. suc (size target + k)) (sym (total-to_list rest))
size-children (call_node func args) = ap (λ k. suc (size func + k)) (sym (total-to_list args))
size-children (name_node id) = refl
size-children (attribute_node value attr) = omega arith
size-children (import_names aliases) = refl
size-children (import_from aliases) = refl
size-children (string_node value) = refl
size-children (other_node children) = ap suc (sym (total-to_list children))

queue_step :
    (fuel : ℕ) (n : Node) (queue : List Node)
    → total (n ∷ queue) ≤ suc fuel
    → total (queue ++ iter_child_nodes n) ≤ fuel
queue_step fuel n queue h =
    let one = size-children n in
    let both = total-append queue (iter_child_nodes n) in omega (arith, one, both)

-- every node of the queue is visited
queue-visit :
    (fuel : ℕ) (queue : List Node) (n : Node)
    → total queue ≤ fuel
    → Memᴰ n queue
    → Memᴰ n (visit fuel queue)
unfolding visit
queue-visit fuel [] n h at = elim at [ ]
queue-visit zero (m ∷ queue) n h at = let one = size-children m in absurd (omega (arith, one))
queue-visit (suc fuel) (m ∷ queue) n h (Memᴰ.head e) = Memᴰ.head e
queue-visit (suc fuel) (m ∷ queue) n h (Memᴰ.tail at) = Memᴰ.tail (
    queue-visit fuel (queue ++ iter_child_nodes m) n (queue_step fuel m queue h)
      (Memᴰ.append_left (iter_child_nodes m) at))

visit-children :
    (fuel : ℕ) (queue : List Node) (n child : Node)
    → total queue ≤ fuel
    → Memᴰ n (visit fuel queue)
    → Memᴰ child (iter_child_nodes n)
    → Memᴰ child (visit fuel queue)
unfolding visit
visit-children zero queue n child h at below = absurd (Memᴰ.not-nil at)
visit-children (suc fuel) [] n child h at below = absurd (Memᴰ.not-nil at)
visit-children (suc fuel) (m ∷ queue) n child h (Memᴰ.head e) below = Memᴰ.tail (
    queue-visit fuel (queue ++ iter_child_nodes m) child (queue_step fuel m queue h)
      (Memᴰ.append_right queue (subst (λ k. Memᴰ child (iter_child_nodes k)) e below)))
visit-children (suc fuel) (m ∷ queue) n child h (Memᴰ.tail at) below =
    Memᴰ.tail (
      visit-children fuel (queue ++ iter_child_nodes m) n child (queue_step fuel m queue h) at
        below)

pub tree-walk : (tree : Node) → Memᴰ tree (walk tree)
unfolding walk
tree-walk tree = queue-visit (size tree) (tree ∷ []) tree (omega arith) (Memᴰ.head refl)

pub child-walk :
    (tree n child : Node)
    → Memᴰ n (walk tree)
    → Memᴰ child (iter_child_nodes n)
    → Memᴰ child (walk tree)
unfolding walk
child-walk tree n child = visit-children (size tree) (tree ∷ []) n child (omega arith)
