-- ===== src/Unused/Report/Constants.antt =====
-- The constants that check_unused_functions.py reports.
use mathlib.Core.List.{Memᴰ}
use mathlib.Core.List.Memᴰ
use ai_chat_websocket.Prelude.{
  ℕ, ◌≡◌, refl, sym, subst, Text, true, Option, List, [], ◌∷◌, ◌++◌, ◌==◌, nat_eq, text_eq, ==_refl,
  Bool-cases, Option-cases, inl, inr,
}
use ai_chat_websocket.Unused.Syntax.{
  Node, name_node, assign, ann_assign, other_node, to_list, iter_child_nodes,
}
use ai_chat_websocket.Unused.Known.{skip_files_for_definitions}
use ai_chat_websocket.Unused.Extract.{
  contains, Definitions, set_item, add_all, Python, is_constant, add_target, add_variable,
  extract_variable_definitions,
}
use ai_chat_websocket.Unused.Extract.References.{
  node_references, all_references, extract_references,
}
use ai_chat_websocket.Unused.Report.Files.{definition_file-Memᴰ}
use ai_chat_websocket.Unused.Report.Referenced.{AllReferenced, collect-none}
use ai_chat_websocket.Unused.Report.{PyFile, get_python_files, references_in, find_unused_symbols}

set_item-AllReferenced :
    (references : List Text) (name : Text) (lineno : ℕ) (ds : Definitions)
    → contains references name ≡ true
    → AllReferenced references ds
    → AllReferenced references (set_item name lineno ds)
unfolding set_item
set_item-AllReferenced references name lineno [] e h = (e, tt)
set_item-AllReferenced references name lineno ((k, v) ∷ ds) e h = elim (Bool-cases (k == name)) [
  | inl same ↦ rw same h
  | inr apart ↦ rw apart (h.0, set_item-AllReferenced references name lineno ds e h.1)
]

add_all-keeps :
    {A : Type 0} (P : Definitions → Type 0) (add : A → Definitions → Definitions) (xs : List A)
    (ds : Definitions)
    → ((x : A) (es : Definitions) → Memᴰ x xs → P es → P (add x es))
    → P ds
    → P (add_all add xs ds)
unfolding add_all
add_all-keeps P add [] ds keeps h = h
add_all-keeps P add (x ∷ xs) ds keeps h =
    add_all-keeps P add xs (add x ds) (λ y es at. keeps y es (Memᴰ.tail at))
      (keeps x ds (Memᴰ.head refl) h)

contains-append_left :
    (l m : List Text) (x : Text) → contains l x ≡ true → contains (l ++ m) x ≡ true
unfolding contains
contains-append_left [] m x h = cc h
contains-append_left (y ∷ l) m x h = elim (Bool-cases (y == x)) [
  | inl same ↦ rw same
  | inr apart ↦ rw apart (contains-append_left l m x (rw (← h, apart)))
]

contains-append_right :
    (l m : List Text) (x : Text) → contains m x ≡ true → contains (l ++ m) x ≡ true
unfolding contains
contains-append_right [] m x h = h
contains-append_right (y ∷ l) m x h = elim (Bool-cases (y == x)) [
  | inl same ↦ rw same
  | inr apart ↦ rw apart (contains-append_right l m x h)
]

module _ (python : Python) where
  contains-all_references :
      (ns : List Node) (id : Text)
      → Memᴰ (name_node id) ns
      → contains (all_references python ns) id ≡ true
  unfolding all_references node_references contains
  contains-all_references [] id at = elim at [ ]
  contains-all_references (n ∷ ns) id (Memᴰ.head e) =
      contains-append_left (node_references python n) (all_references python ns) id
        (subst (λ k. contains (node_references python k) id ≡ true) e (rw (==_refl id)))
  contains-all_references (n ∷ ns) id (Memᴰ.tail at) =
      contains-append_right (node_references python n) (all_references python ns) id
        (contains-all_references ns id at)

  module _ (references : List Text) where
    target-AllReferenced :
        (lineno : ℕ) (n : Node) (ds : Definitions)
        → ((id : Text) → n ≡ name_node id → contains references id ≡ true)
        → AllReferenced references ds
        → AllReferenced references (add_target python lineno n ds)
    unfolding add_target
    target-AllReferenced lineno (name_node id) ds known h =
        elim (Bool-cases (is_constant python id)) [
          | inl upper ↦ rw upper (set_item-AllReferenced references id lineno ds (known id refl) h)
          | inr lower ↦ rw lower h
        ]
    target-AllReferenced lineno n ds known h = h

    variable-AllReferenced :
        (n : Node) (ds : Definitions)
        → ((id : Text) → Memᴰ (name_node id) (iter_child_nodes n) → contains references id ≡ true)
        → AllReferenced references ds
        → AllReferenced references (add_variable python n ds)
    unfolding add_variable iter_child_nodes
    variable-AllReferenced (assign lineno targets value) ds known h =
        add_all-keeps (AllReferenced references) (add_target python lineno) (to_list targets) ds
          (λ x es at. target-AllReferenced lineno x es (λ id e.
            known id (Memᴰ.append_left (value ∷ []) (subst (λ k. Memᴰ k (to_list targets)) e at))))
          h
    variable-AllReferenced (ann_assign lineno target rest) ds known h =
        target-AllReferenced lineno target ds (λ id e. known id (Memᴰ.head (sym e))) h
    variable-AllReferenced n ds known h = h

    -- The constants of a file are referred to by the assignments that define them.
    extracted-AllReferenced :
        (source : Text)
        → ((id : Text)
            → contains (extract_references python source) id ≡ true
            → contains references id ≡ true)
        → AllReferenced references (extract_variable_definitions python source)
    unfolding extract_variable_definitions extract_references iter_child_nodes
    extracted-AllReferenced source known = elim (Option-cases (python.parse source)) [
      | inl broken ↦ rw (extract_variable_definitions, broken) tt
      | inr (body, parsed) ↦
          let tree = other_node body in
          let seen : (id : Text)
              → Memᴰ (name_node id) (python.walk tree)
              → contains references id ≡ true =
            λ id at. known id (
              rw (extract_references, parsed) (contains-all_references (python.walk tree) id at)) in
          rw (extract_variable_definitions, parsed)
            (add_all-keeps (AllReferenced references) (add_variable python) (to_list body) []
              (λ n es at. variable-AllReferenced n es (λ id below. seen id (
                python.walk_children tree n (name_node id)
                  (python.walk_children tree tree n (python.walk_root tree) at) below)))
              tt)
    ]

  references_in-contains :
      (path : PyFile) (paths : List PyFile) (id : Text)
      → Memᴰ path paths
      → contains (extract_references python path.source) id ≡ true
      → contains (references_in python paths) id ≡ true
  unfolding references_in
  references_in-contains path [] id at h = elim at [ ]
  references_in-contains path (p ∷ paths) id (Memᴰ.head e) h =
      contains-append_left (extract_references python p.source) (references_in python paths) id
        (subst (λ q. contains (extract_references python q.source) id ≡ true) e h)
  references_in-contains path (p ∷ paths) id (Memᴰ.tail at) h =
      contains-append_right (extract_references python p.source) (references_in python paths) id
        (references_in-contains path paths id at h)

module _ (python : Python) (rglob : Text → Option (List PyFile)) where
  -- No constant is ever reported as unused: the name on the left of its own assignment counts as a
  -- reference to it.
  pub constants_never_reported : (apps : List Text) → (find_unused_symbols python rglob apps).2 ≡ []
  unfolding find_unused_symbols
  constants_never_reported apps =
      let all_files = get_python_files python rglob apps [] in
      collect-none (references_in python all_files) (extract_variable_definitions python)
        (get_python_files python rglob apps skip_files_for_definitions)
        (λ path at.
          extracted-AllReferenced python (references_in python all_files) path.source (λ id.
            references_in-contains python path all_files id
              (definition_file-Memᴰ python rglob apps skip_files_for_definitions path at)))
