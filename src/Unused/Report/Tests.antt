-- ===== src/Unused/Report/Tests.antt =====
-- Runs of check_unused_functions.py on small files, and its theorems there.
use ai_chat_websocket.Prelude.{
  ◌↔◌, ◌≡◌, refl, Text, codes, true, false, Option, none, some, List, [], ◌∷◌, if◌then◌else◌, ◌==◌,
  text_eq,
}
use ai_chat_websocket.Unused.Syntax.{
  Nodes, no_more, more, function_def, assign, name_node, call_node,
}
use ai_chat_websocket.Unused.Syntax.Walk.{walk, tree-walk, child-walk}
use ai_chat_websocket.Unused.Extract.{
  Python, extract_function_definitions, extract_class_definitions, extract_variable_definitions,
  is_ignored_function,
}
use ai_chat_websocket.Unused.Report.{PyFile, find_unused_symbols, main, exit_code}
use ai_chat_websocket.Unused.Report.Verdict.{IsClean, exit_code-IsClean}
use ai_chat_websocket.Unused.Report.Constants.{constants_never_reported}

-- LIMIT = other(); def helper(): pass
abbrev body : Nodes
body =
    more
      (assign 1 (more (name_node (codes "LIMIT")) no_more)
        (call_node (name_node (codes "other")) no_more))
      (more (function_def (codes "helper") 2 no_more no_more no_more) no_more)

abbrev python : Python
python = record {
  parse = λ source. some body;
  is_upper = λ s. s == codes "LIMIT";
  is_identifier = λ s. false;
  walk = walk;
  walk_root = tree-walk;
  walk_children = child-walk;
}

abbrev utils : PyFile
utils = record { parts = codes "apps" ∷ codes "utils.py" ∷ []; source = [] }

abbrev rglob : Text → Option (List PyFile)
rglob app = if app == codes "apps" then some (utils ∷ []) else none

ignored_by_prefix : is_ignored_function (codes "handle_openai_errors") ≡ true
unfolding is_ignored_function
ignored_by_prefix = refl

only_the_function :
    find_unused_symbols python rglob (codes "apps" ∷ [])
    ≡ ((utils, (codes "helper", 2) ∷ []) ∷ [], [], [])
unfolding find_unused_symbols walk extract_function_definitions extract_class_definitions
    extract_variable_definitions
only_the_function = refl

fails : main python rglob ≡ 1
unfolding main walk extract_function_definitions extract_class_definitions
    extract_variable_definitions
fails = refl

constants_never_reported_example : (find_unused_symbols python rglob (codes "apps" ∷ [])).2 ≡ []
constants_never_reported_example = constants_never_reported python rglob (codes "apps" ∷ [])

exit_code-IsClean_example :
    (exit_code python rglob (codes "apps" ∷ []) ≡ 0) ↔ IsClean python rglob (codes "apps" ∷ [])
exit_code-IsClean_example = exit_code-IsClean python rglob (codes "apps") []
