-- ===== src/Unused/Report/Verdict.antt =====
-- When `main` of check_unused_functions.py fails.
use mathlib.Core.List.{Memᴰ}
use ai_chat_websocket.Prelude.{ℕ, ◌+◌, ◌≡◌, ap, ◌↔◌, Text, Option, List, [], ◌∷◌, arith}
use ai_chat_websocket.Unused.Known.{skip_files_for_definitions}
use ai_chat_websocket.Unused.Extract.{
  Python, extract_function_definitions, extract_class_definitions, extract_variable_definitions,
}
use ai_chat_websocket.Unused.Report.{
  PyFile, Found, collect, unused, print_unused_items, get_python_files, references_in,
  find_unused_symbols, exit_status, exit_code,
}
use ai_chat_websocket.Unused.Report.Referenced.{AllReferenced, collect-none, printed-AllReferenced}
use ai_chat_websocket.Unused.Report.Constants.{constants_never_reported}

none_counted : (a b c : ℕ) → exit_status (a + (b + c)) ≡ 0 → (a ≡ 0) × (b ≡ 0)
none_counted a b c h = ground arith

all_counted : (a b c : ℕ) → a ≡ 0 → b ≡ 0 → c ≡ 0 → exit_status (a + (b + c)) ≡ 0
all_counted a b c p q r = rw (p, q, r)

printed-none : (found : Found) → found ≡ [] → print_unused_items found ≡ 0
unfolding print_unused_items
printed-none found e = ap print_unused_items e

module _ (python : Python) (rglob : Text → Option (List PyFile)) where
  -- Every function and class that is looked at is referred to somewhere.
  abbrev pub IsClean : List Text → Type 0
  IsClean apps =
      let references = references_in python (get_python_files python rglob apps []) in
      (path : PyFile)
      → Memᴰ path (get_python_files python rglob apps skip_files_for_definitions)
      → AllReferenced references (extract_function_definitions python path.source)
        × AllReferenced references (extract_class_definitions python path.source)

  -- The check of at least one app exits with 0 exactly when every function and every class that it takes
  -- from the scanned files is among the names that some scanned file refers to.
  pub exit_code-IsClean :
      (app : Text) (apps : List Text)
      → (exit_code python rglob (app ∷ apps) ≡ 0) ↔ IsClean (app ∷ apps)
  unfolding exit_code find_unused_symbols
  exit_code-IsClean app apps =
      let files = get_python_files python rglob (app ∷ apps) skip_files_for_definitions in
      let references = references_in python (get_python_files python rglob (app ∷ apps) []) in
      let functions = unused references (collect (extract_function_definitions python) files) in
      let classes = unused references (collect (extract_class_definitions python) files) in
      let constants = unused references (collect (extract_variable_definitions python) files) in
      let count_functions = print_unused_items functions in
      let count_classes = print_unused_items classes in
      let count_constants = print_unused_items constants in
      (
        λ clean path at.
            let (no_function, no_class) =
              none_counted count_functions count_classes count_constants clean in
            (
              printed-AllReferenced references _ files no_function path at,
              printed-AllReferenced references _ files no_class path at,
            ),
        λ clean.
            all_counted count_functions count_classes count_constants
              (printed-none functions
                (collect-none references _ files (λ path at. (clean path at).0)))
              (printed-none classes
                (collect-none references _ files (λ path at. (clean path at).1)))
              (printed-none constants (constants_never_reported python rglob (app ∷ apps))),
      )
