-- ===== src/Unused/Report.antt =====
-- `get_python_files`, `find_unused_symbols` and `main` of check_unused_functions.py.
pub mod Referenced
pub mod Files
pub mod Constants
pub mod Verdict
mod Tests
use ai_chat_websocket.Prelude.{
  ℕ, ◌+◌, Text, codes, Bool, true, false, ◌&&◌, ◌||◌, not, Option, none, some, List, [], ◌∷◌, ◌++◌,
  filter, length, ltb, if◌then◌else◌,
}
use ai_chat_websocket.Unused.Known.{django_apps, skip_dirs, skip_files_for_definitions}
use ai_chat_websocket.Unused.Extract.{
  contains, starts_with, ends_with, any, Definitions, Python, extract_function_definitions,
  extract_class_definitions, extract_variable_definitions,
}
use ai_chat_websocket.Unused.Extract.References.{extract_references}

-- A file with the parts of its path, the last of which is its name.
pub record PyFile : Type 0 where
  pub parts : List Text
  pub source : Text

unfoldable pub name_in : List Text → Text
name_in [] = []
name_in (part ∷ []) = part
name_in (part ∷ next ∷ parts) = name_in (next ∷ parts)

unfoldable pub is_scanned : List Text → PyFile → Bool
unfolding any contains starts_with ends_with name_in
is_scanned skip_files path =
    let file_name = name_in path.parts in
    not (any (λ skip_dir. contains path.parts skip_dir) skip_dirs)
    && not (contains skip_files file_name)
    && not (starts_with (codes "test_") file_name || ends_with (codes "_test.py") file_name)

-- What is found in files, where something is.
abbrev pub Found : Type 0
Found = List (PyFile × Definitions)

unfoldable pub add_found : PyFile → Definitions → Found → Found
add_found path [] found = found
add_found path (d ∷ ds) found = (path, d ∷ ds) ∷ found

unfoldable pub collect : (Text → Definitions) → List PyFile → Found
unfolding add_found
collect extract [] = []
collect extract (path ∷ paths) = add_found path (extract path.source) (collect extract paths)

-- the definitions that are not among the references
unfoldable pub unused : List Text → Found → Found
unfolding add_found contains
unused references [] = []
unused references ((path, definitions) ∷ found) =
    add_found path (filter (λ (d : Text × ℕ). not (contains references d.0)) definitions)
      (unused references found)

-- the number of lines that `print_unused_items` prints, one for each item
unfoldable pub print_unused_items : Found → ℕ
print_unused_items [] = 0
print_unused_items ((path, symbols) ∷ items) = length symbols + print_unused_items items

unfoldable pub files_of : List Text → Option (List PyFile) → List PyFile
unfolding is_scanned
files_of skip_files none = []
files_of skip_files (some paths) = filter (is_scanned skip_files) paths

unfoldable pub references_in : Python → List PyFile → List Text
unfolding extract_references
references_in python [] = []
references_in python (path ∷ paths) =
    extract_references python path.source ++ references_in python paths

-- what `sys.exit` is called with
abbrev pub exit_status : ℕ → ℕ
exit_status total_unused = if ltb 0 total_unused then 1 else 0

-- `rglob` is the files with the ending .py below the directory of an app, `none` where there is no such
-- directory; no file is below two of them.
module _ (python : Python) (rglob : Text → Option (List PyFile)) where
  unfoldable pub get_python_files : List Text → List Text → List PyFile
  unfolding files_of
  get_python_files [] skip_files = []
  get_python_files (app ∷ apps) skip_files =
      files_of skip_files (rglob app) ++ get_python_files apps skip_files

  -- the unused functions, classes and constants
  unfoldable pub find_unused_symbols : List Text → Found × Found × Found
  unfolding get_python_files references_in collect unused
  find_unused_symbols apps =
      let definition_files = get_python_files apps skip_files_for_definitions in
      let all_references = references_in python (get_python_files apps []) in
      (
        unused all_references (collect (extract_function_definitions python) definition_files),
        unused all_references (collect (extract_class_definitions python) definition_files),
        unused all_references (collect (extract_variable_definitions python) definition_files),
      )

  unfoldable pub existing : List Text → List Text
  existing [] = []
  existing (app ∷ apps) =
      let rest = existing apps in elim (rglob app) [ none ↦ rest | some paths ↦ app ∷ rest ]

  unfoldable pub exit_code : List Text → ℕ
  unfolding find_unused_symbols print_unused_items
  exit_code [] = 1
  exit_code (app ∷ apps) =
      let (functions, classes, variables) = find_unused_symbols (app ∷ apps) in
      let total_unused =
        print_unused_items functions
        + (print_unused_items classes + print_unused_items variables) in
      exit_status total_unused

  -- the exit code of `main`
  unfoldable pub main : ℕ
  unfolding exit_code existing
  main = exit_code (existing django_apps)
