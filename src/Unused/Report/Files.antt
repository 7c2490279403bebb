-- ===== src/Unused/Report/Files.antt =====
-- The files that definitions are taken from are among those that references are taken from.
use mathlib.Core.List.{Memᴰ}
use mathlib.Core.List.Memᴰ
use ai_chat_websocket.Prelude.{
  ◌≡◌, subst, Text, codes, Bool, true, false, ◌||◌, ◌&&◌, not, Option, none, some, List, [], ◌∷◌,
  filter, nat_eq, text_eq, if◌then◌else◌, Bool-cases, inl, inr, arith,
}
use ai_chat_websocket.Unused.Known.{skip_dirs}
use ai_chat_websocket.Unused.Extract.{contains, any, starts_with, ends_with, Python}
use ai_chat_websocket.Unused.Report.{PyFile, name_in, is_scanned, files_of, get_python_files}

keeps_and : (a b c : Bool) → (a && b && c) ≡ true → (a && true && c) ≡ true
keeps_and a b c h = ground arith

scanned_anyway :
    (skip_files : List Text) (path : PyFile)
    → is_scanned skip_files path ≡ true
    → is_scanned [] path ≡ true
unfolding is_scanned contains
scanned_anyway skip_files path h =
    let file_name = name_in path.parts in
    keeps_and (not (any (λ skip_dir. contains path.parts skip_dir) skip_dirs))
      (not (contains skip_files file_name))
      (not (starts_with (codes "test_") file_name || ends_with (codes "_test.py") file_name)) h

filter-Memᴰ :
    (p q : PyFile → Bool) (path : PyFile) (paths : List PyFile)
    → ((f : PyFile) → p f ≡ true → q f ≡ true)
    → Memᴰ path (filter p paths)
    → Memᴰ path (filter q paths)
filter-Memᴰ p q path [] weaker at = at
filter-Memᴰ p q path (f ∷ paths) weaker at =
    let later = filter-Memᴰ p q path paths weaker in
    elim (Bool-cases (p f)) [
      | inl kept ↦ rw (weaker f kept) (one kept later at)
      | inr left ↦ elim (Bool-cases (q f)) [
        | inl more ↦ rw more (Memᴰ.tail (later (none_here left at)))
        | inr less ↦ rw less (later (none_here left at))
      ]
    ]
  where
    Kept : Bool → Type 0
    Kept b = Memᴰ path (if b then f ∷ filter p paths else filter p paths)

    carried :
        Memᴰ path (f ∷ filter p paths)
        → (Memᴰ path (filter p paths) → Memᴰ path (filter q paths))
        → Memᴰ path (f ∷ filter q paths)
    carried (Memᴰ.head e) later = Memᴰ.head e
    carried (Memᴰ.tail m) later = Memᴰ.tail (later m)

    one :
        p f ≡ true
        → (Memᴰ path (filter p paths) → Memᴰ path (filter q paths))
        → Kept (p f)
        → Memᴰ path (f ∷ filter q paths)
    one kept later h = carried (subst Kept kept h) later

    none_here : p f ≡ false → Kept (p f) → Memᴰ path (filter p paths)
    none_here left h = subst Kept left h

files_of-Memᴰ :
    (skip_files : List Text) (path : PyFile) (o : Option (List PyFile))
    → Memᴰ path (files_of skip_files o)
    → Memᴰ path (files_of [] o)
unfolding files_of
files_of-Memᴰ skip_files path none at = at
files_of-Memᴰ skip_files path (some paths) at =
    filter-Memᴰ (is_scanned skip_files) (is_scanned []) path paths (scanned_anyway skip_files) at

module _ (python : Python) (rglob : Text → Option (List PyFile)) where
  pub definition_file-Memᴰ :
      (apps skip_files : List Text) (path : PyFile)
      → Memᴰ path (get_python_files python rglob apps skip_files)
      → Memᴰ path (get_python_files python rglob apps [])
  unfolding get_python_files
  definition_file-Memᴰ [] skip_files path at = at
  definition_file-Memᴰ (app ∷ apps) skip_files path at =
      elim (Memᴰ.append_cases (files_of skip_files (rglob app)) at) [
        | inl first ↦ Memᴰ.append_left _ (files_of-Memᴰ skip_files path (rglob app) first)
        | inr rest ↦
            Memᴰ.append_right (files_of [] (rglob app))
              (definition_file-Memᴰ apps skip_files path rest)
      ]
