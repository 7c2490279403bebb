-- ===== src/Unused/Report/Referenced.antt =====
-- What is reported of a list of definitions, and when nothing is.
use mathlib.Core.List.{Memᴰ}
use mathlib.Core.List.Memᴰ
use ai_chat_websocket.Prelude.{
  ℕ, ◌+◌, ◌≡◌, refl, sym, subst, Text, Bool, true, not, List, [], ◌∷◌, filter, length,
  if◌then◌else◌, Bool-cases, inl, inr, arith,
}
use ai_chat_websocket.Unused.Extract.{contains, Definitions}
use ai_chat_websocket.Unused.Report.{PyFile, Found, add_found, collect, unused, print_unused_items}

-- Every defined name is one of the references.
abbrev pub AllReferenced : List Text → Definitions → Type 0
AllReferenced references [] = Unit
AllReferenced references (d ∷ ds) = (contains references d.0 ≡ true) × AllReferenced references ds

pub unused-none :
    (references : List Text) (ds : Definitions)
    → AllReferenced references ds
    → filter (λ (d : Text × ℕ). not (contains references d.0)) ds ≡ []
unused-none references [] h = refl
unused-none references (d ∷ ds) h = rw (h.0, unused-none references ds h.1)

found-none :
    (references : List Text) (path : PyFile) (ds : Definitions) (found : Found)
    → AllReferenced references ds
    → unused references found ≡ []
    → unused references (add_found path ds found) ≡ []
unfolding unused add_found
found-none references path [] found all none_left = none_left
found-none references path (d ∷ ds) found all none_left =
    rw (unused-none references (d ∷ ds) all, add_found, none_left)

pub collect-none :
    (references : List Text) (extract : Text → Definitions) (paths : List PyFile)
    → ((path : PyFile) → Memᴰ path paths → AllReferenced references (extract path.source))
    → unused references (collect extract paths) ≡ []
unfolding unused collect
collect-none references extract [] all = refl
collect-none references extract (path ∷ paths) all =
    found-none references path (extract path.source) (collect extract paths)
      (all path (Memᴰ.head refl))
      (collect-none references extract paths (λ p at. all p (Memᴰ.tail at)))

-- the number of definitions that are not among the references
abbrev missing : List Text → Definitions → ℕ
missing references ds = length (filter (λ (d : Text × ℕ). not (contains references d.0)) ds)

missing-AllReferenced :
    (references : List Text) (ds : Definitions)
    → missing references ds ≡ 0
    → AllReferenced references ds
missing-AllReferenced references [] h = tt
missing-AllReferenced references (d ∷ ds) h =
    let rest = filter (λ (e : Text × ℕ). not (contains references e.0)) ds in
    let NoneLeft : Bool → Type 0 = λ b. length (if not b then d ∷ rest else rest) ≡ 0 in
    elim (Bool-cases (contains references d.0)) [
      | inl there ↦ (there, missing-AllReferenced references ds (subst NoneLeft there h))
      | inr away ↦
          let one : length (d ∷ rest) ≡ 0 = subst NoneLeft away h in absurd (omega (arith, one))
    ]

printed-add_found :
    (references : List Text) (path : PyFile) (ds : Definitions) (found : Found)
    → print_unused_items (add_found path ds found) ≡ length ds + print_unused_items found
unfolding print_unused_items add_found
printed-add_found references path [] found = omega arith
printed-add_found references path (d ∷ ds) found = refl

printed-unused :
    (references : List Text) (path : PyFile) (ds : Definitions) (found : Found)
    → print_unused_items (unused references (add_found path ds found))
      ≡ missing references ds + print_unused_items (unused references found)
unfolding unused add_found
printed-unused references path [] found = omega arith
printed-unused references path (d ∷ ds) found =
    printed-add_found references path
      (filter (λ (e : Text × ℕ). not (contains references e.0)) (d ∷ ds)) (unused references found)

pub printed-AllReferenced :
    (references : List Text) (extract : Text → Definitions) (paths : List PyFile)
    → print_unused_items (unused references (collect extract paths)) ≡ 0
    → (path : PyFile) → Memᴰ path paths
    → AllReferenced references (extract path.source)
unfolding collect
printed-AllReferenced references extract [] none_left path at = elim at [ ]
printed-AllReferenced references extract (p ∷ paths) none_left path at =
    let sum = printed-unused references p (extract p.source) (collect extract paths) in
    let here : AllReferenced references (extract p.source) =
      missing-AllReferenced references (extract p.source) (omega (arith, sum, none_left)) in
    let later =
      printed-AllReferenced references extract paths (omega (arith, sum, none_left)) path in
    elim (Memᴰ.cases_cons at) [
      | inl same ↦ subst (λ q. AllReferenced references (extract q.source)) (sym same) here
      | inr below ↦ later below
    ]
