-- ===== src/Platform/LocalRedis.antt =====
-- Sorted sets kept in memory: the interface of `Redis` can be met.
use mathlib.Core.Option.{some-injective}
use ai_chat_websocket.Prelude.{
  refl, ◌+◌, sym, ap, ◌∙◌, ℕ, ◌≡◌, String, Bool, true, false, Option, some, List, [], ◌∷◌, length,
  filter, ltb, leb, take, map, arith, if◌then◌else◌, Bool-cases, inl, inr, ◌==◌, string_eq, ==_refl,
}
use ai_chat_websocket.Platform.Redis.{Redis, IsSorted, has_member}

abbrev pub Scored : Type 0
Scored = List (String × ℕ)

abbrev pub InOrder : Scored → Type 0
InOrder l = IsSorted (map (λ e. e.1) l)

-- a member that is there already is moved to its new score
abbrev pub remove_member : String → Scored → Scored
remove_member m = filter (λ e. if e.0 == m then false else true)

abbrev pub insert_scored : String × ℕ → Scored → Scored
insert_scored e [] = e ∷ []
insert_scored e (x ∷ xs) = if leb e.1 x.1 then e ∷ x ∷ xs else x ∷ insert_scored e xs

InOrder-drop : (x y : String × ℕ) (l : Scored) → InOrder (x ∷ y ∷ l) → InOrder (x ∷ l)
InOrder-drop x y [] h = tt
InOrder-drop x y (z ∷ l) h = (omega arith, h.1.1)

InOrder-tail : (x : String × ℕ) (l : Scored) → InOrder (x ∷ l) → InOrder l
InOrder-tail x [] h = tt
InOrder-tail x (y ∷ l) h = h.1

InOrder-filter_tail :
    (p : String × ℕ → Bool) (x : String × ℕ) (l : Scored)
    → InOrder (x ∷ l)
    → InOrder (x ∷ filter p l)
InOrder-filter_tail p x [] h = tt
InOrder-filter_tail p x (y ∷ l) h = elim (Bool-cases (p y)) [
  | inl keep ↦ rw keep (h.0, InOrder-filter_tail p y l h.1)
  | inr leave ↦ rw leave (InOrder-filter_tail p x l (InOrder-drop x y l h))
]

pub InOrder-filter : (p : String × ℕ → Bool) (l : Scored) → InOrder l → InOrder (filter p l)
InOrder-filter p [] h = tt
InOrder-filter p (x ∷ l) h = elim (Bool-cases (p x)) [
  | inl keep ↦ rw keep (InOrder-filter_tail p x l h)
  | inr leave ↦ rw leave (InOrder-filter p l (InOrder-tail x l h))
]

pub InOrder-insert_scored : (e : String × ℕ) (l : Scored) → InOrder l → InOrder (insert_scored e l)
InOrder-insert_scored e [] h = tt
InOrder-insert_scored e (x ∷ []) h = ground arith
InOrder-insert_scored e (x ∷ y ∷ l) h = ground (arith, InOrder-insert_scored e (y ∷ l) h.1)

abbrev pub SortedSets : Type 0
SortedSets = String → (l : Scored) × InOrder l

abbrev pub no_sets : SortedSets
no_sets k = ([], tt)

abbrev pub with_set : String → ((l : Scored) × InOrder l) → SortedSets → SortedSets
with_set k v s j = if k == j then v else s j

abbrev pub prune : String → ℕ → ℕ → SortedSets → SortedSets
prune k now window s =
    with_set k
      (
        filter (λ e. ltb now (e.1 + window)) (s k).0,
        InOrder-filter (λ e. ltb now (e.1 + window)) (s k).0 (s k).1,
      )
      s

abbrev pub add_member : String → String → ℕ → SortedSets → SortedSets
add_member k m score s =
    let rest = remove_member m (s k).0 in
    with_set k
      (
        insert_scored (m, score) rest,
        InOrder-insert_scored (m, score) rest
            (InOrder-filter (λ e. if e.0 == m then false else true) (s k).0 (s k).1),
      )
      s

pub entries-prune :
    (k : String) (now window : ℕ) (s : SortedSets)
    → (prune k now window s k).0 ≡ filter (λ e. ltb now (e.1 + window)) (s k).0
entries-prune k now window s = rw (==_refl k)

abbrev pub prune_and_count : String → ℕ → ℕ → SortedSets → Option (ℕ × SortedSets)
prune_and_count k now window s = some (length (prune k now window s k).0, prune k now window s)

pub prune_lem :
    (k : String) (now window n : ℕ) (s t : SortedSets)
    → prune_and_count k now window s ≡ some (n, t)
    → ((t k).0 ≡ filter (λ e. ltb now (e.1 + window)) (s k).0) × (n ≡ length (t k).0)
prune_lem k now window n s t h =
    let e : ◌≡◌ {A = ℕ × SortedSets} (length (prune k now window s k).0, prune k now window s)
        (n, t) =
      some-injective _ _ h in
    let set : (prune k now window s k).0 ≡ (t k).0 = ap (λ q. (q.1 k).0) e in
    (sym set ∙ entries-prune k now window s, sym (ap (λ q. q.0) e) ∙ ap length set)

abbrev pub oldest : String → SortedSets → Option Scored
oldest k s = some (take 1 (s k).0)

pub oldest_first :
    (k : String) (l : Scored) (s : SortedSets) → oldest k s ≡ some l → l ≡ take 1 (s k).0
oldest_first k l s h = sym (some-injective _ _ h)

remove_absent : (m : String) (l : Scored) → has_member m l ≡ false → remove_member m l ≡ l
remove_absent m [] h = refl
remove_absent m (x ∷ l) h = elim (Bool-cases (x.0 == m)) [
  | inl here ↦ cc (rw here at h)
  | inr other ↦ rw other (ap (λ r. x ∷ r) (remove_absent m l (rw other at h)))
]

has_member-remove :
    (j m : String) (l : Scored) → has_member j l ≡ false → has_member j (remove_member m l) ≡ false
has_member-remove j m [] h = refl
has_member-remove j m (x ∷ l) h = elim (Bool-cases (x.0 == j)) [
  | inl here ↦ cc (rw here at h)
  | inr other ↦
      let rest = has_member-remove j m l (rw other at h) in
      elim (Bool-cases (x.0 == m)) [ inl gone ↦ rw gone rest | inr kept ↦ rw (kept, other) rest ]
]

length-insert_scored : (e : String × ℕ) (l : Scored) → length (insert_scored e l) ≡ length l + 1
length-insert_scored e [] = refl
length-insert_scored e (x ∷ l) = ground (arith, length-insert_scored e l)

has_member-insert_scored :
    (j : String) (e : String × ℕ) (l : Scored)
    → (e.0 == j) ≡ false
    → has_member j l ≡ false
    → has_member j (insert_scored e l) ≡ false
has_member-insert_scored j e [] h a = rw h
has_member-insert_scored j e (x ∷ l) h a = elim (Bool-cases (leb e.1 x.1)) [
  | inl first ↦ rw (first, h) a
  | inr later ↦ elim (Bool-cases (x.0 == j)) [
    | inl here ↦ cc (rw here at a)
    | inr other ↦ rw (later, other) (has_member-insert_scored j e l h (rw other at a))
  ]
]

pub add_length_lem :
    (k m : String) (score ttl : ℕ) (s t : SortedSets)
    → ◌≡◌ {A = Option SortedSets} (some (add_member k m score s)) (some t)
    → has_member m (s k).0 ≡ false
    → length (t k).0 ≡ length (s k).0 + 1
add_length_lem k m score ttl s t e h =
    let same : (add_member k m score s k).0 ≡ (t k).0 = ap (λ f. (f k).0) (some-injective _ _ e) in
    ap length (sym same)
    ∙ rw (==_refl k, remove_absent m (s k).0 h) (length-insert_scored (m, score) (s k).0)

pub add_other_lem :
    (k m j : String) (score ttl : ℕ) (s t : SortedSets)
    → ◌≡◌ {A = Option SortedSets} (some (add_member k m score s)) (some t)
    → (m == j) ≡ false
    → has_member j (s k).0 ≡ false
    → has_member j (t k).0 ≡ false
add_other_lem k m j score ttl s t e ne h =
    let same : (add_member k m score s k).0 ≡ (t k).0 = ap (λ f. (f k).0) (some-injective _ _ e) in
    ap (has_member j) (sym same)
    ∙ rw (==_refl k) (
        has_member-insert_scored j (m, score) (remove_member m (s k).0) ne
          (has_member-remove j m (s k).0 h))

abbrev pub local_redis : Redis
local_redis = record {
  State = SortedSets;
  entries = λ k s. (s k).0;
  prune_and_count = prune_and_count;
  oldest = oldest;
  add = λ k m score ttl s. some (add_member k m score s);
  prune_and_count_lem = prune_lem;
  oldest_lem = oldest_first;
  entries-IsSorted = λ k s. (s k).1;
  add_length = add_length_lem;
  add_other = add_other_lem;
}
