-- ===== src/Config/Hosts.antt =====
-- Lists of hosts in the environment.
use mathlib.Core.List.{reverse, append_assoc}
use ai_chat_websocket.Prelude.{
  ◌≡◌, ◌≢◌, refl, ap, sym, ◌∙◌, Text, Bool, true, false, List, [], ◌∷◌, ◌++◌, ◌==◌, nat_eq, nat_beq,
  nat_beq_iff, if◌then◌else◌, Bool-cases, inl, inr,
}
use ai_chat_websocket.Chat.Protocol.{is_space, lstrip, strip}
use ai_chat_websocket.Config.{comma, split_comma, unless_blank, strip_all, parse_comma_separated}

abbrev pub has_no_comma : Text → Bool
has_no_comma [] = true
has_no_comma (c ∷ s) = if c == comma then false else has_no_comma s

abbrev pub all_spaces : Text → Bool
all_spaces [] = true
all_spaces (c ∷ s) = if is_space c then all_spaces s else false

-- A host as one writes it: not empty, without a comma, and without spaces around it.
pub record IsHost (host : Text) : Type 0 where
  pub some_text : host ≢ []
  pub one_piece : has_no_comma host ≡ true
  pub trimmed : strip host ≡ host

pub data AllHosts : List Text → Type 0 where
  no_hosts : AllHosts []
  more_hosts :
      {host : Text} {hosts : List Text} → IsHost host → AllHosts hosts → AllHosts (host ∷ hosts)

-- Every host with a comma behind it but the last, and `gap` after every comma.
abbrev pub join_hosts : Text → List Text → Text
join_hosts gap [] = []
join_hosts gap (host ∷ []) = host
join_hosts gap (host ∷ next ∷ hosts) = host ++ comma ∷ (gap ++ join_hosts gap (next ∷ hosts))

split-one_piece : (s : Text) → has_no_comma s ≡ true → split_comma s ≡ s ∷ []
unfolding split_comma
split-one_piece [] h = refl
split-one_piece (c ∷ s) h = elim (Bool-cases (nat_beq c comma)) [
  | inl here ↦ cc (rw here at h)
  | inr other ↦ rw (other, split-one_piece s (rw other at h)) refl
]

split-comma :
    (s rest : Text) → has_no_comma s ≡ true → split_comma (s ++ comma ∷ rest) ≡ s ∷ split_comma rest
unfolding split_comma
split-comma [] rest h = refl
split-comma (c ∷ s) rest h = elim (Bool-cases (nat_beq c comma)) [
  | inl here ↦ cc (rw here at h)
  | inr other ↦ rw (other, split-comma s rest (rw other at h)) refl
]

lstrip-spaces : (gap s : Text) → all_spaces gap ≡ true → lstrip (gap ++ s) ≡ lstrip s
unfolding lstrip
lstrip-spaces [] s h = refl
lstrip-spaces (c ∷ gap) s h = elim (Bool-cases (is_space c)) [
  | inl space ↦ rw space (lstrip-spaces gap s (rw space at h))
  | inr other ↦ cc (rw other at h)
]

strip-spaces : (gap s : Text) → all_spaces gap ≡ true → strip (gap ++ s) ≡ strip s
unfolding strip
strip-spaces gap s h = ap (λ t. reverse (lstrip (reverse t))) (lstrip-spaces gap s h)

spaces-has_no_comma :
    (gap s : Text) → all_spaces gap ≡ true → has_no_comma s ≡ true → has_no_comma (gap ++ s) ≡ true
spaces-has_no_comma [] s h k = k
spaces-has_no_comma (c ∷ gap) s h k = elim (Bool-cases (is_space c)) [
  | inr other ↦ cc (rw other at h)
  | inl space ↦ elim (Bool-cases (nat_beq c comma)) [
    | inl here ↦
        let e : is_space comma ≡ true = sym (ap is_space ((nat_beq_iff c comma).0 here)) ∙ space in
        cc e
    | inr other ↦ rw other (spaces-has_no_comma gap s (rw space at h) k)
  ]
]

-- a piece that is a host after some spaces
piece-host :
    (gap host : Text) (vs : List Text)
    → all_spaces gap ≡ true
    → IsHost host
    → strip_all ((gap ++ host) ∷ vs) ≡ host ∷ strip_all vs
unfolding strip_all
piece-host gap host vs h k =
    ap (λ v. unless_blank v (strip_all vs)) (strip-spaces gap host h ∙ k.trimmed)
    ∙ kept host k.some_text
  where
    kept : (v : Text) → v ≢ [] → unless_blank v (strip_all vs) ≡ v ∷ strip_all vs
    kept [] ne = absurd (ne refl)
    kept (c ∷ v) ne = refl

parse-joined :
    (lead gap host : Text) (hosts : List Text)
    → all_spaces lead ≡ true
    → all_spaces gap ≡ true
    → AllHosts (host ∷ hosts)
    → parse_comma_separated (lead ++ join_hosts gap (host ∷ hosts)) ≡ host ∷ hosts
unfolding parse_comma_separated strip_all
parse-joined lead gap host [] h k (more_hosts one rest) =
    ap strip_all (split-one_piece (lead ++ host) (spaces-has_no_comma lead host h one.one_piece))
    ∙ piece-host lead host [] h one
parse-joined lead gap host (next ∷ hosts) h k (more_hosts one rest) =
    let behind = gap ++ join_hosts gap (next ∷ hosts) in
    let pieces : parse_comma_separated ((lead ++ host) ++ comma ∷ behind)
        ≡ strip_all ((lead ++ host) ∷ split_comma behind) =
      ap strip_all
        (split-comma (lead ++ host) behind (spaces-has_no_comma lead host h one.one_piece)) in
    let grouped : parse_comma_separated (lead ++ join_hosts gap (host ∷ next ∷ hosts))
        ≡ parse_comma_separated ((lead ++ host) ++ comma ∷ behind) =
      ap parse_comma_separated (sym (append_assoc lead host (comma ∷ behind))) in
    grouped
    ∙ pieces
    ∙ piece-host lead host (split_comma behind) h one
    ∙ ap (λ l. host ∷ l) (parse-joined gap gap next hosts k k rest)

-- Hosts that are written one after the other with commas between them, with or without spaces behind the commas,
-- are read back as they are; no hosts are read from the empty text.
pub parse-join_hosts :
    (gap : Text) (hosts : List Text)
    → all_spaces gap ≡ true
    → AllHosts hosts
    → parse_comma_separated (join_hosts gap hosts) ≡ hosts
unfolding parse_comma_separated split_comma strip_all strip lstrip
parse-join_hosts gap [] h k = refl
parse-join_hosts gap (host ∷ hosts) h k = parse-joined [] gap host hosts refl h k
