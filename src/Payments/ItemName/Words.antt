-- ===== src/Payments/ItemName/Words.antt =====
-- What is left of an item name holds no keyword.
use ai_chat_websocket.Prelude.{
  ℕ, zero, suc, ◌+◌, ◌-◌, ◌≤◌, ◌<◌, ◌≡◌, refl, ap, sym, ◌∙◌, Text, Bool, true, false, ◌&&◌, ◌||◌,
  Option, none, some, some-injective, List, [], ◌∷◌, length, drop, length-drop, leb, nat_beq,
  nat_eq, arith, Bool-cases, Option-cases, inl, inr, and-elim,
}
use ai_chat_websocket.Payments.ItemName.{
  waf_keywords, fold_case, is_word, at_end, begins_with, first_match, match_here, remove_keywords,
}

abbrev is_letter : ℕ → Bool
is_letter k = leb b'a' k && leb k b'z'

abbrev letters : Text → Bool
letters [] = true
letters (k ∷ keyword) = is_letter k && letters keyword

abbrev are_words : List Text → Bool
are_words [] = true
are_words ([] ∷ keywords) = false
are_words ((k ∷ keyword) ∷ keywords) = (is_letter k && letters keyword) && are_words keywords

keywords_are_words : are_words waf_keywords ≡ true
keywords_are_words = refl

abbrev is_some : Option ℕ → Bool
is_some none = false
is_some (some n) = true

module _ (is_other_word : ℕ → Bool) where
  -- A keyword stands in the text as a whole word, which is what the regular expression finds.
  unfoldable pub has_keyword : Bool → Text → Bool
  has_keyword after_word [] = false
  has_keyword after_word (c ∷ s) =
      is_some (match_here is_other_word after_word (c ∷ s))
      || has_keyword (is_word is_other_word c) s

  letter_is_word :
      (c k : ℕ)
      → is_letter k ≡ true
      → nat_beq (fold_case c) k ≡ true
      → is_word is_other_word c ≡ true
  letter_is_word c k h e = ground arith

  -- No keyword begins with a character that belongs to no word.
  not_word_begins :
      (c k : ℕ) (keyword s : Text)
      → is_letter k ≡ true
      → is_word is_other_word c ≡ false
      → begins_with is_other_word (k ∷ keyword) (c ∷ s) ≡ false
  unfolding begins_with
  not_word_begins c k keyword s h w = elim (Bool-cases (nat_beq (fold_case c) k)) [
    | inl same ↦ cc (w, letter_is_word c k h same)
    | inr other ↦ rw other
  ]

  not_word_first :
      (keywords : List Text) (c : ℕ) (s : Text)
      → are_words keywords ≡ true
      → is_word is_other_word c ≡ false
      → first_match is_other_word keywords (c ∷ s) ≡ none
  unfolding first_match
  not_word_first [] c s h w = refl
  not_word_first ([] ∷ keywords) c s h w = cc h
  not_word_first ((k ∷ keyword) ∷ keywords) c s h w =
      let (first, rest) = and-elim _ _ h in
      let letter = (and-elim _ _ first).0 in
      rw (not_word_begins c k keyword s letter w) (not_word_first keywords c s rest w)

  -- Within a word nothing is removed, so a keyword begins here before and after.
  begins-remove :
      (keyword s : Text)
      → letters keyword ≡ true
      → begins_with is_other_word keyword (remove_keywords is_other_word true 0 s)
        ≡ begins_with is_other_word keyword s
  unfolding begins_with remove_keywords
  begins-remove [] [] h = refl
  begins-remove [] (c ∷ s) h = refl
  begins-remove (k ∷ keyword) [] h = refl
  begins-remove (k ∷ keyword) (c ∷ s) h =
      let (letter, rest) = and-elim _ _ h in
      elim (Bool-cases (is_word is_other_word c)) [
        | inl word ↦ rw word (ap (λ b. nat_beq (fold_case c) k && b) (begins-remove keyword s rest))
        | inr outside ↦
            not_word_begins c k keyword
              (remove_keywords is_other_word (is_word is_other_word c) 0 s) letter outside
            ∙ sym (not_word_begins c k keyword s letter outside)
      ]

  first-remove :
      (keywords : List Text) (s : Text)
      → are_words keywords ≡ true
      → first_match is_other_word keywords (remove_keywords is_other_word true 0 s)
        ≡ first_match is_other_word keywords s
  unfolding first_match
  first-remove [] s h = refl
  first-remove ([] ∷ keywords) s h = cc h
  first-remove ((k ∷ keyword) ∷ keywords) s h =
      let (first, rest) = and-elim _ _ h in
      rw (begins-remove (k ∷ keyword) s first, first-remove keywords s rest)

  begins-at_end :
      (keyword s : Text)
      → begins_with is_other_word keyword s ≡ true
      → at_end is_other_word (drop (length keyword) s) ≡ true
  unfolding begins_with
  begins-at_end [] s h = h
  begins-at_end (k ∷ keyword) [] h = refl
  begins-at_end (k ∷ keyword) (c ∷ s) h = begins-at_end keyword s (and-elim _ _ h).1

  -- A match ends with its word.
  first-at_end :
      (keywords : List Text) (s : Text) (n : ℕ)
      → are_words keywords ≡ true
      → first_match is_other_word keywords s ≡ some n
      → (0 < n) × (at_end is_other_word (drop n s) ≡ true)
  unfolding first_match
  first-at_end [] s n h e = cc e
  first-at_end ([] ∷ keywords) s n h e = cc h
  first-at_end ((k ∷ keyword) ∷ keywords) s n h e =
      elim (Bool-cases (begins_with is_other_word (k ∷ keyword) s)) [
        | inl here ↦
            let len : suc (length keyword) ≡ n = some-injective _ _ (rw here at e) in
            (omega arith, rw (← len) (begins-at_end (k ∷ keyword) s here))
        | inr later ↦ first-at_end keywords s n (and-elim _ _ h).1 (rw later at e)
      ]

  remove_skipped :
      (skip : ℕ) (s : Text)
      → remove_keywords is_other_word true skip s
        ≡ remove_keywords is_other_word true 0 (drop skip s)
  unfolding remove_keywords
  remove_skipped zero s = refl
  remove_skipped (suc skip) [] = refl
  remove_skipped (suc skip) (c ∷ s) = remove_skipped skip s

  or-false : (a b : Bool) → a ≡ false → b ≡ false → (a || b) ≡ false
  or-false a b p q = rw (p, q)

  -- Where no match begins, none begins in what is left either.
  match_kept :
      (c : ℕ) (s : Text)
      → match_here is_other_word false (c ∷ s) ≡ none
      → match_here is_other_word false
          (c ∷ remove_keywords is_other_word (is_word is_other_word c) 0 s)
        ≡ none
  unfolding match_here remove_keywords
  match_kept c s missing = first-remove waf_keywords (c ∷ s) keywords_are_words ∙ missing

  drop-suc : (k c : ℕ) (s : Text) → 0 < k → drop k (c ∷ s) ≡ drop (k - 1) s
  drop-suc zero c s h = elim h [ ]
  drop-suc (suc k) c s h = let e : k ≡ suc k - 1 = omega arith in ap (λ j. drop j s) e

  module _ (n : ℕ)
      (ih : (after_word : Bool) (s : Text)
        → length s ≤ n
        → has_keyword after_word (remove_keywords is_other_word after_word 0 s) ≡ false) where
    -- after a match: the next character belongs to no word
    after_match :
        (s : Text)
        → length s ≤ n + 1
        → at_end is_other_word s ≡ true
        → has_keyword false (remove_keywords is_other_word true 0 s) ≡ false
    unfolding has_keyword remove_keywords match_here
    after_match [] h e = refl
    after_match (d ∷ s) h e =
        let outside : is_word is_other_word d ≡ false = ground arith in
        let left = remove_keywords is_other_word (is_word is_other_word d) 0 s in
        or-false (is_some (first_match is_other_word waf_keywords (d ∷ left)))
          (has_keyword (is_word is_other_word d) left)
          (ap is_some (not_word_first waf_keywords d left keywords_are_words outside))
          (ih (is_word is_other_word d) s (omega arith))

    step :
        (after_word : Bool) (c : ℕ) (s : Text)
        → length s ≤ n
        → has_keyword after_word (remove_keywords is_other_word after_word 0 (c ∷ s)) ≡ false
    unfolding has_keyword remove_keywords match_here
    step true c s h = ih (is_word is_other_word c) s h
    step false c s h = elim (Option-cases (match_here is_other_word false (c ∷ s))) [
      | inl missing ↦
          rw (missing, remove_keywords)
            (or-false _ _ (ap is_some (match_kept c s missing)) (ih (is_word is_other_word c) s h))
      | inr (k, found) ↦
          let (pos, end) = first-at_end waf_keywords (c ∷ s) k keywords_are_words found in
          let shift = drop-suc k c s pos in
          rw (found, remove_keywords, remove_skipped (k - 1) s)
            (after_match (drop (k - 1) s) (omega (arith, length-drop (k - 1) s)) (rw (← shift) end))
    ]

  removed_lem :
      (n : ℕ) (after_word : Bool) (s : Text)
      → length s ≤ n
      → has_keyword after_word (remove_keywords is_other_word after_word 0 s) ≡ false
  unfolding has_keyword remove_keywords
  removed_lem n after_word [] h = refl
  removed_lem zero after_word (c ∷ s) h = absurd (omega arith)
  removed_lem (suc n) after_word (c ∷ s) h = step n (removed_lem n) after_word c s (omega arith)

  -- After the substitution no keyword of the firewall is left as a word of the name: where one is
  -- removed, what stood on either side does not join to another.
  pub no_keyword_left :
      (name : Text) → has_keyword false (remove_keywords is_other_word false 0 name) ≡ false
  no_keyword_left name = removed_lem (length name) false name (omega arith)
