-- ===== src/Chat/Responses/Paging.antt =====
-- A page of rows that fit fits.
use ai_chat_websocket.Prelude.{
  ℕ, zero, suc, ◌+◌, ◌-◌, ◌*◌, ◌≡◌, refl, Bool, true, false, ◌&&◌, not, List, [], ◌∷◌, take, drop,
  filter, length, ltb, ◌==◌, nat_eq, pos, negsuc, if◌then◌else◌, Bool-cases, inl, inr, and-intro,
  and-elim,
}
use ai_chat_websocket.Chat.Pages.{paginate}
use ai_chat_websocket.Chat.Endpoints.{page_in_bounds}
use ai_chat_websocket.Chat.Responses.{all_fit, total_fits, page_fits}

module _ {A : Type 0} (fits : A → Bool) where
  pub all_fit-filter :
      (p : A → Bool) (xs : List A) → all_fit fits xs ≡ true → all_fit fits (filter p xs) ≡ true
  all_fit-filter p [] h = refl
  all_fit-filter p (x ∷ xs) h =
      let (first, others) = and-elim (fits x) (all_fit fits xs) h in
      let rest = all_fit-filter p xs others in
      elim (Bool-cases (p x)) [
        | inl kept ↦ rw kept (and-intro _ _ first rest)
        | inr left ↦ rw left rest
      ]

  all_fit-take : (n : ℕ) (xs : List A) → all_fit fits xs ≡ true → all_fit fits (take n xs) ≡ true
  all_fit-take zero xs h = refl
  all_fit-take (suc n) [] h = refl
  all_fit-take (suc n) (x ∷ xs) h =
      let (first, others) = and-elim (fits x) (all_fit fits xs) h in
      and-intro _ _ first (all_fit-take n xs others)

  all_fit-drop : (n : ℕ) (xs : List A) → all_fit fits xs ≡ true → all_fit fits (drop n xs) ≡ true
  all_fit-drop zero xs h = h
  all_fit-drop (suc n) [] h = refl
  all_fit-drop (suc n) (x ∷ xs) h = all_fit-drop n xs (and-elim (fits x) (all_fit fits xs) h).1

  pub all_fit-weaken :
      (q : A → Bool)
      → ((x : A) → fits x ≡ true → q x ≡ true)
      → (xs : List A) → all_fit fits xs ≡ true
      → all_fit q xs ≡ true
  all_fit-weaken q w [] h = refl
  all_fit-weaken q w (x ∷ xs) h =
      let (first, others) = and-elim (fits x) (all_fit fits xs) h in
      and-intro _ _ (w x first) (all_fit-weaken q w xs others)

total-fits : (whole : Bool) (n : ℕ) → total_fits (if whole then pos n else negsuc 0) ≡ true
total-fits true n = refl
total-fits false n = refl

pub paginate-fits :
    {A : Type 0} (fits : A → Bool) (page page_size : ℕ) (rows : List A)
    → all_fit fits rows ≡ true
    → page_in_bounds page page_size ≡ true
    → page_fits fits page page_size (paginate page page_size rows) ≡ true
unfolding page_fits paginate
paginate-fits fits page page_size rows h bounds =
    let (b3, size_le) = and-elim _ _ bounds in
    let (b2, size_ge) = and-elim _ _ b3 in
    let (page_ge, _) = and-elim _ _ b2 in
    let offset = (page - 1) * page_size in
    let fetched = take (page_size + 1) (drop offset rows) in
    let has_more = ltb page_size (length fetched) in
    let items =
      all_fit-take fits page_size fetched
        (all_fit-take fits (page_size + 1) (drop offset rows) (all_fit-drop fits offset rows h)) in
    let counted = total-fits (page == 1 && not has_more) (length (take page_size fetched)) in
    and-intro _ _ (and-intro _ _ (and-intro _ _ (and-intro _ _ items counted) page_ge) size_ge)
      size_le
