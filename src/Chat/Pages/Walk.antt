-- ===== src/Chat/Pages/Walk.antt =====
-- What the pages of a query hold, one by one and together.
use mathlib.Core.List.{append-nil}
use native.Mathlib.Numerals.{add-one}
use ai_chat_websocket.Prelude.{
  ℕ, zero, suc, ◌+◌, ◌-◌, ◌*◌, ◌≤◌, ◌<◌, ◌≡◌, refl, ap, sym, ◌∙◌, ◌==◌, nat_eq, pos, negsuc, ◌&&◌,
  List, [], ◌∷◌, ◌++◌, length, take, drop, length-take, length-drop, drop-drop, take-append-drop,
  take_all, ltb, leb, if◌then◌else◌, arith, Bool-cases, inl, inr,
}
use ai_chat_websocket.Chat.Pages.{paginate}

take-take : {A : Type 0} (n m : ℕ) (xs : List A) → n ≤ m → take n (take m xs) ≡ take n xs
take-take zero m xs h = refl
take-take (suc n) zero xs h = elim h [ ]
take-take (suc n) (suc m) [] h = refl
take-take (suc n) (suc m) (x ∷ xs) h = ap (λ l. x ∷ l) (take-take n m xs (omega arith))

-- the offset of the page after the next `k` pages
offset-suc : (k page_size : ℕ) → (suc k - 1) * page_size ≡ k * page_size
offset-suc k page_size = let e : suc k - 1 ≡ k = omega arith in ap (λ j. j * page_size) e

drop_all : {A : Type 0} (n : ℕ) (xs : List A) → length xs ≤ n → drop n xs ≡ []
drop_all zero [] h = refl
drop_all zero (x ∷ xs) h = elim h [ ]
drop_all (suc n) [] h = refl
drop_all (suc n) (x ∷ xs) h = drop_all n xs (omega arith)

pub drop_zero : {A : Type 0} (n : ℕ) (xs : List A) → n ≡ 0 → drop n xs ≡ xs
drop_zero n xs h = rw h

module _ {A : Type 0} (page_size : ℕ) (rows : List A) where
  -- Page `page` holds the rows from `(page - 1) * page_size` on, at most `page_size` of them.
  pub items-paginate :
      (page : ℕ)
      → (paginate page page_size rows).items ≡ take page_size (drop ((page - 1) * page_size) rows)
  unfolding paginate
  items-paginate page =
      take-take page_size (page_size + 1) (drop ((page - 1) * page_size) rows) (omega arith)

  first_offset : (k : ℕ) → suc k ≡ 1 → k * page_size ≡ 0
  first_offset k h = let e : k ≡ 0 = omega arith in rw e (omega arith)

  -- From page 1 on, `has_more` says exactly whether there are rows behind the page, and `total`
  -- is the number of all rows where the first page holds them all and -1 otherwise.
  has_more-paginate :
      (page : ℕ)
      → 0 < page
      → ((paginate page page_size rows).has_more ≡ ltb (page * page_size) (length rows))
        × ((paginate page page_size rows).total
            ≡ (if page == 1 && leb (length rows) page_size then pos (length rows) else negsuc 0))
  unfolding paginate
  has_more-paginate zero h = elim h [ ]
  has_more-paginate (suc k) h =
      let behind = drop ((suc k - 1) * page_size) rows in
      ground (
        arith,
        offset-suc k page_size,
        length-take (page_size + 1) behind,
        length-take page_size (take (page_size + 1) behind),
        length-drop ((suc k - 1) * page_size) rows,
        first_offset k,
      )

  -- A client that asks for page after page while `has_more` is set.
  unfoldable pub walk : ℕ → ℕ → List A
  walk zero page = []
  walk (suc fuel) page =
      let p = paginate page page_size rows in
      let rest = walk fuel (page + 1) in p.items ++ (if p.has_more then rest else [])

  walk-eq-drop :
      (fuel k : ℕ)
      → 0 < page_size
      → length rows < fuel + k * page_size
      → walk fuel (suc k) ≡ drop (k * page_size) rows
  unfolding walk
  walk-eq-drop zero k pos_size h = sym (drop_all (k * page_size) rows (omega arith))
  walk-eq-drop (suc fuel) k pos_size h =
      let behind = drop (k * page_size) rows in
      let items : (paginate (suc k) page_size rows).items ≡ take page_size behind =
        items-paginate (suc k) ∙ ap (λ o. take page_size (drop o rows)) (offset-suc k page_size) in
      let more = (has_more-paginate (suc k) (omega arith)).0 in
      elim (Bool-cases (ltb (suc k * page_size) (length rows))) [
        | inl yes' ↦
            rw (items, more, yes', add-one)
              (ap (λ l. take page_size behind ++ l)
                  (walk-eq-drop fuel (suc k) pos_size (omega arith)
                    ∙ sym (
                        drop-drop (k * page_size) page_size (suc k * page_size) rows (omega arith)))
                ∙ take-append-drop page_size behind)
        | inr no' ↦
            rw (items, more, no')
              (append-nil (take page_size behind)
                ∙ take_all page_size behind (ground (arith, length-drop (k * page_size) rows)))
      ]

  -- A client that asks for page after page from the first on, while `has_more` is set, sees every
  -- row once, in order, if pages are not empty and it may ask once more than there are rows.
  pub walk-eq-rows : (fuel : ℕ) → 0 < page_size → length rows < fuel → walk fuel 1 ≡ rows
  walk-eq-rows fuel pos_size h =
      walk-eq-drop fuel 0 pos_size (omega arith) ∙ drop_zero (0 * page_size) rows (omega arith)
