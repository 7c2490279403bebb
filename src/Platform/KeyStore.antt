-- ===== src/Platform/KeyStore.antt =====
-- A database table or a cache, read and written by key (Django's ORM and cache).
use mathlib.Core.Option.{some-injective}
use ai_chat_websocket.Prelude.{
  ◌≡◌, sym, ap, ◌≢◌, Bool, Option, none, some, Eq, ◌==◌, if◌then◌else◌, Bool-cases, inl, inr,
  ==_refl, ◌∙◌,
}

-- `put` answers `none` where the database refuses the row, which raises in the program.
pub record KeyStore (K V : Type 0) : Type 1 where
  pub State : Type 0
  pub find : K → State → Option V
  pub put : K → V → State → Option State
  pub find-put_self : (k : K) (v : V) (s t : State) → put k v s ≡ some t → find k t ≡ some v
  pub find-put_ne :
      (k j : K) (v : V) (s t : State) → put k v s ≡ some t → k ≢ j → find j t ≡ find j s
  -- `row.delete()`
  pub remove : K → State → State
  pub find-remove_self : (k : K) (s : State) → find k (remove k s) ≡ none
  pub find-remove_ne : (k j : K) (s : State) → k ≢ j → find j (remove k s) ≡ find j s

module _ {K V : Type 0} ⦃e : Eq K⦄ where
  -- Both laws at once.
  pub find-put :
      (store : KeyStore K V) (k j : K) (v : V) (s t : store.State)
      → store.put k v s ≡ some t
      → store.find j t ≡ (if k == j then some v else store.find j s)
  find-put store k j v s t h = elim (Bool-cases (k == j)) [
    | inl same ↦
        rw same (
          ap (λ i. store.find i t) (sym ((e.equal_iff k j).0 same)) ∙ store.find-put_self k v s t h)
    | inr other ↦ rw other (store.find-put_ne k j v s t h (λ p. cc (other, (e.equal_iff k j).1 p)))
  ]

  abbrev pub update : K → V → (K → Option V) → K → Option V
  update k v s j = if k == j then some v else s j

  abbrev pub discard : K → (K → Option V) → K → Option V
  discard k s j = if k == j then none else s j

  pub discard_self : (k : K) (s : K → Option V) → discard k s k ≡ none
  discard_self k s = rw (==_refl k)

  pub discard_ne : (k j : K) (s : K → Option V) → k ≢ j → discard k s j ≡ s j
  discard_ne k j s ne = elim (Bool-cases (k == j)) [
    | inl same ↦ absurd (ne ((e.equal_iff k j).0 same))
    | inr other ↦ rw other
  ]

  module _ (fits : V → Bool) where
    abbrev pub accept : K → V → (K → Option V) → Option (K → Option V)
    accept k v s = if fits v then some (update k v s) else none

    pub accept-some :
        (k j : K) (v : V) (s t : K → Option V) → accept k v s ≡ some t → t j ≡ update k v s j
    accept-some k j v s t h = elim (Bool-cases (fits v)) [
      | inl fit ↦ ap (λ f. f j) (sym (some-injective _ _ (rw fit at h)))
      | inr unfit ↦ cc (rw unfit at h)
    ]

    pub accept_self : (k : K) (v : V) (s t : K → Option V) → accept k v s ≡ some t → t k ≡ some v
    accept_self k v s t h = accept-some k k v s t h ∙ rw (==_refl k)

    pub accept_ne :
        (k j : K) (v : V) (s t : K → Option V) → accept k v s ≡ some t → k ≢ j → t j ≡ s j
    accept_ne k j v s t h ne = elim (Bool-cases (k == j)) [
      | inl same ↦ absurd (ne ((e.equal_iff k j).0 same))
      | inr other ↦ accept-some k j v s t h ∙ rw other
    ]

    -- A store that keeps its rows in a function and takes those that pass a test.
    abbrev pub accepting : KeyStore K V
    accepting = record {
      State = K → Option V;
      find = λ k s. s k;
      put = accept;
      find-put_self = accept_self;
      find-put_ne = accept_ne;
      remove = discard;
      find-remove_self = discard_self;
      find-remove_ne = discard_ne;
    }
