-- ===== src/Chat/Client/Singleton/Once.antt =====
-- One client for all threads.
use ai_chat_websocket.Prelude.{
  ℕ, ◌≤◌, ◌≡◌, ◌≢◌, refl, ap, sym, subst, ◌∙◌, Option, none, some, some-injective, ◌==◌, nat_eq,
  Bool-cases, inl, inr, arith, nat_beq_iff,
}
use ai_chat_websocket.Chat.Client.Singleton.{
  Place, entering, wants_lock, has_lock, creating, leaving, returned, Shared, moved, ThreadStep,
  found, missed, locked, found_inside, missed_inside, made, gave, Happens, started, steps,
}

-- What holds of a thread at its place.
abbrev pub IsInPlace : Option ℕ → Option ℕ → ℕ → Place → Type 0
IsInPlace client lock t entering = Unit
IsInPlace client lock t wants_lock = Unit
IsInPlace client lock t has_lock = lock ≡ some t
IsInPlace client lock t creating = (lock ≡ some t) × (client ≡ none)
IsInPlace client lock t leaving = client ≡ some 0
IsInPlace client lock t (returned r) = r ≡ some 0

abbrev pub IsCounted : Option ℕ → ℕ → Type 0
IsCounted none n = n ≡ 0
IsCounted (some c) n = (c ≡ 0) × (n ≡ 1)

abbrev pub IsSingle : Shared → Type 0
IsSingle s = IsCounted s.client s.created × ((u : ℕ) → IsInPlace s.client s.lock u (s.place u))

-- A thread without the lock does not notice that it changes hands.
relocked :
    (client lock lock' : Option ℕ) (u : ℕ) (q : Place)
    → lock ≢ some u
    → IsInPlace client lock u q
    → IsInPlace client lock' u q
relocked client lock lock' u entering free h = tt
relocked client lock lock' u wants_lock free h = tt
relocked client lock lock' u has_lock free h = absurd (free h)
relocked client lock lock' u creating free h = absurd (free h.0)
relocked client lock lock' u leaving free h = h
relocked client lock lock' u (returned r) free h = h

-- Nor that the client is made.
remade :
    (client client' lock lock' : Option ℕ) (u : ℕ) (q : Place)
    → client ≡ none
    → lock ≢ some u
    → IsInPlace client lock u q
    → IsInPlace client' lock' u q
remade client client' lock lock' u entering missing free h = tt
remade client client' lock lock' u wants_lock missing free h = tt
remade client client' lock lock' u has_lock missing free h = absurd (free h)
remade client client' lock lock' u creating missing free h = absurd (free h.0)
remade client client' lock lock' u leaving missing free h = cc (missing, h)
remade client client' lock lock' u (returned r) missing free h = h

moved-IsInPlace :
    (client client' lock lock' : Option ℕ) (t : ℕ) (p : Place) (place : ℕ → Place)
    → IsInPlace client' lock' t p
    → ((u : ℕ) → t ≢ u → IsInPlace client lock u (place u) → IsInPlace client' lock' u (place u))
    → ((u : ℕ) → IsInPlace client lock u (place u))
    → (u : ℕ) → IsInPlace client' lock' u (moved t p place u)
moved-IsInPlace client client' lock lock' t p place own others all u = elim (Bool-cases (t == u)) [
  | inl same ↦ rw same (subst (λ k. IsInPlace client' lock' k p) ((nat_beq_iff t u).0 same) own)
  | inr other ↦ rw other (others u (λ e. cc (other, (nat_beq_iff t u).1 e)) (all u))
]

counted : (client : Option ℕ) (c n : ℕ) → IsCounted client n → client ≡ some c → client ≡ some 0
counted none c n h e = cc e
counted (some d) c n h e = ap some h.0

not_held : (lock : Option ℕ) (t u : ℕ) → lock ≡ some t → t ≢ u → lock ≢ some u
not_held lock t u held apart e = apart (some-injective t u (sym held ∙ e))

ThreadStep-IsSingle : {s s' : Shared} (t : ℕ) → ThreadStep t s s' → IsSingle s → IsSingle s'
ThreadStep-IsSingle {s} t step (sum, all) = taken step
  where
    at : (p : Place) → s.place t ≡ p → IsInPlace s.client s.lock t p
    at p e = subst (IsInPlace s.client s.lock t) e (all t)

    taken : {s' : Shared} → ThreadStep t s s' → IsSingle s'
    taken (found c e known) = (
      sum,
      moved-IsInPlace s.client s.client s.lock s.lock t leaving s.place
          (counted s.client c s.created sum known) (λ u apart h. h) all,
    )
    taken (missed e missing) = (
      sum,
      moved-IsInPlace s.client s.client s.lock s.lock t wants_lock s.place tt (λ u apart h. h) all,
    )
    taken (locked e free) = (
      sum,
      moved-IsInPlace s.client s.client s.lock (some t) t has_lock s.place refl
          (λ u apart. relocked s.client s.lock (some t) u (s.place u) (λ h. cc (free, h))) all,
    )
    taken (found_inside c e known) = (
      sum,
      moved-IsInPlace s.client s.client s.lock none t leaving s.place
          (counted s.client c s.created sum known)
          (λ u apart.
            relocked s.client s.lock none u (s.place u) (not_held s.lock t u (at has_lock e) apart))
          all,
    )
    taken (missed_inside e missing) = (
      sum,
      moved-IsInPlace s.client s.client s.lock s.lock t creating s.place (at has_lock e, missing)
          (λ u apart h. h) all,
    )
    taken (made e) =
        let (held, missing) = at creating e in
        let none_made : s.created ≡ 0 = subst (λ o. IsCounted o s.created) missing sum in
        (
          (none_made, omega (arith, none_made)),
          moved-IsInPlace s.client (some s.created) s.lock none t leaving s.place
              (ap some none_made)
              (λ u apart.
                remade s.client (some s.created) s.lock none u (s.place u) missing
                  (not_held s.lock t u held apart))
              all,
        )
    taken (gave e) = (
      sum,
      moved-IsInPlace s.client s.client s.lock s.lock t (returned s.client) s.place (at leaving e)
          (λ u apart h. h) all,
    )

Happens-IsSingle : {s : Shared} → Happens s → IsSingle s
Happens-IsSingle started = (refl, λ u. tt)
Happens-IsSingle (steps t before step) = ThreadStep-IsSingle t step (Happens-IsSingle before)

at_most_one : (client : Option ℕ) (n : ℕ) → IsCounted client n → n ≤ 1
at_most_one none n h = omega (arith, h)
at_most_one (some c) n h = let one = h.1 in omega (arith, one)

-- However the threads interleave, at most one client is ever made, no two threads hold it half made, and
-- every thread that has returned was given that one client.
pub Happens-one :
    {s : Shared}
    → Happens s
    → (s.created ≤ 1)
      × ((t : ℕ) (r : Option ℕ) → s.place t ≡ returned r → r ≡ some 0)
      × ((t u : ℕ) → s.place t ≡ creating → s.place u ≡ creating → t ≡ u)
Happens-one {s} before =
    let (sum, all) = Happens-IsSingle before in
    let at =
      λ (t : ℕ) (p : Place) (e : s.place t ≡ p). subst (IsInPlace s.client s.lock t) e (all t) in
    (
      at_most_one s.client s.created sum,
      λ t r. at t (returned r),
      λ t u e f. some-injective t u (sym (at t creating e).0 ∙ (at u creating f).0),
    )
