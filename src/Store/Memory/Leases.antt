-- ===== src/Store/Memory/Leases.antt =====
-- The leases of the store in memory: one holder at a time, and a release undoes the acquisition.
use proof.Prelude.{
  ◌≡◌, refl, sym, ap, ◌∙◌, Option, none, some, Bool, true, false, ◌⊎◌, inl, inr, Bool-cases,
  Option-cases,
}
use proof.Prelude.Bytes.{Bytes, bytes_eq, bytes_eq_refl, bytes_eq_sound}
use proof.Store.{Table, put}
use proof.Store.Memory.{Store, Outcome, acquire, release}

-- The store with a lease of the chain held under the token.
abbrev pub leased : Store → Bytes → Bytes → Store
leased s id token = record s { leases = put s.leases id (some token) }

abbrev pub IsGranted : Outcome (Option Bytes) → Type 0
IsGranted (Outcome.ok none) = ⊥
IsGranted (Outcome.ok (some token)) = Unit
IsGranted (Outcome.err e) = ⊥

-- A lease is granted on a chain without one, under the token that was drawn, or nothing changes.
pub acquire-cases :
    (cancelled : Bool) (drawn : Option Bytes) (s : Store) (id : Bytes)
    → (((acquire cancelled drawn s id).1 ≡ s) × ¬ IsGranted (acquire cancelled drawn s id).0)
      ⊎ ((token : Bytes) × (s.leases id ≡ none)
          × (acquire cancelled drawn s id ≡ (Outcome.ok (some token), leased s id token)))
unfolding acquire
acquire-cases true drawn s id = inl (refl, λ g. g)
acquire-cases false none s id = elim (Option-cases (s.leases id)) [
  | inr (held, e) ↦ inl (rw (e, acquire) (refl, λ g. g))
  | inl free ↦ inl (rw (free, acquire) (refl, λ g. g))
]
acquire-cases false (some token) s id = elim (Option-cases (s.leases id)) [
  | inr (held, e) ↦ inl (rw (e, acquire) (refl, λ g. g))
  | inl free ↦ inr (token, free, rw (free, acquire) refl)
]

put-same : (m : Table (Option Bytes)) (k : Bytes) (v : Option Bytes) → put m k v k ≡ v
unfolding put
put-same m k v = rw (bytes_eq_refl k) refl

-- While a lease is held, nobody is granted another one on the chain.
pub acquire-leased :
    (cancelled : Bool) (drawn : Option Bytes) (s : Store) (id token : Bytes)
    → ¬ IsGranted (acquire cancelled drawn (leased s id token) id).0
unfolding acquire
acquire-leased true drawn s id token = λ g. g
acquire-leased false drawn s id token = rw (put-same s.leases id (some token), acquire) (λ g. g)

release-held :
    (s : Store) (id token : Bytes)
    → s.leases id ≡ some token
    → release false s id token ≡ (none, record s { leases = put s.leases id none })
unfolding release
release-held s id token held = rw (held, release) (rw (bytes_eq_refl token) refl)

-- A release of what was held on a chain that was free leaves the leases as they were.
pub release-leased :
    (s t : Store) (id token : Bytes)
    → s.leases id ≡ none
    → t.leases ≡ (leased s id token).leases
    → (release false t id token).0 ≡ none
      × ((j : Bytes) → (release false t id token).1.leases j ≡ s.leases j)
unfolding put
release-leased s t id token free same =
    let held : t.leases id ≡ some token = ap (λ m. m id) same ∙ put-same s.leases id (some token) in
    rw (release-held t id token held) (
      refl,
      λ j. elim (Bool-cases (bytes_eq id j)) [
        | inl is ↦ rw is (sym free ∙ ap s.leases (bytes_eq_sound id j is))
        | inr other ↦ rw other (ap (λ m. m j) same ∙ rw other refl)
      ],
    )

-- Another token does not release a lease.
pub release-other :
    (cancelled : Bool) (s : Store) (id token other : Bytes)
    → bytes_eq token other ≡ false
    → (release cancelled (leased s id token) id other).1 ≡ leased s id token
unfolding release
release-other true s id token other h = refl
release-other false s id token other h = rw (put-same s.leases id (some token), release) (rw h refl)
