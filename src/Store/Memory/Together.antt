-- ===== src/Store/Memory/Together.antt =====
-- store/memory/memory.go: UpdateChains, by what it answers.
use proof.Prelude.{
  ◌≡◌, ◌≢◌, refl, ap, ◌∙◌, List, [], ◌∷◌, Option, none, some, Bool, false, arith, inl, inr,
  Option-cases, In,
}
use proof.Prelude.Bytes.{Bytes, bytes_eq}
use proof.Store.{Row, State, Tail}
use proof.Store.CheckAppend.{check_append}
use proof.Store.CheckAppend.Continues.{NamedOnce}
use proof.Store.Memory.{
  Store, member, check_names, any_leased, tail_of, tails, last_row, Update, rows, refused,
  UpdateError, apply_update, update_chains, upsert_locked, put_states, check_rows,
}

pub tail_of-chain_id : (s : Store) (id : Bytes) → (tail_of s id).chain_id ≡ id
unfolding tail_of
tail_of-chain_id s id = elim (Option-cases (last_row (s.entries id))) [
  | inl n ↦ rw (n, tail_of) refl
  | inr (e, l) ↦ rw (l, tail_of) refl
]

check_names-first :
    (seen : List Bytes) (id : Bytes) (ids : List Bytes)
    → check_names seen (id ∷ ids) ≡ none
    → (member id seen ≡ false) × (check_names (id ∷ seen) ids ≡ none)
unfolding check_names
check_names-first seen id ids h = (ground arith, ground arith)

member-In :
    (id j : Bytes) (seen : List Bytes) → member id seen ≡ false → In j seen → bytes_eq id j ≡ false
unfolding member
member-In id j [] h i = absurd i
member-In id j (k ∷ seen) h (inl e) = rw e (ground arith)
member-In id j (k ∷ seen) h (inr i) = member-In id j seen (ground arith) i

unseen :
    (s : Store) (ids seen : List Bytes) (j : Bytes) (u : Tail)
    → check_names seen ids ≡ none
    → In j seen
    → In u (tails s ids)
    → bytes_eq u.chain_id j ≡ false
unfolding tails
unseen s [] seen j u h ij iu = absurd iu
unseen s (id ∷ ids) seen j u h ij (inl e) =
    let (new, rest) = check_names-first seen id ids h in
    let is : u.chain_id ≡ id = ap (λ (t : Tail). t.chain_id) e ∙ tail_of-chain_id s id in
    ap (λ k. bytes_eq k j) is ∙ member-In id j seen new ij
unseen s (id ∷ ids) seen j u h ij (inr iu) =
    unseen s ids (id ∷ seen) j u ((check_names-first seen id ids h).1) (inr ij) iu

pub tails-NamedOnce :
    (s : Store) (ids seen : List Bytes) → check_names seen ids ≡ none → NamedOnce (tails s ids)
unfolding tails
tails-NamedOnce s [] seen h = tt
tails-NamedOnce s (id ∷ ids) seen h =
    let (new, rest) = check_names-first seen id ids h in
    (
      λ u i.
          ap (bytes_eq u.chain_id) (tail_of-chain_id s id)
          ∙ unseen s ids (id ∷ seen) id u rest (inl refl) i,
      tails-NamedOnce s ids (id ∷ seen) rest,
    )

pub In-tails :
    (s : Store) (ids : List Bytes) (id : Bytes) → In id ids → In (tail_of s id) (tails s ids)
unfolding tails
In-tails s [] id i = absurd i
In-tails s (j ∷ ids) id (inl e) = inl (ap (tail_of s) e)
In-tails s (j ∷ ids) id (inr i) = inr (In-tails s ids id i)

pub some≢none : {A : Type 0} {a : A} → some a ≢ none
some≢none e = cc

module _ {E : Type 0} where
  pub apply_update-none :
      (s : Store) (ts : List Tail) (u : Update E)
      → (apply_update s ts u).0 ≡ none
      → (es : List Row) × (sts : List State) × (u ≡ rows es sts)
        × (check_append ts es sts ≡ none)
        × ((apply_update s ts u).1 ≡ record (upsert_locked s es) { state = put_states s.state sts })
  unfolding apply_update
  apply_update-none s ts (refused e) h = absurd (some≢none h)
  apply_update-none s ts (rows es sts) h = elim (Option-cases (check_rows es)) [
    | inr (e, bad) ↦ absurd (some≢none (rw (bad, apply_update) at h))
    | inl fine ↦ elim (Option-cases (check_append ts es sts)) [
      | inr (e, bad) ↦ absurd (some≢none (rw bad at rw (fine, apply_update) at h))
      | inl good ↦ (es, sts, refl, good, rw (fine, apply_update) (rw good refl))
    ]
  ]

  apply_update-some :
      (s : Store) (ts : List Tail) (u : Update E) {e : UpdateError E}
      → (apply_update s ts u).0 ≡ some e
      → (apply_update s ts u).1 ≡ s
  unfolding apply_update
  apply_update-some s ts (refused e) h = refl
  apply_update-some s ts (rows es sts) h = ground arith

  -- An `UpdateChains` that answers with an error leaves the store as it was.
  pub update_chains-some :
      (cancelled : Bool) (s : Store) (ids : List Bytes) (fn : Option (List Tail → Update E))
      {e : UpdateError E}
      → (update_chains cancelled s ids fn).0 ≡ some e
      → (update_chains cancelled s ids fn).1 ≡ s
  unfolding update_chains
  update_chains-some cancelled s ids none {e} h = ground arith
  update_chains-some cancelled s ids (some f) {e} h =
      ground (arith, apply_update-some s (tails s ids) (f (tails s ids)) {e = e})

  pub update_chains-none :
      (cancelled : Bool) (s : Store) (ids : List Bytes) (fn : Option (List Tail → Update E))
      → (update_chains cancelled s ids fn).0 ≡ none
      → (f : List Tail → Update E) × (fn ≡ some f)
        × (check_names [] ids ≡ none)
        × (any_leased s ids ≡ false)
        × ((apply_update s (tails s ids) (f (tails s ids))).0 ≡ none)
        × ((update_chains cancelled s ids fn).1
            ≡ (apply_update s (tails s ids) (f (tails s ids))).1)
  unfolding update_chains
  update_chains-none cancelled s ids none h = absurd (ground arith)
  update_chains-none cancelled s ids (some f) h =
      (f, refl, ground arith, ground arith, ground arith, ground arith)
