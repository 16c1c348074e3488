-- ===== src/Store/Memory/Extends.antt =====
-- store/memory/memory.go: what an UpdateChains that succeeds leaves in the store.
use mathlib.Core.Option.{some-injective}
use proof.Prelude.{
  ◌≡◌, refl, sym, ap, subst, ◌∙◌, ◌++◌, List, [], ◌∷◌, Option, none, some, Bool, true, false, inl,
  inr, Bool-cases, Option-cases, In, All,
}
use proof.Prelude.Bytes.{Bytes, bytes_eq, bytes_eq_sound, bytes_eq_sym}
use proof.Store.{Row, State, Tail}
use proof.Store.CheckAppend.{check_append}
use proof.Store.CheckAppend.Continues.{of_chain, last_of, AfterLast, Follows}
use proof.Store.CheckAppend.Accepted.{IsAppend, check_append-absent, check_append-IsAppend}
use proof.Store.Memory.{
  Store, member, any_leased, tail_of, tails, last_row, Update, rows, refused, update_chains,
  upsert_locked, put_states,
}
use proof.Store.Memory.Placed.{IsSmall}
use proof.Store.Memory.Appended.{
  IsOrdered, upsert_locked-append, head_after, put_states-head_after, last_row-last_of,
}
use proof.Store.Memory.Together.{
  tail_of-chain_id, tails-NamedOnce, In-tails, apply_update-none, update_chains-none,
}

-- The numbers of the rows that a callback returns are not negative.
abbrev pub HasSmall : {E : Type 0} → Update E → Type 0
HasSmall (rows es sts) = All IsSmall es
HasSmall (refused e) = Unit

tail-AfterLast :
    (s : Store) (id : Bytes) (es : List Row)
    → Follows (tail_of s id) es
    → AfterLast (last_of (s.entries id)) es
unfolding tail_of
tail-AfterLast s id es h = elim (Option-cases (last_row (s.entries id))) [
  | inl bare ↦ rw (sym (last_row-last_of (s.entries id)) ∙ bare) (rw (bare, tail_of) at h)
  | inr (l, found) ↦ rw (sym (last_row-last_of (s.entries id)) ∙ found) (rw (found, tail_of) at h)
]

AfterLast-nil : (o : Option Row) → AfterLast o []
AfterLast-nil none = tt
AfterLast-nil (some l) = tt

member-true : (id : Bytes) (ids : List Bytes) → member id ids ≡ true → In id ids
unfolding member
member-true id [] h = cc
member-true id (j ∷ ids) h = elim (Bool-cases (bytes_eq id j)) [
  | inl same ↦ inl (bytes_eq_sound id j same)
  | inr other ↦ inr (member-true id ids (rw other at h))
]

tails-other :
    (s : Store) (id : Bytes) (ids : List Bytes) (u : Tail)
    → member id ids ≡ false
    → In u (tails s ids)
    → bytes_eq u.chain_id id ≡ false
unfolding tails member
tails-other s id [] u h i = absurd i
tails-other s id (j ∷ ids) u h i = elim (Bool-cases (bytes_eq id j)) [
  | inl same ↦ cc (rw same at h)
  | inr other ↦ elim i [
    | inl here ↦
        let is : u.chain_id ≡ j = ap (λ (t : Tail). t.chain_id) here ∙ tail_of-chain_id s j in
        ap (λ k. bytes_eq k id) is ∙ bytes_eq_sym id j ∙ other
    | inr later ↦ tails-other s id ids u (rw other at h) later
  ]
]

tails-In : (s : Store) (ids : List Bytes) (u : Tail) → In u (tails s ids) → In u.chain_id ids
unfolding tails
tails-In s [] u i = absurd i
tails-In s (j ∷ ids) u (inl here) = inl (ap (λ (t : Tail). t.chain_id) here ∙ tail_of-chain_id s j)
tails-In s (j ∷ ids) u (inr later) = inr (tails-In s ids u later)

free_lem :
    (s : Store) (ids : List Bytes) (id : Bytes)
    → any_leased s ids ≡ false
    → In id ids
    → s.leases id ≡ none
unfolding any_leased
free_lem s [] id h i = absurd i
free_lem s (j ∷ ids) id h i = elim (Option-cases (s.leases j)) [
  | inr (t, held) ↦ cc (rw (held, any_leased) at h)
  | inl free ↦ elim i [
    | inl same ↦ ap s.leases same ∙ free
    | inr later ↦ free_lem s ids id (rw (free, any_leased) at h) later
  ]
]

-- What a store is after rows and head states are added to it: each chain has its rows after those
-- it had, the heads are recorded, and the leases are as they were.
abbrev pub Extended : Store → List Row → List State → Store → Type 0
Extended s es sts new =
    ((id : Bytes) → new.entries id ≡ s.entries id ++ of_chain id es)
    × ((id : Bytes) → new.state id ≡ head_after id (s.state id) sts)
    × ((id : Bytes) → new.leases id ≡ s.leases id)

-- The rows go on from the last of every chain named, and are of the chains named; every head state
-- names the last row of its chain.
abbrev pub IsAppendTo : Store → List Bytes → List Row → List State → Type 0
IsAppendTo s ids es sts =
    ((id : Bytes) → In id ids → AfterLast (last_of (s.entries id)) (of_chain id es))
    × ((e : Row) → In e es → In e.chain_id ids)
    × ((st : State)
        → In st sts
        → (e : Row) × (last_of (of_chain st.chain_id es) ≡ some e)
          × (st.head_seq ≡ e.global_seq)
          × (st.head_hash ≡ e.chain_hash))

append_to :
    (s : Store) (ids : List Bytes) (es : List Row) (sts : List State)
    → IsAppend (tails s ids) es sts
    → IsAppendTo s ids es sts
append_to s ids es sts (follow, named, heads) = (
  λ id i. tail-AfterLast s id (of_chain id es) (
      subst (λ k. Follows (tail_of s id) (of_chain k es)) (tail_of-chain_id s id)
        (follow (tail_of s id) (In-tails s ids id i))),
  λ e i. let (t, it, same) = named e i in subst (λ k. In k ids) same (tails-In s ids t it),
  heads,
)

extended_lem :
    (s : Store) (ids : List Bytes) (es : List Row) (sts : List State)
    → ((id : Bytes) → IsOrdered (s.entries id))
    → All IsSmall es
    → check_append (tails s ids) es sts ≡ none
    → IsAppendTo s ids es sts
    → Extended s es sts (record (upsert_locked s es) { state = put_states s.state sts })
extended_lem s ids es sts order small good (follow, named, heads) = (
  λ id. upsert_locked-append s id es (order id) small (goes_on id),
  λ id. put_states-head_after s.state sts id,
  λ id. unfold upsert_locked in refl,
)
  where
    goes_on : (id : Bytes) → AfterLast (last_of (s.entries id)) (of_chain id es)
    goes_on id = elim (Bool-cases (member id ids)) [
      | inl named_id ↦ follow id (member-true id ids named_id)
      | inr other ↦
          rw
            (check_append-absent (tails s ids) es sts id (λ u i. tails-other s id ids u other i)
              good)
            (AfterLast-nil (last_of (s.entries id)))
    ]

module _ {E : Type 0} where
  -- An `UpdateChains` that succeeds on a store whose chains are in order, with a callback whose rows
  -- have no negative number: none of the chains was leased, the callback returned rows and head states
  -- for the tails, the rows go on from the last row of every chain named and are of these chains, each
  -- head state names the last new row of its chain, and the store is the one before with just these
  -- rows behind those of their chains and these heads recorded.
  pub update_chains-Extended :
      (cancelled : Bool) (s : Store) (ids : List Bytes) (f : List Tail → Update E)
      → ((id : Bytes) → IsOrdered (s.entries id))
      → HasSmall (f (tails s ids))
      → (update_chains cancelled s ids (some f)).0 ≡ none
      → ((id : Bytes) → In id ids → s.leases id ≡ none)
        × ((es : List Row) × (sts : List State) × (f (tails s ids) ≡ rows es sts)
            × IsAppendTo s ids es sts
            × Extended s es sts ((update_chains cancelled s ids (some f)).1))
  update_chains-Extended cancelled s ids f order small h =
      let (g, given, names, free, applied, left) = update_chains-none cancelled s ids (some f) h in
      let same : g ≡ f = sym (some-injective f g given) in
      let (es, sts, made, good, written) =
        apply_update-none s (tails s ids) (g (tails s ids)) applied in
      let mine : f (tails s ids) ≡ rows es sts = ap (λ k. k (tails s ids)) (sym same) ∙ made in
      let append =
        append_to s ids es sts
          (check_append-IsAppend (tails s ids) es sts (tails-NamedOnce s ids [] names) good) in
      (
        λ id i. free_lem s ids id free i,
        (
          es,
          sts,
          mine,
          append,
          subst (Extended s es sts) (sym (left ∙ written))
              (extended_lem s ids es sts order (subst HasSmall mine small) good append),
        ),
      )
