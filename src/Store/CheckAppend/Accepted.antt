-- ===== src/Store/CheckAppend/Accepted.antt =====
-- store/append_check.go: all that CheckAppend asks of the entries and the head states.
use mathlib.Core.Option.{some-injective}
use proof.Prelude.{
  ◌≡◌, ◌≢◌, refl, sym, ap, ◌∙◌, List, [], ◌∷◌, Option, none, some, true, false, not, ◌==◌, ◌||◌,
  arith, ◌⊎◌, inl, inr, Bool-cases, Option-cases, In,
}
use proof.Prelude.Bytes.{Bytes, bytes_eq, bytes_eq_sound, bytes_eq_refl}
use proof.Store.{Row, State, Tail, Table, put}
use proof.Store.CheckAppend.{
  Cursor, tail_cursor, cursors, done, check_entries, check_state, check_states, check_append,
}
use proof.Store.CheckAppend.Continues.{
  of_chain, last_of, Follows, NamedOnce, table_of, after, check_entry-done, check_entries-cons,
  put-same, put-other, cursors-other, check_append-entries, check_append-Follows,
}

-- A chain without a cursor has no entry, and gets no cursor.
check_entries-absent :
    (entries : List Row) (chains : Table (Option Cursor)) (id : Bytes)
    {last : Table (Option Cursor)}
    → chains id ≡ none
    → check_entries chains entries ≡ done last
    → (last id ≡ none) × (of_chain id entries ≡ [])
unfolding check_entries
check_entries-absent [] chains id missing h = (sym (ap (λ m. table_of m id) h) ∙ missing, refl)
check_entries-absent (e ∷ entries) chains id missing h =
    let (chains', taken, rest) = check_entries-cons chains e entries h in
    let (d, found, seq, link, moved) = check_entry-done chains e taken in
    elim (Bool-cases (bytes_eq e.chain_id id)) [
      | inl same ↦ cc (sym found ∙ ap chains (bytes_eq_sound e.chain_id id same) ∙ missing)
      | inr other ↦
          let next : chains' id ≡ none =
            sym (ap (λ m. m id) moved)
            ∙ put-other chains e.chain_id (some (after d e)) id other
            ∙ missing in
          let (left, bare) = check_entries-absent entries chains' id next rest in
          (left, rw other bare)
    ]

-- The last entry that a cursor has passed, when it has passed `o` before.
unfoldable last_or : Option Row → List Row → Option Row
last_or o [] = o
last_or o (e ∷ entries) = last_or (some e) entries

last_or-some : (e : Row) (entries : List Row) → last_or (some e) entries ≡ last_of (e ∷ entries)
unfolding last_or last_of
last_or-some e [] = refl
last_or-some e (f ∷ entries) =
    last_or-some f entries
    ∙ elim (Option-cases (last_of entries)) [ inl n ↦ rw n refl | inr (l, found) ↦ rw found refl ]

last_or-none : (entries : List Row) → last_or none entries ≡ last_of entries
unfolding last_or last_of
last_or-none [] = refl
last_or-none (e ∷ entries) = last_or-some e entries

check_entries-last :
    (entries : List Row) (chains : Table (Option Cursor)) (id : Bytes) (c : Cursor)
    {last : Table (Option Cursor)}
    → chains id ≡ some c
    → check_entries chains entries ≡ done last
    → (d : Cursor) × (last id ≡ some d) × (d.last ≡ last_or c.last (of_chain id entries))
unfolding check_entries last_or
check_entries-last [] chains id c at h = (c, sym (ap (λ m. table_of m id) h) ∙ at, refl)
check_entries-last (e ∷ entries) chains id c at h =
    let (chains', taken, rest) = check_entries-cons chains e entries h in
    let (d, found, seq, link, moved) = check_entry-done chains e taken in
    elim (Bool-cases (bytes_eq e.chain_id id)) [
      | inl same ↦
          let is = bytes_eq_sound e.chain_id id same in
          let next : chains' id ≡ some (after d e) =
            sym (ap (λ m. m id) moved)
            ∙ ap (put chains e.chain_id (some (after d e))) (sym is)
            ∙ put-same chains e.chain_id (some (after d e)) in
          let (f, left, passed) = check_entries-last entries chains' id (after d e) next rest in
          (f, left, rw same passed)
      | inr other ↦
          let next : chains' id ≡ some c =
            sym (ap (λ m. m id) moved)
            ∙ put-other chains e.chain_id (some (after d e)) id other
            ∙ at in
          let (f, left, passed) = check_entries-last entries chains' id c next rest in
          (f, left, rw other passed)
    ]

of_chain-In : (e : Row) (entries : List Row) → In e entries → of_chain e.chain_id entries ≢ []
of_chain-In e [] i h = i
of_chain-In e (f ∷ entries) (inl same) h =
    let own : bytes_eq f.chain_id e.chain_id ≡ true =
      ap (λ (x : Row). bytes_eq f.chain_id x.chain_id) same ∙ bytes_eq_refl f.chain_id in
    cc (rw own at h)
of_chain-In e (f ∷ entries) (inr i) h = elim (Bool-cases (bytes_eq f.chain_id e.chain_id)) [
  | inl own ↦ cc (rw own at h)
  | inr other ↦ of_chain-In e entries i (rw other at h)
]

-- A cursor is that of a tail.
cursors-found :
    (tails : List Tail) (chains : Table (Option Cursor)) (id : Bytes) (c : Cursor)
    → cursors chains tails id ≡ some c
    → ((t : Tail) × In t tails × (t.chain_id ≡ id) × (c ≡ tail_cursor t)) ⊎ (chains id ≡ some c)
unfolding cursors
cursors-found [] chains id c h = inr h
cursors-found (t ∷ tails) chains id c h =
    elim (cursors-found tails (put chains t.chain_id (some (tail_cursor t))) id c h) [
      | inl (u, i, same, is) ↦ inl (u, inr i, same, is)
      | inr here ↦ elim (Bool-cases (bytes_eq t.chain_id id)) [
        | inl own ↦
            let same = bytes_eq_sound t.chain_id id own in
            let at =
              sym (put-same chains t.chain_id (some (tail_cursor t)))
              ∙ ap (put chains t.chain_id (some (tail_cursor t))) same
              ∙ here in
            inl (t, inl refl, same, sym (some-injective (tail_cursor t) c at))
        | inr other ↦ inr (sym (put-other chains t.chain_id (some (tail_cursor t)) id other) ∙ here)
      ]
    ]

-- A state that is taken names the entry that its chain's cursor has passed last.
check_state-last :
    (chains : Table (Option Cursor)) (st : State)
    → check_state chains st ≡ none
    → (c : Cursor) × (e : Row) × (chains st.chain_id ≡ some c)
      × (c.last ≡ some e)
      × (st.head_seq ≡ e.global_seq)
      × (st.head_hash ≡ e.chain_hash)
unfolding check_state
check_state-last chains st h = elim (Option-cases (chains st.chain_id)) [
  | inl missing ↦ cc (rw (missing, check_state) at h)
  | inr (c, found) ↦ elim (Option-cases c.last) [
    | inl bare ↦ cc (rw (found, bare, check_state) at h)
    | inr (e, passed) ↦
        let fits = rw (found, passed, check_state) at h in
        elim (Bool-cases
          (not (st.head_seq == e.global_seq) || not (bytes_eq st.head_hash e.chain_hash))) [
            | inl bad ↦ cc (rw bad at fits)
            | inr good ↦ (
              c,
              e,
              found,
              passed,
              ground (arith, good),
              bytes_eq_sound st.head_hash e.chain_hash (ground (arith, good)),
            )
          ]
  ]
]

check_states-In :
    (chains : Table (Option Cursor)) (states : List State) (st : State)
    → check_states chains states ≡ none
    → In st states
    → check_state chains st ≡ none
unfolding check_states
check_states-In chains [] st h i = absurd i
check_states-In chains (u ∷ states) st h i = elim (Option-cases (check_state chains u)) [
  | inr (e, bad) ↦ cc (rw (bad, check_states) at h)
  | inl good ↦ elim i [
    | inl same ↦ ap (check_state chains) same ∙ good
    | inr later ↦ check_states-In chains states st (rw (good, check_states) at h) later
  ]
]

-- An append of entries and head states to tails.
abbrev pub IsAppend : List Tail → List Row → List State → Type 0
IsAppend tails entries states =
    ((t : Tail) → In t tails → Follows t (of_chain t.chain_id entries))
    × ((e : Row) → In e entries → (t : Tail) × In t tails × (t.chain_id ≡ e.chain_id))
    × ((st : State)
        → In st states
        → (e : Row) × (last_of (of_chain st.chain_id entries) ≡ some e)
          × (st.head_seq ≡ e.global_seq)
          × (st.head_hash ≡ e.chain_hash))

-- A chain that no tail names has no entry.
pub check_append-absent :
    (tails : List Tail) (entries : List Row) (states : List State) (id : Bytes)
    → ((u : Tail) → In u tails → bytes_eq u.chain_id id ≡ false)
    → check_append tails entries states ≡ none
    → of_chain id entries ≡ []
check_append-absent tails entries states id apart h =
    let (last, taken, fits) = check_append-entries tails entries states h in
    (check_entries-absent entries (cursors (λ _. none) tails) id
      (cursors-other tails (λ _. none) id apart) taken).1

entry_named :
    (tails : List Tail) (entries : List Row) (states : List State) (e : Row)
    → check_append tails entries states ≡ none
    → In e entries
    → (t : Tail) × In t tails × (t.chain_id ≡ e.chain_id)
entry_named tails entries states e h i =
    let (last, taken, fits) = check_append-entries tails entries states h in
    elim (Option-cases (cursors (λ _. none) tails e.chain_id)) [
      | inl missing ↦ absurd (
          of_chain-In e entries i
            ((check_entries-absent entries (cursors (λ _. none) tails) e.chain_id missing taken).1))
      | inr (c, found) ↦ elim (cursors-found tails (λ _. none) e.chain_id c found) [
        | inl (t, it, same, is) ↦ (t, it, same)
        | inr nothing ↦ cc nothing
      ]
    ]

fresh_tail : (t : Tail) → (tail_cursor t).last ≡ none
unfolding tail_cursor
fresh_tail t = elim (Bool-cases t.empty) [ inl empty ↦ rw empty refl | inr filled ↦ rw filled refl ]

state_last :
    (tails : List Tail) (entries : List Row) (states : List State) (st : State)
    → check_append tails entries states ≡ none
    → In st states
    → (e : Row) × (last_of (of_chain st.chain_id entries) ≡ some e)
      × (st.head_seq ≡ e.global_seq)
      × (st.head_hash ≡ e.chain_hash)
state_last tails entries states st h i =
    let (last, taken, fits) = check_append-entries tails entries states h in
    let (d, e, at, passed, number, hash) =
      check_state-last last st (check_states-In last states st fits i) in
    elim (Option-cases (cursors (λ _. none) tails st.chain_id)) [
      | inl missing ↦ cc (
          sym
            ((check_entries-absent entries (cursors (λ _. none) tails) st.chain_id missing taken).0)
          ∙ at)
      | inr (c, found) ↦ elim (cursors-found tails (λ _. none) st.chain_id c found) [
        | inr nothing ↦ cc nothing
        | inl (t, it, same, is) ↦
            let (f, left, over) =
              check_entries-last entries (cursors (λ _. none) tails) st.chain_id c found taken in
            let one : f ≡ d = some-injective f d (sym left ∙ at) in
            let start : c.last ≡ none = ap (λ (x : Cursor). x.last) is ∙ fresh_tail t in
            (
              e,
              sym (last_or-none (of_chain st.chain_id entries))
                  ∙ ap (λ o. last_or o (of_chain st.chain_id entries)) (sym start)
                  ∙ sym over
                  ∙ ap (λ (x : Cursor). x.last) one
                  ∙ passed,
              number,
              hash,
            )
      ]
    ]

-- What `check_append` finds nothing wrong with, for tails of which no two are of one chain, is an
-- append: the entries of every chain that has a tail go on from it, the numbers from the one after the
-- tail's (0 on an empty chain) up by one and each entry with the hash of the one before it; every
-- entry is of a chain that has a tail; every head state names the last entry of its chain.
pub check_append-IsAppend :
    (tails : List Tail) (entries : List Row) (states : List State)
    → NamedOnce tails
    → check_append tails entries states ≡ none
    → IsAppend tails entries states
check_append-IsAppend tails entries states once h = (
  λ t i. check_append-Follows tails entries states t once i h,
  λ e i. entry_named tails entries states e h i,
  λ st i. state_last tails entries states st h i,
)
