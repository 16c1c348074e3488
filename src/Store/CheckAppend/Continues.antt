-- ===== src/Store/CheckAppend/Continues.antt =====
-- What `check_append` accepts: on every chain the entries go on from its tail, without a gap, each
-- with the hash of the one before it.
use proof.Prelude.{
  Bool, true, ◌+◌, ◌%◌, ◌^◌, ◌≡◌, ◌≢◌, refl, sym, ap, ◌∙◌, subst, List, [], ◌∷◌, Option, none, some,
  false, not, ◌==◌, if◌then◌else◌, arith, ◌⊎◌, inl, inr, Bool-cases, Option-cases, In,
}
use proof.Prelude.Bytes.{Bytes, bytes_eq, bytes_eq_sound, bytes_eq_refl}
use proof.Prelude.Int64.{Int64, int_next}
use proof.Store.{Row, State, Tail, Table, put}
use proof.Store.CheckAppend.{
  AppendError, Cursor, tail_cursor, cursors, Scan, done, failed, check_entry, check_entries,
  check_states, check_append,
}

-- The entries of one chain, in order.
abbrev pub of_chain : Bytes → List Row → List Row
of_chain id [] = []
of_chain id (e ∷ entries) =
    let rest = of_chain id entries in if bytes_eq e.chain_id id then e ∷ rest else rest

abbrev pub Continues : Int64 → Bytes → List Row → Type 0
Continues next prev [] = Unit
Continues next prev (e ∷ entries) =
    (e.global_seq ≡ next)
    × (e.previous_hash ≡ prev)
    × Continues ((next + 1) % 2 ^ 64) e.chain_hash entries

-- The last of the rows.
unfoldable pub last_of : List Row → Option Row
last_of [] = none
last_of (e ∷ entries) = elim (last_of entries) [ none ↦ some e | some l ↦ some l ]

-- The entries go on from a row: from nothing they start at 0, with no hash before them.
abbrev pub AfterLast : Option Row → List Row → Type 0
AfterLast none entries = Continues 0 [] entries
AfterLast (some l) entries = Continues ((l.global_seq + 1) % 2 ^ 64) l.chain_hash entries

-- The entries go on from a tail.
abbrev AfterTail : Bool → Int64 → Bytes → List Row → Type 0
AfterTail true seq hash entries = Continues 0 [] entries
AfterTail false seq hash entries = Continues ((seq + 1) % 2 ^ 64) hash entries

abbrev pub Follows : Tail → List Row → Type 0
Follows t entries = AfterTail t.empty t.global_seq t.hash entries

Scan-cases :
    (r : Scan)
    → ((chains : Table (Option Cursor)) × (r ≡ done chains)) ⊎ ((e : AppendError) × (r ≡ failed e))
Scan-cases (done chains) = inl (chains, refl)
Scan-cases (failed e) = inr (e, refl)

abbrev pub table_of : Scan → Table (Option Cursor)
table_of (done chains) = chains
table_of (failed e) = λ _. none

failed≢done : {e : AppendError} {chains : Table (Option Cursor)} → failed e ≢ done chains
failed≢done e = cc

abbrev cursor_or : Cursor → Option Cursor → Cursor
cursor_or c none = c
cursor_or c (some d) = d

abbrev pub after : Cursor → Row → Cursor
after c e = record { next = int_next c.next; prev = e.chain_hash; last = some e }

-- An entry that is taken stands at its chain's cursor, which then moves past it.
pub check_entry-done :
    (chains : Table (Option Cursor)) (e : Row) {chains' : Table (Option Cursor)}
    → check_entry chains e ≡ done chains'
    → (c : Cursor) × (chains e.chain_id ≡ some c)
      × (e.global_seq ≡ c.next)
      × (e.previous_hash ≡ c.prev)
      × (put chains e.chain_id (some (after c e)) ≡ chains')
unfolding check_entry
check_entry-done chains e h = elim (Option-cases (chains e.chain_id)) [
  | inl missing ↦ absurd (failed≢done (rw (missing, check_entry) at h))
  | inr (c, found) ↦
      let at_c = rw (found, check_entry) at h in
      elim (Bool-cases (not (e.global_seq == c.next))) [
        | inl bad ↦ absurd (failed≢done (rw bad at at_c))
        | inr seq ↦
            let at_seq = rw seq at at_c in
            elim (Bool-cases (not (bytes_eq e.previous_hash c.prev))) [
              | inl bad ↦ absurd (failed≢done (rw bad at at_seq))
              | inr link ↦ (
                c,
                found,
                ground arith,
                bytes_eq_sound e.previous_hash c.prev (ground arith),
                ap table_of (rw link at at_seq),
              )
            ]
      ]
]

pub check_entries-cons :
    (chains : Table (Option Cursor)) (e : Row) (entries : List Row) {last : Table (Option Cursor)}
    → check_entries chains (e ∷ entries) ≡ done last
    → (chains' : Table (Option Cursor)) × (check_entry chains e ≡ done chains')
      × (check_entries chains' entries ≡ done last)
unfolding check_entries
check_entries-cons chains e entries h = elim (Scan-cases (check_entry chains e)) [
  | inl (chains', taken) ↦ (chains', taken, rw (taken, check_entries) at h)
  | inr (err, bad) ↦ absurd (failed≢done (rw (bad, check_entries) at h))
]

pub put-same : (m : Table (Option Cursor)) (k : Bytes) (v : Option Cursor) → put m k v k ≡ v
unfolding put
put-same m k v = rw (bytes_eq_refl k) refl

pub put-other :
    (m : Table (Option Cursor)) (k : Bytes) (v : Option Cursor) (j : Bytes)
    → bytes_eq k j ≡ false
    → put m k v j ≡ m j
unfolding put
put-other m k v j h = rw h refl

check_entries-Continues :
    (entries : List Row) (chains : Table (Option Cursor)) (id : Bytes) (c : Cursor)
    {last : Table (Option Cursor)}
    → chains id ≡ some c
    → check_entries chains entries ≡ done last
    → Continues c.next c.prev (of_chain id entries)
check_entries-Continues [] chains id c at h = tt
check_entries-Continues (e ∷ entries) chains id c at h =
    let (chains', taken, rest) = check_entries-cons chains e entries h in
    let (d, found, seq, link, moved) = check_entry-done chains e taken in
    elim (Bool-cases (bytes_eq e.chain_id id)) [
      | inl same ↦
          let is = bytes_eq_sound e.chain_id id same in
          let now : some d ≡ some c = sym found ∙ ap chains is ∙ at in
          let next : chains' id ≡ some (after d e) =
            sym (ap (λ m. m id) moved)
            ∙ ap (put chains e.chain_id (some (after d e))) (sym is)
            ∙ put-same chains e.chain_id (some (after d e)) in
          let more = check_entries-Continues entries chains' id (after d e) next rest in
          subst (λ k. Continues k.next k.prev (of_chain id (e ∷ entries))) (ap (cursor_or c) now)
            (rw same (seq, link, more))
      | inr other ↦
          let next : chains' id ≡ some c =
            sym (ap (λ m. m id) moved)
            ∙ put-other chains e.chain_id (some (after d e)) id other
            ∙ at in
          rw other (check_entries-Continues entries chains' id c next rest)
    ]

-- No two tails are of one chain.
abbrev pub NamedOnce : List Tail → Type 0
NamedOnce [] = Unit
NamedOnce (t ∷ tails) =
    ((u : Tail) → In u tails → bytes_eq u.chain_id t.chain_id ≡ false) × NamedOnce tails

pub cursors-other :
    (tails : List Tail) (chains : Table (Option Cursor)) (id : Bytes)
    → ((u : Tail) → In u tails → bytes_eq u.chain_id id ≡ false)
    → cursors chains tails id ≡ chains id
unfolding cursors
cursors-other [] chains id h = refl
cursors-other (t ∷ tails) chains id h =
    cursors-other tails (put chains t.chain_id (some (tail_cursor t))) id (λ u i. h u (inr i))
    ∙ put-other chains t.chain_id (some (tail_cursor t)) id (h t (inl refl))

cursors-In :
    (tails : List Tail) (chains : Table (Option Cursor)) (t : Tail)
    → NamedOnce tails
    → In t tails
    → cursors chains tails t.chain_id ≡ some (tail_cursor t)
unfolding cursors
cursors-In [] chains t once i = absurd i
cursors-In (u ∷ tails) chains t once (inl e) =
    subst
      (λ v.
        cursors (put chains u.chain_id (some (tail_cursor u))) tails v.chain_id
        ≡ some (tail_cursor v))
      (sym e)
      (cursors-other tails (put chains u.chain_id (some (tail_cursor u))) u.chain_id (once.0)
        ∙ put-same chains u.chain_id (some (tail_cursor u)))
cursors-In (u ∷ tails) chains t once (inr i) =
    cursors-In tails (put chains u.chain_id (some (tail_cursor u))) t (once.1) i

pub check_append-entries :
    (tails : List Tail) (entries : List Row) (states : List State)
    → check_append tails entries states ≡ none
    → (last : Table (Option Cursor)) × (check_entries (cursors (λ _. none) tails) entries
        ≡ done last)
      × (check_states last states ≡ none)
unfolding check_append
check_append-entries tails entries states h =
    elim (Scan-cases (check_entries (cursors (λ _. none) tails) entries)) [
      | inl (last, taken) ↦ (last, taken, rw (taken, check_append) at h)
      | inr (err, bad) ↦ cc (rw (bad, check_append) at h)
    ]

tail-Follows :
    (t : Tail) (entries : List Row)
    → Continues (tail_cursor t).next (tail_cursor t).prev entries
    → Follows t entries
unfolding tail_cursor
tail-Follows t entries h = elim (Bool-cases t.empty) [
  | inl empty ↦ rw empty (rw empty at h)
  | inr filled ↦ rw filled (rw filled at h)
]

-- The entries of each chain that has a tail go on from it.
pub check_append-Follows :
    (tails : List Tail) (entries : List Row) (states : List State) (t : Tail)
    → NamedOnce tails
    → In t tails
    → check_append tails entries states ≡ none
    → Follows t (of_chain t.chain_id entries)
unfolding tail_cursor
check_append-Follows tails entries states t once i h =
    let (last, taken, fits) = check_append-entries tails entries states h in
    tail-Follows t (of_chain t.chain_id entries) (
      check_entries-Continues entries (cursors (λ _. none) tails) t.chain_id (tail_cursor t)
        (cursors-In tails (λ _. none) t once i) taken)
