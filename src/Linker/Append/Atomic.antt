-- ===== src/Linker/Append/Atomic.antt =====
-- A failed `Append` over the store in memory has written nothing.
use proof.Prelude.{
  ◌≡◌, refl, ap, ◌∙◌, List, [], ◌∷◌, Option, none, some, Bool, false, ◌==◌, if◌then◌else◌, arith,
  inl, inr, Bool-cases, Option-cases, length,
}
use proof.Prelude.Bytes.{Bytes, is_empty}
use proof.Hash.{Sha512}
use proof.ChainFormat.Hash.{format_v2}
use proof.Store.{Row}
use proof.Store.Memory.{
  Store, StoreError, Outcome, write_batch, read_tail, acquire, release, last_row,
}
use proof.Store.Memory.Leases.{leased, IsGranted, acquire-cases}
use proof.Linker.{
  Input, OrderError, Appended, Linking, linked, refused, link, validate_batch_ordering, sort_inputs,
}
use proof.Linker.Append.{
  Calls, memory_port, bad_order, no_run_id, Reply, appended, head_state_stale, failed, Config,
  continuation, record_head, write_linked, append_leased, with_lease, append,
}
use proof.Linker.Append.Lease.{Outcome-cases}

abbrev pub IsFailed : Reply → Type 0
IsFailed (appended report) = ⊥
IsFailed (head_state_stale report e) = ⊥
IsFailed (failed e) = Unit

-- The same rows and the same head records.
abbrev pub IsSameData : Store → Store → Type 0
IsSameData s t = (s.entries ≡ t.entries) × (s.state ≡ t.state)

abbrev Atomic : Store → Reply × Store → Type 0
Atomic s r = IsFailed r.0 → IsSameData r.1 s

last_row-cons : (e : Row) (rows : List Row) → ¬ (last_row (e ∷ rows) ≡ none)
unfolding last_row
last_row-cons e [] h = cc h
last_row-cons e (f ∷ rows) h = last_row-cons f rows h

write_batch-failed :
    (c : Bool) (s : Store) (rows : List Row) {e : StoreError}
    → (write_batch c s rows).0 ≡ some e
    → (write_batch c s rows).1 ≡ s
unfolding write_batch
write_batch-failed c s rows h = ground arith

release-data : (c : Bool) (s : Store) (id token : Bytes) → IsSameData (release c s id token).1 s
unfolding release
release-data c s id token = (ground arith, ground arith)

module _ (c : Calls) (cfg : Config) (chain_id run_id : Bytes) where
  record_head-answers :
      (rows : List Row) (first : Row) (s : Store)
      → ¬ IsFailed (record_head (memory_port c) cfg chain_id run_id rows first s).0
  unfolding record_head
  record_head-answers rows first s = elim (Option-cases (last_row (first ∷ rows))) [
    | inl n ↦ absurd (last_row-cons first rows n)
    | inr (l, e) ↦
        let answers : (o : Option StoreError) (report : Appended)
            → ¬ IsFailed (elim o [ none ↦ appended report | some e ↦ head_state_stale report e ]) =
          λ o report.
            elim o
              as (λ o.
                ¬ IsFailed
                  (elim o [ none ↦ appended report | some e ↦ head_state_stale report e ])) [
                    | none ↦ (λ g. g)
                    | some e ↦ (λ g. g)
                  ] in
        rw (e, record_head) (answers _ _)
  ]

  write_linked-Atomic :
      (l : Linking) (s : Store) → Atomic s (write_linked (memory_port c) cfg chain_id run_id l s)
  unfolding write_linked
  write_linked-Atomic (refused e) s = λ f. (refl, refl)
  write_linked-Atomic (linked []) s = λ f. (refl, refl)
  write_linked-Atomic (linked (first ∷ rows)) s =
      elim (Option-cases (write_batch c.write_cancelled s (first ∷ rows)).0) [
        | inl n ↦
            rw (n, write_linked)
              (λ f. absurd (
                record_head-answers rows first (write_batch c.write_cancelled s (first ∷ rows)).1
                  f))
        | inr (e, bad) ↦
            let same = write_batch-failed c.write_cancelled s (first ∷ rows) bad in
            rw (bad, write_linked)
              (λ f. (ap (λ (t : Store). t.entries) same, ap (λ (t : Store). t.state) same))
      ]

module _ (H : Sha512) (valid_utf8 : Bytes → Bool) (c : Calls) (cfg : Config) where
  append_leased-Atomic :
      (chain_id run_id : Bytes) (batch : List Input) (s : Store)
      → Atomic s (append_leased H valid_utf8 (memory_port c) cfg chain_id run_id batch s)
  unfolding append_leased
  append_leased-Atomic chain_id run_id batch s =
      elim (Outcome-cases (continuation (read_tail c.read_cancelled s chain_id))) [
        | inl ((previous, next), e) ↦
            rw (e, append_leased)
              (write_linked-Atomic c cfg chain_id run_id
                (link H cfg.format chain_id previous next run_id batch) s)
        | inr (err, e) ↦ rw (e, append_leased) (λ f. (refl, refl))
      ]

  not_granted-Atomic :
      (chain_id run_id : Bytes) (batch : List Input) (s : Store)
      → (acquire c.acquire_cancelled c.token s chain_id).1 ≡ s
      → ¬ IsGranted (acquire c.acquire_cancelled c.token s chain_id).0
      → Atomic s (with_lease H valid_utf8 (memory_port c) cfg chain_id run_id batch s)
  unfolding with_lease
  not_granted-Atomic chain_id run_id batch s same closed =
      let kept : IsSameData (acquire c.acquire_cancelled c.token s chain_id).1 s =
        (ap (λ (t : Store). t.entries) same, ap (λ (t : Store). t.state) same) in
      elim (Outcome-cases (acquire c.acquire_cancelled c.token s chain_id).0) [
        | inr (err, e) ↦ rw (e, with_lease) (λ f. kept)
        | inl (got, e) ↦ elim (Option-cases got) [
          | inl free ↦ rw (e, with_lease) (rw free (λ f. kept))
          | inr (token, held) ↦ absurd (closed (rw e (rw held tt)))
        ]
      ]

  with_lease-Atomic :
      (chain_id run_id : Bytes) (batch : List Input) (s : Store)
      → Atomic s (with_lease H valid_utf8 (memory_port c) cfg chain_id run_id batch s)
  unfolding with_lease
  with_lease-Atomic chain_id run_id batch s =
      elim (acquire-cases c.acquire_cancelled c.token s chain_id) [
        | inl (same, closed) ↦ not_granted-Atomic chain_id run_id batch s same closed
        | inr (token, free, got) ↦
            let s' = leased s chain_id token in
            let out = append_leased H valid_utf8 (memory_port c) cfg chain_id run_id batch s' in
            let inner = append_leased-Atomic chain_id run_id batch s' in
            let freed = release-data false out.1 chain_id token in
            let gave = ap (λ (p : Outcome (Option Bytes) × Store). p.0) got in
            let left = ap (λ (p : Outcome (Option Bytes) × Store). p.1) got in
            rw (gave, with_lease)
              (rw left (λ f. let kept = inner f in (freed.0 ∙ kept.0, freed.1 ∙ kept.1)))
      ]

  accepted :
      (chain_id : Bytes) (inputs : List Input) (s : Store) (o : Option OrderError)
      → Atomic s (elim o [
        | some e ↦ (failed (bad_order e), s)
        | none ↦
            if cfg.format == format_v2
            then elim cfg.run_id [
              | none ↦ (failed no_run_id, s)
              | some run_id ↦
                  with_lease H valid_utf8 (memory_port c) cfg chain_id run_id (sort_inputs inputs) s
            ]
            else with_lease H valid_utf8 (memory_port c) cfg chain_id [] (sort_inputs inputs) s
      ])
  accepted chain_id inputs s (some e) = λ f. (refl, refl)
  accepted chain_id inputs s none = elim (Bool-cases (cfg.format == format_v2)) [
    | inr three ↦ rw three (with_lease-Atomic chain_id [] (sort_inputs inputs) s)
    | inl two ↦ elim (Option-cases cfg.run_id) [
      | inl undrawn ↦ rw two (rw undrawn (λ f. (refl, refl)))
      | inr (run_id, drawn) ↦
          rw two (rw drawn (with_lease-Atomic chain_id run_id (sort_inputs inputs) s))
    ]
  ]

  -- When `Append` answers with an error other than that of a stale head record, the rows and the
  -- head records of the store are what they were.
  pub append-IsSameData :
      (chain_id : Bytes) (inputs : List Input) (s : Store)
      → IsFailed (append H valid_utf8 (memory_port c) cfg chain_id inputs s).0
      → IsSameData (append H valid_utf8 (memory_port c) cfg chain_id inputs s).1 s
  unfolding append
  append-IsSameData chain_id inputs s = elim (Bool-cases cfg.cancelled) [
    | inl gone ↦ rw (gone, append) (λ f. (refl, refl))
    | inr live ↦ elim (Bool-cases (is_empty chain_id)) [
      | inl empty ↦ rw (live, append) (rw empty (λ f. (refl, refl)))
      | inr named ↦ elim (Bool-cases (length inputs == 0)) [
        | inl none_given ↦ rw (live, append) (rw named (rw none_given (λ f. (refl, refl))))
        | inr given ↦
            rw (live, append)
              (rw named
                (rw given (accepted chain_id inputs s (validate_batch_ordering valid_utf8 inputs))))
      ]
    ]
  ]
