-- ===== src/Linker/Append/Lease.antt =====
-- `Append` over the store in memory: the lease, and what a failure leaves behind.
use proof.Prelude.{
  ◌≡◌, refl, ap, ◌∙◌, List, [], ◌∷◌, Option, none, some, Bool, true, false, arith, ◌⊎◌, inl, inr,
  Option-cases,
}
use proof.Prelude.Bytes.{Bytes}
use proof.Hash.{Sha512}
use proof.Store.{Row, State}
use proof.Store.Memory.{
  Store, StoreError, Outcome, write_batch, read_tail, put_state, acquire, last_row, upsert_locked,
}
use proof.Store.Memory.Leases.{leased, IsGranted, acquire-cases, release-leased}
use proof.Linker.{Input, Linking, linked, refused, link, sort_inputs}
use proof.Linker.Append.{
  Calls, memory_port, Config, continuation, record_head, write_linked, append_leased, with_lease,
  append,
}

pub Outcome-cases :
    {A : Type 0} (r : Outcome A)
    → ((a : A) × (r ≡ Outcome.ok a)) ⊎ ((e : StoreError) × (r ≡ Outcome.err e))
Outcome-cases (Outcome.ok a) = inl (a, refl)
Outcome-cases (Outcome.err e) = inr (e, refl)

write_batch-leases :
    (c : Bool) (s : Store) (rows : List Row) → (write_batch c s rows).1.leases ≡ s.leases
unfolding write_batch upsert_locked
write_batch-leases c s rows = ground arith

put_state-leases :
    (c : Bool) (s : Store) (st : Option State) → (put_state c s st).1.leases ≡ s.leases
unfolding put_state
put_state-leases true s st = refl
put_state-leases false s none = refl
put_state-leases false s (some st) = ground arith

module _ (c : Calls) (cfg : Config) (chain_id run_id : Bytes) where
  record_head-leases :
      (rows : List Row) (first : Row) (s : Store)
      → (record_head (memory_port c) cfg chain_id run_id rows first s).1.leases ≡ s.leases
  unfolding record_head
  record_head-leases rows first s = elim (Option-cases (last_row (first ∷ rows))) [
    | inl n ↦ rw (n, record_head) refl
    | inr (l, e) ↦ rw (e, record_head) (put_state-leases c.state_cancelled s _)
  ]

  write_linked-leases :
      (l : Linking) (s : Store)
      → (write_linked (memory_port c) cfg chain_id run_id l s).1.leases ≡ s.leases
  unfolding write_linked
  write_linked-leases (refused e) s = refl
  write_linked-leases (linked []) s = refl
  write_linked-leases (linked (first ∷ rows)) s =
      let batch = write_batch-leases c.write_cancelled s (first ∷ rows) in
      elim (Option-cases (write_batch c.write_cancelled s (first ∷ rows)).0) [
        | inl n ↦
            rw (n, write_linked)
              (record_head-leases rows first (write_batch c.write_cancelled s (first ∷ rows)).1
                ∙ batch)
        | inr (e, bad) ↦ rw (bad, write_linked) batch
      ]

module _ (H : Sha512) (valid_utf8 : Bytes → Bool) (c : Calls) (cfg : Config) where
  append_leased-leases :
      (chain_id run_id : Bytes) (batch : List Input) (s : Store)
      → (append_leased H valid_utf8 (memory_port c) cfg chain_id run_id batch s).1.leases ≡ s.leases
  unfolding append_leased
  append_leased-leases chain_id run_id batch s =
      elim (Outcome-cases (continuation (read_tail c.read_cancelled s chain_id))) [
        | inl ((previous, next), e) ↦
            rw (e, append_leased)
              (write_linked-leases c cfg chain_id run_id
                (link H cfg.format chain_id previous next run_id batch) s)
        | inr (err, e) ↦ rw (e, append_leased) refl
      ]

  not_granted-leases :
      (chain_id run_id : Bytes) (batch : List Input) (s : Store)
      → (acquire c.acquire_cancelled c.token s chain_id).1 ≡ s
      → ¬ IsGranted (acquire c.acquire_cancelled c.token s chain_id).0
      → (with_lease H valid_utf8 (memory_port c) cfg chain_id run_id batch s).1.leases ≡ s.leases
  unfolding with_lease
  not_granted-leases chain_id run_id batch s same closed =
      let left = ap (λ (t : Store). t.leases) same in
      elim (Outcome-cases (acquire c.acquire_cancelled c.token s chain_id).0) [
        | inr (err, e) ↦ rw (e, with_lease) left
        | inl (got, e) ↦ elim (Option-cases got) [
          | inl free ↦ rw (e, with_lease) (rw free left)
          | inr (token, held) ↦ absurd (closed (rw e (rw held tt)))
        ]
      ]

  with_lease-leases :
      (chain_id run_id : Bytes) (batch : List Input) (s : Store) (j : Bytes)
      → (with_lease H valid_utf8 (memory_port c) cfg chain_id run_id batch s).1.leases j
        ≡ s.leases j
  unfolding with_lease
  with_lease-leases chain_id run_id batch s j =
      elim (acquire-cases c.acquire_cancelled c.token s chain_id) [
        | inl (same, closed) ↦
            ap (λ m. m j) (not_granted-leases chain_id run_id batch s same closed)
        | inr (token, free, got) ↦
            let s' = leased s chain_id token in
            let done =
              release-leased s
                (append_leased H valid_utf8 (memory_port c) cfg chain_id run_id batch s').1 chain_id
                token free (append_leased-leases chain_id run_id batch s') in
            let gave = ap (λ (p : Outcome (Option Bytes) × Store). p.0) got in
            let left = ap (λ (p : Outcome (Option Bytes) × Store). p.1) got in
            rw (gave, with_lease) (rw left (done.1 j))
      ]

  -- Whatever `Append` answers, it leaves the leases of all chains as they were.
  pub append-leases :
      (chain_id : Bytes) (inputs : List Input) (s : Store) (j : Bytes)
      → (append H valid_utf8 (memory_port c) cfg chain_id inputs s).1.leases j ≡ s.leases j
  unfolding append
  append-leases chain_id inputs s j = elim (Option-cases cfg.run_id) [
    | inl undrawn ↦ ground (arith, with_lease-leases chain_id [] (sort_inputs inputs) s j)
    | inr (run_id, drawn) ↦ ground (
      arith,
      with_lease-leases chain_id [] (sort_inputs inputs) s j,
      with_lease-leases chain_id run_id (sort_inputs inputs) s j,
    )
  ]
