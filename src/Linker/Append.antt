-- ===== src/Linker/Append.antt =====
-- `Append` of linker/linker.go over the operations of a store.
pub mod Lease
pub mod Atomic
use proof.Prelude.{
  ℕ, zero, suc, ◌+◌, ◌%◌, ◌^◌, List, [], ◌∷◌, Option, none, some, Bool, true, false, not, ◌==◌,
  ◌&&◌, ◌||◌, if◌then◌else◌, length,
}
use proof.Prelude.Bytes.{Bytes, is_empty}
use proof.Prelude.Int64.{Int64, int_next}
use proof.Hash.{Sha512}
use proof.ChainFormat.Timestamp.{Time}
use proof.ChainFormat.Hash.{format_v2}
use proof.Store.{Row, State}
use proof.Store.Memory.{
  Store, StoreError, empty_chain, Outcome, write_batch, read_tail, put_state, acquire, release,
  last_row,
}
use proof.Linker.{
  Input, Appended, OrderError, LinkError, Linking, linked, refused, validate_batch_ordering,
  sort_inputs, link,
}

-- The store's operations that `Append` calls, each on the store's state. An operation's context may
-- have ended when it is called.
pub record Port (S : Type 0) : Type 0 where
  pub acquire : Bytes → S → Outcome (Option Bytes) × S
  pub release : Bytes → Bytes → S → S
  pub read_tail : Bytes → S → Outcome (Bytes × Int64)
  pub write_batch : List Row → S → Option StoreError × S
  pub put_state : State → S → Option StoreError × S

-- The store in memory, with the calls at which the context has ended and the token that is drawn.
-- `Release` goes by a context that does not end.
pub record Calls : Type 0 where
  pub acquire_cancelled : Bool
  pub read_cancelled : Bool
  pub write_cancelled : Bool
  pub state_cancelled : Bool
  pub token : Option Bytes

abbrev pub memory_port : Calls → Port Store
memory_port c = record {
  acquire = λ id s. acquire c.acquire_cancelled c.token s id;
  release = λ id token s. (release false s id token).1;
  read_tail = λ id s. read_tail c.read_cancelled s id;
  write_batch = λ rows s. write_batch c.write_cancelled s rows;
  put_state = λ st s. put_state c.state_cancelled s (some st);
}

pub data LinkerError : Type 0 where
  cancelled_context empty_chain_id empty_batch no_run_id chain_busy : LinkerError
  bad_order : OrderError → LinkerError
  acquire_failed read_failed write_failed : StoreError → LinkerError
  link_refused : LinkError → LinkerError

pub data Reply : Type 0 where
  appended : Appended → Reply
  -- the entries are written, the head record is not
  head_state_stale : Appended → StoreError → Reply
  failed : LinkerError → Reply

-- What the caller and the environment give a call: whether the context has ended, the format, the
-- clock, and the run id that is drawn.
pub record Config : Type 0 where
  pub cancelled : Bool
  pub format : Int64
  pub now : Time
  pub run_id : Option Bytes

-- The hash to link from and the next number; an empty chain is no error.
unfoldable pub continuation : Outcome (Bytes × Int64) → Outcome (Bytes × Int64)
continuation (Outcome.ok (hash, seq)) = Outcome.ok (hash, int_next seq)
continuation (Outcome.err empty_chain) = Outcome.ok ([], 0)
continuation (Outcome.err e) = Outcome.err e

module _ {S : Type 0} (port : Port S) (cfg : Config) (chain_id run_id : Bytes) where
  -- After the batch is written: the head record, and what is reported. A batch has a last row.
  unfoldable pub record_head : List Row → Row → S → Reply × S
  record_head rows first s = elim (last_row (first ∷ rows)) [
    | none ↦ (failed empty_batch, s)
    | some l ↦
        let report : Appended = record {
          run_id = run_id;
          appended = length (first ∷ rows);
          first_seq = first.global_seq;
          last_seq = l.global_seq;
          head_hash = l.chain_hash;
        } in
        let (written, s') =
          port.put_state
            (record {
              chain_id = chain_id;
              head_seq = l.global_seq;
              head_hash = l.chain_hash;
              computed_at = cfg.now;
            })
            s in
        (elim written [ none ↦ appended report | some e ↦ head_state_stale report e ], s')
  ]

  unfoldable pub write_linked : Linking → S → Reply × S
  write_linked (refused e) s = (failed (link_refused e), s)
  write_linked (linked []) s = (failed empty_batch, s)
  write_linked (linked (first ∷ rows)) s =
      let (written, s') = port.write_batch (first ∷ rows) s in
      elim written [ some e ↦ (failed (write_failed e), s') | none ↦ record_head rows first s' ]

module _ (H : Sha512) (valid_utf8 : Bytes → Bool) {S : Type 0} (port : Port S) (cfg : Config) where
  -- What is done under the lease.
  unfoldable pub append_leased : Bytes → Bytes → List Input → S → Reply × S
  append_leased chain_id run_id batch s = elim (continuation (port.read_tail chain_id s)) [
    | Outcome.err e ↦ (failed (read_failed e), s)
    | Outcome.ok (previous, next) ↦
        write_linked port cfg chain_id run_id
          (link H cfg.format chain_id previous next run_id batch) s
  ]

  -- The lease is released on every path.
  unfoldable pub with_lease : Bytes → Bytes → List Input → S → Reply × S
  with_lease chain_id run_id batch s =
      let (got, s') = port.acquire chain_id s in
      elim got [
        | Outcome.err e ↦ (failed (acquire_failed e), s')
        | Outcome.ok none ↦ (failed chain_busy, s')
        | Outcome.ok (some token) ↦
            let (out, s'') = append_leased chain_id run_id batch s' in
            (out, port.release chain_id token s'')
      ]

  unfoldable pub append : Bytes → List Input → S → Reply × S
  append chain_id inputs s =
      if cfg.cancelled
      then (failed cancelled_context, s)
      else if is_empty chain_id
      then (failed empty_chain_id, s)
      else if length inputs == 0
      then (failed empty_batch, s)
      else elim (validate_batch_ordering valid_utf8 inputs) [
        | some e ↦ (failed (bad_order e), s)
        | none ↦
            if cfg.format == format_v2
            then elim cfg.run_id [
              | none ↦ (failed no_run_id, s)
              | some run_id ↦ with_lease chain_id run_id (sort_inputs inputs) s
            ]
            else with_lease chain_id [] (sort_inputs inputs) s
      ]
