-- ===== src/Linker/AppendChains.antt =====
-- `AppendChains` of linker/append_chains.go over the store in memory. The run ids that are drawn are
-- given by the index of the batch.
pub mod Whole
pub mod Steps
pub mod Written
use proof.Prelude.{
  ℕ, zero, suc, ◌+◌, ◌≡◌, refl, sym, ap, ◌∙◌, List, [], ◌∷◌, ◌++◌, Option, none, some, Bool, true,
  false, not, ◌==◌, ◌||◌, ◌&&◌, if◌then◌else◌, length, Bool-cases, Option-cases, inl, inr, In,
  arith,
}
use proof.Prelude.Bytes.{Bytes, bytes_eq, is_empty}
use proof.Prelude.Int64.{Int64, int_next}
use proof.Hash.{Sha512}
use proof.ChainFormat.Timestamp.{Time}
use proof.ChainFormat.Hash.{format_v2}
use proof.Store.{Row, State, Tail}
use proof.Store.Memory.{
  Store, StoreError, chain_leased, last_row, Update, rows, refused, UpdateError, by_store,
  by_caller, tails, update_chains,
}
use proof.Linker.{
  Input, Appended, OrderError, LinkError, Linking, linked, validate_batch_ordering, sort_inputs,
  link, seen_before,
}

pub record ChainInputs : Type 0 where
  pub chain_id : Bytes
  pub inputs : List Input

pub data ChainsError : Type 0 where
  cancelled_context no_chains empty_chain_id chain_twice empty_batch no_run_id : ChainsError
  bad_order : OrderError → ChainsError
  wrong_tails wrong_tail chain_busy : ChainsError
  link_refused : LinkError → ChainsError
  update_failed : StoreError → ChainsError

-- A batch that is checked and sorted.
pub record Batch : Type 0 where
  pub chain_id : Bytes
  pub run_id : Bytes
  pub sorted : List Input

pub data Outcome (A : Type 0) : Type 0 where
  ok : A → Outcome A
  err : ChainsError → Outcome A

-- What the callback has gathered over the batches.
pub record Gathered : Type 0 where
  pub entries : List Row
  pub states : List State
  pub results : List Appended

abbrev pub then_batch : Batch → Outcome (List Batch) → Outcome (List Batch)
then_batch b (ok batches) = ok (b ∷ batches)
then_batch b (err e) = err e

module _ (valid_utf8 : Bytes → Bool) (format : Int64) (drawn : ℕ → Option Bytes) where
  -- One batch, after the chains that were seen.
  unfoldable pub prepare_one : List Bytes → ℕ → ChainInputs → Outcome Batch
  prepare_one seen i batch =
      if is_empty batch.chain_id
      then err empty_chain_id
      else if seen_before batch.chain_id seen
      then err chain_twice
      else if length batch.inputs == 0
      then err empty_batch
      else elim (validate_batch_ordering valid_utf8 batch.inputs) [
        | some e ↦ err (bad_order e)
        | none ↦
            if format == format_v2
            then elim (drawn i) [
              | none ↦ err no_run_id
              | some run_id ↦ ok (record {
                chain_id = batch.chain_id;
                run_id = run_id;
                sorted = sort_inputs batch.inputs;
              })
            ]
            else ok (record {
              chain_id = batch.chain_id;
              run_id = [];
              sorted = sort_inputs batch.inputs;
            })
      ]

  unfoldable pub prepare : List Bytes → ℕ → List ChainInputs → Outcome (List Batch)
  prepare seen i [] = ok []
  prepare seen i (batch ∷ batches) =
      let rest = prepare (batch.chain_id ∷ seen) (suc i) batches in
      elim (prepare_one seen i batch) [ err e ↦ err e | ok b ↦ then_batch b rest ]

unfoldable pub chain_ids : List Batch → List Bytes
chain_ids [] = []
chain_ids (b ∷ batches) = b.chain_id ∷ chain_ids batches

-- The rows of one chain, its new head, and what is reported. A batch has a last row.
unfoldable pub gather_rows : Time → Batch → Linking → Outcome Gathered
gather_rows now b (Linking.refused e) = err (link_refused e)
gather_rows now b (linked []) = err empty_batch
gather_rows now b (linked (first ∷ more)) = elim (last_row (first ∷ more)) [
  | none ↦ err empty_batch
  | some l ↦ ok (record {
    entries = first ∷ more;
    states =
        (record {
          chain_id = b.chain_id;
          head_seq = l.global_seq;
          head_hash = l.chain_hash;
          computed_at = now;
        })
        ∷ [];
    results =
        (record {
          run_id = b.run_id;
          appended = length (first ∷ more);
          first_seq = first.global_seq;
          last_seq = l.global_seq;
          head_hash = l.chain_hash;
        })
        ∷ [];
  })
]

abbrev pub join : Gathered → Outcome Gathered → Outcome Gathered
join g (err e) = err e
join g (ok h) = ok (record {
  entries = g.entries ++ h.entries;
  states = g.states ++ h.states;
  results = g.results ++ h.results;
})

module _ (H : Sha512) (format : Int64) (now : Time) where
  unfoldable pub link_batch : Batch → Tail → Outcome Gathered
  link_batch b t =
      if not (bytes_eq t.chain_id b.chain_id)
      then err wrong_tail
      else gather_rows now b (
          link H format b.chain_id (if t.empty then [] else t.hash)
            (if t.empty then 0 else int_next t.global_seq) b.run_id b.sorted)

  -- The loop of the callback. The first batch that fails is the error.
  unfoldable pub link_batches : List Batch → List Tail → Outcome Gathered
  link_batches [] [] = ok (record { entries = []; states = []; results = [] })
  link_batches [] (t ∷ ts) = err wrong_tails
  link_batches (b ∷ batches) [] = err wrong_tails
  link_batches (b ∷ batches) (t ∷ ts) =
      let rest = link_batches batches ts in
      elim (link_batch b t) [ err e ↦ err e | ok g ↦ join g rest ]

  -- The callback: as many tails as batches.
  unfoldable pub gather : List Batch → List Tail → Outcome Gathered
  gather batches ts =
      if not (length ts == length batches) then err wrong_tails else link_batches batches ts

abbrev pub update_of : Outcome Gathered → Update ChainsError
update_of (err e) = refused e
update_of (ok g) = rows g.entries g.states

abbrev pub results_of : Outcome Gathered → List Appended
results_of (err e) = []
results_of (ok g) = g.results

abbrev pub error_of : UpdateError ChainsError → ChainsError
error_of (by_caller e) = e
error_of (by_store chain_leased) = chain_busy
error_of (by_store e) = update_failed e

module _ (H : Sha512) (valid_utf8 : Bytes → Bool) (format : Int64) (now : Time)
    (drawn : ℕ → Option Bytes) where
  unfoldable pub update_batches : Bool → Store → List Batch → Outcome (List Appended) × Store
  update_batches cancelled s batches =
      let made = gather H format now batches in
      let (failure, s') =
        update_chains cancelled s (chain_ids batches) (some (λ ts. update_of (made ts))) in
      (
        elim failure [
          | some e ↦ err (error_of e)
          | none ↦ ok (results_of (made (tails s (chain_ids batches))))
        ],
        s',
      )

  -- The context may end before the call, or before the store takes it up.
  unfoldable pub append_chains :
      Bool → Bool → Store → List ChainInputs → Outcome (List Appended) × Store
  append_chains cancelled later s batches =
      if cancelled
      then (err cancelled_context, s)
      else if length batches == 0
      then (err no_chains, s)
      else elim (prepare valid_utf8 format drawn [] 0 batches) [
        | err e ↦ (err e, s)
        | ok prepared ↦ update_batches later s prepared
      ]
