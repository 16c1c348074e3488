-- ===== src/Linker.antt =====
-- linker/: positions and chain hashes for new entries. `utf8.ValidString` and SHA-512 are
-- parameters; the store is one through the operations that the linker calls.
pub mod Export
pub mod Order
pub mod Link
pub mod Append
pub mod AppendChains
use proof.Prelude.{
  ℕ, zero, suc, ◌+◌, ◌%◌, ◌^◌, List, [], ◌∷◌, Option, none, some, Bool, true, false, not, ◌==◌,
  ◌&&◌, ◌||◌, if◌then◌else◌,
}
use proof.Prelude.Bytes.{Bytes, bytes_eq, bytes_lt, has_prefix, is_empty}
use proof.Prelude.Int64.{Int64}
use proof.Hash.{Sha512}
use proof.ChainFormat.Timestamp.{Time, valid_timestamp, is_zero_time, time_equal, time_before}
use proof.ChainFormat.Tombstone.{
  tombstone_entry_type, tombstone_entry_id_prefix, is_tombstone_content_hash,
}
use proof.ChainFormat.Hash.{
  FieldError, Checked, format_v2, format_v3, compute_chain_hash, compute_chain_hash_v3,
}
use proof.Store.{Row}

pub record Input : Type 0 where
  pub entry_id : Bytes
  pub entry_type : Bytes
  pub timestamp : Time
  pub content_hash : Bytes
  pub ingested_at : Time
  pub expect_chain_hash : Bytes

-- What one append did.
pub record Appended : Type 0 where
  pub run_id : Bytes
  pub appended : Int64
  pub first_seq : Int64
  pub last_seq : Int64
  pub head_hash : Bytes

pub data OrderError : Type 0 where
  empty_entry_id not_utf8 timestamp_year zero_ingested_at reserved duplicate : OrderError

unfoldable pub seen_before : Bytes → List Bytes → Bool
seen_before id [] = false
seen_before id (j ∷ ids) = bytes_eq id j || seen_before id ids

unfoldable pub is_reserved : Input → Bool
is_reserved x =
    bytes_eq x.entry_type tombstone_entry_type
    || has_prefix x.entry_id tombstone_entry_id_prefix
    || is_tombstone_content_hash x.content_hash

module _ (valid_utf8 : Bytes → Bool) where
  unfoldable pub check_input : List Bytes → Input → Option OrderError
  check_input seen x =
      if is_empty x.entry_id
      then some empty_entry_id
      else if not (valid_utf8 x.entry_id)
      then some not_utf8
      else if not (valid_timestamp x.timestamp)
      then some timestamp_year
      else if is_zero_time x.ingested_at
      then some zero_ingested_at
      else if is_reserved x
      then some reserved
      else if seen_before x.entry_id seen
      then some duplicate
      else none

  unfoldable pub validate_from : List Bytes → List Input → Option OrderError
  validate_from seen [] = none
  validate_from seen (x ∷ inputs) = elim (check_input seen x) [
    | some e ↦ some e
    | none ↦ validate_from (x.entry_id ∷ seen) inputs
  ]

  unfoldable pub validate_batch_ordering : List Input → Option OrderError
  validate_batch_ordering inputs = validate_from [] inputs

-- The order of `sortInputs`: by arrival, then by id.
unfoldable pub arrives_before : Input → Input → Bool
arrives_before x y =
    if time_equal x.ingested_at y.ingested_at
    then bytes_lt x.entry_id y.entry_id
    else time_before x.ingested_at y.ingested_at

unfoldable pub insert_input : Input → List Input → List Input
insert_input x [] = x ∷ []
insert_input x (y ∷ inputs) =
    if arrives_before y x then y ∷ insert_input x inputs else x ∷ y ∷ inputs

-- `sort.Slice`: with ids that differ the order has no ties, so the algorithm does not matter.
unfoldable pub sort_inputs : List Input → List Input
sort_inputs [] = []
sort_inputs (x ∷ inputs) = insert_input x (sort_inputs inputs)

-- An error of linking, with the index in the sorted batch.
pub data LinkError : Type 0 where
  bad_field : ℕ → FieldError → LinkError
  unexpected_chain_hash : ℕ → LinkError

pub data Linking : Type 0 where
  linked : List Row → Linking
  refused : LinkError → Linking

abbrev pub then_row : Row → Linking → Linking
then_row row (linked rows) = linked (row ∷ rows)
then_row row (refused e) = refused e

-- The fields of a linked entry; a run id and a batch index are set in format v2 only.
abbrev pub linked_row : Int64 → Bytes → Bytes → Int64 → Int64 → Bytes → Bytes → Input → Row
linked_row format chain_id run_id seq_num global_seq previous hash x = record {
  chain_id = chain_id;
  entry_id = x.entry_id;
  entry_type = x.entry_type;
  format_version = format;
  global_seq = global_seq;
  run_id = if format == format_v2 then run_id else [];
  sequence_num = if format == format_v2 then seq_num else 0;
  timestamp = x.timestamp;
  content_hash = x.content_hash;
  previous_hash = previous;
  chain_hash = hash;
}

module _ (H : Sha512) where
  unfoldable pub entry_hash : Int64 → Bytes → Bytes → Int64 → Int64 → Input → Checked Bytes
  entry_hash format previous run_id seq_num global_seq x =
      if format == format_v2
      then compute_chain_hash H previous run_id seq_num x.timestamp x.content_hash
      else compute_chain_hash_v3 H previous global_seq x.timestamp x.content_hash

  -- The loop of `link`, from batch index i on.
  unfoldable pub link_from : Int64 → Bytes → Bytes → Int64 → Bytes → ℕ → List Input → Linking
  link_from format chain_id previous next run_id i [] = linked []
  link_from format chain_id previous next run_id i (x ∷ batch) =
      let global_seq = (next + i) % 2 ^ 64 in
      elim (entry_hash format previous run_id i global_seq x) [
        | Checked.err e ↦ refused (bad_field i e)
        | Checked.ok hash ↦
            let rest = link_from format chain_id hash next run_id (suc i) batch in
            if not (is_empty x.expect_chain_hash) && not (bytes_eq x.expect_chain_hash hash)
            then refused (unexpected_chain_hash i)
            else then_row (linked_row format chain_id run_id i global_seq previous hash x) rest
      ]

  unfoldable pub link : Int64 → Bytes → Bytes → Int64 → Bytes → List Input → Linking
  link format chain_id previous next run_id batch =
      link_from format chain_id previous next run_id 0 batch
