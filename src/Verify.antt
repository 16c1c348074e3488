-- ===== src/Verify.antt =====
-- verify/verify.go: the data of a verification.
pub mod Walker
pub mod History
pub mod Binding
pub mod Series
use proof.Prelude.{ℕ, List, [], Bool, false}
use proof.Prelude.Bytes.{Bytes}
use proof.Prelude.Int64.{Int64, minus_one}

pub data Verdict : Type 0 where
  intact intact_anchored broken : Verdict

pub data BreakType : Type 0 where
  hash_mismatch sequence_gap invalid_tombstone unknown_format format_field_misuse : BreakType
  invalid_timestamp invalid_field : BreakType

-- One exported row. The timestamp is the text that was hashed.
pub record Entry : Type 0 where
  pub entry_id : Bytes
  pub entry_type : Bytes
  pub timestamp : Bytes
  pub format_version : Int64
  pub run_id : Bytes
  pub sequence_num : Int64
  pub global_seq : Int64
  pub content_hash : Bytes
  pub chain_hash : Bytes

-- `Detail`, a note for a reader, is left out.
pub record Break : Type 0 where
  pub position : Int64
  pub entry_id : Bytes
  pub break_type : BreakType
  pub expected : Bytes
  pub actual : Bytes

pub record Result : Type 0 where
  pub verdict : Verdict
  pub entries_verified : Int64
  pub tombstones_found : Int64
  pub last_tombstone : Int64
  pub first_break : Int64
  pub breaks : List Break
  pub anchor_checked : Bool

pub record Options : Type 0 where
  pub max_breaks : Int64
  pub previous_hash : Bytes

abbrev pub no_entry : Entry
no_entry = record {
  entry_id = [];
  entry_type = [];
  timestamp = [];
  format_version = 0;
  run_id = [];
  sequence_num = 0;
  global_seq = 0;
  content_hash = [];
  chain_hash = [];
}
