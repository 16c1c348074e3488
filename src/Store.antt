-- ===== src/Store.antt =====
-- store/: the rows of a chain store, and the rule that an append must satisfy.
pub mod Memory
pub mod CheckAppend
pub mod Bolt
use proof.Prelude.{ℕ, Option, none, some, Bool, if◌then◌else◌, ◌≡◌, refl}
use proof.Prelude.Bytes.{Bytes, bytes_eq}
use proof.Prelude.Int64.{Int64}
use proof.ChainFormat.Timestamp.{Time}

-- `store.Entry`.
pub record Row : Type 0 where
  pub chain_id : Bytes
  pub entry_id : Bytes
  pub entry_type : Bytes
  pub format_version : Int64
  pub global_seq : Int64
  pub run_id : Bytes
  pub sequence_num : Int64
  pub timestamp : Time
  pub content_hash : Bytes
  pub previous_hash : Bytes
  pub chain_hash : Bytes

pub record State : Type 0 where
  pub chain_id : Bytes
  pub head_seq : Int64
  pub head_hash : Bytes
  pub computed_at : Time

pub record Tail : Type 0 where
  pub chain_id : Bytes
  pub empty : Bool
  pub hash : Bytes
  pub global_seq : Int64

-- A Go map with string keys; a missing key reads as the given zero value.
abbrev pub Table : Type 0 → Type 0
Table A = Bytes → A

module _ {A : Type 0} where
  unfoldable pub put : Table A → Bytes → A → Table A
  put m k v j = if bytes_eq k j then v else m j
