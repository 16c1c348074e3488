-- ===== src/ChainFormat/Hash.antt =====
-- chainformat/chain_hash.go and chain_hash_v3.go: the two preimages, their checks and their hashes.
pub mod Delimited
use proof.Prelude.{
  ℕ, List, [], ◌∷◌, ◌++◌, Option, none, some, Bool, true, false, leb, ◌==◌, ◌&&◌, ◌||◌,
  if◌then◌else◌, length, all, not,
}
use proof.Prelude.Bytes.{Bytes, codes, is_hex, is_empty, contains}
use proof.Prelude.Int64.{Int64, is_neg, format_int}
use proof.Hash.{Sha512, hex_encode}
use proof.ChainFormat.Timestamp.{Time, valid_timestamp, append_timestamp_micro}
use proof.ChainFormat.Tombstone.{validate_tombstone_content_hash}

-- Why a field is refused. The source's message names the field and its length.
pub data FieldError : Type 0 where
  previous_hash_length previous_hash_not_hex : FieldError
  run_id_empty run_id_pipe : FieldError
  sequence_num_negative global_seq_negative : FieldError
  content_hash_length content_hash_not_hex : FieldError
  timestamp_year : FieldError

pub data Checked (A : Type 0) : Type 0 where
  ok : A → Checked A
  err : FieldError → Checked A

abbrev pub format_v2 : Int64
format_v2 = 2

abbrev pub format_v3 : Int64
format_v3 = 3

abbrev pub chain_hash_prefix : Bytes
chain_hash_prefix = codes "aleutian.chain.v2:"

abbrev pub chain_hash_prefix_v3 : Bytes
chain_hash_prefix_v3 = codes "aleutian.chain.v3:"

unfoldable pub normalize_format_version : Int64 → Int64
normalize_format_version version = if version == 0 then format_v2 else version

-- The buffer that `ComputeChainHashUnchecked` hashes.
unfoldable pub chain_hash_input : Bytes → Bytes → Int64 → Time → Bytes → Bytes
chain_hash_input previous run_id seq t content =
    let input =
      chain_hash_prefix ++ previous ++ b'|' ∷ run_id ++ b'|' ∷ format_int seq ++ b'|' ∷ [] in
    append_timestamp_micro input t ++ b'|' ∷ content

-- The buffer that `ComputeChainHashV3Unchecked` hashes.
unfoldable pub chain_hash_input_v3 : Bytes → Int64 → Time → Bytes → Bytes
chain_hash_input_v3 previous global_seq t content =
    let input = chain_hash_prefix_v3 ++ previous ++ b'|' ∷ format_int global_seq ++ b'|' ∷ [] in
    append_timestamp_micro input t ++ b'|' ∷ content

-- `validateHashField`, with the errors of the field that it is called for.
unfoldable pub validate_hash_field : FieldError → FieldError → Bytes → Bool → Option FieldError
validate_hash_field bad_length not_hex value allow_empty =
    if is_empty value
    then (if allow_empty then none else some bad_length)
    else if not (length value == 128)
    then some bad_length
    else if all is_hex value
    then none
    else some not_hex

unfoldable pub validate_content_hash : Bytes → Option FieldError
validate_content_hash content =
    if validate_tombstone_content_hash content
    then none
    else if not (length content == 128)
    then some content_hash_length
    else if all is_hex content
    then none
    else some content_hash_not_hex

unfoldable pub validate_chain_hash_inputs : Bytes → Bytes → Int64 → Bytes → Option FieldError
unfolding validate_content_hash
validate_chain_hash_inputs previous run_id seq content =
    if not (is_empty previous) && not (length previous == 128)
    then some previous_hash_length
    else if not (is_empty previous) && not (all is_hex previous)
    then some previous_hash_not_hex
    else if is_empty run_id
    then some run_id_empty
    else if contains run_id b'|'
    then some run_id_pipe
    else if is_neg seq
    then some sequence_num_negative
    else validate_content_hash content

unfoldable pub validate_chain_hash_inputs_v3 : Bytes → Int64 → Bytes → Option FieldError
unfolding validate_hash_field
validate_chain_hash_inputs_v3 previous global_seq content =
    elim (validate_hash_field previous_hash_length previous_hash_not_hex previous true) [
      | some e ↦ some e
      | none ↦
          if is_neg global_seq
          then some global_seq_negative
          else if validate_tombstone_content_hash content
          then none
          else validate_hash_field content_hash_length content_hash_not_hex content false
    ]

module _ (H : Sha512) where
  unfoldable pub compute_chain_hash_unchecked : Bytes → Bytes → Int64 → Time → Bytes → Bytes
  compute_chain_hash_unchecked previous run_id seq t content =
      hex_encode (H.sum (chain_hash_input previous run_id seq t content))

  unfoldable pub compute_chain_hash_v3_unchecked : Bytes → Int64 → Time → Bytes → Bytes
  compute_chain_hash_v3_unchecked previous global_seq t content =
      hex_encode (H.sum (chain_hash_input_v3 previous global_seq t content))

  unfoldable pub compute_chain_hash : Bytes → Bytes → Int64 → Time → Bytes → Checked Bytes
  compute_chain_hash previous run_id seq t content =
      elim (validate_chain_hash_inputs previous run_id seq content) [
        | some e ↦ err e
        | none ↦
            if valid_timestamp t
            then ok (compute_chain_hash_unchecked previous run_id seq t content)
            else err timestamp_year
      ]

  unfoldable pub compute_chain_hash_v3 : Bytes → Int64 → Time → Bytes → Checked Bytes
  compute_chain_hash_v3 previous global_seq t content =
      elim (validate_chain_hash_inputs_v3 previous global_seq content) [
        | some e ↦ err e
        | none ↦
            if valid_timestamp t
            then ok (compute_chain_hash_v3_unchecked previous global_seq t content)
            else err timestamp_year
      ]
