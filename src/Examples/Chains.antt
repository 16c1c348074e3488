-- ===== src/Examples/Chains.antt =====
-- A chain of two entries.
use proof.Prelude.{
  ℕ, ◌-◌, ◌≡◌, ◌^◌, refl, [], ◌∷◌, Option, none, some, false, if◌then◌else◌, arith, inl, replicate,
}
use proof.Prelude.Bytes.{Bytes, codes, bytes_eq, is_hex, contains, has_prefix}
use proof.Prelude.Int64.{format_int, uint_digits, digits_onto}
use proof.Examples.Clash.{NoClash-no_clash}
use proof.Hash.{padding, NoClash, hex_encode}
use proof.ChainFormat.Timestamp.{
  Time, append_timestamp_micro, append_int_padded, padded_digits, zero_padded,
}
use proof.ChainFormat.Tombstone.{
  is_tombstone, is_tombstone_content_hash, validate_tombstone_content_hash,
}
use proof.ChainFormat.Hash.{
  chain_hash_input_v3, compute_chain_hash_v3_unchecked, validate_chain_hash_inputs_v3,
  validate_hash_field, normalize_format_version,
}
use proof.ChainFormat.Hash.Delimited.{
  chain_hash_input_v3-injective, chain_hash_input-injective, SameV3, SameV2,
}
use proof.Verify.{Entry, Result, Options, intact}
use proof.Verify.Walker.{
  chain, add_all, add, new_walker, enter, add_entry, add_hashed, check_hash, check_start,
  chain_hash_pattern, keep_break, segment, format_timestamp,
}
use proof.Verify.Walker.Links.{Linked, Contiguous, verdict_of, chain-intact}
use proof.Verify.Walker.Complete.{intact-chain}
use proof.Verify.History.{SameHistory, ReadsNoSign, IsUnerased, hash_input, hash_inputs}
use proof.Verify.History.Same.{same_head-SameHistory}

abbrev pub noon : Time
noon = record {
  year = 2026;
  month = 3;
  day = 9;
  hour = 12;
  minute = 0;
  second = 0;
  nanosecond = 1000;
}

abbrev pub noon_text : Bytes
noon_text = codes "2026-03-09T12:00:00.000001Z"

abbrev pub read_noon : Bytes → Option Time
read_noon s = if bytes_eq s noon_text then some noon else none

abbrev pub content : ℕ → Bytes
content digit = replicate 128 digit

abbrev pub hash_first : Bytes
hash_first = compute_chain_hash_v3_unchecked padding [] 0 noon (content b'a')

abbrev pub first : Entry
first = record {
  entry_id = codes "e0";
  entry_type = codes "note";
  timestamp = noon_text;
  format_version = 3;
  run_id = [];
  sequence_num = 0;
  global_seq = 0;
  content_hash = content b'a';
  chain_hash = hash_first;
}

abbrev pub second : Entry
second = record {
  entry_id = codes "e1";
  entry_type = codes "note";
  timestamp = noon_text;
  format_version = 3;
  run_id = [];
  sequence_num = 0;
  global_seq = 1;
  content_hash = content b'b';
  chain_hash = compute_chain_hash_v3_unchecked padding hash_first 1 noon (content b'b');
}

abbrev opts : Options
opts = record { max_breaks = 0; previous_hash = [] }

abbrev outcome : Result
outcome = record {
  verdict = intact;
  entries_verified = 2;
  tombstones_found = 0;
  last_tombstone = 2 ^ 64 - 1;
  first_break = 2 ^ 64 - 1;
  breaks = [];
  anchor_checked = false;
}

runs : chain padding read_noon (first ∷ second ∷ []) opts ≡ some outcome
unfolding chain add_all new_walker add enter add_entry add_hashed check_hash check_start
    chain_hash_pattern keep_break segment compute_chain_hash_v3_unchecked chain_hash_input_v3
    append_timestamp_micro append_int_padded padded_digits zero_padded digits_onto format_int
    uint_digits hex_encode validate_chain_hash_inputs_v3 validate_hash_field
    validate_tombstone_content_hash is_tombstone is_tombstone_content_hash has_prefix
    normalize_format_version format_timestamp bytes_eq is_hex contains
runs = refl

links :
    Linked padding read_noon [] (first ∷ second ∷ []) × Contiguous padding read_noon 0 (second ∷ [])
links = chain-intact padding read_noon first (second ∷ []) opts (omega arith) runs refl

chain-intact_example :
    Linked padding read_noon [] (first ∷ second ∷ []) × Contiguous padding read_noon 0 (second ∷ [])
chain-intact_example =
    chain-intact padding read_noon first (second ∷ []) opts (omega arith) runs refl

intact-chain_example : verdict_of (chain padding read_noon (first ∷ second ∷ []) opts) ≡ intact
intact-chain_example =
    intact-chain padding read_noon first (second ∷ []) opts (inl refl) (links.0) (links.1)

pub unerased : IsUnerased (first ∷ second ∷ [])
unfolding is_tombstone has_prefix bytes_eq
unerased = (refl, (refl, tt))

pub apart :
    NoClash padding
      (hash_inputs read_noon [] (first ∷ second ∷ []))
      (hash_inputs read_noon [] (first ∷ second ∷ []))
unfolding hash_input chain_hash_input_v3 compute_chain_hash_v3_unchecked append_timestamp_micro
    append_int_padded padded_digits zero_padded digits_onto format_int uint_digits hex_encode
    normalize_format_version bytes_eq
apart =
    NoClash-no_clash padding (hash_inputs read_noon [] (first ∷ second ∷ []))
      (hash_inputs read_noon [] (first ∷ second ∷ [])) refl

pub reads_no_sign : ReadsNoSign read_noon
reads_no_sign t e = ground arith

same_head-SameHistory_example : SameHistory (first ∷ second ∷ []) (first ∷ second ∷ [])
same_head-SameHistory_example =
    same_head-SameHistory padding read_noon reads_no_sign first first (second ∷ []) (second ∷ [])
      opts refl (omega arith) (omega arith) unerased unerased apart runs runs refl refl refl

bar_free : contains (content b'a') b'|' ≡ false
unfolding contains
bar_free = refl

no_bar : contains [] b'|' ≡ false
unfolding contains
no_bar = refl

run_no_bar : contains (codes "run") b'|' ≡ false
unfolding contains
run_no_bar = refl

chain_hash_input_v3-injective_example :
    SameV3 (content b'a') (content b'a') 7 7 noon noon (content b'b') (content b'b')
chain_hash_input_v3-injective_example =
    chain_hash_input_v3-injective (content b'a') (content b'a') 7 7 noon noon (content b'b')
      (content b'b') bar_free bar_free (omega arith) (omega arith) refl

chain_hash_input-injective_example :
    SameV2 [] [] (codes "run") (codes "run") 7 7 noon noon (content b'b') (content b'b')
chain_hash_input-injective_example =
    chain_hash_input-injective [] [] (codes "run") (codes "run") 7 7 noon noon (content b'b')
      (content b'b') no_bar no_bar run_no_bar run_no_bar (omega arith) (omega arith) refl
