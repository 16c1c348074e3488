-- ===== src/Examples/Appends.antt =====
-- Two new entries, linked, exported and verified, and appended to a store.
use proof.Prelude.{
  ℕ, ◌≡◌, refl, List, [], ◌∷◌, Option, none, some, Bool, true, false, map, arith, length, inl, inr,
  In,
}
use proof.Prelude.Bytes.{Bytes, codes, bytes_eq, is_hex, contains, has_prefix, bytes_lt}
use proof.Prelude.Int64.{format_int, uint_digits, digits_onto}
use proof.Hash.{padding, hex_encode}
use proof.ChainFormat.Timestamp.{
  append_timestamp_micro, append_int_padded, padded_digits, zero_padded, valid_timestamp,
  is_zero_time, time_equal, time_before,
}
use proof.ChainFormat.Tombstone.{is_tombstone_content_hash, validate_tombstone_content_hash}
use proof.ChainFormat.Hash.{
  format_v3, chain_hash_input_v3, compute_chain_hash_v3_unchecked, compute_chain_hash_v3,
  validate_chain_hash_inputs_v3, validate_hash_field,
}
use proof.Store.{Row, State, Tail, put}
use proof.Store.CheckAppend.{
  check_append, check_entries, check_entry, check_states, cursors, tail_cursor,
}
use proof.Store.CheckAppend.Accepted.{IsAppend, check_append-IsAppend}
use proof.Store.Memory.{
  acquire, release, read_tail, write_batch, put_state, new_store, Update, rows, refused,
  update_chains, by_caller, tail_of, tails, check_names, member, any_leased, last_row, apply_update,
  check_rows,
}
use proof.Store.Memory.Extends.{IsAppendTo, Extended, update_chains-Extended}
use proof.Linker.{
  Input, linked, linked_row, entry_hash, link_from, link, check_input, seen_before, is_reserved,
  validate_from, validate_batch_ordering, arrives_before, insert_input, sort_inputs,
}
use proof.Linker.Export.{to_exported}
use proof.Linker.Link.Verified.{ReadsBack, link-intact}
use proof.Linker.Link.Total.{IsHashable, link-eq_linked}
use proof.Linker.Append.{
  Calls, memory_port, Config, append, with_lease, append_leased, write_linked, record_head,
  continuation,
}
use proof.Linker.Append.Lease.{append-leases}
use proof.Linker.Append.Atomic.{IsFailed, IsSameData, append-IsSameData}
use proof.Verify.{intact}
use proof.Verify.Walker.{chain, format_timestamp, chain_hash_pattern}
use proof.Verify.Walker.Links.{verdict_of}
use proof.Examples.Chains.{noon, read_noon, content}

abbrev pub input : Bytes → ℕ → Input
input id digit = record {
  entry_id = id;
  entry_type = codes "note";
  timestamp = noon;
  content_hash = content digit;
  ingested_at = noon;
  expect_chain_hash = [];
}

abbrev pub batch : List Input
batch = input (codes "e1") b'b' ∷ input (codes "e0") b'a' ∷ []

abbrev pub any_text : Bytes → Bool
any_text s = true

abbrev first_row : Row
first_row =
    linked_row format_v3 (codes "log") [] 0 0 []
      (compute_chain_hash_v3_unchecked padding [] 0 noon (content b'a')) (input (codes "e0") b'a')

abbrev second_row : Row
second_row =
    linked_row format_v3 (codes "log") [] 1 1 (first_row.chain_hash)
      (compute_chain_hash_v3_unchecked padding (first_row.chain_hash) 1 noon (content b'b'))
      (input (codes "e1") b'b')

batch_valid : validate_batch_ordering any_text batch ≡ none
unfolding validate_batch_ordering validate_from check_input seen_before is_reserved valid_timestamp
    is_zero_time bytes_eq has_prefix is_tombstone_content_hash
batch_valid = refl

batch_linked :
    link padding format_v3 (codes "log") [] 0 [] (sort_inputs batch)
    ≡ linked (first_row ∷ second_row ∷ [])
unfolding link link_from entry_hash compute_chain_hash_v3 compute_chain_hash_v3_unchecked
    sort_inputs insert_input arrives_before time_equal time_before bytes_lt chain_hash_input_v3
    append_timestamp_micro append_int_padded padded_digits zero_padded digits_onto format_int
    uint_digits hex_encode validate_chain_hash_inputs_v3 validate_hash_field
    validate_tombstone_content_hash has_prefix valid_timestamp bytes_eq is_hex
batch_linked = refl

noon_reads : ReadsBack read_noon noon
unfolding format_timestamp append_int_padded padded_digits zero_padded digits_onto bytes_eq
noon_reads = refl

batch_reads : (x : Input) → In x batch → ReadsBack read_noon x.timestamp
batch_reads x (inl e) = rw e noon_reads
batch_reads x (inr (inl e)) = rw e noon_reads
batch_reads x (inr (inr i)) = absurd i

link-intact_example :
    verdict_of (
      chain padding read_noon
        (map to_exported (first_row ∷ second_row ∷ []))
        (record { max_breaks = 0; previous_hash = [] }))
    ≡ intact
link-intact_example =
    link-intact padding read_noon (codes "log") [] any_text batch [] 0 0 batch_valid batch_reads
      (inl refl) (omega arith) batch_linked

batch-IsHashable : (x : Input) → In x batch → IsHashable x
unfolding chain_hash_pattern is_hex valid_timestamp
batch-IsHashable x (inl e) = rw e (refl, refl, refl)
batch-IsHashable x (inr (inl e)) = rw e (refl, refl, refl)
batch-IsHashable x (inr (inr i)) = absurd i

link-eq_linked_example :
    (rows : List Row) × (link padding format_v3 (codes "log") [] 5 [] batch ≡ linked rows)
    × (length rows ≡ length batch)
link-eq_linked_example =
    link-eq_linked padding (codes "log") [] [] 5 batch batch-IsHashable (inl refl) (omega arith)

abbrev calls : Calls
calls = record {
  acquire_cancelled = false;
  read_cancelled = false;
  write_cancelled = true;
  state_cancelled = false;
  token = some (codes "t");
}

abbrev config : Config
config = record { cancelled = false; format = 3; now = noon; run_id = none }

append-leases_example :
    (append padding any_text (memory_port calls) config (codes "log") batch new_store).1.leases
      (codes "log")
    ≡ none
append-leases_example =
    append-leases padding any_text calls config (codes "log") batch new_store (codes "log")

append-IsFailed :
    IsFailed (append padding any_text (memory_port calls) config (codes "log") batch new_store).0
unfolding append with_lease append_leased write_linked record_head continuation acquire release
    read_tail write_batch put_state last_row validate_batch_ordering validate_from check_input
    seen_before is_reserved valid_timestamp is_zero_time bytes_eq has_prefix
    is_tombstone_content_hash link link_from entry_hash compute_chain_hash_v3
    compute_chain_hash_v3_unchecked sort_inputs insert_input arrives_before time_equal time_before
    bytes_lt chain_hash_input_v3 append_timestamp_micro append_int_padded padded_digits zero_padded
    digits_onto format_int uint_digits hex_encode validate_chain_hash_inputs_v3 validate_hash_field
    validate_tombstone_content_hash is_hex
append-IsFailed = tt

append-IsSameData_example :
    IsSameData
      (append padding any_text (memory_port calls) config (codes "log") batch new_store).1
      new_store
append-IsSameData_example =
    append-IsSameData padding any_text calls config (codes "log") batch new_store append-IsFailed

abbrev log_tails : List Tail
log_tails = record { chain_id = codes "log"; empty = true; hash = []; global_seq = 0 } ∷ []

rows_fit : check_append log_tails (first_row ∷ second_row ∷ []) [] ≡ none
unfolding check_append check_entries check_entry check_states cursors tail_cursor put bytes_eq
    compute_chain_hash_v3_unchecked chain_hash_input_v3 append_timestamp_micro append_int_padded
    padded_digits zero_padded digits_onto format_int uint_digits hex_encode
rows_fit = refl

check_append-IsAppend_example : IsAppend log_tails (first_row ∷ second_row ∷ []) []
check_append-IsAppend_example =
    check_append-IsAppend log_tails (first_row ∷ second_row ∷ []) [] ((λ u i. absurd i), tt)
      rows_fit

abbrev write_two : List Tail → Update Bool
write_two ts = rows (first_row ∷ second_row ∷ []) []

written : (update_chains false new_store (codes "log" ∷ []) (some write_two)).0 ≡ none
unfolding update_chains apply_update check_rows check_names member any_leased tails tail_of last_row
    check_append check_entries check_entry check_states cursors tail_cursor put bytes_eq contains
    compute_chain_hash_v3_unchecked chain_hash_input_v3 append_timestamp_micro append_int_padded
    padded_digits zero_padded digits_onto format_int uint_digits hex_encode
written = refl

update_chains-Extended_example :
    ((id : Bytes) → In id (codes "log" ∷ []) → new_store.leases id ≡ none)
    × ((es : List Row) × (sts : List State) × (write_two (tails new_store (codes "log" ∷ []))
          ≡ rows es sts)
        × IsAppendTo new_store (codes "log" ∷ []) es sts
        × Extended new_store es sts
            ((update_chains false new_store (codes "log" ∷ []) (some write_two)).1))
update_chains-Extended_example =
    update_chains-Extended false new_store (codes "log" ∷ []) write_two (λ id. (tt, tt))
      (omega arith, (omega arith, tt)) written

abbrev refuse : Option (List Tail → Update Bool)
refuse = some (λ ts. refused true)

refusal : (update_chains false new_store (codes "log" ∷ []) refuse).0 ≡ some (by_caller true)
unfolding update_chains apply_update check_names member any_leased contains
refusal = refl
