-- ===== src/Examples/Together.antt =====
-- Batches for two chains, appended together to a store.
use proof.Prelude.{◌≡◌, refl, List, [], ◌∷◌, none, false, In, inl, inr, arith}
use proof.Prelude.Bytes.{codes, bytes_eq, is_hex, contains, has_prefix, bytes_lt}
use proof.Prelude.Int64.{format_int, uint_digits, digits_onto}
use proof.Hash.{padding, hex_encode}
use proof.ChainFormat.Timestamp.{
  append_timestamp_micro, append_int_padded, padded_digits, zero_padded, valid_timestamp,
  is_zero_time, time_equal, time_before,
}
use proof.ChainFormat.Tombstone.{is_tombstone_content_hash, validate_tombstone_content_hash}
use proof.ChainFormat.Hash.{
  chain_hash_input_v3, compute_chain_hash_v3_unchecked, compute_chain_hash_v3,
  validate_chain_hash_inputs_v3, validate_hash_field,
}
use proof.Store.{put}
use proof.Store.CheckAppend.{
  check_append, check_entries, check_entry, check_states, check_state, cursors, tail_cursor,
}
use proof.Store.Memory.{
  new_store, update_chains, tail_of, tails, check_names, member, any_leased, last_row, apply_update,
  check_rows,
}
use proof.Linker.{
  Appended, entry_hash, link_from, link, check_input, seen_before, is_reserved, validate_from,
  validate_batch_ordering, arrives_before, insert_input, sort_inputs,
}
use proof.Linker.AppendChains.{
  ChainInputs, Outcome, Gathered, chain_twice, prepare, prepare_one, chain_ids, gather, gather_rows,
  link_batch, link_batches, update_batches, append_chains,
}
use proof.Linker.AppendChains.Whole.{append_chains-err}
use proof.Linker.AppendChains.Written.{HasRoom, AreParts, append_chains-AreParts}
use proof.Store.CheckAppend.Continues.{last_of}
use proof.Store.Memory.Extends.{Extended}
use proof.Examples.Chains.{noon}
use proof.Examples.Appends.{input, batch, any_text}

abbrev for_log : ChainInputs
for_log = record { chain_id = codes "log"; inputs = batch }

abbrev for_mail : ChainInputs
for_mail = record { chain_id = codes "mail"; inputs = input (codes "m0") b'c' ∷ [] }

twice :
    (append_chains padding any_text 3 noon
      (λ _. none)
      false
      false
      new_store
      (for_log ∷ for_log ∷ [])).0
    ≡ Outcome.err chain_twice
unfolding append_chains prepare prepare_one seen_before validate_batch_ordering validate_from
    check_input is_reserved valid_timestamp is_zero_time bytes_eq has_prefix
    is_tombstone_content_hash
twice = refl

append_chains-err_example :
    (append_chains padding any_text 3 noon
      (λ _. none)
      false
      false
      new_store
      (for_log ∷ for_log ∷ [])).1
    ≡ new_store
append_chains-err_example =
    append_chains-err padding any_text 3 noon (λ _. none) false false new_store
      (for_log ∷ for_log ∷ []) twice

abbrev answer : Outcome (List Appended) → List Appended
answer (Outcome.ok r) = r
answer (Outcome.err e) = []

both :
    (append_chains padding any_text 3 noon
      (λ _. none)
      false
      false
      new_store
      (for_log ∷ for_mail ∷ [])).0
    ≡ Outcome.ok (
        answer
          (append_chains padding any_text 3 noon
            (λ _. none)
            false
            false
            new_store
            (for_log ∷ for_mail ∷ [])).0)
unfolding append_chains prepare prepare_one chain_ids gather gather_rows link_batch link_batches
    update_batches update_chains apply_update check_rows check_names member any_leased tails tail_of
    last_row check_append check_entries check_entry check_states check_state cursors tail_cursor put
    contains validate_batch_ordering validate_from check_input seen_before is_reserved
    valid_timestamp is_zero_time bytes_eq has_prefix is_tombstone_content_hash link link_from
    entry_hash compute_chain_hash_v3 compute_chain_hash_v3_unchecked sort_inputs insert_input
    arrives_before time_equal time_before bytes_lt chain_hash_input_v3 append_timestamp_micro
    append_int_padded padded_digits zero_padded digits_onto format_int uint_digits hex_encode
    validate_chain_hash_inputs_v3 validate_hash_field validate_tombstone_content_hash is_hex
both = refl

room :
    (x : ChainInputs)
    → In x (for_log ∷ for_mail ∷ [])
    → HasRoom padding 3 noon (λ _. none) new_store x
unfolding last_of
room x i = elim i [
  | inl e ↦ rw e (omega arith)
  | inr j ↦ elim j [ inl e ↦ rw e (omega arith) | inr k ↦ absurd k ]
]

append_chains-AreParts_example :
    (g : Gathered) × AreParts padding 3 noon (λ _. none) new_store 0 (for_log ∷ for_mail ∷ []) g
    × (answer
          (append_chains padding any_text 3 noon
            (λ _. none)
            false
            false
            new_store
            (for_log ∷ for_mail ∷ [])).0
        ≡ g.results)
    × Extended new_store g.entries g.states (
        (append_chains padding any_text 3 noon
          (λ _. none)
          false
          false
          new_store
          (for_log ∷ for_mail ∷ [])).1)
append_chains-AreParts_example =
    append_chains-AreParts padding any_text 3 noon (λ _. none) false false new_store
      (for_log ∷ for_mail ∷ []) (λ id. (tt, tt)) room both
