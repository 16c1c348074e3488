-- ===== src/Linker/Link/Verified.antt =====
-- What `link` produces is a chain that the walk accepts. The timestamp of an exported row has
-- microseconds; reading it back is a hypothesis on `time.Parse`.
use proof.Prelude.{
  ℕ, suc, ◌+◌, ◌-◌, ◌*◌, ◌/◌, ◌%◌, ◌^◌, ◌<◌, ◌≡◌, refl, sym, ap, ◌∙◌, List, [], ◌∷◌, map, Option,
  none, some, Bool, true, false, length, arith, inl, inr, In,
}
use proof.Prelude.Bytes.{Bytes}
use proof.Prelude.Int64.{Int64, int_next}
use proof.Hash.{Sha512, hex_encode, length-hex_encode, all-hex_encode}
use proof.ChainFormat.Timestamp.{Time, append_timestamp_micro}
use proof.ChainFormat.Tombstone.{is_tombstone}
use proof.ChainFormat.Hash.{
  Checked, format_v3, normalize_format_version, validate_chain_hash_inputs_v3,
  compute_chain_hash_v3, compute_chain_hash_v3_unchecked, chain_hash_input_v3,
}
use proof.Store.{Row}
use proof.Verify.{Options, intact}
use proof.Verify.Walker.{format_timestamp, chain_hash_pattern, chain}
use proof.Verify.Walker.Links.{Linked, Contiguous, IsHashedV3, hashed_v3, verdict_of}
use proof.Verify.Walker.Complete.{StartsWell, intact-chain}
use proof.Linker.{
  Input, linked, linked_row, entry_hash, link_from, link, validate_batch_ordering, sort_inputs,
}
use proof.Linker.Export.{to_exported}
use proof.Linker.Order.{unreserved-tombstone, validate_batch_ordering_lem, In-sort_inputs}
use proof.Linker.Link.{link_from-linked, rows_of}

-- The time that is left when nanoseconds are cut to microseconds.
abbrev pub to_micros : Time → Time
to_micros t = record t { nanosecond = t.nanosecond / 1000 * 1000 }

micros : (n : ℕ) → n / 1000 * 1000 / 1000 ≡ n / 1000
micros n = omega arith

append_timestamp-to_micros :
    (buf : Bytes) (t : Time)
    → append_timestamp_micro buf (to_micros t) ≡ append_timestamp_micro buf t
unfolding append_timestamp_micro
append_timestamp-to_micros buf t = rw (micros t.nanosecond) refl

format_timestamp-to_micros : (t : Time) → format_timestamp (to_micros t) ≡ format_timestamp t
unfolding format_timestamp
format_timestamp-to_micros t = rw (micros t.nanosecond) refl

-- `time.Parse` reads what `Format` wrote, with the microseconds that the layout has.
abbrev pub ReadsBack : (Bytes → Option Time) → Time → Type 0
ReadsBack parse t = parse (format_timestamp t) ≡ some (to_micros t)

abbrev pub IsLinkable : (Bytes → Option Time) → Input → Type 0
IsLinkable parse x = (is_tombstone x.entry_type x.entry_id ≡ false) × ReadsBack parse x.timestamp

module _ (H : Sha512) where
  pattern-hex_encode : (b : Bytes) → chain_hash_pattern (hex_encode (H.sum b)) ≡ true
  unfolding chain_hash_pattern
  pattern-hex_encode b =
      let len : length (hex_encode (H.sum b)) ≡ 128 =
        omega (arith, length-hex_encode (H.sum b), H.length-sum b) in
      rw (len, all-hex_encode (H.sum b) (H.bytes-sum b)) refl

  compute_chain_hash_v3-ok :
      (previous : Bytes) (g : Int64) (t : Time) (c : Bytes) {hash : Bytes}
      → compute_chain_hash_v3 H previous g t c ≡ Checked.ok hash
      → (validate_chain_hash_inputs_v3 previous g c ≡ none)
        × (compute_chain_hash_v3_unchecked H previous g t c ≡ hash)
  unfolding compute_chain_hash_v3
  compute_chain_hash_v3-ok previous g t c h = ground arith

  unchecked-to_micros :
      (previous : Bytes) (g : Int64) (t : Time) (c : Bytes)
      → compute_chain_hash_v3_unchecked H previous g (to_micros t) c
        ≡ compute_chain_hash_v3_unchecked H previous g t c
  unfolding compute_chain_hash_v3_unchecked chain_hash_input_v3
  unchecked-to_micros previous g t c = rw append_timestamp-to_micros refl

  pub hash_v3-pattern :
      (previous : Bytes) (g : Int64) (t : Time) (c : Bytes)
      → chain_hash_pattern (compute_chain_hash_v3_unchecked H previous g t c) ≡ true
  unfolding compute_chain_hash_v3_unchecked
  hash_v3-pattern previous g t c = pattern-hex_encode (chain_hash_input_v3 previous g t c)

module _ (H : Sha512) (parse : Bytes → Option Time) (chain_id run_id : Bytes) where
  row-IsHashedV3 :
      (previous : Bytes) (i : ℕ) (g : Int64) (x : Input) {hash : Bytes}
      → IsLinkable parse x
      → entry_hash H format_v3 previous run_id i g x ≡ Checked.ok hash
      → IsHashedV3 H parse previous
          (to_exported (linked_row format_v3 chain_id run_id i g previous hash x))
          (to_micros x.timestamp)
  unfolding to_exported entry_hash normalize_format_version
  row-IsHashedV3 previous i g x {hash} ready h =
      let (shape, same) = compute_chain_hash_v3-ok H previous g x.timestamp x.content_hash h in
      record {
        digest = rw (← same) (hash_v3-pattern H previous g x.timestamp x.content_hash);
        unmarked = ready.0;
        parsed = ready.1;
        spelled = format_timestamp-to_micros x.timestamp;
        version = refl;
        no_run_id = refl;
        no_sequence_num = refl;
        shape = shape;
        hash = unchecked-to_micros H previous g x.timestamp x.content_hash ∙ same;
      }

  link_from-Linked :
      (next : Int64) (batch : List Input) (previous : Bytes) (i : ℕ) (seq : Int64) {rows : List Row}
      → ((x : Input) → In x batch → IsLinkable parse x)
      → int_next seq ≡ (next + i) % 2 ^ 64
      → link_from H format_v3 chain_id previous next run_id i batch ≡ linked rows
      → Linked H parse previous (map to_exported rows)
        × Contiguous H parse seq (map to_exported rows)
  unfolding link_from to_exported
  link_from-Linked next [] previous i seq ready at h = rw (← ap rows_of h) (tt, tt)
  link_from-Linked next (x ∷ batch) previous i seq ready at h =
      let (hash, rest, hashed, fits, more, same) =
        link_from-linked H format_v3 chain_id next run_id previous i x batch h in
      let g = (next + i) % 2 ^ 64 in
      let now = row-IsHashedV3 previous i g x (ready x (inl refl)) hashed in
      let after =
        link_from-Linked next batch hash (suc i) g (λ y iy. ready y (inr iy)) (omega arith) more in
      rw (← same) ((hashed_v3 (to_micros x.timestamp) now, after.0), (sym at, after.1))

  link-intact_batch :
      (previous : Bytes) (next : Int64) (batch : List Input) (opts : Options) {r : Row}
      {rows : List Row}
      → ((x : Input) → In x batch → IsLinkable parse x)
      → opts.previous_hash ≡ previous
      → StartsWell previous
      → next < 2 ^ 64
      → link H format_v3 chain_id previous next run_id batch ≡ linked (r ∷ rows)
      → verdict_of (chain H parse (map to_exported (r ∷ rows)) opts) ≡ intact
  unfolding link
  link-intact_batch previous next batch opts {r} {rows} ready same start fits h =
      let (links, seqs) =
        link_from-Linked next batch previous 0 ((next + (2 ^ 64 - 1)) % 2 ^ 64) ready (omega arith)
          h in
      intact-chain H parse (to_exported r) (map to_exported rows) opts (rw same start)
        (rw same links) (seqs.1)

  -- A batch passes `validate_batch_ordering`, is sorted, linked in format v3 after none or a digest
  -- with some rows as the result, and the rows are exported. Then the walk that starts from the hash
  -- before them finds them intact, where the first number is below 2^64 and `time.Parse` reads the
  -- timestamps of the batch back.
  pub link-intact :
      (valid_utf8 : Bytes → Bool) (inputs : List Input) (previous : Bytes) (next : Int64)
      (max : Int64) {r : Row} {rows : List Row}
      → validate_batch_ordering valid_utf8 inputs ≡ none
      → ((x : Input) → In x inputs → ReadsBack parse x.timestamp)
      → StartsWell previous
      → next < 2 ^ 64
      → link H format_v3 chain_id previous next run_id (sort_inputs inputs) ≡ linked (r ∷ rows)
      → verdict_of (
          chain H parse
            (map to_exported (r ∷ rows))
            (record { max_breaks = max; previous_hash = previous }))
        ≡ intact
  link-intact valid_utf8 inputs previous next max valid reads start fits h =
      let sound = (validate_batch_ordering_lem valid_utf8 inputs valid).0 in
      let ready : (x : Input) → In x (sort_inputs inputs) → IsLinkable parse x = λ x i.
        let there = In-sort_inputs x inputs i in
        (unreserved-tombstone x ((sound x there).unreserved), reads x there) in
      link-intact_batch previous next (sort_inputs inputs)
        (record { max_breaks = max; previous_hash = previous }) ready refl start fits h
