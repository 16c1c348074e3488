-- ===== src/Verify/Walker.antt =====
-- verify/verify.go: the walk over a chain, one entry at a time. SHA-512 and `time.Parse` are
-- parameters; a time that parses is given by its fields in UTC.
pub mod Steps
pub mod Links
pub mod Complete
use proof.Prelude.{
  ℕ, ◌+◌, ◌%◌, ◌^◌, ◌-◌, ◌/◌, List, [], ◌∷◌, ◌++◌, Option, none, some, Bool, true, false, not, ltb,
  ◌==◌, ◌&&◌, ◌||◌, if◌then◌else◌, length, all,
}
use proof.Prelude.Bytes.{Bytes, bytes_eq, is_hex, is_empty}
use proof.Prelude.Int64.{Int64, is_neg, int_next, int_lt, minus_one}
use proof.Hash.{Sha512}
use proof.ChainFormat.Timestamp.{Time, append_int_padded, zero_padded, padded_digits}
use proof.ChainFormat.Tombstone.{is_tombstone, validate_tombstone_content_hash}
use proof.ChainFormat.Hash.{
  FieldError, global_seq_negative, format_v2, format_v3, normalize_format_version,
  validate_chain_hash_inputs, validate_chain_hash_inputs_v3, compute_chain_hash_unchecked,
  compute_chain_hash_v3_unchecked,
}
use proof.Verify.{
  Verdict, intact, broken, BreakType, hash_mismatch, sequence_gap, invalid_tombstone,
  unknown_format, format_field_misuse, invalid_timestamp, invalid_field, Entry, Break, Result,
  Options, no_entry,
}

-- `^[0-9a-f]{128}$`
unfoldable pub chain_hash_pattern : Bytes → Bool
chain_hash_pattern s = length s == 128 && all is_hex s

-- `Format(TimestampLayout)`: a year before 0 has a sign.
unfoldable pub format_timestamp : Time → Bytes
format_timestamp t =
    let buf : Bytes =
      if is_neg t.year
      then b'-' ∷ append_int_padded [] (2 ^ 64 - t.year) 4
      else append_int_padded [] t.year 4 in
    let buf = append_int_padded (buf ++ b'-' ∷ []) t.month 2 ++ b'-' ∷ [] in
    let buf = append_int_padded buf t.day 2 ++ b'T' ∷ [] in
    let buf = append_int_padded buf t.hour 2 ++ b':' ∷ [] in
    let buf = append_int_padded buf t.minute 2 ++ b':' ∷ [] in
    let buf = append_int_padded buf t.second 2 ++ b'.' ∷ [] in
    append_int_padded buf (t.nanosecond / 1000) 6 ++ b'Z' ∷ []

pub record Walker : Type 0 where
  pub opts : Options
  pub res : Result
  pub previous_hash : Bytes
  pub previous_seq : Int64
  pub first : Entry
  pub last : Entry

unfoldable pub new_walker : Options → Walker
new_walker opts = record {
  opts = opts;
  res = record {
    verdict = intact;
    entries_verified = 0;
    tombstones_found = 0;
    last_tombstone = minus_one;
    first_break = minus_one;
    breaks = [];
    anchor_checked = false;
  };
  previous_hash = opts.previous_hash;
  previous_seq = 0;
  first = no_entry;
  last = no_entry;
}

unfoldable pub segment : Walker → Bool
segment w = not (is_empty w.opts.previous_hash)

-- The breaks kept: all of them, or as many as the options ask for.
unfoldable pub keep_break : Int64 → List Break → Break → List Break
keep_break max breaks b =
    if max == 0 || int_lt (length breaks) max then breaks ++ b ∷ [] else breaks

abbrev pub add_break : Walker → Break → Walker
add_break w b = record w {
  res = record w.res {
    first_break = if w.res.first_break == minus_one then b.position else w.res.first_break;
    verdict = broken;
    breaks = keep_break w.opts.max_breaks w.res.breaks b;
  };
}

abbrev pub break_at : Int64 → Entry → BreakType → Break
break_at i e type = record {
  position = i;
  entry_id = e.entry_id;
  break_type = type;
  expected = [];
  actual = [];
}

abbrev pub advance : Walker → Bytes → Walker
advance w hash = record w { previous_hash = hash }

unfoldable pub check_start : Walker → Entry → Walker
check_start w e =
    if not (is_empty w.opts.previous_hash) && not (chain_hash_pattern w.opts.previous_hash)
    then add_break w (break_at 0 e invalid_field)
    else w

-- What a tombstone declares of its format.
unfoldable pub check_tombstone_format : Int64 → Walker → Entry → Walker
check_tombstone_format i w e =
    let version = normalize_format_version e.format_version in
    if version == format_v2
    then w
    else if version == format_v3
    then (if not (is_empty e.run_id) || not (e.sequence_num == 0)
        then add_break w (break_at i e format_field_misuse)
        else w)
    else add_break w (break_at i e unknown_format)

unfoldable pub check_tombstone_fields : Int64 → Walker → Entry → Walker
check_tombstone_fields i w e =
    let w : Walker = if is_neg e.global_seq then add_break w (break_at i e invalid_field) else w in
    if validate_tombstone_content_hash e.content_hash
    then w
    else add_break w (break_at i e invalid_tombstone)

unfoldable pub add_tombstone : Int64 → Walker → Entry → Walker
add_tombstone i w e =
    let w = record w {
      res = record w.res { tombstones_found = int_next w.res.tombstones_found; last_tombstone = i };
    } in
    advance (check_tombstone_fields i (check_tombstone_format i w e) e) e.chain_hash

-- The end of `Add`: the shape error if there is one, and the comparison.
unfoldable pub check_hash : Int64 → Walker → Entry → Option FieldError → Bytes → Walker
check_hash i w e (some shape) expected =
    advance (add_break w (break_at i e invalid_field)) e.chain_hash
check_hash i w e none expected =
    let mismatch : Break = record {
      position = i;
      entry_id = e.entry_id;
      break_type = hash_mismatch;
      expected = expected;
      actual = e.chain_hash;
    } in
    let w : Walker = if bytes_eq expected e.chain_hash then w else add_break w mismatch in
    advance w expected

unfoldable pub shape_v2 : Bytes → Entry → Option FieldError
shape_v2 previous e =
    elim (validate_chain_hash_inputs previous e.run_id e.sequence_num e.content_hash) [
      | some err ↦ some err
      | none ↦ if is_neg e.global_seq then some global_seq_negative else none
    ]

unfoldable pub count : Walker → Int64
count w = w.res.entries_verified

-- What `Add` does before it looks at the kind of the entry.
unfoldable pub enter : Walker → Entry → Walker
unfolding check_start
enter w e =
    let i = w.res.entries_verified in
    let w : Walker = record w { res = record w.res { entries_verified = int_next i } } in
    let w : Walker = if i == 0 then check_start (record w { first = e }) e else w in
    let w : Walker = record w { last = e } in
    let w : Walker =
      if not (i == 0) && not (e.global_seq == int_next w.previous_seq)
      then add_break w (break_at i e sequence_gap)
      else w in
    record w { previous_seq = e.global_seq }

module _ (H : Sha512) (parse : Bytes → Option Time) where
  -- The dispatch on the declared format, at a timestamp that parsed.
  unfoldable pub add_hashed : Int64 → Walker → Entry → Time → Walker
  add_hashed i w e ts =
      let version = normalize_format_version e.format_version in
      if version == format_v2
      then check_hash i w e (shape_v2 w.previous_hash e)
          (compute_chain_hash_unchecked H w.previous_hash e.run_id e.sequence_num ts e.content_hash)
      else if version == format_v3
      then (if not (is_empty e.run_id) || not (e.sequence_num == 0)
          then advance (add_break w (break_at i e format_field_misuse)) e.chain_hash
          else check_hash i w e
              (validate_chain_hash_inputs_v3 w.previous_hash e.global_seq e.content_hash)
              (compute_chain_hash_v3_unchecked H w.previous_hash e.global_seq ts e.content_hash))
      else advance (add_break w (break_at i e unknown_format)) e.chain_hash

  unfoldable pub add_entry : Int64 → Walker → Entry → Walker
  add_entry i w e = elim (parse e.timestamp) [
    | none ↦ advance (add_break w (break_at i e invalid_timestamp)) e.chain_hash
    | some ts ↦
        let w : Walker =
          if bytes_eq (format_timestamp ts) e.timestamp
          then w
          else add_break w (break_at i e invalid_timestamp) in
        add_hashed i w e ts
  ]

  unfoldable pub add : Walker → Entry → Walker
  add w e =
      let i = w.res.entries_verified in
      let w = enter w e in
      if not (chain_hash_pattern e.chain_hash)
      then advance (add_break w (break_at i e invalid_field)) e.chain_hash
      else if is_tombstone e.entry_type e.entry_id
      then add_tombstone i w e
      else add_entry i w e

  unfoldable pub add_all : Walker → List Entry → Walker
  add_all w [] = w
  add_all w (e ∷ entries) = add_all (add w e) entries

  -- `none` is the error of no entries.
  unfoldable pub chain : List Entry → Options → Option Result
  chain [] opts = none
  chain (e ∷ entries) opts = some (add_all (new_walker opts) (e ∷ entries)).res
