-- ===== src/Verify/Walker/Steps.antt =====
-- What a step leaves in the walker, whatever it finds: how many entries it saw, and the number of
-- the last one.
use proof.Prelude.{◌≡◌, refl, ◌∙◌, Option, none, some, if◌then◌else◌, arith, Option-cases, inl, inr}
use proof.Prelude.Bytes.{Bytes, bytes_eq, bytes_eq_sound}
use proof.Prelude.Int64.{Int64, int_next}
use proof.Hash.{Sha512}
use proof.ChainFormat.Timestamp.{Time}
use proof.ChainFormat.Hash.{
  FieldError, validate_chain_hash_inputs_v3, compute_chain_hash_unchecked,
  compute_chain_hash_v3_unchecked,
}
use proof.Verify.{Entry, intact, invalid_timestamp}
use proof.Verify.Walker.{
  Walker, add_break, check_tombstone_format, check_tombstone_fields, add_tombstone, check_hash,
  add_hashed, add_entry, enter, add, shape_v2, format_timestamp, break_at,
}

-- Two walkers have seen as many entries, with the same last number, under the same options.
pub record SameProgress (w v : Walker) : Type 0 where
  pub verified : w.res.entries_verified ≡ v.res.entries_verified
  pub seq : w.previous_seq ≡ v.previous_seq
  pub options : w.opts ≡ v.opts

check_tombstone_format-SameProgress :
    (i : Int64) (w : Walker) (e : Entry) → SameProgress (check_tombstone_format i w e) w
unfolding check_tombstone_format
check_tombstone_format-SameProgress i w e = ground arith

check_tombstone_fields-SameProgress :
    (i : Int64) (w : Walker) (e : Entry) → SameProgress (check_tombstone_fields i w e) w
unfolding check_tombstone_fields
check_tombstone_fields-SameProgress i w e = ground arith

add_tombstone-SameProgress :
    (i : Int64) (w : Walker) (e : Entry) → SameProgress (add_tombstone i w e) w
unfolding add_tombstone
add_tombstone-SameProgress i w e =
    let w' : Walker = record w {
      res = record w.res { tombstones_found = int_next w.res.tombstones_found; last_tombstone = i };
    } in
    let format = check_tombstone_format-SameProgress i w' e in
    let fields = check_tombstone_fields-SameProgress i (check_tombstone_format i w' e) e in
    record {
      verified = fields.verified ∙ format.verified;
      seq = fields.seq ∙ format.seq;
      options = fields.options ∙ format.options;
    }

check_hash-SameProgress :
    (i : Int64) (w : Walker) (e : Entry) (shape : Option FieldError) (expected : Bytes)
    → SameProgress (check_hash i w e shape expected) w
unfolding check_hash
check_hash-SameProgress i w e (some err) expected = ground arith
check_hash-SameProgress i w e none expected = ground arith

-- The hash to link from, after a step that found no break.
check_hash-previous_hash :
    (i : Int64) (w : Walker) (e : Entry) (shape : Option FieldError) (expected : Bytes)
    → (check_hash i w e shape expected).res.verdict ≡ intact
    → (check_hash i w e shape expected).previous_hash ≡ e.chain_hash
unfolding check_hash
check_hash-previous_hash i w e (some err) expected h = refl
check_hash-previous_hash i w e none expected h =
    ground (arith, bytes_eq_sound expected e.chain_hash)

enter-progress :
    (w : Walker) (e : Entry)
    → ((enter w e).res.entries_verified ≡ int_next w.res.entries_verified)
      × ((enter w e).previous_seq ≡ e.global_seq)
      × ((enter w e).opts ≡ w.opts)
unfolding enter
enter-progress w e = ground arith

module _ (H : Sha512) (parse : Bytes → Option Time) where
  add_hashed-SameProgress :
      (i : Int64) (w : Walker) (e : Entry) (t : Time) → SameProgress (add_hashed H parse i w e t) w
  unfolding add_hashed check_hash
  add_hashed-SameProgress i w e t = ground arith

  add_hashed-previous_hash :
      (i : Int64) (w : Walker) (e : Entry) (t : Time)
      → (add_hashed H parse i w e t).res.verdict ≡ intact
      → (add_hashed H parse i w e t).previous_hash ≡ e.chain_hash
  unfolding add_hashed
  add_hashed-previous_hash i w e t h = ground (
    arith,
    check_hash-previous_hash i w e (shape_v2 w.previous_hash e)
        (compute_chain_hash_unchecked H w.previous_hash e.run_id e.sequence_num t e.content_hash),
    check_hash-previous_hash i w e
        (validate_chain_hash_inputs_v3 w.previous_hash e.global_seq e.content_hash)
        (compute_chain_hash_v3_unchecked H w.previous_hash e.global_seq t e.content_hash),
  )

  -- The walker that goes on after the timestamp's spelling was looked at.
  abbrev pub spelling_checked : Int64 → Walker → Entry → Time → Walker
  spelling_checked i w e t =
      if bytes_eq (format_timestamp t) e.timestamp
      then w
      else add_break w (break_at i e invalid_timestamp)

  spelling_checked-SameProgress :
      (i : Int64) (w : Walker) (e : Entry) (t : Time) → SameProgress (spelling_checked i w e t) w
  spelling_checked-SameProgress i w e t = ground arith

  add_entry-SameProgress :
      (i : Int64) (w : Walker) (e : Entry) → SameProgress (add_entry H parse i w e) w
  unfolding add_entry
  add_entry-SameProgress i w e = elim (Option-cases (parse e.timestamp)) [
    | inl failed ↦ rw (failed, add_entry) (ground arith)
    | inr (t, parsed) ↦
        let before = spelling_checked-SameProgress i w e t in
        let after = add_hashed-SameProgress i (spelling_checked i w e t) e t in
        rw (parsed, add_entry)
          (record {
            verified = after.verified ∙ before.verified;
            seq = after.seq ∙ before.seq;
            options = after.options ∙ before.options;
          })
  ]

  add_entry-previous_hash :
      (i : Int64) (w : Walker) (e : Entry)
      → (add_entry H parse i w e).res.verdict ≡ intact
      → (add_entry H parse i w e).previous_hash ≡ e.chain_hash
  unfolding add_entry
  add_entry-previous_hash i w e h = elim (Option-cases (parse e.timestamp)) [
    | inl failed ↦ rw (failed, add_entry) refl
    | inr (t, parsed) ↦
        rw (parsed, add_entry)
          (add_hashed-previous_hash i (spelling_checked i w e t) e t (rw (parsed, add_entry) at h))
  ]

  -- One step counts the entry and takes its number.
  pub add-progress :
      (w : Walker) (e : Entry)
      → ((add H parse w e).res.entries_verified ≡ int_next w.res.entries_verified)
        × ((add H parse w e).previous_seq ≡ e.global_seq)
        × ((add H parse w e).opts ≡ w.opts)
  unfolding add
  add-progress w e =
      let entered = enter-progress w e in
      let i = w.res.entries_verified in
      let tomb = add_tombstone-SameProgress i (enter w e) e in
      let entry = add_entry-SameProgress i (enter w e) e in ground arith

  -- After a step that found no break, the next entry links from the entry's own hash.
  pub add-previous_hash :
      (w : Walker) (e : Entry)
      → (add H parse w e).res.verdict ≡ intact
      → (add H parse w e).previous_hash ≡ e.chain_hash
  unfolding add add_tombstone
  add-previous_hash w e h =
      let i = w.res.entries_verified in ground (arith, add_entry-previous_hash i (enter w e) e)
