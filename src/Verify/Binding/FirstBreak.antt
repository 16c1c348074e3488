-- ===== src/Verify/Binding/FirstBreak.antt =====
-- The first break of a walk and its verdict agree: -1 while the chain is intact, a position once it
-- is broken.
use proof.Prelude.{
  ◌+◌, ◌^◌, ◌<◌, ◌≡◌, List, [], ◌∷◌, Option, none, some, false, not, length, arith, ◌⊎◌, inl, inr,
  Option-cases, Bool-cases,
}
use proof.Prelude.Bytes.{Bytes}
use proof.Prelude.Int64.{Int64, is_neg, int_next, minus_one}
use proof.Hash.{Sha512}
use proof.ChainFormat.Timestamp.{Time}
use proof.ChainFormat.Tombstone.{is_tombstone}
use proof.ChainFormat.Hash.{
  FieldError, validate_chain_hash_inputs_v3, compute_chain_hash_unchecked,
  compute_chain_hash_v3_unchecked,
}
use proof.Verify.{Entry, intact, broken, Break}
use proof.Verify.Walker.{
  Walker, add_break, check_start, check_tombstone_format, check_tombstone_fields, add_tombstone,
  check_hash, shape_v2, add_hashed, add_entry, enter, add, add_all, chain_hash_pattern,
}
use proof.Verify.Walker.Steps.{spelling_checked, add-progress}

abbrev pub Agrees : Walker → Type 0
Agrees w =
    ((w.res.first_break ≡ minus_one) × (w.res.verdict ≡ intact))
    ⊎ ((is_neg w.res.first_break ≡ false) × (w.res.verdict ≡ broken))

add_break-Agrees :
    (w : Walker) (b : Break) → is_neg b.position ≡ false → Agrees w → Agrees (add_break w b)
add_break-Agrees w b h a = ground arith

enter-Agrees :
    (w : Walker) (e : Entry) → is_neg w.res.entries_verified ≡ false → Agrees w → Agrees (enter w e)
unfolding enter check_start
enter-Agrees w e h a = ground arith

check_tombstone_format-Agrees :
    (i : Int64) (w : Walker) (e : Entry)
    → is_neg i ≡ false
    → Agrees w
    → Agrees (check_tombstone_format i w e)
unfolding check_tombstone_format
check_tombstone_format-Agrees i w e h a = ground arith

check_tombstone_fields-Agrees :
    (i : Int64) (w : Walker) (e : Entry)
    → is_neg i ≡ false
    → Agrees w
    → Agrees (check_tombstone_fields i w e)
unfolding check_tombstone_fields
check_tombstone_fields-Agrees i w e h a = ground arith

add_tombstone-Agrees :
    (i : Int64) (w : Walker) (e : Entry)
    → is_neg i ≡ false
    → Agrees w
    → Agrees (add_tombstone i w e)
unfolding add_tombstone
add_tombstone-Agrees i w e h a =
    let w' : Walker = record w {
      res = record w.res { tombstones_found = int_next w.res.tombstones_found; last_tombstone = i };
    } in
    check_tombstone_fields-Agrees i (check_tombstone_format i w' e) e h
      (check_tombstone_format-Agrees i w' e h a)

check_hash-Agrees :
    (i : Int64) (w : Walker) (e : Entry) (shape : Option FieldError) (expected : Bytes)
    → is_neg i ≡ false
    → Agrees w
    → Agrees (check_hash i w e shape expected)
unfolding check_hash
check_hash-Agrees i w e (some err) expected h a = ground arith
check_hash-Agrees i w e none expected h a = ground arith

module _ (H : Sha512) (parse : Bytes → Option Time) where
  add_hashed-Agrees :
      (i : Int64) (w : Walker) (e : Entry) (t : Time)
      → is_neg i ≡ false
      → Agrees w
      → Agrees (add_hashed H parse i w e t)
  unfolding add_hashed
  add_hashed-Agrees i w e t h a = ground (
    arith,
    check_hash-Agrees i w e (shape_v2 w.previous_hash e)
        (compute_chain_hash_unchecked H w.previous_hash e.run_id e.sequence_num t e.content_hash),
    check_hash-Agrees i w e
        (validate_chain_hash_inputs_v3 w.previous_hash e.global_seq e.content_hash)
        (compute_chain_hash_v3_unchecked H w.previous_hash e.global_seq t e.content_hash),
  )

  spelling_checked-Agrees :
      (i : Int64) (w : Walker) (e : Entry) (t : Time)
      → is_neg i ≡ false
      → Agrees w
      → Agrees (spelling_checked H parse i w e t)
  spelling_checked-Agrees i w e t h a = ground arith

  add_entry-Agrees :
      (i : Int64) (w : Walker) (e : Entry)
      → is_neg i ≡ false
      → Agrees w
      → Agrees (add_entry H parse i w e)
  unfolding add_entry
  add_entry-Agrees i w e h a = elim (Option-cases (parse e.timestamp)) [
    | inl failed ↦ rw (failed, add_entry) (ground arith)
    | inr (t, parsed) ↦
        rw (parsed, add_entry)
          (add_hashed-Agrees i (spelling_checked H parse i w e t) e t h
            (spelling_checked-Agrees i w e t h a))
  ]

  add-Agrees :
      (w : Walker) (e : Entry)
      → is_neg w.res.entries_verified ≡ false
      → Agrees w
      → Agrees (add H parse w e)
  unfolding add
  add-Agrees w e h a =
      let i = w.res.entries_verified in
      let v = enter w e in
      let entered = enter-Agrees w e h a in
      elim (Bool-cases (not (chain_hash_pattern e.chain_hash))) [
        | inl bad ↦ rw (bad, add) (ground arith)
        | inr fine ↦ elim (Bool-cases (is_tombstone e.entry_type e.entry_id)) [
          | inl tomb ↦ rw (fine, add) (rw tomb (add_tombstone-Agrees i v e h entered))
          | inr entry ↦ rw (fine, add) (rw entry (add_entry-Agrees i v e h entered))
        ]
      ]

  -- A walk of fewer than 2^63 entries has -1 for the first break while its verdict is intact, and a
  -- position from 0 on once it is broken.
  pub add_all-Agrees :
      (entries : List Entry) (w : Walker)
      → w.res.entries_verified + length entries < 2 ^ 63
      → Agrees w
      → Agrees (add_all H parse w entries)
        × ((add_all H parse w entries).res.entries_verified
            ≡ w.res.entries_verified + length entries)
  unfolding add_all
  add_all-Agrees [] w small a = (a, omega arith)
  add_all-Agrees (e ∷ entries) w small a =
      let step = (add-progress H parse w e).0 in
      let (rest, count) =
        add_all-Agrees entries (add H parse w e) (omega (arith, step))
          (add-Agrees w e (ground arith) a) in
      (rest, omega (arith, count, step))
