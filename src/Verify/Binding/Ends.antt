-- ===== src/Verify/Binding/Ends.antt =====
-- The first and the last entry that a walk has seen.
use proof.Prelude.{
  ◌+◌, ◌^◌, ◌<◌, ◌≡◌, refl, ap, ◌∙◌, List, [], ◌∷◌, Option, none, some, ◌==◌, if◌then◌else◌, length,
  arith, inl, inr, Option-cases,
}
use proof.Prelude.Bytes.{Bytes}
use proof.Prelude.Int64.{Int64, int_next}
use proof.Hash.{Sha512}
use proof.ChainFormat.Timestamp.{Time}
use proof.ChainFormat.Hash.{FieldError}
use proof.Verify.{Entry}
use proof.Verify.Walker.{
  Walker, check_start, check_tombstone_format, check_tombstone_fields, add_tombstone, check_hash,
  add_hashed, add_entry, enter, add, add_all,
}
use proof.Verify.Walker.Steps.{spelling_checked, add-progress}
use proof.Verify.History.{head_hash}

pub record SameEnds (v w : Walker) : Type 0 where
  pub first : v.first ≡ w.first
  pub last : v.last ≡ w.last

enter_ends :
    (w : Walker) (e : Entry)
    → ((enter w e).first ≡ (if w.res.entries_verified == 0 then e else w.first))
      × ((enter w e).last ≡ e)
unfolding enter check_start
enter_ends w e = ground arith

check_tombstone_format-SameEnds :
    (i : Int64) (w : Walker) (e : Entry) → SameEnds (check_tombstone_format i w e) w
unfolding check_tombstone_format
check_tombstone_format-SameEnds i w e = ground arith

check_tombstone_fields-SameEnds :
    (i : Int64) (w : Walker) (e : Entry) → SameEnds (check_tombstone_fields i w e) w
unfolding check_tombstone_fields
check_tombstone_fields-SameEnds i w e = ground arith

add_tombstone-SameEnds : (i : Int64) (w : Walker) (e : Entry) → SameEnds (add_tombstone i w e) w
unfolding add_tombstone
add_tombstone-SameEnds i w e =
    let w' : Walker = record w {
      res = record w.res { tombstones_found = int_next w.res.tombstones_found; last_tombstone = i };
    } in
    let format = check_tombstone_format-SameEnds i w' e in
    let fields = check_tombstone_fields-SameEnds i (check_tombstone_format i w' e) e in
    record { first = fields.first ∙ format.first; last = fields.last ∙ format.last }

check_hash-SameEnds :
    (i : Int64) (w : Walker) (e : Entry) (shape : Option FieldError) (expected : Bytes)
    → SameEnds (check_hash i w e shape expected) w
unfolding check_hash
check_hash-SameEnds i w e (some err) expected = ground arith
check_hash-SameEnds i w e none expected = ground arith

module _ (H : Sha512) (parse : Bytes → Option Time) where
  add_hashed-SameEnds :
      (i : Int64) (w : Walker) (e : Entry) (t : Time) → SameEnds (add_hashed H parse i w e t) w
  unfolding add_hashed check_hash
  add_hashed-SameEnds i w e t = ground arith

  spelling_checked-SameEnds :
      (i : Int64) (w : Walker) (e : Entry) (t : Time)
      → SameEnds (spelling_checked H parse i w e t) w
  spelling_checked-SameEnds i w e t = ground arith

  add_entry-SameEnds : (i : Int64) (w : Walker) (e : Entry) → SameEnds (add_entry H parse i w e) w
  unfolding add_entry
  add_entry-SameEnds i w e = elim (Option-cases (parse e.timestamp)) [
    | inl failed ↦ rw (failed, add_entry) (ground arith)
    | inr (t, parsed) ↦
        let before = spelling_checked-SameEnds i w e t in
        let after = add_hashed-SameEnds i (spelling_checked H parse i w e t) e t in
        rw (parsed, add_entry)
          (record { first = after.first ∙ before.first; last = after.last ∙ before.last })
  ]

  add_ends :
      (w : Walker) (e : Entry)
      → ((add H parse w e).first ≡ (if w.res.entries_verified == 0 then e else w.first))
        × ((add H parse w e).last ≡ e)
  unfolding add
  add_ends w e =
      let entered = enter_ends w e in
      let i = w.res.entries_verified in
      let tomb = add_tombstone-SameEnds i (enter w e) e in
      let entry = add_entry-SameEnds i (enter w e) e in ground arith

  -- After a walk that goes on from some entry, that entry is still the first one.
  add_all-first :
      (entries : List Entry) (w : Walker)
      → 0 < w.res.entries_verified
      → w.res.entries_verified + length entries < 2 ^ 63
      → (add_all H parse w entries).first ≡ w.first
  unfolding add_all
  add_all-first [] w pos small = refl
  add_all-first (e ∷ entries) w pos small =
      let step = (add-progress H parse w e).0 in
      let ends = (add_ends w e).0 in
      let kept : (add H parse w e).first ≡ w.first = ground arith in
      add_all-first entries (add H parse w e) (omega (arith, step)) (omega (arith, step)) ∙ kept

  add_all-last :
      (entries : List Entry) (w : Walker)
      → (add_all H parse w entries).last.chain_hash ≡ head_hash w.last.chain_hash entries
  unfolding add_all
  add_all-last [] w = refl
  add_all-last (e ∷ entries) w =
      add_all-last entries (add H parse w e)
      ∙ ap (λ (f : Entry). head_hash f.chain_hash entries) ((add_ends w e).1)

  -- A fresh walk over fewer than 2^63 entries keeps the first of them, and ends at the head of them.
  pub walk-ends :
      (w : Walker) (e : Entry) (entries : List Entry)
      → w.res.entries_verified ≡ 0
      → length (e ∷ entries) < 2 ^ 63
      → ((add_all H parse w (e ∷ entries)).first ≡ e)
        × ((add_all H parse w (e ∷ entries)).last.chain_hash ≡ head_hash [] (e ∷ entries))
  unfolding add_all
  walk-ends w e entries fresh small =
      let step = (add-progress H parse w e).0 in
      let ends = add_ends w e in
      let now : (add H parse w e).first ≡ e = ground arith in
      (
        add_all-first entries (add H parse w e) (omega (arith, step)) (omega (arith, step)) ∙ now,
        add_all-last entries (add H parse w e)
            ∙ ap (λ (f : Entry). head_hash f.chain_hash entries) (ends.1),
      )
