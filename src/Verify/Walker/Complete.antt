-- ===== src/Verify/Walker/Complete.antt =====
-- The other way round: entries that follow one another, numbered without a gap, are found intact.
use proof.Prelude.{
  ◌≡◌, refl, sym, ap, ◌∙◌, subst, List, [], ◌∷◌, Option, none, some, true, false, not, ◌&&◌, arith,
  ◌⊎◌, inl, inr,
}
use proof.Prelude.Bytes.{Bytes, bytes_eq, bytes_eq_refl, is_empty}
use proof.Prelude.Int64.{Int64, int_next}
use proof.Hash.{Sha512}
use proof.ChainFormat.Timestamp.{Time}
use proof.ChainFormat.Hash.{
  FieldError, validate_chain_hash_inputs_v3, compute_chain_hash_unchecked,
  compute_chain_hash_v3_unchecked,
}
use proof.Verify.{Entry, Options, intact}
use proof.Verify.Walker.{
  Walker, chain_hash_pattern, format_timestamp, check_start, check_tombstone_format,
  check_tombstone_fields, add_tombstone, check_hash, shape_v2, add_hashed, add_entry, enter, add,
  add_all, new_walker, chain,
}
use proof.Verify.Walker.Steps.{add-progress, add-previous_hash}
use proof.Verify.Walker.Links.{
  Link, Linked, Contiguous, IsErased, IsHashedV3, IsHashedV2, erased, hashed_v3, hashed_v2,
  enter-previous_hash, verdict_of,
}

-- What a walk starts from: nothing, or a digest.
abbrev pub StartsWell : Bytes → Type 0
StartsWell previous = (previous ≡ []) ⊎ (chain_hash_pattern previous ≡ true)

starts_unbroken :
    (previous : Bytes)
    → StartsWell previous
    → (not (is_empty previous) && not (chain_hash_pattern previous)) ≡ false
starts_unbroken previous (inl empty) = rw empty refl
starts_unbroken previous (inr digest) = ground arith

enter_complete :
    (w : Walker) (e : Entry)
    → w.res.verdict ≡ intact
    → StartsWell w.opts.previous_hash
    → (w.res.entries_verified ≡ 0) ⊎ (e.global_seq ≡ int_next w.previous_seq)
    → (enter w e).res.verdict ≡ intact
unfolding enter check_start
enter_complete w e h start seq = ground (arith, starts_unbroken w.opts.previous_hash start)

check_hash_complete :
    (i : Int64) (w : Walker) (e : Entry) (shape : Option FieldError) (expected : Bytes)
    → w.res.verdict ≡ intact
    → shape ≡ none
    → expected ≡ e.chain_hash
    → (check_hash i w e shape expected).res.verdict ≡ intact
unfolding check_hash
check_hash_complete i w e (some err) expected h s same = cc
check_hash_complete i w e none expected h s same = ground (arith, bytes_eq_refl e.chain_hash)

add_tombstone_complete :
    (i : Int64) (w : Walker) (e : Entry)
    → w.res.verdict ≡ intact
    → IsErased e
    → (add_tombstone i w e).res.verdict ≡ intact
unfolding add_tombstone check_tombstone_format check_tombstone_fields
add_tombstone_complete i w e h x = elim x.format [
  | inl two ↦ ground arith
  | inr (three, run, seq) ↦ let no_run : is_empty e.run_id ≡ true = ap is_empty run in ground arith
]

module _ (H : Sha512) (parse : Bytes → Option Time) where
  add_v3_complete :
      (i : Int64) (w : Walker) (e : Entry) (t : Time)
      → w.res.verdict ≡ intact
      → IsHashedV3 H parse w.previous_hash e t
      → (add_entry H parse i w e).res.verdict ≡ intact
  unfolding add_entry add_hashed
  add_v3_complete i w e t h x =
      let same : bytes_eq (format_timestamp t) e.timestamp ≡ true =
        rw (x.spelled) (bytes_eq_refl e.timestamp) in
      let no_run : is_empty e.run_id ≡ true = ap is_empty x.no_run_id in
      let version = x.version in
      rw (x.parsed, add_entry, same)
        (ground (
          arith,
          check_hash_complete i w e
              (validate_chain_hash_inputs_v3 w.previous_hash e.global_seq e.content_hash)
              (compute_chain_hash_v3_unchecked H w.previous_hash e.global_seq t e.content_hash),
        ))

  add_v2_complete :
      (i : Int64) (w : Walker) (e : Entry) (t : Time)
      → w.res.verdict ≡ intact
      → IsHashedV2 H parse w.previous_hash e t
      → (add_entry H parse i w e).res.verdict ≡ intact
  unfolding add_entry add_hashed shape_v2
  add_v2_complete i w e t h x =
      let same : bytes_eq (format_timestamp t) e.timestamp ≡ true =
        rw (x.spelled) (bytes_eq_refl e.timestamp) in
      let shape : shape_v2 w.previous_hash e ≡ none = ground arith in
      rw (x.parsed, add_entry, same)
        (ground (
          arith,
          shape,
          check_hash_complete i w e (shape_v2 w.previous_hash e) (
              compute_chain_hash_unchecked H w.previous_hash e.run_id e.sequence_num t
                e.content_hash),
        ))

  -- A step over an entry that follows the hash before it, with the next number, finds no break.
  pub add_complete :
      (w : Walker) (e : Entry)
      → w.res.verdict ≡ intact
      → StartsWell w.opts.previous_hash
      → (w.res.entries_verified ≡ 0) ⊎ (e.global_seq ≡ int_next w.previous_seq)
      → Link H parse w.previous_hash e
      → (add H parse w e).res.verdict ≡ intact
  unfolding add
  add_complete w e h start seq (erased x) =
      let entered = enter_complete w e h start seq in
      rw (x.digest, x.marked)
        (add_tombstone_complete w.res.entries_verified (enter w e) e entered x)
  add_complete w e h start seq (hashed_v3 t x) =
      let entered = enter_complete w e h start seq in
      rw (x.digest, x.unmarked)
        (add_v3_complete w.res.entries_verified (enter w e) e t entered
          (rw (enter-previous_hash w e) x))
  add_complete w e h start seq (hashed_v2 t x) =
      let entered = enter_complete w e h start seq in
      rw (x.digest, x.unmarked)
        (add_v2_complete w.res.entries_verified (enter w e) e t entered
          (rw (enter-previous_hash w e) x))

  add_all_complete :
      (entries : List Entry) (w : Walker)
      → w.res.verdict ≡ intact
      → StartsWell w.opts.previous_hash
      → Linked H parse w.previous_hash entries
      → Contiguous H parse w.previous_seq entries
      → (add_all H parse w entries).res.verdict ≡ intact
  unfolding add_all
  add_all_complete [] w h start links seqs = h
  add_all_complete (e ∷ entries) w h start links seqs =
      let step = add-progress H parse w e in
      let now = add_complete w e h start (inr seqs.0) links.0 in
      let next = add-previous_hash H parse w e now in
      add_all_complete entries (add H parse w e) now
        (subst (λ o. StartsWell o.previous_hash) (sym step.2) start) (rw next links.1)
        (rw step.1 seqs.1)

  -- Entries that follow one another from the given hash on, which is none or a digest, numbered
  -- without a gap, are found intact, whatever number of breaks the options ask for.
  pub intact-chain :
      (e : Entry) (entries : List Entry) (opts : Options)
      → StartsWell opts.previous_hash
      → Linked H parse opts.previous_hash (e ∷ entries)
      → Contiguous H parse e.global_seq entries
      → verdict_of (chain H parse (e ∷ entries) opts) ≡ intact
  unfolding chain add_all
  intact-chain e entries opts start links seqs =
      let w = new_walker opts in
      let fresh : (w.res.entries_verified ≡ 0)
          × (w.previous_hash ≡ opts.previous_hash)
          × (w.opts ≡ opts)
          × (w.res.verdict ≡ intact) =
        unfold new_walker in (refl, refl, refl, refl) in
      let step = add-progress H parse w e in
      let now =
        add_complete w e fresh.3 (subst (λ o. StartsWell o.previous_hash) (sym fresh.2) start)
          (inl fresh.0) (rw fresh.1 links.0) in
      let next = add-previous_hash H parse w e now in
      add_all_complete entries (add H parse w e) now
        (subst (λ o. StartsWell o.previous_hash) (sym (step.2 ∙ fresh.2)) start) (rw next links.1)
        (rw step.1 seqs)
