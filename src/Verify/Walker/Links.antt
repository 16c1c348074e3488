-- ===== src/Verify/Walker/Links.antt =====
-- What it takes for an entry to follow the hash before it, and what the walk finds of that.
use proof.Prelude.{
  ◌+◌, ◌^◌, ◌<◌, ◌≡◌, ◌≢◌, refl, ap, ◌∙◌, List, [], ◌∷◌, Option, none, some, true, false, not, ◌==◌,
  ◌||◌, length, arith, ◌⊎◌, inl, inr, Bool-cases, Option-cases, ==_iff,
}
use proof.Prelude.Bytes.{Bytes, bytes_eq, bytes_eq_sound, is_empty, is_empty-eq_true}
use proof.Prelude.Int64.{Int64, is_neg, int_next}
use proof.Hash.{Sha512}
use proof.ChainFormat.Timestamp.{Time}
use proof.ChainFormat.Tombstone.{is_tombstone, validate_tombstone_content_hash}
use proof.ChainFormat.Hash.{
  FieldError, format_v2, format_v3, normalize_format_version, validate_chain_hash_inputs,
  validate_chain_hash_inputs_v3, compute_chain_hash_unchecked, compute_chain_hash_v3_unchecked,
}
use proof.Verify.{Verdict, intact, broken, Entry, Result, Options, invalid_timestamp}
use proof.Verify.Walker.Steps.{add-progress, add-previous_hash}
use proof.Verify.Walker.{
  Walker, chain_hash_pattern, format_timestamp, add_break, check_tombstone_format,
  check_tombstone_fields, add_tombstone, check_hash, shape_v2, add_hashed, add_entry, enter, add,
  add_all, new_walker, chain, break_at,
}

-- An erased entry: its hash is taken as stored, and what it declares is in order.
pub record IsErased (e : Entry) : Type 0 where
  pub digest : chain_hash_pattern e.chain_hash ≡ true
  pub marked : is_tombstone e.entry_type e.entry_id ≡ true
  pub format :
      (normalize_format_version e.format_version ≡ format_v2)
      ⊎ ((normalize_format_version e.format_version ≡ format_v3)
          × (e.run_id ≡ [])
          × (e.sequence_num ≡ 0))
  pub position : is_neg e.global_seq ≡ false
  pub content : validate_tombstone_content_hash e.content_hash ≡ true

-- An intact verdict after each part of a step says what that part found.
enter_sound :
    (w : Walker) (e : Entry)
    → (enter w e).res.verdict ≡ intact
    → (w.res.verdict ≡ intact)
      × ((w.res.entries_verified ≡ 0) ⊎ (e.global_seq ≡ int_next w.previous_seq))
unfolding enter
enter_sound w e h = ground arith

pub enter-previous_hash : (w : Walker) (e : Entry) → (enter w e).previous_hash ≡ w.previous_hash
unfolding enter
enter-previous_hash w e = ground arith

tombstone_format_sound :
    (i : Int64) (w : Walker) (e : Entry)
    → (check_tombstone_format i w e).res.verdict ≡ intact
    → (w.res.verdict ≡ intact)
      × ((normalize_format_version e.format_version ≡ format_v2)
          ⊎ ((normalize_format_version e.format_version ≡ format_v3)
              × (is_empty e.run_id ≡ true)
              × (e.sequence_num ≡ 0)))
unfolding check_tombstone_format
tombstone_format_sound i w e h = ground arith

tombstone_fields_sound :
    (i : Int64) (w : Walker) (e : Entry)
    → (check_tombstone_fields i w e).res.verdict ≡ intact
    → (w.res.verdict ≡ intact)
      × (is_neg e.global_seq ≡ false)
      × (validate_tombstone_content_hash e.content_hash ≡ true)
unfolding check_tombstone_fields
tombstone_fields_sound i w e h = ground arith

add_tombstone_sound :
    (i : Int64) (w : Walker) (e : Entry)
    → (add_tombstone i w e).res.verdict ≡ intact
    → chain_hash_pattern e.chain_hash ≡ true
    → is_tombstone e.entry_type e.entry_id ≡ true
    → (w.res.verdict ≡ intact) × IsErased e
unfolding add_tombstone
add_tombstone_sound i w e h digest marked =
    let w' : Walker = record w {
      res = record w.res { tombstones_found = int_next w.res.tombstones_found; last_tombstone = i };
    } in
    let fields = tombstone_fields_sound i (check_tombstone_format i w' e) e h in
    let format = tombstone_format_sound i w' e fields.0 in
    (
      format.0,
      record {
        digest = digest;
        marked = marked;
        format = elim format.1 [
          | inl two ↦ inl two
          | inr (three, run, seq) ↦ inr (three, is_empty-eq_true e.run_id run, seq)
        ];
        position = fields.1;
        content = fields.2;
      },
    )

check_hash_sound :
    (i : Int64) (w : Walker) (e : Entry) (shape : Option FieldError) (expected : Bytes)
    → (check_hash i w e shape expected).res.verdict ≡ intact
    → (w.res.verdict ≡ intact)
      × (shape ≡ none)
      × (bytes_eq expected e.chain_hash ≡ true)
      × ((check_hash i w e shape expected).previous_hash ≡ expected)
unfolding check_hash
check_hash_sound i w e (some err) expected h = cc
check_hash_sound i w e none expected h = ground arith

shape_v2-eq_none :
    (previous : Bytes) (e : Entry)
    → shape_v2 previous e ≡ none
    → (validate_chain_hash_inputs previous e.run_id e.sequence_num e.content_hash ≡ none)
      × (is_neg e.global_seq ≡ false)
unfolding shape_v2
shape_v2-eq_none previous e h = ground arith

abbrev pub verdict_of : Option Result → Verdict
verdict_of none = broken
verdict_of (some r) = r.verdict

broken≢intact : broken ≢ intact
broken≢intact e = cc

module _ (H : Sha512) (parse : Bytes → Option Time) where
  -- An entry whose hash is computed: in format v3 or v2, over the hash before it.
  pub record IsHashedV3 (previous : Bytes) (e : Entry) (t : Time) : Type 0 where
    pub digest : chain_hash_pattern e.chain_hash ≡ true
    pub unmarked : is_tombstone e.entry_type e.entry_id ≡ false
    pub parsed : parse e.timestamp ≡ some t
    pub spelled : format_timestamp t ≡ e.timestamp
    pub version : normalize_format_version e.format_version ≡ format_v3
    pub no_run_id : e.run_id ≡ []
    pub no_sequence_num : e.sequence_num ≡ 0
    pub shape : validate_chain_hash_inputs_v3 previous e.global_seq e.content_hash ≡ none
    pub hash :
        compute_chain_hash_v3_unchecked H previous e.global_seq t e.content_hash ≡ e.chain_hash

  pub record IsHashedV2 (previous : Bytes) (e : Entry) (t : Time) : Type 0 where
    pub digest : chain_hash_pattern e.chain_hash ≡ true
    pub unmarked : is_tombstone e.entry_type e.entry_id ≡ false
    pub parsed : parse e.timestamp ≡ some t
    pub spelled : format_timestamp t ≡ e.timestamp
    pub version : normalize_format_version e.format_version ≡ format_v2
    pub shape : validate_chain_hash_inputs previous e.run_id e.sequence_num e.content_hash ≡ none
    pub position : is_neg e.global_seq ≡ false
    pub hash :
        compute_chain_hash_unchecked H previous e.run_id e.sequence_num t e.content_hash
        ≡ e.chain_hash

  pub data Link (previous : Bytes) (e : Entry) : Type 0 where
    erased : IsErased e → Link previous e
    hashed_v3 : (t : Time) → IsHashedV3 previous e t → Link previous e
    hashed_v2 : (t : Time) → IsHashedV2 previous e t → Link previous e

  -- Every entry follows the hash of the one before it.
  abbrev pub Linked : Bytes → List Entry → Type 0
  Linked previous [] = Unit
  Linked previous (e ∷ entries) = Link previous e × Linked e.chain_hash entries

  IsHashedV2-sound :
      (i : Int64) (w : Walker) (e : Entry) (t : Time)
      → (check_hash i w e (shape_v2 w.previous_hash e) (
          compute_chain_hash_unchecked H w.previous_hash e.run_id e.sequence_num t
            e.content_hash)).res.verdict
        ≡ intact
      → chain_hash_pattern e.chain_hash ≡ true
      → is_tombstone e.entry_type e.entry_id ≡ false
      → parse e.timestamp ≡ some t
      → format_timestamp t ≡ e.timestamp
      → normalize_format_version e.format_version ≡ format_v2
      → (w.res.verdict ≡ intact) × IsHashedV2 w.previous_hash e t
  IsHashedV2-sound i w e t h digest unmarked parsed spelled version =
      let expected =
        compute_chain_hash_unchecked H w.previous_hash e.run_id e.sequence_num t e.content_hash in
      let found = check_hash_sound i w e (shape_v2 w.previous_hash e) expected h in
      let shape = shape_v2-eq_none w.previous_hash e found.1 in
      (
        found.0,
        record {
          digest = digest;
          unmarked = unmarked;
          parsed = parsed;
          spelled = spelled;
          version = version;
          shape = shape.0;
          position = shape.1;
          hash = bytes_eq_sound expected e.chain_hash found.2;
        },
      )

  IsHashedV3-sound :
      (i : Int64) (w : Walker) (e : Entry) (t : Time)
      → (check_hash i w e
          (validate_chain_hash_inputs_v3 w.previous_hash e.global_seq e.content_hash)
          (compute_chain_hash_v3_unchecked H w.previous_hash e.global_seq t
            e.content_hash)).res.verdict
        ≡ intact
      → chain_hash_pattern e.chain_hash ≡ true
      → is_tombstone e.entry_type e.entry_id ≡ false
      → parse e.timestamp ≡ some t
      → format_timestamp t ≡ e.timestamp
      → normalize_format_version e.format_version ≡ format_v3
      → e.run_id ≡ []
      → e.sequence_num ≡ 0
      → (w.res.verdict ≡ intact) × IsHashedV3 w.previous_hash e t
  IsHashedV3-sound i w e t h digest unmarked parsed spelled version run seq =
      let expected =
        compute_chain_hash_v3_unchecked H w.previous_hash e.global_seq t e.content_hash in
      let shape = validate_chain_hash_inputs_v3 w.previous_hash e.global_seq e.content_hash in
      let found = check_hash_sound i w e shape expected h in
      (
        found.0,
        record {
          digest = digest;
          unmarked = unmarked;
          parsed = parsed;
          spelled = spelled;
          version = version;
          no_run_id = run;
          no_sequence_num = seq;
          shape = found.1;
          hash = bytes_eq_sound expected e.chain_hash found.2;
        },
      )

  v3_tests :
      (i : Int64) (w : Walker) (e : Entry) (t : Time)
      → (add_hashed H parse i w e t).res.verdict ≡ intact
      → (normalize_format_version e.format_version == format_v2) ≡ false
      → ((normalize_format_version e.format_version == format_v3) ≡ true)
        × ((not (is_empty e.run_id) || not (e.sequence_num == 0)) ≡ false)
  unfolding add_hashed
  v3_tests i w e t h not2 = ground arith

  no_v2_fields :
      (e : Entry)
      → (not (is_empty e.run_id) || not (e.sequence_num == 0)) ≡ false
      → (e.run_id ≡ []) × (e.sequence_num ≡ 0)
  no_v2_fields e h = (is_empty-eq_true e.run_id (ground arith), ground arith)

  add_hashed_sound :
      (i : Int64) (w : Walker) (e : Entry) (t : Time)
      → (add_hashed H parse i w e t).res.verdict ≡ intact
      → chain_hash_pattern e.chain_hash ≡ true
      → is_tombstone e.entry_type e.entry_id ≡ false
      → parse e.timestamp ≡ some t
      → format_timestamp t ≡ e.timestamp
      → (w.res.verdict ≡ intact) × Link w.previous_hash e
  unfolding add_hashed
  add_hashed_sound i w e t h digest unmarked parsed spelled =
      let version = normalize_format_version e.format_version in
      elim (Bool-cases (version == format_v2)) [
        | inl is2 ↦
            let found =
              IsHashedV2-sound i w e t (rw is2 at h) digest unmarked parsed spelled
                ((==_iff version format_v2).0 is2) in
            (found.0, hashed_v2 t found.1)
        | inr not2 ↦
            let (is3, fields) = v3_tests i w e t h not2 in
            let (run, seq) = no_v2_fields e fields in
            let found =
              IsHashedV3-sound i w e t (rw (not2, is3, fields) at h) digest unmarked parsed spelled
                ((==_iff version format_v3).0 is3) run seq in
            (found.0, hashed_v3 t found.1)
      ]

  -- A walker that is broken stays so.
  add_hashed-intact :
      (i : Int64) (w : Walker) (e : Entry) (t : Time)
      → (add_hashed H parse i w e t).res.verdict ≡ intact
      → w.res.verdict ≡ intact
  unfolding add_hashed check_hash
  add_hashed-intact i w e t h = ground arith

  add_entry_sound :
      (i : Int64) (w : Walker) (e : Entry)
      → (add_entry H parse i w e).res.verdict ≡ intact
      → chain_hash_pattern e.chain_hash ≡ true
      → is_tombstone e.entry_type e.entry_id ≡ false
      → (w.res.verdict ≡ intact) × Link w.previous_hash e
  unfolding add_entry
  add_entry_sound i w e h digest unmarked = elim (Option-cases (parse e.timestamp)) [
    | inl failed ↦ absurd (broken≢intact (rw (failed, add_entry) at h))
    | inr (t, parsed) ↦ elim (Bool-cases (bytes_eq (format_timestamp t) e.timestamp)) [
      | inl same ↦
          add_hashed_sound i w e t (rw (parsed, add_entry, same) at h) digest unmarked parsed
            (bytes_eq_sound (format_timestamp t) e.timestamp same)
      | inr other ↦ absurd (
          broken≢intact (
            add_hashed-intact i (add_break w (break_at i e invalid_timestamp)) e t
              (rw (parsed, add_entry, other) at h)))
    ]
  ]

  -- A step that leaves the verdict intact: the entry follows the hash before it, and its number is
  -- the next one, but for the first entry.
  pub add_sound :
      (w : Walker) (e : Entry)
      → (add H parse w e).res.verdict ≡ intact
      → (w.res.verdict ≡ intact)
        × Link w.previous_hash e
        × ((w.res.entries_verified ≡ 0) ⊎ (e.global_seq ≡ int_next w.previous_seq))
  unfolding add
  add_sound w e h =
      let i = w.res.entries_verified in
      elim (Bool-cases (chain_hash_pattern e.chain_hash)) [
        | inr bad ↦ absurd (broken≢intact (rw bad at h))
        | inl digest ↦ elim (Bool-cases (is_tombstone e.entry_type e.entry_id)) [
          | inl marked ↦
              let found =
                add_tombstone_sound i (enter w e) e (rw (digest, marked) at h) digest marked in
              let entered = enter_sound w e found.0 in (entered.0, erased found.1, entered.1)
          | inr unmarked ↦
              let found =
                add_entry_sound i (enter w e) e (rw (digest, unmarked) at h) digest unmarked in
              let entered = enter_sound w e found.0 in
              (entered.0, rw (enter-previous_hash w e) at found.1, entered.1)
        ]
      ]

  -- The numbers go up by one from the given one on.
  abbrev pub Contiguous : Int64 → List Entry → Type 0
  Contiguous seq [] = Unit
  Contiguous seq (e ∷ entries) = (e.global_seq ≡ int_next seq) × Contiguous e.global_seq entries

  add_all-intact :
      (entries : List Entry) (w : Walker)
      → (add_all H parse w entries).res.verdict ≡ intact
      → w.res.verdict ≡ intact
  unfolding add_all
  add_all-intact [] w h = h
  add_all-intact (e ∷ entries) w h = (add_sound w e (add_all-intact entries (add H parse w e) h)).0

  add_all_sound :
      (entries : List Entry) (w : Walker)
      → 0 < w.res.entries_verified
      → w.res.entries_verified + length entries < 2 ^ 63
      → (add_all H parse w entries).res.verdict ≡ intact
      → Linked w.previous_hash entries × Contiguous w.previous_seq entries
  unfolding add_all
  add_all_sound [] w pos small h = (tt, tt)
  add_all_sound (e ∷ entries) w pos small h =
      let step = add-progress H parse w e in
      let after = add_all-intact entries (add H parse w e) h in
      let found = add_sound w e after in
      let rest =
        add_all_sound entries (add H parse w e) (omega (arith, step.0)) (omega (arith, step.0)) h in
      let next = add-previous_hash H parse w e after in
      let number : e.global_seq ≡ int_next w.previous_seq = elim found.2 [
        | inl none_yet ↦ absurd (omega arith)
        | inr follows ↦ follows
      ] in
      ((found.1, rw next at rest.0), (number, rw (step.1) at rest.1))

  -- A chain of fewer than 2^63 entries that is found intact is linked from the given hash on, each
  -- entry to the one before it, with numbers that go up by one.
  pub chain-intact :
      (e : Entry) (entries : List Entry) (opts : Options) {res : Result}
      → length (e ∷ entries) < 2 ^ 63
      → chain H parse (e ∷ entries) opts ≡ some res
      → res.verdict ≡ intact
      → Linked opts.previous_hash (e ∷ entries) × Contiguous e.global_seq entries
  unfolding chain add_all
  chain-intact e entries opts {res} small run h =
      let w = new_walker opts in
      let start : (w.res.entries_verified ≡ 0) × (w.previous_hash ≡ opts.previous_hash) =
        unfold new_walker in (refl, refl) in
      let whole : (add_all H parse (add H parse w e) entries).res.verdict ≡ intact =
        ap verdict_of run ∙ h in
      let step = add-progress H parse w e in
      let after = add_all-intact entries (add H parse w e) whole in
      let found = add_sound w e after in
      let rest =
        add_all_sound entries (add H parse w e) (omega (arith, step.0, start.0))
          (omega (arith, step.0, start.0)) whole in
      let next = add-previous_hash H parse w e after in
      ((rw (start.1) at found.1, rw next at rest.0), rw (step.1) at rest.1)
