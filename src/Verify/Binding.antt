-- ===== src/Verify/Binding.antt =====
-- verify/anchor.go and walker_anchor.go: an anchor against a walked chain. The texts for a reader
-- (`Detail`, `Proven`, `NotProven`) are left out.
pub mod FirstBreak
pub mod Ends
pub mod Bound
pub mod Anchored
pub mod Genuine
use proof.Prelude.{
  ℕ, List, [], ◌∷◌, Option, none, some, Bool, true, false, not, ◌==◌, ◌&&◌, ◌||◌, if◌then◌else◌,
  length, all,
}
use proof.Prelude.Bytes.{Bytes, bytes_eq, is_hex, is_empty}
use proof.Prelude.Int64.{Int64, is_neg, int_next, int_lt}
use proof.Hash.{Sha512}
use proof.ChainFormat.Timestamp.{Time}
use proof.Anchor.{Anchor, VersionError, validate_version_invariants}
use proof.Anchor.ChainHash.{
  AnchorHash, ok, bar_in_field, anchor_hash, seed_anchor_hash, seed_anchor_id,
}
use proof.Anchor.Signature.{
  Crypto, KeySource, Trust, SignatureError, Verified, trusted, rejected, verify_signature,
}
use proof.Verify.{Entry, Break, BreakType, unknown_format, format_field_misuse, Options}
use proof.Verify.Walker.{Walker, new_walker, add_all}

-- `unset` is the zero value.
pub data BindOutcome : Type 0 where
  unset bind_ok chain_broken range_start_mismatch range_end_mismatch height_mismatch : BindOutcome
  head_mismatch tenant_mismatch predecessor_mismatch signature_invalid : BindOutcome

pub record BindResult : Type 0 where
  pub outcome : BindOutcome
  pub bound : Bool
  pub entries_covered : Int64
  pub tombstones : Int64
  pub entries_not_bound : Int64
  pub trust : Option Trust
  pub signature_verified : Bool

pub data BindError : Type 0 where
  no_entries no_key_source segment unreadable_entry : BindError
  previous_empty previous_length previous_not_hex : BindError
  malformed_anchor : VersionError → BindError
  hash_refused : ℕ → BindError
  bad_signature : SignatureError → BindError

-- A result, or an error with the result beside it.
pub data BindReply : Type 0 where
  reply : BindResult → BindReply
  fail : BindResult → BindError → BindReply

abbrev pub no_result : BindResult
no_result = record {
  outcome = unset;
  bound = false;
  entries_covered = 0;
  tombstones = 0;
  entries_not_bound = 0;
  trust = none;
  signature_verified = false;
}

unfoldable pub validate_previous_anchor_hash : Bytes → Option BindError
validate_previous_anchor_hash previous =
    if is_empty previous
    then some previous_empty
    else if not (length previous == 128)
    then some previous_length
    else if all is_hex previous
    then none
    else some previous_not_hex

-- What `bind` starts from, with nothing decided.
abbrev pub undecided : Walker → Anchor → BindResult
undecided w a = record {
  outcome = unset;
  bound = false;
  entries_covered = a.entry_count;
  tombstones = w.res.tombstones_found;
  entries_not_bound = int_next w.res.last_tombstone;
  trust = none;
  signature_verified = false;
}

abbrev pub with_outcome : BindResult → BindOutcome → BindResult
with_outcome r o = record r { outcome = o }

-- Whether the first break says that this build cannot read the entry.
unfoldable pub is_unreadable : List Break → Bool
is_unreadable [] = false
is_unreadable (b ∷ breaks) = elim (b.break_type) [
  | unknown_format ↦ true
  | format_field_misuse ↦ true
  | other ↦ false
]

module _ (H : Sha512) where
  -- The comparison of the recomputed hash.
  unfoldable pub bind_head : Walker → Anchor → Bytes → BindReply
  bind_head w a previous =
      elim (anchor_hash H previous a.subject w.first.entry_id w.last.entry_id w.last.chain_hash) [
        | bar_in_field i ↦ fail no_result (hash_refused i)
        | ok recomputed ↦
            if not (bytes_eq recomputed a.chain_hash)
            then reply (with_outcome (undecided w a) head_mismatch)
            else reply (record (undecided w a) { outcome = bind_ok; bound = true })
      ]

  -- The range, the height and the predecessor, on a chain without a break.
  unfoldable pub bind_range : Walker → Anchor → Bytes → BindReply
  bind_range w a previous =
      if not (bytes_eq w.first.entry_id a.range.start_entry_id)
      then reply (with_outcome (undecided w a) range_start_mismatch)
      else if not (bytes_eq w.last.entry_id a.range.end_entry_id)
      then reply (with_outcome (undecided w a) range_end_mismatch)
      else if not (w.res.entries_verified == a.entry_count)
      then reply (with_outcome (undecided w a) height_mismatch)
      else if bytes_eq previous seed_anchor_hash
            && not (bytes_eq a.previous_anchor_id seed_anchor_id)
          || not (bytes_eq previous seed_anchor_hash)
            && bytes_eq a.previous_anchor_id seed_anchor_id
      then reply (with_outcome (undecided w a) predecessor_mismatch)
      else bind_head w a previous

  unfoldable pub bind : Walker → Anchor → Bytes → BindReply
  bind w a previous =
      if not (is_empty w.opts.previous_hash)
      then fail no_result segment
      else if not (is_neg w.res.first_break)
      then (if is_unreadable w.res.breaks
          then fail no_result unreadable_entry
          else reply (with_outcome (undecided w a) chain_broken))
      else bind_range w a previous

  -- The checks before the walk is bound.
  unfoldable pub bind_checked : Walker → Anchor → Bytes → BindReply
  bind_checked w a previous = elim (validate_previous_anchor_hash previous) [
    | some e ↦ fail no_result e
    | none ↦ elim (validate_version_invariants a) [
      | some e ↦ fail no_result (malformed_anchor e)
      | none ↦ bind w a previous
    ]
  ]

  -- `BindAnchor` of a walker.
  unfoldable pub walker_bind_anchor : Walker → Anchor → Bytes → BindReply
  walker_bind_anchor w a previous =
      if w.res.entries_verified == 0 then fail no_result no_entries else bind_checked w a previous

  -- `BindAnchor` of a list of entries: the inputs are checked before the walk.
  module _ (parse : Bytes → Option Time) where
    unfoldable pub bind_anchor : Anchor → List Entry → Bytes → BindReply
    bind_anchor a entries previous =
        if length entries == 0
        then fail no_result no_entries
        else elim (validate_previous_anchor_hash previous) [
          | some e ↦ fail no_result e
          | none ↦ elim (validate_version_invariants a) [
            | some e ↦ fail no_result (malformed_anchor e)
            | none ↦
                bind
                  (add_all H parse (new_walker (record { max_breaks = 1; previous_hash = [] }))
                    entries)
                  a previous
          ]
        ]

-- `withSignature`.
unfoldable pub with_signature : Crypto → BindResult → Anchor → KeySource → BindReply
with_signature C res a source = elim (verify_signature C a (some source)) [
  | rejected e ↦
      fail (record no_result { outcome = signature_invalid; entries_covered = res.entries_covered })
        (bad_signature e)
  | trusted trust ↦ reply (record res { signature_verified = true; trust = some trust })
]

abbrev pub then_signature : Crypto → BindReply → Anchor → KeySource → BindReply
then_signature C (fail res e) a source = fail res e
then_signature C (reply res) a source = with_signature C res a source

module _ (H : Sha512) (C : Crypto) where
  -- `VerifyAnchor` of a walker.
  unfoldable pub walker_verify_anchor : Walker → Anchor → Bytes → Option KeySource → BindReply
  walker_verify_anchor w a previous source =
      if w.res.entries_verified == 0 then fail no_result no_entries else elim source [
        | none ↦ fail no_result no_key_source
        | some keys ↦ then_signature C (bind_checked H w a previous) a keys
      ]

  unfoldable pub verify_anchor :
      (Bytes → Option Time) → Anchor → List Entry → Bytes → Option KeySource → BindReply
  verify_anchor parse a entries previous none = fail no_result no_key_source
  verify_anchor parse a entries previous (some source) =
      then_signature C (bind_anchor H parse a entries previous) a source
