-- ===== src/Anchor.antt =====
-- anchor/: a signed statement about the head of a chain.
pub mod ChainHash
pub mod Signature
pub mod Signing
use proof.Prelude.{
  ℕ, List, [], ◌∷◌, Option, none, some, Bool, true, false, not, ◌==◌, ◌&&◌, ◌||◌, if◌then◌else◌,
}
use proof.Prelude.Bytes.{Bytes, codes, is_empty}
use proof.Prelude.Int64.{Int64, is_neg, int_lt}

pub record EntryRange : Type 0 where
  pub start_entry_id : Bytes
  pub end_entry_id : Bytes

pub record Anchor : Type 0 where
  pub version : Int64
  pub anchor_id : Bytes
  pub subject : Bytes
  pub chain_hash : Bytes
  pub range : EntryRange
  pub entry_count : Int64
  pub signature : Bytes
  pub signing_key_id : Bytes
  pub created_at_ms : Int64
  pub previous_anchor_id : Bytes
  pub verified_through : Int64

-- Why the fields of an anchor do not fit its version.
pub data VersionError : Type 0 where
  withdrawn unsupported_version early_verified_through no_verified_through empty_subject :
      VersionError
  no_entries verified_past_end negative_created_at : VersionError

abbrev pub withdrawn_version : Int64
withdrawn_version = 5

abbrev pub subject_version : Int64
subject_version = 6

-- `x <= 0`.
abbrev pub not_positive : Int64 → Bool
not_positive x = is_neg x || x == 0

unfoldable pub validate_counts : Anchor → Option VersionError
validate_counts a =
    if int_lt a.entry_count 1
    then some no_entries
    else if int_lt a.entry_count a.verified_through
    then some verified_past_end
    else if is_neg a.created_at_ms
    then some negative_created_at
    else none

-- The versions 1 to 3, which have no `verified_through`.
abbrev pub is_early : Int64 → Bool
is_early version = not (int_lt version 1) && not (int_lt 3 version)

unfoldable pub validate_version_invariants : Anchor → Option VersionError
validate_version_invariants a =
    if is_early a.version
    then (if not (a.verified_through == 0) then some early_verified_through else none)
    else if a.version == 4
    then (if not_positive a.verified_through then some no_verified_through else validate_counts a)
    else if a.version == withdrawn_version
    then some withdrawn
    else if a.version == subject_version
    then (if not_positive a.verified_through
        then some no_verified_through
        else if is_empty a.subject
        then some empty_subject
        else validate_counts a)
    else some unsupported_version
