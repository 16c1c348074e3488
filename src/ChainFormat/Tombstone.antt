-- ===== src/ChainFormat/Tombstone.antt =====
-- chainformat/tombstone.go: the marks of an erased entry.
use proof.Prelude.{
  ℕ, suc, [], ◌∷◌, Option, none, some, Bool, true, false, leb, ◌==◌, ◌&&◌, ◌||◌, if◌then◌else◌,
  length, drop, all, not, get_elem?,
}
use proof.Prelude.Bytes.{Bytes, codes, bytes_eq, has_prefix, is_hex, is_empty}
use proof.ChainFormat.Timestamp.{Time, is_zero_time}

abbrev pub tombstone_content_hash_prefix : Bytes
tombstone_content_hash_prefix = codes "TOMBSTONE:"

abbrev pub tombstone_entry_id_prefix : Bytes
tombstone_entry_id_prefix = codes "tomb_"

abbrev pub tombstone_entry_type : Bytes
tombstone_entry_type = codes "tombstone"

unfoldable pub is_tombstone : Bytes → Bytes → Bool
is_tombstone entry_type entry_id =
    bytes_eq entry_type tombstone_entry_type && has_prefix entry_id tombstone_entry_id_prefix

unfoldable pub is_tombstone_content_hash : Bytes → Bool
is_tombstone_content_hash content_hash = has_prefix content_hash tombstone_content_hash_prefix

unfoldable pub validate_tombstone_content_hash : Bytes → Bool
validate_tombstone_content_hash content_hash =
    if not (length content_hash == 74)
    then false
    else if not (has_prefix content_hash tombstone_content_hash_prefix)
    then false
    else all is_hex (drop 10 content_hash)

-- A hex digit of a UUID, of either case.
unfoldable pub is_uuid_hex : ℕ → Bool
unfolding is_hex
is_uuid_hex c = is_hex c || (leb b'A' c && leb c b'F')

unfoldable pub is_hyphen_place : ℕ → Bool
is_hyphen_place i = i == 8 || i == 13 || i == 18 || i == 23

-- The loop over the characters, from index i on.
unfoldable pub uuid_chars : ℕ → Bytes → Bool
unfolding is_uuid_hex is_hyphen_place
uuid_chars i [] = true
uuid_chars i (c ∷ s) =
    let rest = uuid_chars (suc i) s in
    if is_hyphen_place i then rest else if is_uuid_hex c then rest else false

unfoldable pub has_hyphen : Bytes → ℕ → Bool
has_hyphen s i = elim (get_elem? s i) [ none ↦ false | some c ↦ c == b'-' ]

unfoldable pub validate_uuid_format : Bytes → Bool
unfolding uuid_chars has_hyphen
validate_uuid_format s =
    if not (length s == 36)
    then false
    else if not (has_hyphen s 8)
        || not (has_hyphen s 13)
        || not (has_hyphen s 18)
        || not (has_hyphen s 23)
    then false
    else uuid_chars 0 s

-- What `IsValidTombstoneFormat` refuses, in the order of its checks; `none` is a nil error.
pub data TombstoneError : Type 0 where
  id_prefix id_uuid entry_type subject_empty content_hash zero_timestamp : TombstoneError

unfoldable pub is_valid_tombstone_format :
    Bytes → Bytes → Bytes → Bytes → Time → Option TombstoneError
unfolding validate_uuid_format validate_tombstone_content_hash is_zero_time
is_valid_tombstone_format id type subject content t =
    if not (has_prefix id tombstone_entry_id_prefix)
    then some id_prefix
    else if not (validate_uuid_format (drop 5 id))
    then some id_uuid
    else if not (bytes_eq type tombstone_entry_type)
    then some entry_type
    else if is_empty subject
    then some subject_empty
    else if not (validate_tombstone_content_hash content)
    then some content_hash
    else if is_zero_time t
    then some zero_timestamp
    else none
