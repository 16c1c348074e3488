-- ===== src/Examples/Captures.antt =====
-- A capture entry that was not inspected.
use proof.Prelude.{◌≡◌, refl, ◌≤◌, ◌++◌, [], ◌∷◌, none, some, true, false, length, arith, replicate}
use proof.Prelude.Bytes.{Bytes, codes, bytes_eq, is_hex}
use proof.Hash.{padding, NoClash, hex_encode}
use proof.ChainFormat.CaptureEntry.{Unicode, CaptureRequestV3, domain_prefix_v3}
use proof.ChainFormat.CaptureRules.{
  first_error, matches, id_class, key_version_class, provenance_class, provider_class, region_class,
  is_allowed, is_sha512_hex, has_disallowed_control_bytes, validate_optional_hex_digest,
  validate_zk, validate_key_version_presence, validate_charsets, validate_modes, validate_digests,
  validate_string_field, validate_header, validate_key_version, validate_fields, validate_v3,
}
use proof.Prelude.BigEndian.{put_uint32, put_uint64}
use proof.ChainFormat.Capture.{ok, canonical_v3, content_hash_v3, encode_and_hash_v3}
use proof.ChainFormat.Capture.Bounds.{KeepsAscii, layout, canonical_v3-layout}
use proof.ChainFormat.Capture.Layout.{put, put_all}
use proof.ChainFormat.Capture.Unique.{SameEntry, encode_and_hash_v3-SameEntry}
use proof.ChainFormat.Capture.Zk.{HasNoVerdict, validate_v3-HasNoVerdict}
use proof.Examples.Clash.{NoClash-no_clash}

abbrev plain : Unicode
plain = record { nfc = λ s. s; valid_utf8 = λ s. true }

keeps : KeepsAscii plain
keeps s h = refl

abbrev entry : CaptureRequestV3
entry = record {
  subject = codes "project";
  signing_key_id = codes "k1";
  timestamp_ms = 1772000000000;
  capture_method = codes "api";
  content_hash = replicate 128 b'a';
  dlp = [];
  encryption_mode = codes "cmek";
  model = codes "gpt-4o";
  pii_action = codes "none";
  pii_categories = [];
  pii_detected = false;
  pii_digest_key_version = [];
  processing_mode = codes "zk";
  provider = codes "openai";
  region = codes "eu";
  source_type = [];
  trust_level = codes "self-reported";
  user_id = replicate 128 b'b';
}

valid : validate_v3 plain entry ≡ none
unfolding first_error matches id_class key_version_class provenance_class provider_class
    region_class is_allowed is_sha512_hex has_disallowed_control_bytes validate_optional_hex_digest
    validate_zk validate_key_version_presence validate_charsets validate_modes validate_digests
    validate_string_field validate_header validate_key_version validate_fields validate_v3 bytes_eq
    is_hex
valid = refl

canonical_v3-layout_example :
    (canonical_v3 plain (some entry) ≡ ok (layout plain entry))
    × (length (layout plain entry) ≤ 1404)
canonical_v3-layout_example = canonical_v3-layout plain entry keeps (omega arith) valid

validate_v3-HasNoVerdict_example : HasNoVerdict entry
validate_v3-HasNoVerdict_example = validate_v3-HasNoVerdict plain entry refl valid

abbrev bytes : Bytes
bytes = layout plain entry

encodes : encode_and_hash_v3 plain padding (some entry) ≡ ok (bytes, content_hash_v3 padding bytes)
unfolding encode_and_hash_v3
encodes =
    let given = (canonical_v3-layout plain entry keeps (omega arith) valid).0 in
    rw (given, encode_and_hash_v3) refl

apart : NoClash padding ((domain_prefix_v3 ++ bytes) ∷ []) ((domain_prefix_v3 ++ bytes) ∷ [])
unfolding put put_all put_uint32 put_uint64 bytes_eq hex_encode
apart =
    NoClash-no_clash padding ((domain_prefix_v3 ++ bytes) ∷ []) ((domain_prefix_v3 ++ bytes) ∷ [])
      refl

encode_and_hash_v3-SameEntry_example : SameEntry plain entry entry
encode_and_hash_v3-SameEntry_example =
    encode_and_hash_v3-SameEntry plain padding entry entry bytes bytes
      (content_hash_v3 padding bytes) keeps (omega arith) (omega arith) apart encodes encodes
