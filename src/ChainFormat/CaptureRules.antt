-- ===== src/ChainFormat/CaptureRules.antt =====
-- chainformat/capture_v3.go: `validateV3`. A regular expression `^[class]{lo,hi}$` is a test of the
-- length and of every byte.
use proof.Prelude.{
  ℕ, List, [], ◌∷◌, Option, none, some, Bool, false, ltb, leb, ◌==◌, ◌&&◌, ◌||◌, not, if◌then◌else◌,
  length, all,
}
use proof.Prelude.Bytes.{Bytes, codes, bytes_eq, is_empty, is_hex}
use proof.Prelude.Int64.{int_lt}
use proof.ChainFormat.CaptureEntry.{
  Unicode, CaptureRequestV3, CaptureError, field_empty, pattern_mismatch, not_utf8, too_long,
  control_byte, not_allowed, timestamp_not_positive, timestamp_too_late, key_version_required,
  key_version_unused, zk_detected, zk_action, zk_categories, zk_dlp, max_v3_string_field_bytes,
  max_plausible_timestamp_ms,
}

-- Checks in their order: the first failure, if there is one.
unfoldable pub first_error : List (Option CaptureError) → Option CaptureError
first_error [] = none
first_error (none ∷ checks) = first_error checks
first_error (some e ∷ checks) = some e

abbrev pub reject_if : Bool → CaptureError → Option CaptureError
reject_if b e = if b then some e else none

abbrev pub is_lower : ℕ → Bool
is_lower c = leb b'a' c && leb c b'z'

abbrev pub is_upper : ℕ → Bool
is_upper c = leb b'A' c && leb c b'Z'

abbrev pub is_digit : ℕ → Bool
is_digit c = leb b'0' c && leb c b'9'

-- `^[class]{lo,hi}$`.
unfoldable pub matches : (ℕ → Bool) → ℕ → ℕ → Bytes → Bool
matches class lo hi s = leb lo (length s) && leb (length s) hi && all class s

-- `[A-Za-z0-9_./-]`.
unfoldable pub id_class : ℕ → Bool
id_class c =
    is_upper c || is_lower c || is_digit c || c == b'_' || c == b'.' || c == b'/' || c == b'-'

unfoldable pub key_version_class : ℕ → Bool
key_version_class c = is_lower c || is_digit c || c == b':' || c == b'_' || c == b'.' || c == b'-'

unfoldable pub provenance_class : ℕ → Bool
provenance_class c = is_lower c || is_digit c || c == b'_' || c == b'-'

unfoldable pub provider_class : ℕ → Bool
provider_class c = is_lower c || is_digit c || c == b'_' || c == b'.' || c == b'-'

unfoldable pub region_class : ℕ → Bool
region_class c = is_lower c || is_digit c || c == b'-'

abbrev pub encryption_mode_allowed : List Bytes
encryption_mode_allowed = codes "zero-knowledge" ∷ codes "aleutian-managed" ∷ codes "cmek" ∷ []

abbrev pub processing_mode_allowed : List Bytes
processing_mode_allowed = codes "zk" ∷ codes "pii_inspection" ∷ []

abbrev pub pii_action_allowed : List Bytes
pii_action_allowed = codes "none" ∷ codes "flagged" ∷ codes "blocked" ∷ codes "redacted" ∷ []

-- `_, ok := allowed[value]`.
unfoldable pub is_allowed : List Bytes → Bytes → Bool
is_allowed [] value = false
is_allowed (a ∷ allowed) value = bytes_eq a value || is_allowed allowed value

unfoldable pub is_sha512_hex : Bytes → Bool
is_sha512_hex = matches is_hex 128 128

unfoldable pub has_disallowed_control_bytes : Bytes → Bool
has_disallowed_control_bytes [] = false
has_disallowed_control_bytes (b ∷ s) = ltb b 32 || b == 127 || has_disallowed_control_bytes s

unfoldable pub validate_optional_hex_digest : Bytes → Bytes → Option CaptureError
validate_optional_hex_digest name value =
    if is_empty value then none else reject_if (not (is_sha512_hex value)) (pattern_mismatch name)

-- The rule of `processing_mode` "zk".
unfoldable pub validate_zk : CaptureRequestV3 → Option CaptureError
validate_zk e =
    if bytes_eq e.processing_mode (codes "zk")
    then first_error (
        reject_if e.pii_detected zk_detected
        ∷ reject_if (not (bytes_eq e.pii_action (codes "none"))) zk_action
        ∷ reject_if (not (is_empty e.pii_categories)) zk_categories
        ∷ reject_if (not (is_empty e.dlp)) zk_dlp
        ∷ [])
    else none

-- A key version is there exactly when a digest is.
unfoldable pub validate_key_version_presence : CaptureRequestV3 → Option CaptureError
validate_key_version_presence e =
    let has_digest = not (is_empty e.pii_categories) || not (is_empty e.dlp) in
    first_error (
      reject_if (has_digest && is_empty e.pii_digest_key_version) key_version_required
      ∷ reject_if (not has_digest && not (is_empty e.pii_digest_key_version)) key_version_unused
      ∷ [])

unfoldable pub validate_charsets : CaptureRequestV3 → Option CaptureError
validate_charsets e = first_error (
    reject_if (not (matches provider_class 0 64 e.provider)) (pattern_mismatch (codes "provider"))
    ∷ reject_if (not (matches id_class 0 128 e.model)) (pattern_mismatch (codes "model"))
    ∷ reject_if (not (matches region_class 0 16 e.region)) (pattern_mismatch (codes "region"))
    ∷ reject_if (not (matches provenance_class 0 32 e.capture_method))
        (pattern_mismatch (codes "capture_method"))
    ∷ reject_if (not (matches provenance_class 0 32 e.source_type))
        (pattern_mismatch (codes "source_type"))
    ∷ reject_if (not (matches provenance_class 0 32 e.trust_level))
        (pattern_mismatch (codes "trust_level"))
    ∷ [])

unfoldable pub validate_modes : CaptureRequestV3 → Option CaptureError
validate_modes e = first_error (
    reject_if (not (is_allowed encryption_mode_allowed e.encryption_mode))
      (not_allowed (codes "encryption_mode"))
    ∷ reject_if (not (is_allowed processing_mode_allowed e.processing_mode))
        (not_allowed (codes "processing_mode"))
    ∷ reject_if (not (is_allowed pii_action_allowed e.pii_action))
        (not_allowed (codes "pii_action"))
    ∷ [])

unfoldable pub validate_digests : CaptureRequestV3 → Option CaptureError
validate_digests e = first_error (
    reject_if (not (is_sha512_hex e.content_hash)) (pattern_mismatch (codes "content_hash"))
    ∷ reject_if (not (is_sha512_hex e.user_id)) (pattern_mismatch (codes "user_id"))
    ∷ validate_optional_hex_digest (codes "dlp") e.dlp
    ∷ validate_optional_hex_digest (codes "pii_categories") e.pii_categories
    ∷ [])

module _ (U : Unicode) where
  unfoldable pub validate_string_field : Bytes → Bytes → Option CaptureError
  validate_string_field name value = first_error (
      reject_if (not (U.valid_utf8 value)) (not_utf8 name)
      ∷ reject_if (ltb max_v3_string_field_bytes (length (U.nfc value))) (too_long name)
      ∷ reject_if (has_disallowed_control_bytes (U.nfc value)) (control_byte name)
      ∷ [])

  unfoldable pub validate_header : CaptureRequestV3 → Option CaptureError
  validate_header e = first_error (
      reject_if (is_empty e.subject) (field_empty (codes "subject"))
      ∷ validate_string_field (codes "subject") e.subject
      ∷ reject_if (is_empty e.signing_key_id) (field_empty (codes "signing_key_id"))
      ∷ reject_if (not (matches id_class 1 128 e.signing_key_id))
          (pattern_mismatch (codes "signing_key_id"))
      ∷ validate_string_field (codes "signing_key_id") e.signing_key_id
      ∷ reject_if (not (int_lt 0 e.timestamp_ms)) timestamp_not_positive
      ∷ reject_if (int_lt max_plausible_timestamp_ms e.timestamp_ms) timestamp_too_late
      ∷ [])

  unfoldable pub validate_key_version : CaptureRequestV3 → Option CaptureError
  validate_key_version e = first_error (
      reject_if (not (matches key_version_class 0 64 e.pii_digest_key_version))
        (pattern_mismatch (codes "pii_digest_key_version"))
      ∷ validate_string_field (codes "pii_digest_key_version") e.pii_digest_key_version
      ∷ validate_key_version_presence e
      ∷ [])

  -- The loop over the fields of the body.
  unfoldable pub validate_fields : List (Bytes × Bytes) → Option CaptureError
  validate_fields [] = none
  validate_fields ((name, val) ∷ fields) =
      first_error (validate_string_field name val ∷ validate_fields fields ∷ [])

  unfoldable pub validate_v3 : CaptureRequestV3 → Option CaptureError
  validate_v3 e = first_error (
      validate_header e
      ∷ validate_digests e
      ∷ validate_key_version e
      ∷ validate_modes e
      ∷ validate_zk e
      ∷ validate_charsets e
      ∷ validate_fields (
          (codes "capture_method", e.capture_method)
          ∷ (codes "content_hash", e.content_hash)
          ∷ (codes "dlp", e.dlp)
          ∷ (codes "encryption_mode", e.encryption_mode)
          ∷ (codes "model", e.model)
          ∷ (codes "pii_action", e.pii_action)
          ∷ (codes "pii_categories", e.pii_categories)
          ∷ (codes "processing_mode", e.processing_mode)
          ∷ (codes "provider", e.provider)
          ∷ (codes "region", e.region)
          ∷ (codes "source_type", e.source_type)
          ∷ (codes "trust_level", e.trust_level)
          ∷ (codes "user_id", e.user_id)
          ∷ [])
      ∷ [])
