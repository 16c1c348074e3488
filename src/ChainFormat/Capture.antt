-- ===== src/ChainFormat/Capture.antt =====
-- chainformat/capture_v3.go and entry.go: the canonical bytes of a capture entry, and their hash.
pub mod Layout
pub mod Fields
pub mod Valid
pub mod Bounds
pub mod Unique
pub mod Zk
use proof.Prelude.{
  ℕ, ◌/◌, ◌%◌, ◌^◌, [], ◌∷◌, ◌++◌, Option, none, some, Bool, ltb, if◌then◌else◌, length,
}
use proof.Prelude.Bytes.{Bytes}
use proof.Prelude.Int64.{Int64, is_neg}
use proof.Prelude.BigEndian.{put_uint32, put_uint64}
use proof.Hash.{Sha512, hex_encode}
use proof.ChainFormat.CaptureEntry.{
  Unicode, CaptureRequestV3, CaptureError, nil_entry, encoder_too_long, encoder_negative,
  canonical_too_long, domain_prefix_v3, entry_type_capture_request_v3, max_v3_string_field_bytes,
  max_canonical_bytes_v3,
}
use proof.ChainFormat.CaptureRules.{validate_v3}

pub record V3Encoder : Type 0 where
  pub buf : Bytes
  pub error : Option CaptureError

pub data Encoded (A : Type 0) : Type 0 where
  ok : A → Encoded A
  err : CaptureError → Encoded A

unfoldable pub append_u64 : Int64 → V3Encoder → V3Encoder
append_u64 v e = elim e.error [
  | some failed ↦ e
  | none ↦
      if is_neg v
      then record e { error = some encoder_negative }
      else record e { buf = e.buf ++ put_uint64 v }
]

unfoldable pub append_bool : Bool → V3Encoder → V3Encoder
append_bool v = append_u64 (if v then 1 else 0)

unfoldable pub content_hash_v3 : Sha512 → Bytes → Bytes
content_hash_v3 H canonical = hex_encode (H.sum (domain_prefix_v3 ++ canonical))

-- The end of `CanonicalV3`.
unfoldable pub finish : V3Encoder → Encoded Bytes
finish enc = elim enc.error [
  | some e ↦ err e
  | none ↦
      if ltb max_canonical_bytes_v3 (length enc.buf) then err canonical_too_long else ok enc.buf
]

module _ (U : Unicode) where
  unfoldable pub append_str : Bytes → V3Encoder → V3Encoder
  append_str s e = elim e.error [
    | some failed ↦ e
    | none ↦
        if ltb max_v3_string_field_bytes (length (U.nfc s))
        then record e { error = some encoder_too_long }
        else record e { buf = (e.buf ++ put_uint32 (length (U.nfc s))) ++ U.nfc s }
  ]

  unfoldable pub encode_canonical_v3 : CaptureRequestV3 → V3Encoder → V3Encoder
  encode_canonical_v3 e enc =
      let enc = append_str e.subject enc in
      let enc = append_str entry_type_capture_request_v3 enc in
      let enc = append_str e.signing_key_id enc in
      let enc = append_u64 e.timestamp_ms enc in
      let enc = append_str e.capture_method enc in
      let enc = append_str e.content_hash enc in
      let enc = append_str e.dlp enc in
      let enc = append_str e.encryption_mode enc in
      let enc = append_str e.model enc in
      let enc = append_str e.pii_action enc in
      let enc = append_str e.pii_categories enc in
      let enc = append_bool e.pii_detected enc in
      let enc = append_str e.pii_digest_key_version enc in
      let enc = append_str e.processing_mode enc in
      let enc = append_str e.provider enc in
      let enc = append_str e.region enc in
      let enc = append_str e.source_type enc in
      let enc = append_str e.trust_level enc in append_str e.user_id enc

  -- `none` is a nil entry.
  unfoldable pub canonical_v3 : Option CaptureRequestV3 → Encoded Bytes
  canonical_v3 none = err nil_entry
  canonical_v3 (some e) = elim (validate_v3 U e) [
    | some refusal ↦ err refusal
    | none ↦ finish (encode_canonical_v3 e (record { buf = []; error = none }))
  ]

  -- The canonical bytes and their hash.
  unfoldable pub encode_and_hash_v3 : Sha512 → Option CaptureRequestV3 → Encoded (Bytes × Bytes)
  encode_and_hash_v3 H e = elim (canonical_v3 e) [
    | err refusal ↦ err refusal
    | ok canonical ↦ ok (canonical, content_hash_v3 H canonical)
  ]
