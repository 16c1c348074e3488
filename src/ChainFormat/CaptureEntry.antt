-- ===== src/ChainFormat/CaptureEntry.antt =====
-- chainformat/capture_v3.go: the capture entry and what refuses it. Unicode normalisation and the test
-- for valid UTF-8 are parameters; an error keeps the name of its field and leaves the text out.
use proof.Prelude.{ℕ, Bool}
use proof.Prelude.Bytes.{Bytes, codes}
use proof.Prelude.Int64.{Int64}

-- `norm.NFC.String` and `utf8.ValidString`.
pub record Unicode : Type 0 where
  pub nfc : Bytes → Bytes
  pub valid_utf8 : Bytes → Bool

abbrev pub domain_prefix_v3 : Bytes
domain_prefix_v3 = codes "aleutian.chain.entry.v3:"

abbrev pub entry_type_capture_request_v3 : Bytes
entry_type_capture_request_v3 = codes "capture.request.v3"

abbrev pub max_v3_string_field_bytes : ℕ
max_v3_string_field_bytes = 256

abbrev pub max_canonical_bytes_v3 : ℕ
max_canonical_bytes_v3 = 4096

abbrev pub max_plausible_timestamp_ms : Int64
max_plausible_timestamp_ms = 7258118400000

pub record CaptureRequestV3 : Type 0 where
  pub subject : Bytes
  pub signing_key_id : Bytes
  pub timestamp_ms : Int64
  pub capture_method : Bytes
  pub content_hash : Bytes
  pub dlp : Bytes
  pub encryption_mode : Bytes
  pub model : Bytes
  pub pii_action : Bytes
  pub pii_categories : Bytes
  pub pii_detected : Bool
  pub pii_digest_key_version : Bytes
  pub processing_mode : Bytes
  pub provider : Bytes
  pub region : Bytes
  pub source_type : Bytes
  pub trust_level : Bytes
  pub user_id : Bytes

pub data CaptureError : Type 0 where
  nil_entry : CaptureError
  field_empty pattern_mismatch not_utf8 too_long control_byte not_allowed : Bytes → CaptureError
  timestamp_not_positive timestamp_too_late : CaptureError
  key_version_required key_version_unused : CaptureError
  zk_detected zk_action zk_categories zk_dlp : CaptureError
  encoder_too_long encoder_negative canonical_too_long : CaptureError
