-- ===== src/ChainFormat/Capture/Valid.antt =====
-- The fields of every capture entry that the checks let through.
use proof.Prelude.{◌≤◌, ◌≡◌, refl, none, true, length, arith}
use proof.Prelude.Bytes.{Bytes}
use proof.Prelude.Int64.{int_lt}
use proof.ChainFormat.CaptureEntry.{Unicode, CaptureRequestV3}
use proof.ChainFormat.CaptureRules.{
  encryption_mode_allowed, processing_mode_allowed, pii_action_allowed, validate_charsets,
  validate_modes, validate_digests, validate_string_field, validate_header, validate_key_version,
  validate_v3,
}
use proof.ChainFormat.Capture.Fields.{
  first_error-AllNone, reject_if-none, kept, Short, matches-Short, id_class-is_ascii,
  key_version_class-is_ascii, provenance_class-is_ascii, provider_class-is_ascii,
  region_class-is_ascii, is_sha512_hex-Short, optional-Short, is_allowed-Short,
}

module _ (U : Unicode) where
  string_field-size :
      (name s : Bytes) → validate_string_field U name s ≡ none → length (U.nfc s) ≤ 256
  unfolding validate_string_field
  string_field-size name s e =
      let (utf8, (size, (control, _))) = first_error-AllNone _ e in
      let fits = reject_if-none _ _ size in ground arith

  -- The fields of a valid entry.
  pub record IsShort (e : CaptureRequestV3) : Type 0 where
    pub subject : length (U.nfc e.subject) ≤ 256
    pub signing_key_id : Short 128 e.signing_key_id
    pub capture_method : Short 32 e.capture_method
    pub content_hash : Short 128 e.content_hash
    pub dlp : Short 128 e.dlp
    pub encryption_mode : Short 16 e.encryption_mode
    pub model : Short 128 e.model
    pub pii_action : Short 8 e.pii_action
    pub pii_categories : Short 128 e.pii_categories
    pub pii_digest_key_version : Short 64 e.pii_digest_key_version
    pub processing_mode : Short 14 e.processing_mode
    pub provider : Short 64 e.provider
    pub region : Short 16 e.region
    pub source_type : Short 32 e.source_type
    pub trust_level : Short 32 e.trust_level
    pub user_id : Short 128 e.user_id
    pub timestamp_ms : int_lt 0 e.timestamp_ms ≡ true

  -- Every entry that the checks let through is so.
  pub validate_v3-IsShort : (e : CaptureRequestV3) → validate_v3 U e ≡ none → IsShort e
  unfolding validate_v3 validate_header validate_digests validate_key_version validate_modes
      validate_charsets
  validate_v3-IsShort e h =
      let (header, (digests, (version, (modes, (zk, (charsets, (fields, _))))))) =
        first_error-AllNone _ h in
      let (_, (subject, (_, (key_id, (_, (positive, (_, _))))))) = first_error-AllNone _ header in
      let (content, (user, (dlp, (categories, _)))) = first_error-AllNone _ digests in
      let (key_version, (_, (_, _))) = first_error-AllNone _ version in
      let (encryption, (processing, (action, _))) = first_error-AllNone _ modes in
      let (provider, (model, (region, (method, (source, (trust, _)))))) =
        first_error-AllNone _ charsets in
      record {
        subject = string_field-size _ _ subject;
        signing_key_id = matches-Short _ 1 128 _ id_class-is_ascii (kept _ _ key_id);
        capture_method = matches-Short _ 0 32 _ provenance_class-is_ascii (kept _ _ method);
        content_hash = is_sha512_hex-Short _ (kept _ _ content);
        dlp = optional-Short _ _ dlp;
        encryption_mode = is_allowed-Short 16 encryption_mode_allowed _ refl (kept _ _ encryption);
        model = matches-Short _ 0 128 _ id_class-is_ascii (kept _ _ model);
        pii_action = is_allowed-Short 8 pii_action_allowed _ refl (kept _ _ action);
        pii_categories = optional-Short _ _ categories;
        pii_digest_key_version =
            matches-Short _ 0 64 _ key_version_class-is_ascii (kept _ _ key_version);
        processing_mode = is_allowed-Short 14 processing_mode_allowed _ refl (kept _ _ processing);
        provider = matches-Short _ 0 64 _ provider_class-is_ascii (kept _ _ provider);
        region = matches-Short _ 0 16 _ region_class-is_ascii (kept _ _ region);
        source_type = matches-Short _ 0 32 _ provenance_class-is_ascii (kept _ _ source);
        trust_level = matches-Short _ 0 32 _ provenance_class-is_ascii (kept _ _ trust);
        user_id = is_sha512_hex-Short _ (kept _ _ user);
        timestamp_ms = kept _ _ positive;
      }
