-- ===== src/ChainFormat/Capture/Zk.antt =====
-- Processing mode "zk": an entry without a verdict.
use proof.Prelude.{◌≡◌, [], none, true, false, arith}
use proof.Prelude.Bytes.{codes, bytes_eq, bytes_eq_refl, bytes_eq_sound, is_empty-eq_true}
use proof.ChainFormat.CaptureEntry.{Unicode, CaptureRequestV3}
use proof.ChainFormat.CaptureRules.{validate_v3, validate_zk}
use proof.ChainFormat.CaptureRules.{validate_key_version, validate_key_version_presence}
use proof.ChainFormat.Capture.Fields.{first_error-AllNone, reject_if-none, kept}

pub record HasNoVerdict (e : CaptureRequestV3) : Type 0 where
  pub undetected : e.pii_detected ≡ false
  pub no_action : e.pii_action ≡ codes "none"
  pub no_categories : e.pii_categories ≡ []
  pub no_dlp : e.dlp ≡ []
  pub no_key_version : e.pii_digest_key_version ≡ []

-- An entry that was not inspected, and that the checks let through, carries no verdict, no action, no
-- digest and no key version.
pub validate_v3-HasNoVerdict :
    (U : Unicode) (e : CaptureRequestV3)
    → e.processing_mode ≡ codes "zk"
    → validate_v3 U e ≡ none
    → HasNoVerdict e
unfolding validate_v3 validate_zk validate_key_version validate_key_version_presence
validate_v3-HasNoVerdict U e mode h =
    let (_, (_, (version, (_, (zk, _))))) = first_error-AllNone _ h in
    let (_, (_, (presence, _))) = first_error-AllNone _ version in
    let (_, (unused, _)) = first_error-AllNone _ presence in
    let is_zk : bytes_eq e.processing_mode (codes "zk") ≡ true =
      rw mode (bytes_eq_refl (codes "zk")) in
    let (detected, (action, (categories, (dlp, _)))) = first_error-AllNone _ (rw is_zk at zk) in
    let no_categories = kept _ _ categories in
    let no_dlp = kept _ _ dlp in
    let needless = reject_if-none _ _ unused in
    record {
      undetected = reject_if-none _ _ detected;
      no_action = bytes_eq_sound _ _ (kept _ _ action);
      no_categories = is_empty-eq_true _ no_categories;
      no_dlp = is_empty-eq_true _ no_dlp;
      no_key_version = is_empty-eq_true _ (ground arith);
    }
