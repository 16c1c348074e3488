-- ===== src/ChainFormat/Capture/Bounds.antt =====
-- The canonical bytes of a valid capture entry: that they are given, and how long they are.
use proof.Prelude.{
  ℕ, ◌^◌, ◌<◌, ◌≤◌, ◌≡◌, refl, ap, ◌∙◌, none, some, true, false, ltb, if◌then◌else◌, length, all,
  map, arith,
}
use proof.Prelude.Bytes.{Bytes}
use proof.ChainFormat.CaptureEntry.{Unicode, CaptureRequestV3, entry_type_capture_request_v3}
use proof.ChainFormat.CaptureRules.{validate_v3}
use proof.ChainFormat.Capture.{ok, finish, canonical_v3}
use proof.ChainFormat.Capture.Layout.{
  put_all, AllFit, items, normal, length-put_all, encode_canonical_v3-items,
}
use proof.ChainFormat.Capture.Fields.{is_ascii, Short}
use proof.ChainFormat.Capture.Valid.{IsShort, validate_v3-IsShort}

-- Normalisation keeps ASCII texts, as the Unicode standard has it.
abbrev pub KeepsAscii : Unicode → Type 0
KeepsAscii U = (s : Bytes) → all is_ascii s ≡ true → U.nfc s ≡ s

finish-short : (b : Bytes) → length b ≤ 4096 → finish (record { buf = b; error = none }) ≡ ok b
unfolding finish
finish-short b h = let small : ltb 4096 (length b) ≡ false = ground arith in rw small refl

module _ (U : Unicode) where
  Short-nfc : {n : ℕ} {s : Bytes} → KeepsAscii U → Short n s → length (U.nfc s) ≤ n
  Short-nfc keeps h = rw (keeps _ h.ascii) (h.size)

  -- The bytes of an entry, field by field.
  abbrev pub layout : CaptureRequestV3 → Bytes
  layout e = put_all (map (normal U) (items e))

  pub items-AllFit :
      (e : CaptureRequestV3)
      → KeepsAscii U
      → e.timestamp_ms < 2 ^ 64
      → IsShort U e
      → AllFit (map (normal U) (items e)) × (length (layout e) ≤ 1404)
  items-AllFit e keeps clock h =
      let key_id = Short-nfc keeps (h.signing_key_id) in
      let method = Short-nfc keeps (h.capture_method) in
      let content = Short-nfc keeps (h.content_hash) in
      let dlp = Short-nfc keeps (h.dlp) in
      let encryption = Short-nfc keeps (h.encryption_mode) in
      let model = Short-nfc keeps (h.model) in
      let action = Short-nfc keeps (h.pii_action) in
      let categories = Short-nfc keeps (h.pii_categories) in
      let version = Short-nfc keeps (h.pii_digest_key_version) in
      let processing = Short-nfc keeps (h.processing_mode) in
      let provider = Short-nfc keeps (h.provider) in
      let region = Short-nfc keeps (h.region) in
      let source = Short-nfc keeps (h.source_type) in
      let trust = Short-nfc keeps (h.trust_level) in
      let user = Short-nfc keeps (h.user_id) in
      let type_kept = keeps entry_type_capture_request_v3 refl in
      let subject = h.subject in
      let positive = h.timestamp_ms in
      let clock_fits : e.timestamp_ms < 2 ^ 63 = ground arith in
      let bit : (if e.pii_detected then 1 else 0) < 2 ^ 63 = ground arith in
      let typed : length (U.nfc entry_type_capture_request_v3) ≡ 18 = rw type_kept refl in
      (
        (
          subject,
          (
            omega arith,
            (
              omega arith,
              (
                clock_fits,
                (
                  omega arith,
                  (
                    omega arith,
                    (
                      omega arith,
                      (
                        omega arith,
                        (
                          omega arith,
                          (
                            omega arith,
                            (
                              omega arith,
                              (
                                bit,
                                (
                                  omega arith,
                                  (
                                    omega arith,
                                    (
                                      omega arith,
                                      (
                                        omega arith,
                                        (omega arith, (omega arith, (omega arith, tt))),
                                      ),
                                    ),
                                  ),
                                ),
                              ),
                            ),
                          ),
                        ),
                      ),
                    ),
                  ),
                ),
              ),
            ),
          ),
        ),
        omega (arith, length-put_all (map (normal U) (items e))),
      )

  -- A valid entry, with a timestamp of 64 bits, has canonical bytes: the encoder meets no error, the
  -- bytes are the fields one after the other, and there are at most 1404 of them, so the cap of 4096
  -- never refuses one.
  pub canonical_v3-layout :
      (e : CaptureRequestV3)
      → KeepsAscii U
      → e.timestamp_ms < 2 ^ 64
      → validate_v3 U e ≡ none
      → (canonical_v3 U (some e) ≡ ok (layout e)) × (length (layout e) ≤ 1404)
  unfolding canonical_v3
  canonical_v3-layout e keeps clock valid =
      let (fit, size) = items-AllFit e keeps clock (validate_v3-IsShort U e valid) in
      let written = encode_canonical_v3-items U e fit in
      (rw (valid, canonical_v3) (ap finish written ∙ finish-short (layout e) (omega arith)), size)
