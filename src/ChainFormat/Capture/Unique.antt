-- ===== src/ChainFormat/Capture/Unique.antt =====
-- The canonical bytes of a capture entry, and their hash, tell entries apart.
use proof.Prelude.{
  ℕ, zero, suc, ◌^◌, ◌<◌, ◌≡◌, ◌≢◌, refl, sym, ap, ◌∙◌, List, [], ◌∷◌, ◌++◌, some, Bool,
  if◌then◌else◌, map, append-injective, arith, inl, inr, Option-cases,
}
use proof.Prelude.Bytes.{Bytes}
use proof.Prelude.Int64.{Int64}
use proof.Hash.{Sha512, NoClash, hex_sum-injective}
use proof.ChainFormat.CaptureEntry.{Unicode, CaptureRequestV3, CaptureError, domain_prefix_v3}
use proof.ChainFormat.CaptureRules.{validate_v3}
use proof.ChainFormat.Capture.{Encoded, ok, err, canonical_v3, content_hash_v3, encode_and_hash_v3}
use proof.ChainFormat.Capture.Layout.{Item, str, word, put_all-injective, AllFit, items, normal}
use proof.ChainFormat.Capture.Fields.{Short}
use proof.ChainFormat.Capture.Valid.{IsShort, validate_v3-IsShort}
use proof.ChainFormat.Capture.Bounds.{KeepsAscii, layout, items-AllFit, canonical_v3-layout}

err≢ok : {x : CaptureError} {b : Bytes × Bytes} → err x ≢ ok b
err≢ok e = cc

-- The value of a reply, for a reply that has one.
abbrev parts : Encoded (Bytes × Bytes) → Bytes × Bytes
parts (ok p) = p
parts (err x) = ([], [])

module _ (U : Unicode) where
  layout-injective :
      (e f : CaptureRequestV3)
      → AllFit (map (normal U) (items e))
      → AllFit (map (normal U) (items f))
      → layout U e ≡ layout U f
      → map (normal U) (items e) ≡ map (normal U) (items f)
  layout-injective e f he hf same =
      put_all-injective (map (normal U) (items e)) (map (normal U) (items f)) tt he hf same

  -- The entries have the same fields; their subjects are the same after normalisation.
  pub record SameEntry (e f : CaptureRequestV3) : Type 0 where
    pub subject : U.nfc e.subject ≡ U.nfc f.subject
    pub signing_key_id : e.signing_key_id ≡ f.signing_key_id
    pub timestamp_ms : e.timestamp_ms ≡ f.timestamp_ms
    pub capture_method : e.capture_method ≡ f.capture_method
    pub content_hash : e.content_hash ≡ f.content_hash
    pub dlp : e.dlp ≡ f.dlp
    pub encryption_mode : e.encryption_mode ≡ f.encryption_mode
    pub model : e.model ≡ f.model
    pub pii_action : e.pii_action ≡ f.pii_action
    pub pii_categories : e.pii_categories ≡ f.pii_categories
    pub pii_detected : e.pii_detected ≡ f.pii_detected
    pub pii_digest_key_version : e.pii_digest_key_version ≡ f.pii_digest_key_version
    pub processing_mode : e.processing_mode ≡ f.processing_mode
    pub provider : e.provider ≡ f.provider
    pub region : e.region ≡ f.region
    pub source_type : e.source_type ≡ f.source_type
    pub trust_level : e.trust_level ≡ f.trust_level
    pub user_id : e.user_id ≡ f.user_id

  -- A field of a list of fields, as a text and as a number.
  abbrev text_at : ℕ → List Item → Bytes
  text_at n [] = []
  text_at zero (str s ∷ xs) = s
  text_at zero (word v ∷ xs) = []
  text_at (suc n) (x ∷ xs) = text_at n xs

  abbrev word_at : ℕ → List Item → Int64
  word_at n [] = 0
  word_at zero (str s ∷ xs) = 0
  word_at zero (word v ∷ xs) = v
  word_at (suc n) (x ∷ xs) = word_at n xs

  Short-same :
      {m n : ℕ} {s t : Bytes} → KeepsAscii U → Short m s → Short n t → U.nfc s ≡ U.nfc t → s ≡ t
  Short-same keeps h k e = sym (keeps _ h.ascii) ∙ e ∙ keeps _ k.ascii

  bit_same : (b c : Bool) → ◌≡◌ {A = ℕ} (if b then 1 else 0) (if c then 1 else 0) → b ≡ c
  bit_same b c e = ground arith

  same_fields :
      (e f : CaptureRequestV3)
      → KeepsAscii U
      → IsShort U e
      → IsShort U f
      → map (normal U) (items e) ≡ map (normal U) (items f)
      → SameEntry e f
  same_fields e f keeps h k same =
      let text = λ (n : ℕ). ap (text_at n) same in
      let number = λ (n : ℕ). ap (word_at n) same in
      record {
        subject = text 0;
        signing_key_id = Short-same keeps (h.signing_key_id) (k.signing_key_id) (text 2);
        timestamp_ms = number 3;
        capture_method = Short-same keeps (h.capture_method) (k.capture_method) (text 4);
        content_hash = Short-same keeps (h.content_hash) (k.content_hash) (text 5);
        dlp = Short-same keeps (h.dlp) (k.dlp) (text 6);
        encryption_mode = Short-same keeps (h.encryption_mode) (k.encryption_mode) (text 7);
        model = Short-same keeps (h.model) (k.model) (text 8);
        pii_action = Short-same keeps (h.pii_action) (k.pii_action) (text 9);
        pii_categories = Short-same keeps (h.pii_categories) (k.pii_categories) (text 10);
        pii_detected = bit_same _ _ (number 11);
        pii_digest_key_version =
            Short-same keeps (h.pii_digest_key_version) (k.pii_digest_key_version) (text 12);
        processing_mode = Short-same keeps (h.processing_mode) (k.processing_mode) (text 13);
        provider = Short-same keeps (h.provider) (k.provider) (text 14);
        region = Short-same keeps (h.region) (k.region) (text 15);
        source_type = Short-same keeps (h.source_type) (k.source_type) (text 16);
        trust_level = Short-same keeps (h.trust_level) (k.trust_level) (text 17);
        user_id = Short-same keeps (h.user_id) (k.user_id) (text 18);
      }

  -- What an encoded entry was.
  pub record IsEncoding (H : Sha512) (e : CaptureRequestV3) (bytes hash : Bytes) : Type 0 where
    pub short : IsShort U e
    pub fit : AllFit (map (normal U) (items e))
    pub written : bytes ≡ layout U e
    pub hashed : hash ≡ content_hash_v3 H bytes

  encode_and_hash_v3-IsEncoding :
      (H : Sha512) (e : CaptureRequestV3) (bytes hash : Bytes)
      → KeepsAscii U
      → e.timestamp_ms < 2 ^ 64
      → encode_and_hash_v3 U H (some e) ≡ ok (bytes, hash)
      → IsEncoding H e bytes hash
  unfolding encode_and_hash_v3 canonical_v3
  encode_and_hash_v3-IsEncoding H e bytes hash keeps clock given =
      elim (Option-cases (validate_v3 U e)) [
        | inr (refusal, bad) ↦
            let refused : canonical_v3 U (some e) ≡ err refusal = rw (bad, canonical_v3) refl in
            absurd (err≢ok (rw (refused, encode_and_hash_v3) at given))
        | inl valid ↦
            let short = validate_v3-IsShort U e valid in
            let (fit, _) = items-AllFit U e keeps clock short in
            let (encoded, _) = canonical_v3-layout U e keeps clock valid in
            let given' = rw (encoded, encode_and_hash_v3) at given in
            let bytes_same = ap (λ r. (parts r).0) given' in
            let hash_same = ap (λ r. (parts r).1) given' in
            record {
              short = short;
              fit = fit;
              written = sym bytes_same;
              hashed = sym hash_same ∙ ap (content_hash_v3 H) bytes_same;
            }
      ]

  -- Two entries with timestamps of 64 bits that are given the same content hash have the same fields,
  -- their subjects after normalisation, unless the inputs of the hash collide.
  pub encode_and_hash_v3-SameEntry :
      (H : Sha512) (e f : CaptureRequestV3) (b c hash : Bytes)
      → KeepsAscii U
      → e.timestamp_ms < 2 ^ 64
      → f.timestamp_ms < 2 ^ 64
      → NoClash H ((domain_prefix_v3 ++ b) ∷ []) ((domain_prefix_v3 ++ c) ∷ [])
      → encode_and_hash_v3 U H (some e) ≡ ok (b, hash)
      → encode_and_hash_v3 U H (some f) ≡ ok (c, hash)
      → SameEntry e f
  encode_and_hash_v3-SameEntry H e f b c hash keeps ce cf apart he hf =
      let p = encode_and_hash_v3-IsEncoding H e b hash keeps ce he in
      let q = encode_and_hash_v3-IsEncoding H f c hash keeps cf hf in
      let input =
        hex_sum-injective H (domain_prefix_v3 ++ b) (domain_prefix_v3 ++ c) apart
          (unfold content_hash_v3 in sym (p.hashed) ∙ q.hashed) in
      let bytes = (append-injective domain_prefix_v3 domain_prefix_v3 b c refl input).1 in
      same_fields e f keeps (p.short) (q.short)
        (layout-injective e f (p.fit) (q.fit) (sym (p.written) ∙ bytes ∙ q.written))
