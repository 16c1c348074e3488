-- ===== src/Anchor/Signing.antt =====
-- anchor/sign.go: `KeyIDOf`, `SignCanonical` and `SignAnchor`. A signer is its public key and its
-- signing function; a nil signer is `none`.
pub mod Verifies
use proof.Prelude.{
  ℕ, ◌^◌, List, [], ◌∷◌, Option, none, some, Bool, true, false, not, ltb, ◌==◌, ◌&&◌, ◌||◌,
  if◌then◌else◌, length,
}
use proof.Prelude.Bytes.{Bytes, codes, has_prefix, is_empty}
use proof.Anchor.{Anchor, VersionError, validate_version_invariants}
use proof.Anchor.Signature.{
  Crypto, Canonical, form, refused, canonicalize, signature_size, public_key_size,
}

pub record Signer : Type 0 where
  -- `none` where the public key does not marshal
  pub public : Option Bytes
  pub sign : Bytes → Option Bytes

pub data SignError : Type 0 where
  no_signer unreadable_public_key public_key_length no_key_id : SignError
  empty_canonical too_large not_json key_id_missing signer_failed signature_length bad_signature :
      SignError
  invalid_anchor : VersionError → SignError

pub data SignResult (A : Type 0) : Type 0 where
  ok : A → SignResult A
  err : SignError → SignResult A

abbrev pub max_canonical_size : ℕ
max_canonical_size = 2 ^ 20

-- `bytes.Contains`.
unfoldable pub contains_text : Bytes → Bytes → Bool
contains_text [] p = is_empty p
contains_text (c ∷ s) p = has_prefix (c ∷ s) p || contains_text s p

abbrev pub empty_key_id_member : Bytes
empty_key_id_member = codes "\"signing_key_id\":\"\""

unfoldable pub starts_with_brace : Bytes → Bool
starts_with_brace [] = false
starts_with_brace (c ∷ s) = c == b'{'

module _ (C : Crypto) where
  -- The key id and the public key.
  unfoldable pub key_id_of : Option Signer → SignResult (Bytes × Bytes)
  key_id_of none = err no_signer
  key_id_of (some s) = elim (s.public) [
    | none ↦ err unreadable_public_key
    | some key ↦
        if not (length key == public_key_size)
        then err public_key_length
        else elim (C.key_id key) [ none ↦ err no_key_id | some id ↦ ok (id, key) ]
  ]

  -- The checks of `SignCanonical` on the bytes.
  unfoldable pub check_canonical : Bytes → Option SignError
  check_canonical canonical =
      if is_empty canonical
      then some empty_canonical
      else if ltb max_canonical_size (length canonical)
      then some too_large
      else if not (starts_with_brace canonical)
      then some not_json
      else if contains_text canonical empty_key_id_member
      then some key_id_missing
      else none

  unfoldable pub check_signature : Bytes → Bytes → Bytes → SignResult Bytes
  check_signature key canonical sig =
      if not (length sig == signature_size)
      then err signature_length
      else if C.mldsa_verify key canonical sig
      then ok sig
      else err bad_signature

  unfoldable pub sign_canonical : Option Signer → Bytes → SignResult Bytes
  sign_canonical none canonical = err no_signer
  sign_canonical (some s) canonical = elim (key_id_of (some s)) [
    | err e ↦ err e
    | ok (id, key) ↦ elim (check_canonical canonical) [
      | some e ↦ err e
      | none ↦ elim (s.sign canonical) [
        | none ↦ err signer_failed
        | some sig ↦ check_signature key canonical sig
      ]
    ]
  ]

  -- The anchor to sign: the key id filled in, and no signature.
  abbrev pub to_sign : Anchor → Bytes → Anchor
  to_sign a id = record a {
    signing_key_id = if is_empty a.signing_key_id then id else a.signing_key_id;
    signature = [];
  }

  unfoldable pub sign_form : Option Signer → Anchor → SignResult Anchor
  sign_form s out = elim (canonicalize out) [
    | refused e ↦ err (invalid_anchor e)
    | form c ↦ elim (sign_canonical s (C.marshal c)) [
      | err e ↦ err e
      | ok sig ↦ ok (record out { signature = C.base64_encode sig })
    ]
  ]

  unfoldable pub sign_anchor : Option Signer → Anchor → SignResult Anchor
  sign_anchor s a = elim (key_id_of s) [
    | err e ↦ err e
    | ok (id, key) ↦ elim (validate_version_invariants (to_sign a id)) [
      | some e ↦ err (invalid_anchor e)
      | none ↦ sign_form s (to_sign a id)
    ]
  ]
