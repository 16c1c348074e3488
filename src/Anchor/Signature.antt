-- ===== src/Anchor/Signature.antt =====
-- anchor/canonical.go, verify.go and sign.go: the form that is signed, the check of a signature, and
-- signing. JSON, base64, ML-DSA and the id of a key are parameters.
pub mod Ring
use proof.Prelude.{
  ℕ, List, [], ◌∷◌, ◌⊎◌, inl, inr, Option, none, some, Bool, not, ◌==◌, ◌||◌, if◌then◌else◌, length,
}
use proof.Prelude.Bytes.{Bytes, bytes_eq, contains, is_empty}
use proof.Prelude.Int64.{Int64}
use proof.Anchor.{
  Anchor, EntryRange, VersionError, withdrawn, unsupported_version, validate_version_invariants,
  is_early, withdrawn_version, subject_version,
}

-- The members that every canonical form has, under its name for the subject.
pub record CanonicalFields : Type 0 where
  pub anchor_id : Bytes
  pub chain_hash : Bytes
  pub subject : Bytes
  pub created_at_ms : Int64
  pub entry_count : Int64
  pub previous_anchor_id : Bytes
  pub range : EntryRange
  pub signing_key_id : Bytes
  pub version : Int64

-- From v4 on with `verified_through`; v6 spells the subject "subject".
pub data Canonical : Type 0 where
  canonical_v3 : CanonicalFields → Canonical
  canonical_v4 : CanonicalFields → Int64 → Canonical
  canonical_v6 : CanonicalFields → Int64 → Canonical

pub data Canonicalized : Type 0 where
  form : Canonical → Canonicalized
  refused : VersionError → Canonicalized

abbrev pub fields_of : Anchor → CanonicalFields
fields_of a = record {
  anchor_id = a.anchor_id;
  chain_hash = a.chain_hash;
  subject = a.subject;
  created_at_ms = a.created_at_ms;
  entry_count = a.entry_count;
  previous_anchor_id = a.previous_anchor_id;
  range = a.range;
  signing_key_id = a.signing_key_id;
  version = a.version;
}

unfoldable pub canonicalize : Anchor → Canonicalized
canonicalize a =
    if is_early a.version
    then form (canonical_v3 (fields_of a))
    else if a.version == 4
    then form (canonical_v4 (fields_of a) a.verified_through)
    else if a.version == withdrawn_version
    then refused withdrawn
    else if a.version == subject_version
    then form (canonical_v6 (fields_of a) a.verified_through)
    else refused unsupported_version

-- What the code takes from elsewhere.
pub record Crypto : Type 0 where
  pub marshal : Canonical → Bytes
  pub base64_encode : Bytes → Bytes
  pub base64_decode : Bytes → Option Bytes
  pub mldsa_verify : Bytes → Bytes → Bytes → Bool
  pub key_id : Bytes → Option Bytes

abbrev pub signature_size : ℕ
signature_size = 3309

abbrev pub public_key_size : ℕ
public_key_size = 1952

pub data Trust : Type 0 where
  platform provided own : Trust

pub data SignatureError : Type 0 where
  no_key_source unnamed_key unknown_key key_size not_base64 size not_verified : SignatureError
  malformed : VersionError → SignatureError

-- What a key source answers for a key id.
pub data KeyAnswer : Type 0 where
  found : Bytes → Trust → KeyAnswer
  not_found : SignatureError → KeyAnswer

abbrev pub KeySource : Type 0
KeySource = Bytes → KeyAnswer

-- `KeyRing`: keys by id, all with one trust.
pub record KeyRing : Type 0 where
  pub trust : Trust
  pub keys : List (Bytes × Bytes)

pub data RingError : Type 0 where
  unknown_trust empty_key_id bad_key_size : RingError

pub data NewKeyRing : Type 0 where
  ring : KeyRing → NewKeyRing
  ring_refused : RingError → NewKeyRing

unfoldable pub check_keys : List (Bytes × Bytes) → Option RingError
check_keys [] = none
check_keys ((id, key) ∷ keys) =
    let rest = check_keys keys in
    if is_empty id
    then some empty_key_id
    else if not (length key == public_key_size)
    then some bad_key_size
    else rest

-- The trust is one of the three, or a text that is none of them.
unfoldable pub new_key_ring : Option Trust → List (Bytes × Bytes) → NewKeyRing
new_key_ring none keys = ring_refused unknown_trust
new_key_ring (some trust) keys = elim (check_keys keys) [
  | some e ↦ ring_refused e
  | none ↦ ring (record { trust = trust; keys = keys })
]

unfoldable pub lookup : List (Bytes × Bytes) → Bytes → Option Bytes
lookup [] id = none
lookup ((k, key) ∷ keys) id = let rest = lookup keys id in if bytes_eq k id then some key else rest

unfoldable pub ring_public_key : KeyRing → KeySource
ring_public_key r id = elim (lookup r.keys id) [
  | none ↦ not_found unknown_key
  | some key ↦ found key r.trust
]

pub data Verified : Type 0 where
  trusted : Trust → Verified
  rejected : SignatureError → Verified

module _ (C : Crypto) where
  -- The signature's text, decoded and of the right size.
  unfoldable pub decode_signature : Bytes → SignatureError ⊎ Bytes
  decode_signature text =
      if contains text b'\r' || contains text b'\n'
      then inl not_base64
      else elim (C.base64_decode text) [
        | none ↦ inl not_base64
        | some sig ↦ if not (length sig == signature_size) then inl size else inr sig
      ]

  unfoldable pub verify_canonical : Anchor → Bytes → Trust → Bytes → Verified
  verify_canonical a key trust sig = elim (canonicalize a) [
    | refused e ↦ rejected (malformed e)
    | form c ↦ if C.mldsa_verify key (C.marshal c) sig then trusted trust else rejected not_verified
  ]

  unfoldable pub verify_with : Anchor → Bytes → Trust → Verified
  verify_with a key trust =
      if not (length key == public_key_size)
      then rejected key_size
      else elim (decode_signature a.signature) [
        | inl e ↦ rejected e
        | inr sig ↦ verify_canonical a key trust sig
      ]

  -- `VerifySignature`; a nil source is `none`.
  unfoldable pub verify_signature : Anchor → Option KeySource → Verified
  verify_signature a none = rejected no_key_source
  verify_signature a (some source) = elim (validate_version_invariants a) [
    | some e ↦ rejected (malformed e)
    | none ↦
        if is_empty a.signing_key_id then rejected unnamed_key else elim (source a.signing_key_id) [
          | not_found e ↦ rejected e
          | found key trust ↦ verify_with a key trust
        ]
  ]
