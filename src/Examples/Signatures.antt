-- ===== src/Examples/Signatures.antt =====
-- A signed anchor and a series of one anchor, with simple functions for base64, JSON, ML-DSA and key ids.
use proof.Prelude.{
  List, ◌≡◌, refl, ap, ap₂, ◌^◌, ◌+◌, ◌-◌, ◌||◌, ℕ, [], ◌∷◌, some, true, false, map, arith,
  replicate,
}
use proof.Prelude.Bytes.{Bytes, codes, bytes_eq, is_hex, contains, has_prefix}
use proof.Prelude.Int64.{format_int, uint_digits, digits_onto}
use proof.Hash.{padding, hex_encode}
use proof.ChainFormat.Timestamp.{
  append_timestamp_micro, append_int_padded, padded_digits, zero_padded,
}
use proof.ChainFormat.Tombstone.{
  is_tombstone, is_tombstone_content_hash, validate_tombstone_content_hash,
}
use proof.ChainFormat.Hash.{
  chain_hash_input_v3, compute_chain_hash_v3_unchecked, validate_chain_hash_inputs_v3,
  validate_hash_field, normalize_format_version,
}
use proof.Verify.{Result, intact}
use proof.Verify.Walker.{
  add_all, add, new_walker, enter, add_entry, add_hashed, check_hash, check_start,
  chain_hash_pattern, keep_break, segment, format_timestamp,
}
use proof.Anchor.{Anchor, validate_version_invariants, validate_counts}
use proof.Anchor.ChainHash.{
  seed_anchor_hash, seed_anchor_id, first_bar, validate_chain_hash_delimiters, anchor_input,
  anchor_hash, anchor_hash_unchecked,
}
use proof.Anchor.Signature.{
  Crypto, KeySource, found, own, trusted, canonicalize, decode_signature, verify_canonical,
  verify_with, verify_signature,
}
use proof.Anchor.Signature.{KeyRing, ring, new_key_ring, check_keys, lookup, ring_public_key}
use proof.Anchor.Signature.Ring.{IsRingKey, ring_public_key-IsRingKey}
use proof.Anchor.Signing.{
  Signer, ok, key_id_of, check_canonical, check_signature, contains_text, starts_with_brace,
  sign_canonical, sign_form, sign_anchor,
}
use proof.Anchor.Signing.Verifies.{IsFaithful, verify_signature-sign_anchor}
use proof.Verify.Binding.{
  validate_previous_anchor_hash, bind, bind_range, bind_head, bind_checked, walker_verify_anchor,
  with_signature,
}
use proof.Verify.Binding.{bind_anchor, verify_anchor}
use proof.Verify.Binding.Genuine.{IsGenuine, verify_anchor-IsGenuine}
use proof.Verify.Series.{
  new_series, check_anchor, check_next, take_anchor, ensure_checked, finish, reached_checked,
  reached, walk_series, verify_anchor_series, checked,
}
use proof.Verify.Series.Checks.{seed}
use proof.Verify.Series.Complete.{InSeries, verify_anchor_series-InSeries}
use proof.Examples.Chains.{read_noon}
use proof.Examples.Anchors.{entries, subject, anchor}

-- Every byte moved past the line breaks.
abbrev toy : Crypto
toy = record {
  marshal = λ c. codes "{}";
  base64_encode = λ b. map (λ x. x + 14) b;
  base64_decode = λ b. some (map (λ x. x - 14) b);
  mldsa_verify = λ key text sig. true;
  key_id = λ key. some (codes "k1");
}

decodes : (b : Bytes) → map (λ (x : ℕ). x - 14) (map (λ (x : ℕ). x + 14) b) ≡ b
decodes [] = refl
decodes (x ∷ b) = let now : x + 14 - 14 ≡ x = omega arith in ap₂ (λ y c. y ∷ c) now (decodes b)

one_line :
    (b : Bytes)
    → (contains (map (λ (x : ℕ). x + 14) b) b'\r' || contains (map (λ (x : ℕ). x + 14) b) b'\n')
      ≡ false
unfolding contains
one_line [] = refl
one_line (x ∷ b) = let rest = one_line b in ground arith

faithful : IsFaithful toy
faithful = record {
  decodes = λ b. ap some (decodes b);
  one_line = one_line;
  named = λ key id e. cc;
}

abbrev key : Bytes
key = replicate 1952 7

abbrev signature : Bytes
signature = replicate 3309 9

abbrev signer : Signer
signer = record { public = some key; sign = λ text. some signature }

abbrev keys : KeySource
keys id = found key own

abbrev signed : Anchor
signed = record anchor { signing_key_id = codes "k1"; signature = toy.base64_encode signature }

knows : key_id_of toy (some signer) ≡ ok (codes "k1", key)
unfolding key_id_of
knows = refl

signs : sign_anchor toy (some signer) anchor ≡ ok signed
unfolding sign_anchor sign_form sign_canonical key_id_of check_canonical check_signature
    contains_text starts_with_brace canonicalize validate_version_invariants validate_counts
    has_prefix
signs = refl

verify_signature-sign_anchor_example : verify_signature toy signed (some keys) ≡ trusted own
verify_signature-sign_anchor_example =
    verify_signature-sign_anchor toy signer anchor keys own faithful knows signs refl

abbrev walked : Result
walked = record {
  verdict = intact;
  entries_verified = 2;
  tombstones_found = 0;
  last_tombstone = 2 ^ 64 - 1;
  first_break = 2 ^ 64 - 1;
  breaks = [];
  anchor_checked = false;
}

series_checked :
    verify_anchor_series padding toy read_noon subject entries (signed ∷ []) (some keys)
    ≡ checked walked []
unfolding verify_anchor_series walk_series reached reached_checked finish ensure_checked take_anchor
    check_next check_anchor new_series walker_verify_anchor with_signature bind_checked
    verify_signature verify_with verify_canonical decode_signature canonicalize bind bind_range
    bind_head validate_previous_anchor_hash validate_version_invariants validate_counts anchor_hash
    anchor_hash_unchecked anchor_input validate_chain_hash_delimiters first_bar seed_anchor_hash
    seed_anchor_id add_all new_walker add enter add_entry add_hashed check_hash check_start
    chain_hash_pattern keep_break segment compute_chain_hash_v3_unchecked chain_hash_input_v3
    append_timestamp_micro append_int_padded padded_digits zero_padded digits_onto format_int
    uint_digits hex_encode validate_chain_hash_inputs_v3 validate_hash_field
    validate_tombstone_content_hash is_tombstone is_tombstone_content_hash has_prefix
    normalize_format_version format_timestamp bytes_eq is_hex contains
series_checked = refl

verify_anchor_series-InSeries_example :
    InSeries padding toy read_noon subject keys entries seed (signed ∷ [])
verify_anchor_series-InSeries_example =
    verify_anchor_series-InSeries padding toy read_noon subject entries (signed ∷ []) keys walked
      series_checked

verify_anchor-IsGenuine_example :
    IsGenuine toy signed keys
      (bind_anchor padding read_noon signed entries seed_anchor_hash)
      (verify_anchor padding toy read_noon signed entries seed_anchor_hash (some keys))
verify_anchor-IsGenuine_example =
    verify_anchor-IsGenuine padding toy read_noon signed entries seed_anchor_hash keys

abbrev held : List (Bytes × Bytes)
held = (codes "k1", key) ∷ []

abbrev one_key : KeyRing
one_key = record { trust = own; keys = held }

makes_ring : new_key_ring (some own) held ≡ ring one_key
unfolding new_key_ring check_keys
makes_ring = refl

answers : ring_public_key one_key (codes "k1") ≡ found key own
unfolding ring_public_key lookup bytes_eq
answers = refl

ring_public_key-IsRingKey_example : IsRingKey held (codes "k1") key × (own ≡ own)
ring_public_key-IsRingKey_example =
    ring_public_key-IsRingKey own held one_key (codes "k1") key own makes_ring answers
