-- ===== src/Verify/History.antt =====
-- What an intact chain proves: two intact chains with one head have one history, unless two of the
-- inputs that were hashed collide. Erased entries are left out, as their hashes are not recomputed.
pub mod Same
use proof.Prelude.{
  ℕ, zero, suc, ◌+◌, ◌-◌, ◌*◌, ◌/◌, ◌%◌, ◌^◌, ◌<◌, ◌≤◌, ◌≡◌, ◌≢◌, refl, sym, ap, ◌∙◌, subst, List,
  [], ◌∷◌, ◌++◌, Option, none, some, Bool, true, false, not, ◌==◌, ◌&&◌, ◌||◌, if◌then◌else◌, ltb,
  leb, length, all, arith, inl, inr, Bool-cases, In, In-append_left, In-append_right, take, drop,
  get_elem?, take-append-drop, length-drop, length-take, ==_iff,
}
use proof.Prelude.Bytes.{Bytes, is_hex, is_empty, contains, hex_digit}
use proof.Prelude.Int64.{Int64, is_neg}
use proof.Hash.{Sha512, NoClash, hex_encode}
use proof.ChainFormat.Timestamp.{Time, append_timestamp_micro}
use proof.ChainFormat.Tombstone.{is_tombstone}
use proof.ChainFormat.Hash.{
  format_v2, format_v3, normalize_format_version, chain_hash_input, chain_hash_input_v3,
  validate_chain_hash_inputs, validate_chain_hash_inputs_v3, validate_hash_field,
  previous_hash_length, previous_hash_not_hex, compute_chain_hash_unchecked,
  compute_chain_hash_v3_unchecked, validate_content_hash,
}
use proof.ChainFormat.Hash.Delimited.{
  all-is_hex-contains, chain_hash_input_v3-injective, chain_hash_input-injective,
  chain_hash_input-ne-v3, timestamp_text,
}
use proof.Verify.{Entry, Options, Result, intact}
use proof.Verify.Walker.{format_timestamp, chain_hash_pattern, chain}
use proof.Verify.Walker.Links.{
  Link, Linked, IsErased, IsHashedV3, IsHashedV2, erased, hashed_v3, hashed_v2, chain-intact,
}

-- What the validators accept holds no separator.
contains-nil : contains [] b'|' ≡ false
unfolding contains
contains-nil = refl

valid_v3 :
    (p : Bytes) (g : Int64) (c : Bytes)
    → validate_chain_hash_inputs_v3 p g c ≡ none
    → (contains p b'|' ≡ false) × (g < 2 ^ 64)
unfolding validate_chain_hash_inputs_v3
valid_v3 [] g c h = (contains-nil, ground arith)
valid_v3 (x ∷ p) g c h = (all-is_hex-contains (x ∷ p) (ground arith), ground arith)

valid_v2 :
    (p r : Bytes) (n : Int64) (c : Bytes)
    → validate_chain_hash_inputs p r n c ≡ none
    → (contains p b'|' ≡ false) × (contains r b'|' ≡ false) × (n < 2 ^ 64)
unfolding validate_chain_hash_inputs
valid_v2 [] r n c h = (contains-nil, ground arith, ground arith)
valid_v2 (x ∷ p) r n c h = (all-is_hex-contains (x ∷ p) (ground arith), ground arith, ground arith)

-- What is hashed for an entry, after the given hash.
module _ (parse : Bytes → Option Time) where
  unfoldable pub hash_input : Bytes → Entry → Bytes
  hash_input previous e = elim (parse e.timestamp) [
    | none ↦ []
    | some t ↦
        if normalize_format_version e.format_version == format_v2
        then chain_hash_input previous e.run_id e.sequence_num t e.content_hash
        else chain_hash_input_v3 previous e.global_seq t e.content_hash
  ]

  abbrev pub hash_inputs : Bytes → List Entry → List Bytes
  hash_inputs previous [] = []
  hash_inputs previous (e ∷ entries) = hash_input previous e ∷ hash_inputs e.chain_hash entries

-- Two entries with the same hashed content. A v2 hash does not cover the number in the chain.
pub record SameEntry (e f : Entry) : Type 0 where
  pub chain_hash : e.chain_hash ≡ f.chain_hash
  pub version :
      normalize_format_version e.format_version ≡ normalize_format_version f.format_version
  pub run_id : e.run_id ≡ f.run_id
  pub sequence_num : e.sequence_num ≡ f.sequence_num
  pub timestamp : e.timestamp ≡ f.timestamp
  pub content_hash : e.content_hash ≡ f.content_hash
  pub global_seq :
      normalize_format_version e.format_version ≡ format_v3 → e.global_seq ≡ f.global_seq

abbrev pub SameHistory : List Entry → List Entry → Type 0
SameHistory [] [] = Unit
SameHistory [] (f ∷ fs) = ⊥
SameHistory (e ∷ es) [] = ⊥
SameHistory (e ∷ es) (f ∷ fs) = SameEntry e f × SameHistory es fs

abbrev pub IsUnerased : List Entry → Type 0
IsUnerased [] = Unit
IsUnerased (e ∷ es) = (is_tombstone e.entry_type e.entry_id ≡ false) × IsUnerased es

-- The chain hash of the last entry.
abbrev pub head_hash : Bytes → List Entry → Bytes
head_hash previous [] = previous
head_hash previous (e ∷ es) = head_hash e.chain_hash es

-- `time.Parse` with an RFC 3339 layout takes no sign, so a text that it reads and that is spelled
-- as `Format` spells it has a year from 0 on.
abbrev pub ReadsNoSign : (Bytes → Option Time) → Type 0
ReadsNoSign parse = (t : Time) → parse (format_timestamp t) ≡ some t → is_neg t.year ≡ false

format_timestamp-eq : (t : Time) → is_neg t.year ≡ false → format_timestamp t ≡ timestamp_text t
unfolding format_timestamp append_timestamp_micro
format_timestamp-eq t h = rw h refl
