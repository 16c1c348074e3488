-- ===== src/Examples/Anchors.antt =====
-- An anchor over the chain of two entries, and what binds it to the chain.
use proof.Prelude.{◌≡◌, refl, List, [], ◌∷◌}
use proof.Prelude.Bytes.{Bytes, codes, bytes_eq, contains}
use proof.Hash.{padding, NoClash}
use proof.Verify.{Entry}
use proof.Anchor.{Anchor}
use proof.Anchor.ChainHash.{
  seed_anchor_hash, seed_anchor_id, first_bar, validate_chain_hash_delimiters, anchor_input,
  anchor_hash, anchor_hash_unchecked, ok, SameAnchored, anchor_hash-injective,
}
use proof.Verify.Binding.{bind}
use proof.Verify.Binding.Bound.{IsBound, Describes, bind-Describes}
use proof.Verify.Binding.Anchored.{walked}
use proof.Examples.Clash.{NoClash-no_clash}
use proof.Examples.Chains.{read_noon, first, second}

abbrev pub entries : List Entry
entries = first ∷ second ∷ []

abbrev pub subject : Bytes
subject = codes "project"

abbrev pub anchor : Anchor
anchor = record {
  version = 6;
  anchor_id = codes "anchor_1";
  subject = subject;
  chain_hash =
      anchor_hash_unchecked padding seed_anchor_hash subject (codes "e0") (codes "e1")
        (second.chain_hash);
  range = record { start_entry_id = codes "e0"; end_entry_id = codes "e1" };
  entry_count = 2;
  signature = [];
  signing_key_id = [];
  created_at_ms = 5;
  previous_anchor_id = seed_anchor_id;
  verified_through = 2;
}

bind-Describes_example :
    (IsBound (bind padding (walked padding read_noon entries) anchor seed_anchor_hash)
      → Describes padding (walked padding read_noon entries) anchor seed_anchor_hash)
    × (Describes padding (walked padding read_noon entries) anchor seed_anchor_hash
        → IsBound (bind padding (walked padding read_noon entries) anchor seed_anchor_hash))
bind-Describes_example =
    bind-Describes padding (walked padding read_noon entries) anchor seed_anchor_hash

plain_apart :
    NoClash padding (anchor_input [] subject [] [] [] ∷ []) (anchor_input [] subject [] [] [] ∷ [])
unfolding anchor_input bytes_eq
plain_apart =
    NoClash-no_clash padding (anchor_input [] subject [] [] [] ∷ [])
      (anchor_input [] subject [] [] [] ∷ []) refl

plain_hash :
    anchor_hash padding [] subject [] [] [] ≡ ok (anchor_hash_unchecked padding [] subject [] [] [])
unfolding anchor_hash validate_chain_hash_delimiters first_bar contains
plain_hash = refl

anchor_hash-injective_example : SameAnchored [] [] subject subject [] [] [] [] [] []
anchor_hash-injective_example =
    anchor_hash-injective padding [] [] subject subject [] [] [] [] [] [] plain_apart plain_hash
      plain_hash
