-- ===== src/Examples/Proofs.antt =====
-- A tree of two leaves that grows to three, and a tree over one digest in hex.
use proof.Prelude.{◌≡◌, refl, List, [], ◌∷◌, some, true, arith, In, inl, inr, map, replicate}
use proof.Prelude.Bytes.{Bytes, codes, bytes_eq}
use proof.Hash.{padding, hex_encode}
use proof.Merkle.Split.{largest_power_of_two_less_than}
use proof.Merkle.Tree.{leaf_hash, node_hash, empty_root, root_from_leaves}
use proof.Merkle.Consistency.{
  consistency_proof, sub_proof, verify_consistency, verify_climb, climb, climb_step, climb_ends,
  climb_odd, climb_even,
}
use proof.Merkle.RootHex.{IsDigest, root_hex, root_hex-map}

abbrev older : List Bytes
older = codes "a" ∷ codes "b" ∷ []

abbrev newer : List Bytes
newer = codes "a" ∷ codes "b" ∷ codes "c" ∷ []

abbrev grown : List Bytes
grown = leaf_hash padding (codes "c") ∷ []

grown_proof : consistency_proof padding 2 newer ≡ some grown
unfolding consistency_proof sub_proof root_from_leaves leaf_hash node_hash empty_root
    largest_power_of_two_less_than
grown_proof = refl

grown_verified :
    verify_consistency padding 2 3
      (root_from_leaves padding older)
      (root_from_leaves padding newer)
      grown
    ≡ true
unfolding verify_consistency verify_climb climb climb_step climb_ends climb_odd climb_even
    root_from_leaves leaf_hash node_hash empty_root largest_power_of_two_less_than bytes_eq
grown_verified = refl

abbrev digest : Bytes
digest = replicate 64 171

digests : (b : Bytes) → In b (digest ∷ []) → IsDigest b
digests b (inl e) = rw e (refl, refl)
digests b (inr i) = absurd i

root_hex-map_example :
    root_hex padding (map hex_encode (digest ∷ []))
    ≡ some (hex_encode (root_from_leaves padding (digest ∷ [])))
root_hex-map_example = root_hex-map padding (digest ∷ []) digests (omega arith)
