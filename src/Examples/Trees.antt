-- ===== src/Examples/Trees.antt =====
-- A tree of three leaves.
use proof.Prelude.{◌≡◌, refl, List, [], ◌∷◌, some, true, arith, length, get_elem?}
use proof.Prelude.Bytes.{Bytes, codes, bytes_eq}
use proof.Examples.Clash.{NoClash-no_clash}
use proof.Hash.{padding, NoClash}
use proof.Merkle.Split.{largest_power_of_two_less_than}
use proof.Merkle.Tree.{leaf_hash, root_from_leaves, node_hash, empty_root}
use proof.Merkle.Frontier.{frontier_from_leaves, root}
use proof.Merkle.Frontier.Holds.{root-frontier_from_leaves}
use proof.Merkle.Inclusion.{
  over_left, over_right, unsnoc, matches, root_from_inclusion, inclusion_proof, verify_inclusion,
}
use proof.Merkle.Inclusion.Complete.{verify-inclusion_proof}
use proof.Merkle.Inclusion.Sound.{verify_inclusion-IsLeaf, root_inputs, fold_inputs}

abbrev leaf_a : Bytes
leaf_a = codes "a"

abbrev leaf_b : Bytes
leaf_b = codes "b"

abbrev leaf_c : Bytes
leaf_c = codes "c"

abbrev three : List Bytes
three = leaf_a ∷ leaf_b ∷ leaf_c ∷ []

verify-inclusion_proof_example :
    (path : List Bytes) × (inclusion_proof padding 2 three ≡ some path)
    × (verify_inclusion padding
          (leaf_hash padding leaf_c)
          2
          (length three)
          path
          (root_from_leaves padding three)
        ≡ true)
verify-inclusion_proof_example = verify-inclusion_proof padding three 2 leaf_c (omega arith) refl

root-frontier_from_leaves_example :
    root padding (frontier_from_leaves padding three) ≡ root_from_leaves padding three
root-frontier_from_leaves_example = root-frontier_from_leaves padding three (omega arith)

abbrev two : List Bytes
two = leaf_a ∷ leaf_b ∷ []

two-NoClash :
    NoClash padding
      (root_inputs padding (length two) two)
      (fold_inputs padding 2 leaf_b 1 (length two) (leaf_hash padding leaf_a ∷ []))
unfolding root_from_leaves leaf_hash node_hash empty_root fold_inputs root_from_inclusion over_left
    over_right unsnoc largest_power_of_two_less_than bytes_eq
two-NoClash =
    NoClash-no_clash padding (root_inputs padding (length two) two)
      (fold_inputs padding 2 leaf_b 1 (length two) (leaf_hash padding leaf_a ∷ [])) refl

two-verified :
    verify_inclusion padding
      (leaf_hash padding leaf_b)
      1
      (length two)
      (leaf_hash padding leaf_a ∷ [])
      (root_from_leaves padding two)
    ≡ true
unfolding verify_inclusion matches root_from_leaves leaf_hash node_hash empty_root
    root_from_inclusion over_left over_right unsnoc largest_power_of_two_less_than bytes_eq
two-verified = refl

verify_inclusion-IsLeaf_example : get_elem? two 1 ≡ some leaf_b
verify_inclusion-IsLeaf_example =
    verify_inclusion-IsLeaf padding two 1 leaf_b (leaf_hash padding leaf_a ∷ []) (omega arith)
      two-NoClash two-verified
