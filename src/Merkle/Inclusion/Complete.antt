-- ===== src/Merkle/Inclusion/Complete.antt =====
-- Every path that `inclusion_proof` computes is accepted.
use proof.Prelude.{
  ℕ, zero, suc, ◌-◌, ◌≤◌, ◌<◌, ◌≡◌, refl, sym, ◌∙◌, ap, List, [], ◌∷◌, arith, length, take, drop,
  some, true, ltb, get_elem?, get_elem?-take, get_elem?-drop, Bool-cases, inl, inr, ltb→lt,
  ltb-false→le,
}
use proof.Prelude.Bytes.{Bytes, bytes_eq_refl}
use proof.Hash.{Sha512}
use proof.Merkle.Split.{largest_power_of_two_less_than}
use proof.Merkle.Tree.{leaf_hash, root_from_leaves, root-split, root-singleton, split_parts, Fits}
use proof.Merkle.Inclusion.{
  inclusion_path, inclusion_proof, root_from_inclusion, over_left, over_right,
  root_from_inclusion-one, root_from_inclusion-snoc, inclusion_path-one, inclusion_path-split,
  verify_inclusion,
}

index_of_elem : {A : Type 0} (xs : List A) (m : ℕ) {d : A} → get_elem? xs m ≡ some d → m < length xs
index_of_elem [] m h = cc
index_of_elem (x ∷ xs) zero h = omega arith
index_of_elem (x ∷ xs) (suc m) h = omega (arith, index_of_elem xs m h)

module _ (H : Sha512) where
  -- The fold over a computed path is the root of the tree.
  root_from_inclusion-path :
      (g : ℕ) (leaves : List Bytes) (m : ℕ) (d : Bytes)
      → length leaves ≤ g
      → Fits leaves
      → get_elem? leaves m ≡ some d
      → root_from_inclusion H (leaf_hash H d) m (length leaves) (inclusion_path H m leaves)
        ≡ some (root_from_leaves H leaves)
  root_from_inclusion-path g [] m d hg small at = cc
  root_from_inclusion-path zero (x ∷ xs) m d hg small at = absurd (omega arith)
  root_from_inclusion-path (suc g) (x ∷ []) zero d hg small at =
      rw (inclusion_path-one, root_from_inclusion-one, root-singleton) (cc)
  root_from_inclusion-path (suc g) (x ∷ []) (suc m) d hg small at = cc
  root_from_inclusion-path (suc g) (x ∷ y ∷ xs) m d hg small at =
      let leaves = x ∷ y ∷ xs in
      let k = largest_power_of_two_less_than (length leaves) in
      let (kpos, lt, left, right) = split_parts leaves (omega arith) small in
      let front = take k leaves in
      let back = drop k leaves in
      elim (Bool-cases (ltb m k)) [
        | inl less ↦
            let part =
              root_from_inclusion-path g front m d (omega arith) (omega arith)
                (get_elem?-take k leaves m (ltb→lt m k less) ∙ at) in
            let at_k =
              ap (λ t. root_from_inclusion H (leaf_hash H d) m t (inclusion_path H m front)) left in
            rw
              (
                inclusion_path-split H m leaves (omega arith) small,
                less,
                root_from_inclusion-snoc H (leaf_hash H d) m (length leaves)
                    (inclusion_path H m front) (root_from_leaves H back) (omega arith),
                less,
                root-split H leaves (omega arith) small,
                sym at_k ∙ part,
              )
              (unfold over_left in refl)
        | inr more ↦
            let part =
              root_from_inclusion-path g back (m - k) d (omega arith) (omega arith)
                (get_elem?-drop k leaves m (ltb-false→le m k more) ∙ at) in
            let at_k =
              ap
                (λ t.
                  root_from_inclusion H (leaf_hash H d) (m - k) t (inclusion_path H (m - k) back))
                right in
            rw
              (
                inclusion_path-split H m leaves (omega arith) small,
                more,
                root_from_inclusion-snoc H (leaf_hash H d) m (length leaves)
                    (inclusion_path H (m - k) back) (root_from_leaves H front) (omega arith),
                more,
                root-split H leaves (omega arith) small,
                sym at_k ∙ part,
              )
              (unfold over_right in refl)
      ]

  -- For every leaf of a tree of fewer than 2^63 leaves a proof is computed, and the proof is accepted for that leaf, its index,
  -- the tree's size and the tree's root.
  pub verify-inclusion_proof :
      (leaves : List Bytes) (m : ℕ) (d : Bytes)
      → Fits leaves
      → get_elem? leaves m ≡ some d
      → (path : List Bytes) × (inclusion_proof H m leaves ≡ some path)
        × (verify_inclusion H (leaf_hash H d) m (length leaves) path (root_from_leaves H leaves)
            ≡ true)
  unfolding inclusion_proof verify_inclusion
  verify-inclusion_proof leaves m d small at =
      let lt = index_of_elem leaves m at in
      let folds = root_from_inclusion-path (length leaves) leaves m d (omega arith) small at in
      (
        inclusion_path H m leaves,
        ground arith,
        rw folds (ground (arith, bytes_eq_refl (root_from_leaves H leaves))),
      )
