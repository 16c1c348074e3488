-- ===== src/Merkle/Tree.antt =====
-- merkle/merkle.go: leaf and node hashes, and the root over all leaves.
use proof.Prelude.{
  ℕ, zero, suc, ◌-◌, ◌^◌, ◌≤◌, ◌<◌, ◌≡◌, refl, sym, ap, ap₂, ◌∙◌, List, [], ◌∷◌, ◌++◌, arith,
  length, take, drop, length-take, length-drop, length-append, take-append, drop-append,
}
use proof.Prelude.Bytes.{Bytes}
use proof.Hash.{Sha512}
use proof.Merkle.Split.{
  largest_power_of_two_less_than, largest_power_bounds, largest_power_unique, pow_pos,
}

-- A tree has as many leaves as an int counts.
abbrev pub Fits {ℓ} : {A : Type ℓ} → List A → Type 0
Fits xs = length xs < 2 ^ 63

-- The parts at the split point are not empty, and smaller.
pub split_parts :
    {A : Type 0} (xs : List A)
    → 1 < length xs
    → Fits xs
    → (0 < largest_power_of_two_less_than (length xs))
      × (largest_power_of_two_less_than (length xs) < length xs)
      × (length (take (largest_power_of_two_less_than (length xs)) xs)
          ≡ largest_power_of_two_less_than (length xs))
      × (length (drop (largest_power_of_two_less_than (length xs)) xs)
          ≡ length xs - largest_power_of_two_less_than (length xs))
split_parts xs two small =
    let k = largest_power_of_two_less_than (length xs) in
    let (j, e, lo, hi) = largest_power_bounds (length xs) two small in
    (omega arith, lo, omega (arith, length-take k xs), length-drop k xs)

module _ (H : Sha512) where
  unfoldable pub leaf_hash : Bytes → Bytes
  leaf_hash d = H.sum (0x00 ∷ d)

  unfoldable pub node_hash : Bytes → Bytes → Bytes
  node_hash left right = H.sum (0x01 ∷ left ++ right)

  unfoldable pub empty_root : Bytes
  empty_root = H.sum []

  -- The recursion on the two parts, with fuel for its depth.
  root_fuel : ℕ → List Bytes → Bytes
  root_fuel fuel [] = empty_root
  root_fuel fuel (d ∷ []) = leaf_hash d
  root_fuel zero (d ∷ e ∷ leaves) = []
  root_fuel (suc fuel) (d ∷ e ∷ leaves) =
      let k = largest_power_of_two_less_than (length (d ∷ e ∷ leaves)) in
      node_hash (root_fuel fuel (take k (d ∷ e ∷ leaves)))
        (root_fuel fuel (drop k (d ∷ e ∷ leaves)))

  -- As much fuel as leaves.
  unfoldable pub root_from_leaves : List Bytes → Bytes
  unfolding root_fuel
  root_from_leaves leaves = root_fuel (length leaves) leaves

  root_fuel_enough :
      (f g : ℕ) (leaves : List Bytes)
      → Fits leaves
      → length leaves ≤ f
      → length leaves ≤ g
      → root_fuel f leaves ≡ root_fuel g leaves
  unfolding root_fuel
  root_fuel_enough f g [] small hf hg = refl
  root_fuel_enough f g (d ∷ []) small hf hg = refl
  root_fuel_enough zero g (d ∷ e ∷ leaves) small hf hg = absurd (omega arith)
  root_fuel_enough (suc f) zero (d ∷ e ∷ leaves) small hf hg = absurd (omega arith)
  root_fuel_enough (suc f) (suc g) (d ∷ e ∷ leaves) small hf hg =
      let xs = d ∷ e ∷ leaves in
      let k = largest_power_of_two_less_than (length xs) in
      let (pos, lt, left, right) = split_parts xs (omega arith) small in
      ap₂ node_hash (root_fuel_enough f g (take k xs) (omega arith) (omega arith) (omega arith))
        (root_fuel_enough f g (drop k xs) (omega arith) (omega arith) (omega arith))

  -- RFC 9162, 2.1: the root of two or more leaves, fewer than 2^63, joins the roots of the parts at
  -- the split point.
  pub root-split :
      (leaves : List Bytes)
      → 1 < length leaves
      → Fits leaves
      → root_from_leaves leaves
        ≡ node_hash
            (root_from_leaves (take (largest_power_of_two_less_than (length leaves)) leaves))
            (root_from_leaves (drop (largest_power_of_two_less_than (length leaves)) leaves))
  unfolding root_from_leaves root_fuel
  root-split [] two small = absurd (omega arith)
  root-split (d ∷ []) two small = absurd (omega arith)
  root-split (d ∷ e ∷ leaves) two small =
      let xs = d ∷ e ∷ leaves in
      let k = largest_power_of_two_less_than (length xs) in
      let (pos, lt, left, right) = split_parts xs (omega arith) small in
      let f = suc (length leaves) in
      ap₂ node_hash
        (root_fuel_enough f (length (take k xs)) (take k xs) (omega arith) (omega arith)
          (omega arith))
        (root_fuel_enough f (length (drop k xs)) (drop k xs) (omega arith) (omega arith)
          (omega arith))

  pub root-nil : root_from_leaves [] ≡ empty_root
  unfolding root_from_leaves root_fuel
  root-nil = refl

  pub root-singleton : (d : Bytes) → root_from_leaves (d ∷ []) ≡ leaf_hash d
  unfolding root_from_leaves root_fuel
  root-singleton d = refl

  -- A full left part and a right part that is no larger: the root joins their roots.
  pub root-append :
      (xs ys : List Bytes) (i : ℕ)
      → length xs ≡ 2 ^ i
      → 0 < length ys
      → length ys ≤ 2 ^ i
      → Fits (xs ++ ys)
      → root_from_leaves (xs ++ ys) ≡ node_hash (root_from_leaves xs) (root_from_leaves ys)
  root-append xs ys i full pos le small =
      let n = length-append xs ys in
      let k : largest_power_of_two_less_than (length (xs ++ ys)) ≡ length xs =
        largest_power_unique (length (xs ++ ys)) i small (omega arith) (omega arith) ∙ sym full in
      root-split (xs ++ ys) (omega (arith, pow_pos i)) small
      ∙ ap₂ node_hash (ap root_from_leaves (ap (λ m. take m (xs ++ ys)) k ∙ take-append xs ys))
          (ap root_from_leaves (ap (λ m. drop m (xs ++ ys)) k ∙ drop-append xs ys))

  pub length-root : (leaves : List Bytes) → Fits leaves → length (root_from_leaves leaves) ≡ 64
  length-root [] small = rw root-nil (unfold empty_root in H.length-sum [])
  length-root (d ∷ []) small = rw root-singleton (unfold leaf_hash in H.length-sum (0x00 ∷ d))
  length-root (d ∷ e ∷ leaves) small =
      rw (root-split (d ∷ e ∷ leaves) (omega arith) small) (unfold node_hash in H.length-sum _)
