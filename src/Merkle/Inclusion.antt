-- ===== src/Merkle/Inclusion.antt =====
-- merkle/inclusion.go: audit paths. A path lists the siblings from the leaf up, so the sibling
-- nearest the root is its last element.
pub mod Complete
pub mod Sound
use proof.Prelude.{
  ℕ, zero, suc, ◌+◌, ◌-◌, ◌≤◌, ◌<◌, ◌≡◌, ◌≢◌, refl, ap, ap₂, List, [], ◌∷◌, ◌++◌, arith, ◌∙◌,
  length, take, drop, Option, none, some, Bool, true, false, leb, ltb, ◌==◌, ◌&&◌, ◌||◌,
  if◌then◌else◌, length-append,
}
use proof.Prelude.Bytes.{Bytes, bytes_eq}
use proof.Hash.{Sha512}
use proof.Merkle.Split.{largest_power_of_two_less_than}
use proof.Merkle.Tree.{node_hash, root_from_leaves, split_parts, Fits}

-- The last element and what stands before it.
unfoldable pub unsnoc {ℓ} : {A : Type ℓ} → List A → Option (List A × A)
unsnoc [] = none
unsnoc (x ∷ xs) = elim (unsnoc xs) [ none ↦ some ([], x) | some (rest, l) ↦ some (x ∷ rest, l) ]

pub unsnoc-append {ℓ} : {A : Type ℓ} (xs : List A) (x : A) → unsnoc (xs ++ x ∷ []) ≡ some (xs, x)
unfolding unsnoc
unsnoc-append [] x = refl
unsnoc-append (y ∷ xs) x = rw (unsnoc-append xs x)

-- `ok` and the constant-time comparison.
unfoldable pub matches : Option Bytes → Bytes → Bool
matches none root = false
matches (some computed) root = bytes_eq computed root

module _ (H : Sha512) where
  -- PATH(m, D), with fuel for the depth of the tree.
  path_fuel : ℕ → ℕ → List Bytes → List Bytes
  path_fuel zero m leaves = []
  path_fuel (suc fuel) m leaves =
      let n = length leaves in
      let k = largest_power_of_two_less_than n in
      let left = path_fuel fuel m (take k leaves) ++ root_from_leaves H (drop k leaves) ∷ [] in
      let right =
        path_fuel fuel (m - k) (drop k leaves) ++ root_from_leaves H (take k leaves) ∷ [] in
      if n == 1 then [] else if ltb m k then left else right

  unfoldable pub inclusion_path : ℕ → List Bytes → List Bytes
  unfolding path_fuel
  inclusion_path m leaves = path_fuel (length leaves) m leaves

  -- A negative index is out of range like one that is too large; the model has indices from 0.
  unfoldable pub inclusion_proof : ℕ → List Bytes → Option (List Bytes)
  inclusion_proof m leaves =
      if length leaves == 0
      then none
      else if leb (length leaves) m
      then none
      else some (inclusion_path m leaves)

  -- The node over the part that was folded and its sibling; `none` is `ok = false`.
  unfoldable pub over_left : Option Bytes → Bytes → Option Bytes
  over_left none sibling = none
  over_left (some left) sibling = some (node_hash H left sibling)

  unfoldable pub over_right : Option Bytes → Bytes → Option Bytes
  over_right none sibling = none
  over_right (some right) sibling = some (node_hash H sibling right)

  -- The fold from the leaf up, reading the path from its end. Each call drops one element of the
  -- path, so the fuel is one more than its length.
  fold_fuel : ℕ → Bytes → ℕ → ℕ → List Bytes → Option Bytes
  fold_fuel zero leaf m n path = none
  fold_fuel (suc fuel) leaf m n path =
      let k = largest_power_of_two_less_than n in
      if n == 1 then (if length path == 0 then some leaf else none) else elim (unsnoc path) [
        | none ↦ none
        | some (rest, sibling) ↦
            let left = over_left (fold_fuel fuel leaf m k rest) sibling in
            let right = over_right (fold_fuel fuel leaf (m - k) (n - k) rest) sibling in
            if ltb m k then left else right
      ]

  unfoldable pub root_from_inclusion : Bytes → ℕ → ℕ → List Bytes → Option Bytes
  unfolding fold_fuel over_left over_right
  root_from_inclusion leaf m n path = fold_fuel (suc (length path)) leaf m n path

  unfoldable pub verify_inclusion : Bytes → ℕ → ℕ → List Bytes → Bytes → Bool
  unfolding matches
  verify_inclusion leaf m size path root =
      if leb size m || size == 0 then false else matches (root_from_inclusion leaf m size path) root

  -- The recursion of `rootFromInclusion`, with no fuel in sight.
  pub root_from_inclusion-one :
      (leaf : Bytes) (m : ℕ) (path : List Bytes)
      → root_from_inclusion leaf m 1 path ≡ (if length path == 0 then some leaf else none)
  unfolding root_from_inclusion
  root_from_inclusion-one leaf m path = refl

  pub root_from_inclusion-nil :
      (leaf : Bytes) (m n : ℕ) → 1 < n → root_from_inclusion leaf m n [] ≡ none
  unfolding root_from_inclusion unsnoc
  root_from_inclusion-nil leaf m n h = ground arith

  fold_fuel-snoc :
      (fuel : ℕ) (leaf : Bytes) (m n : ℕ) (rest : List Bytes) (sibling : Bytes)
      → 1 < n
      → fold_fuel (suc fuel) leaf m n (rest ++ sibling ∷ []) ≡ (
          let k = largest_power_of_two_less_than n in
          if ltb m k
          then over_left (fold_fuel fuel leaf m k rest) sibling
          else over_right (fold_fuel fuel leaf (m - k) (n - k) rest) sibling)
  unfolding fold_fuel
  fold_fuel-snoc fuel leaf m n rest sibling h =
      let not_one : (n == 1) ≡ false = ground arith in rw (not_one, unsnoc-append rest sibling)

  pub root_from_inclusion-snoc :
      (leaf : Bytes) (m n : ℕ) (rest : List Bytes) (sibling : Bytes)
      → 1 < n
      → root_from_inclusion leaf m n (rest ++ sibling ∷ []) ≡ (
          if ltb m (largest_power_of_two_less_than n)
          then over_left
              (root_from_inclusion leaf m (largest_power_of_two_less_than n) rest)
              sibling
          else over_right
              (root_from_inclusion leaf
                (m - largest_power_of_two_less_than n)
                (n - largest_power_of_two_less_than n)
                rest)
              sibling)
  unfolding root_from_inclusion
  root_from_inclusion-snoc leaf m n rest sibling h =
      let len : length (rest ++ sibling ∷ []) ≡ suc (length rest) =
        omega (arith, length-append rest (sibling ∷ [])) in
      ap (λ f. fold_fuel (suc f) leaf m n (rest ++ sibling ∷ [])) len
      ∙ fold_fuel-snoc (suc (length rest)) leaf m n rest sibling h

  path_fuel_enough :
      (f g m : ℕ) (leaves : List Bytes)
      → Fits leaves
      → length leaves ≤ f
      → length leaves ≤ g
      → 0 < length leaves
      → path_fuel f m leaves ≡ path_fuel g m leaves
  unfolding path_fuel
  path_fuel_enough f g m [] small hf hg pos = absurd (omega arith)
  path_fuel_enough zero g m (x ∷ xs) small hf hg pos = absurd (omega arith)
  path_fuel_enough (suc f) zero m (x ∷ xs) small hf hg pos = absurd (omega arith)
  path_fuel_enough (suc f) (suc g) m (x ∷ []) small hf hg pos = refl
  path_fuel_enough (suc f) (suc g) m (x ∷ y ∷ xs) small hf hg pos =
      let leaves = x ∷ y ∷ xs in
      let k = largest_power_of_two_less_than (length leaves) in
      let (kpos, lt, left, right) = split_parts leaves (omega arith) small in
      rw (
        path_fuel_enough f g m (take k leaves) (omega arith) (omega arith) (omega arith)
            (omega arith),
        path_fuel_enough f g (m - k) (drop k leaves) (omega arith) (omega arith) (omega arith)
            (omega arith),
      )

  pub inclusion_path-one : (m : ℕ) (d : Bytes) → inclusion_path m (d ∷ []) ≡ []
  unfolding inclusion_path
  inclusion_path-one m d = refl

  -- RFC 9162 §2.1.3, with no fuel in sight.
  pub inclusion_path-split :
      (m : ℕ) (leaves : List Bytes)
      → 1 < length leaves
      → Fits leaves
      → inclusion_path m leaves ≡ (
          let k = largest_power_of_two_less_than (length leaves) in
          if ltb m k
          then inclusion_path m (take k leaves) ++ root_from_leaves H (drop k leaves) ∷ []
          else inclusion_path (m - k) (drop k leaves) ++ root_from_leaves H (take k leaves) ∷ [])
  unfolding inclusion_path path_fuel
  inclusion_path-split m [] two small = absurd (omega arith)
  inclusion_path-split m (x ∷ []) two small = absurd (omega arith)
  inclusion_path-split m (x ∷ y ∷ xs) two small =
      let leaves = x ∷ y ∷ xs in
      let k = largest_power_of_two_less_than (length leaves) in
      let (kpos, lt, left, right) = split_parts leaves (omega arith) small in
      let f = suc (length xs) in
      let not_one : (length leaves == 1) ≡ false = ground arith in
      rw (
        not_one,
        path_fuel_enough f (length (take k leaves)) m (take k leaves) (omega arith) (omega arith)
            (omega arith) (omega arith),
        path_fuel_enough f (length (drop k leaves)) (m - k) (drop k leaves) (omega arith)
            (omega arith) (omega arith) (omega arith),
      )
