-- ===== src/Merkle/Consistency.antt =====
-- merkle/consistency.go: consistency proofs. Sizes are numbers from 0; a negative size is refused by
-- the source before anything else.
pub mod Ends
use proof.Prelude.{
  ℕ, zero, suc, ◌+◌, ◌-◌, ◌/◌, ◌%◌, List, [], ◌∷◌, ◌++◌, length, take, drop, Option, none, some,
  Bool, true, false, leb, ltb, not, ◌==◌, ◌&&◌, ◌||◌, if◌then◌else◌,
}
use proof.Prelude.Bytes.{Bytes, bytes_eq}
use proof.Hash.{Sha512}
use proof.Merkle.Split.{largest_power_of_two_less_than}
use proof.Merkle.Tree.{node_hash, empty_root, root_from_leaves}

-- `for node%2 == 1`: the position and the last position at the level reached. A round halves the
-- node, so as many rounds as its number are enough.
unfoldable pub climb_odd : ℕ → ℕ → ℕ → ℕ × ℕ
climb_odd zero node last = (node, last)
climb_odd (suc fuel) node last =
    let up = climb_odd fuel (node / 2) (last / 2) in if node % 2 == 1 then up else (node, last)

-- `for node%2 == 0 && node != 0`.
unfoldable pub climb_even : ℕ → ℕ → ℕ → ℕ × ℕ
climb_even zero node last = (node, last)
climb_even (suc fuel) node last =
    let up = climb_even fuel (node / 2) (last / 2) in
    if node % 2 == 0 && not (node == 0) then up else (node, last)

-- The variables of the loop over the proof.
pub record Climb : Type 0 where
  pub node : ℕ
  pub last : ℕ
  pub hash1 : Bytes
  pub hash2 : Bytes

module _ (H : Sha512) where
  -- SUBPROOF(m, D, b), with fuel for the depth of the tree.
  unfoldable pub sub_proof : ℕ → ℕ → List Bytes → Bool → List Bytes
  sub_proof zero m leaves known = []
  sub_proof (suc fuel) m leaves known =
      let n = length leaves in
      let k = largest_power_of_two_less_than n in
      let left =
        sub_proof fuel m (take k leaves) known ++ root_from_leaves H (drop k leaves) ∷ [] in
      let right =
        sub_proof fuel (m - k) (drop k leaves) false ++ root_from_leaves H (take k leaves) ∷ [] in
      if m == n
      then (if known then [] else root_from_leaves H leaves ∷ [])
      else if leb m k
      then left
      else right

  unfoldable pub consistency_proof : ℕ → List Bytes → Option (List Bytes)
  consistency_proof m leaves =
      if ltb (length leaves) m
      then none
      else if m == 0 || m == length leaves
      then some []
      else some (sub_proof (length leaves) m leaves true)

  -- One round, at a proof node.
  unfoldable pub climb_step : Climb → Bytes → Climb
  climb_step c p =
      if c.node % 2 == 1 || c.node == c.last
      then (let (node, last) = climb_even c.node c.node c.last in
          record {
            node = node / 2;
            last = last / 2;
            hash1 = node_hash H p c.hash1;
            hash2 = node_hash H p c.hash2;
          })
      else record {
        node = c.node / 2;
        last = c.last / 2;
        hash1 = c.hash1;
        hash2 = node_hash H c.hash2 p;
      }

  -- `none` is a proof that is longer than the tree is high.
  unfoldable pub climb : Climb → List Bytes → Option Climb
  climb c [] = some c
  climb c (p ∷ proof) =
      let rest = climb (climb_step c p) proof in if c.last == 0 then none else rest

  -- What is compared in the end.
  unfoldable pub climb_ends : Option Climb → Bytes → Bytes → Bool
  climb_ends none root_a root_b = false
  climb_ends (some c) root_a root_b =
      c.last == 0 && bytes_eq c.hash1 root_a && bytes_eq c.hash2 root_b

  unfoldable pub verify_climb : ℕ → ℕ → Bytes → Bytes → List Bytes → Bool
  verify_climb node last root_a root_b [] = false
  verify_climb node last root_a root_b (p ∷ proof) =
      if ltb 0 node
      then climb_ends (climb (record { node = node; last = last; hash1 = p; hash2 = p }) proof)
          root_a root_b
      else climb_ends
          (climb (record { node = node; last = last; hash1 = root_a; hash2 = root_a }) (p ∷ proof))
          root_a root_b

  unfoldable pub verify_consistency : ℕ → ℕ → Bytes → Bytes → List Bytes → Bool
  verify_consistency m n root_a root_b proof =
      if ltb n m
      then false
      else if m == n
      then length proof == 0 && bytes_eq root_a root_b
      else if m == 0
      then length proof == 0 && bytes_eq root_a (empty_root H)
      else (let (node, last) = climb_odd (m - 1) (m - 1) (n - 1) in
          verify_climb node last root_a root_b proof)
