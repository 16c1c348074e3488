-- ===== src/Merkle/Frontier.antt =====
-- merkle/frontier.go: the roots of the full subtrees on the right edge of a tree, kept so that a
-- root costs no walk over the leaves. A level is `none` where the source has a nil slice.
pub mod Holds
use proof.Prelude.{
  ℕ, zero, suc, List, [], ◌∷◌, Option, none, some, if◌then◌else◌, ◌==◌, ◌≡◌, length, arith, ap, ◌≢◌,
}
use proof.Prelude.Bytes.{Bytes}
use proof.Prelude.Int64.{Int64, int_next}
use proof.Hash.{Sha512}
use proof.Merkle.Tree.{leaf_hash, node_hash, empty_root}

pub record Frontier : Type 0 where
  pub levels : List (Option Bytes)
  pub size : Int64

unfoldable pub new_frontier : Frontier
new_frontier = record { levels = []; size = 0 }

-- `append([]byte(nil), h...)` of an empty slice is nil.
unfoldable pub stored : Bytes → Option Bytes
stored [] = none
stored (b ∷ bs) = some (b ∷ bs)

-- A nil slice reads as no bytes.
unfoldable pub slice : Option Bytes → Bytes
slice none = []
slice (some h) = h

module _ (H : Sha512) where
  -- The loop of `Append`: past the occupied levels, which it empties, to the first free one.
  unfoldable pub carry_up : Bytes → List (Option Bytes) → List (Option Bytes)
  unfolding stored
  carry_up carry [] = stored carry ∷ []
  carry_up carry (none ∷ levels) = stored carry ∷ levels
  carry_up carry (some h ∷ levels) = none ∷ carry_up (node_hash H h carry) levels

  unfoldable pub append : Frontier → Bytes → Frontier
  append f leaf = record { levels = carry_up leaf f.levels; size = int_next f.size }

  -- The loop of `Root`, from the smallest subtree up.
  unfoldable pub fold_levels : Option Bytes → List (Option Bytes) → Option Bytes
  fold_levels acc [] = acc
  fold_levels acc (none ∷ levels) = fold_levels acc levels
  fold_levels none (some h ∷ levels) = fold_levels (some h) levels
  fold_levels (some a) (some h ∷ levels) = fold_levels (some (node_hash H h a)) levels

  unfoldable pub root : Frontier → Bytes
  unfolding fold_levels slice
  root f = if f.size == 0 then empty_root H else slice (fold_levels none f.levels)

  unfoldable pub append_leaves : Frontier → List Bytes → Frontier
  append_leaves f [] = f
  append_leaves f (d ∷ leaves) = append_leaves (append f (leaf_hash H d)) leaves

  unfoldable pub frontier_from_leaves : List Bytes → Frontier
  unfolding append_leaves
  frontier_from_leaves leaves = append_leaves new_frontier leaves
