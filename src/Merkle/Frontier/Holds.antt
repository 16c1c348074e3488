-- ===== src/Merkle/Frontier/Holds.antt =====
-- A frontier stands for the leaves appended so far, and its root is the root of the whole tree.
use proof.Prelude.{
  ℕ, suc, ◌^◌, ◌<◌, ◌≡◌, refl, sym, ap, ◌∙◌, subst, List, [], ◌∷◌, ◌++◌, arith, length,
  length-append, Option, none, some, append_assoc, append-nil,
}
use proof.Prelude.Bytes.{Bytes}
use proof.Hash.{Sha512}
use proof.Merkle.Split.{pow_pos, pow_step}
use proof.Merkle.Tree.{
  leaf_hash, node_hash, root_from_leaves, root-append, root-nil, root-singleton, Fits, length-root,
}
use proof.Merkle.Frontier.{
  Frontier, new_frontier, stored, carry_up, append, fold_levels, slice, root, append_leaves,
  frontier_from_leaves,
}

module _ (H : Sha512) where
  -- Levels from i up that hold the given leaves: an occupied level has the root of the last 2 ^ i.
  abbrev pub Holds : ℕ → List (Option Bytes) → List Bytes → Type 0
  Holds i [] xs = xs ≡ []
  Holds i (none ∷ levels) xs = Holds (suc i) levels xs
  Holds i (some h ∷ levels) xs =
      (us : List Bytes) × (ys : List Bytes) × (xs ≡ us ++ ys)
      × (length ys ≡ 2 ^ i)
      × (h ≡ root_from_leaves H ys)
      × Holds (suc i) levels us

  stored_full : (h : Bytes) → 0 < length h → stored h ≡ some h
  unfolding stored
  stored_full [] pos = absurd (omega arith)
  stored_full (b ∷ bs) pos = refl

  stored-root :
      (ys : List Bytes) → Fits ys → stored (root_from_leaves H ys) ≡ some (root_from_leaves H ys)
  stored-root ys small = stored_full _ (omega (arith, length-root H ys small))

  carry_up-Holds :
      (i : ℕ) (levels : List (Option Bytes)) (xs ys : List Bytes)
      → Holds i levels xs
      → length ys ≡ 2 ^ i
      → Fits (xs ++ ys)
      → Holds i (carry_up H (root_from_leaves H ys) levels) (xs ++ ys)
  unfolding carry_up
  carry_up-Holds i [] xs ys h full small =
      rw (stored-root ys (omega (arith, length-append xs ys)))
        ([], ys, ap (λ t. t ++ ys) h, full, refl, refl)
  carry_up-Holds i (none ∷ levels) xs ys h full small =
      rw (stored-root ys (omega (arith, length-append xs ys))) (xs, ys, refl, full, refl, h)
  carry_up-Holds i (some c ∷ levels) xs ys (us, zs, e, fz, ez, hu) full small =
      let whole : xs ++ ys ≡ us ++ (zs ++ ys) = ap (λ t. t ++ ys) e ∙ append_assoc us zs ys in
      let fits : Fits (us ++ (zs ++ ys)) = subst (λ t. Fits t) whole small in
      let lengths = length-append zs ys in
      let part : Fits (zs ++ ys) = omega (arith, length-append us (zs ++ ys)) in
      let joined : node_hash H c (root_from_leaves H ys) ≡ root_from_leaves H (zs ++ ys) =
        rw ez (sym (root-append H zs ys i fz (omega (arith, pow_pos i)) (omega arith) part)) in
      rw (joined, whole)
        (carry_up-Holds (suc i) levels us (zs ++ ys) hu (omega (arith, pow_step i)) fits)

  fold_levels-Holds :
      (i : ℕ) (levels : List (Option Bytes)) (us zs : List Bytes)
      → Holds i levels us
      → 0 < length zs
      → length zs < 2 ^ i
      → Fits (us ++ zs)
      → fold_levels H (some (root_from_leaves H zs)) levels ≡ some (root_from_leaves H (us ++ zs))
  unfolding fold_levels
  fold_levels-Holds i [] us zs h pos lt small = rw h
  fold_levels-Holds i (none ∷ levels) us zs h pos lt small =
      fold_levels-Holds (suc i) levels us zs h pos (omega (arith, pow_step i)) small
  fold_levels-Holds i (some c ∷ levels) us zs (vs, ws, e, fw, ew, hv) pos lt small =
      let whole : us ++ zs ≡ vs ++ (ws ++ zs) = ap (λ t. t ++ zs) e ∙ append_assoc vs ws zs in
      let fits : Fits (vs ++ (ws ++ zs)) = subst (λ t. Fits t) whole small in
      let lengths = length-append ws zs in
      let part : Fits (ws ++ zs) = omega (arith, length-append vs (ws ++ zs)) in
      let joined : node_hash H c (root_from_leaves H zs) ≡ root_from_leaves H (ws ++ zs) =
        rw ew (sym (root-append H ws zs i fw pos (omega arith) part)) in
      rw (joined, whole)
        (fold_levels-Holds (suc i) levels vs (ws ++ zs) hv (omega arith) (omega (arith, pow_step i))
          fits)

  fold_levels_start :
      (i : ℕ) (levels : List (Option Bytes)) (us : List Bytes)
      → Holds i levels us
      → 0 < length us
      → Fits us
      → fold_levels H none levels ≡ some (root_from_leaves H us)
  unfolding fold_levels
  fold_levels_start i [] us h pos small = absurd (omega (arith, ap length h))
  fold_levels_start i (none ∷ levels) us h pos small =
      fold_levels_start (suc i) levels us h pos small
  fold_levels_start i (some c ∷ levels) us (vs, ws, e, fw, ew, hv) pos small =
      rw (ew, e)
        (fold_levels-Holds (suc i) levels vs ws hv (omega (arith, pow_pos i))
          (omega (arith, pow_step i, pow_pos i)) (subst (λ t. Fits t) e small))

  -- The frontier of some leaves: its levels hold them and its size counts them.
  pub record Represents (f : Frontier) (leaves : List Bytes) : Type 0 where
    pub held : Holds 0 f.levels leaves
    pub counted : f.size ≡ length leaves

  pub Represents-new : Represents new_frontier []
  unfolding new_frontier
  Represents-new = record { held = refl; counted = refl }

  pub append-Represents :
      (f : Frontier) (leaves : List Bytes) (d : Bytes)
      → Represents f leaves
      → Fits (leaves ++ d ∷ [])
      → Represents (append H f (leaf_hash H d)) (leaves ++ d ∷ [])
  unfolding append
  append-Represents f leaves d r small = record {
    held =
        rw (sym (root-singleton H d)) (carry_up-Holds 0 f.levels leaves (d ∷ []) r.held refl small);
    counted = omega (arith, r.counted, length-append leaves (d ∷ []));
  }

  pub append_leaves-Represents :
      (more leaves : List Bytes) (f : Frontier)
      → Represents f leaves
      → Fits (leaves ++ more)
      → Represents (append_leaves H f more) (leaves ++ more)
  unfolding append_leaves
  append_leaves-Represents [] leaves f r small = rw append-nil r
  append_leaves-Represents (d ∷ more) leaves f r small =
      let e = append_assoc leaves (d ∷ []) more in
      let fits : Fits ((leaves ++ d ∷ []) ++ more) = subst (λ t. Fits t) (sym e) small in
      let one : Fits (leaves ++ d ∷ []) = omega (arith, length-append (leaves ++ d ∷ []) more) in
      rw (← e) (
        append_leaves-Represents more (leaves ++ d ∷ []) (append H f (leaf_hash H d))
          (append-Represents f leaves d r one) fits)

  -- The root that a frontier reports is the root of the tree over the leaves it stands for.
  pub root-Represents :
      (f : Frontier) (leaves : List Bytes)
      → Represents f leaves
      → Fits leaves
      → root H f ≡ root_from_leaves H leaves
  unfolding root slice
  root-Represents f [] r small = rw (r.counted) (sym (root-nil H))
  root-Represents f (d ∷ leaves) r small =
      rw (r.counted, fold_levels_start 0 f.levels (d ∷ leaves) r.held (omega arith) small)
        (ground arith)

  -- Appending leaves one at a time, fewer than 2^63, gives the root that the whole-tree recursion
  -- computes.
  pub root-frontier_from_leaves :
      (leaves : List Bytes)
      → Fits leaves
      → root H (frontier_from_leaves H leaves) ≡ root_from_leaves H leaves
  unfolding frontier_from_leaves
  root-frontier_from_leaves leaves small =
      root-Represents _ leaves
        (append_leaves-Represents leaves [] new_frontier Represents-new small) small
