-- ===== src/Merkle/Inclusion/Sound.antt =====
-- An accepted path shows that the tree has that leaf at that index, unless two of the inputs that
-- were hashed on the two sides collide.
use proof.Prelude.{
  ℕ, zero, suc, ◌-◌, ◌≤◌, ◌<◌, ◌≡◌, refl, sym, ◌∙◌, ap, ap₂, subst, List, [], ◌∷◌, ◌++◌, arith,
  length, take, drop, Option, none, some, true, false, ltb, ◌==◌, if◌then◌else◌, length-append,
  get_elem?, get_elem?-take, get_elem?-drop, Bool-cases, ◌⊎◌, inl, inr, ltb→lt, ltb-false→le,
  In-append_left, In-append_right, take-append, drop-append,
}
use proof.Prelude.Bytes.{Bytes, bytes_eq_sound}
use proof.Hash.{Sha512, NoClash}
use proof.Merkle.Split.{largest_power_of_two_less_than}
use proof.Merkle.Tree.{
  leaf_hash, node_hash, root_from_leaves, root-split, root-singleton, split_parts, Fits,
  length-root,
}
use proof.Merkle.Inclusion.{
  root_from_inclusion, over_left, over_right, root_from_inclusion-one, root_from_inclusion-nil,
  root_from_inclusion-snoc, matches, verify_inclusion, unsnoc, unsnoc-append,
}

snoc_cases :
    (path : List Bytes)
    → (path ≡ []) ⊎ ((rest : List Bytes) × (s : Bytes) × (path ≡ rest ++ s ∷ []))
snoc_cases [] = inl refl
snoc_cases (p ∷ path) = elim (snoc_cases path) [
  | inl e ↦ inr ([], p, ap (λ t. p ∷ t) e)
  | inr (rest, s, e) ↦ inr (p ∷ rest, s, ap (λ t. p ∷ t) e)
]

none≢some : {a : Bytes} → ◌≡◌ {A = Option Bytes} none (some a) → ⊥
none≢some e = cc

-- Texts of one length in front settle where a joined text is cut.
append_parts : (a b c d : Bytes) → length a ≡ length c → a ++ b ≡ c ++ d → (a ≡ c) × (b ≡ d)
append_parts a b c d len e = (
  sym (take-append a b) ∙ ap₂ take len e ∙ take-append c d,
  sym (drop-append a b) ∙ ap₂ drop len e ∙ drop-append c d,
)

module _ (H : Sha512) where
  -- What is hashed to compute the root of some leaves.
  abbrev pub root_inputs : ℕ → List Bytes → List Bytes
  root_inputs fuel [] = [] ∷ []
  root_inputs fuel (d ∷ []) = (0x00 ∷ d) ∷ []
  root_inputs zero (d ∷ e ∷ leaves) = []
  root_inputs (suc fuel) (d ∷ e ∷ leaves) =
      let k = largest_power_of_two_less_than (length (d ∷ e ∷ leaves)) in
      let left = take k (d ∷ e ∷ leaves) in
      let right = drop k (d ∷ e ∷ leaves) in
      (0x01 ∷ root_from_leaves H left ++ root_from_leaves H right)
      ∷ (root_inputs fuel left ++ root_inputs fuel right)

  abbrev joined_left : Option Bytes → Bytes → List Bytes
  joined_left none sibling = []
  joined_left (some left) sibling = (0x01 ∷ left ++ sibling) ∷ []

  abbrev joined_right : Option Bytes → Bytes → List Bytes
  joined_right none sibling = []
  joined_right (some right) sibling = (0x01 ∷ sibling ++ right) ∷ []

  -- What is hashed to fold a path over the leaf with the given data.
  unfoldable pub fold_inputs : ℕ → Bytes → ℕ → ℕ → List Bytes → List Bytes
  fold_inputs zero d m n path = []
  fold_inputs (suc fuel) d m n path =
      let k = largest_power_of_two_less_than n in
      if n == 1 then (0x00 ∷ d) ∷ [] else elim (unsnoc path) [
        | none ↦ []
        | some (rest, sibling) ↦
            let left =
              joined_left (root_from_inclusion H (leaf_hash H d) m k rest) sibling
              ++ fold_inputs fuel d m k rest in
            let right =
              joined_right (root_from_inclusion H (leaf_hash H d) (m - k) (n - k) rest) sibling
              ++ fold_inputs fuel d (m - k) (n - k) rest in
            if ltb m k then left else right
      ]

  fold_inputs-snoc :
      (fuel : ℕ) (d : Bytes) (m n : ℕ) (rest : List Bytes) (s : Bytes)
      → 1 < n
      → fold_inputs (suc fuel) d m n (rest ++ s ∷ []) ≡ (
          let k = largest_power_of_two_less_than n in
          if ltb m k
          then joined_left (root_from_inclusion H (leaf_hash H d) m k rest) s
            ++ fold_inputs fuel d m k rest
          else joined_right (root_from_inclusion H (leaf_hash H d) (m - k) (n - k) rest) s
            ++ fold_inputs fuel d (m - k) (n - k) rest)
  unfolding fold_inputs
  fold_inputs-snoc fuel d m n rest s h =
      let not_one : (n == 1) ≡ false = ground arith in rw (not_one, unsnoc-append rest s)

  length-node : (l r : Bytes) → length (node_hash H l r) ≡ 64
  unfolding node_hash
  length-node l r = H.length-sum _

  length-leaf : (d : Bytes) → length (leaf_hash H d) ≡ 64
  unfolding leaf_hash
  length-leaf d = H.length-sum _

  over_left-eq_some :
      (x : Option Bytes) (s r : Bytes)
      → over_left H x s ≡ some r
      → (l : Bytes) × (x ≡ some l) × (node_hash H l s ≡ r)
  unfolding over_left
  over_left-eq_some none s r e = cc
  over_left-eq_some (some l) s r e = (l, refl, cc)

  over_right-eq_some :
      (x : Option Bytes) (s r : Bytes)
      → over_right H x s ≡ some r
      → (l : Bytes) × (x ≡ some l) × (node_hash H s l ≡ r)
  unfolding over_right
  over_right-eq_some none s r e = cc
  over_right-eq_some (some l) s r e = (l, refl, cc)

  -- The last step of a fold over more than one leaf.
  data LastStep (leaf : Bytes) (m n : ℕ) (path : List Bytes) (r : Bytes) : Type 0 where
    left :
        (rest : List Bytes) (s l : Bytes)
        → path ≡ rest ++ s ∷ []
        → ltb m (largest_power_of_two_less_than n) ≡ true
        → root_from_inclusion H leaf m (largest_power_of_two_less_than n) rest ≡ some l
        → node_hash H l s ≡ r
        → LastStep leaf m n path r
    right :
        (rest : List Bytes) (s l : Bytes)
        → path ≡ rest ++ s ∷ []
        → ltb m (largest_power_of_two_less_than n) ≡ false
        → root_from_inclusion H leaf
            (m - largest_power_of_two_less_than n)
            (n - largest_power_of_two_less_than n)
            rest
          ≡ some l
        → node_hash H s l ≡ r
        → LastStep leaf m n path r

  last_step :
      (leaf : Bytes) (m n : ℕ) (path : List Bytes) (r : Bytes)
      → 1 < n
      → root_from_inclusion H leaf m n path ≡ some r
      → LastStep leaf m n path r
  last_step leaf m n path r two e = elim (snoc_cases path) [
    | inl nil ↦ absurd (none≢some (sym (root_from_inclusion-nil H leaf m n two) ∙ (rw nil at e)))
    | inr (rest, s, snoc) ↦
        let k = largest_power_of_two_less_than n in
        let step = sym (root_from_inclusion-snoc H leaf m n rest s two) ∙ (rw snoc at e) in
        elim (Bool-cases (ltb m k)) [
          | inl less ↦
              let (l, sub, node) =
                over_left-eq_some (root_from_inclusion H leaf m k rest) s r (rw less at step) in
              left rest s l snoc less sub node
          | inr more ↦
              let (l, sub, node) =
                over_right-eq_some (root_from_inclusion H leaf (m - k) (n - k) rest) s r
                  (rw more at step) in
              right rest s l snoc more sub node
        ]
  ]

  length-LastStep :
      {leaf r : Bytes} {m n : ℕ} {path : List Bytes} → LastStep leaf m n path r → length r ≡ 64
  length-LastStep (left rest s l e less sub node) = rw (sym node) (length-node l s)
  length-LastStep (right rest s l e more sub node) = rw (sym node) (length-node s l)

  -- A folded value is a digest.
  length-folded :
      (leaf : Bytes) (m n : ℕ) (path : List Bytes) (r : Bytes)
      → length leaf ≡ 64
      → 0 < n
      → root_from_inclusion H leaf m n path ≡ some r
      → length r ≡ 64
  length-folded leaf m zero path r len pos e = absurd (omega arith)
  length-folded leaf m (suc zero) path r len pos e =
      ground (arith, root_from_inclusion-one H leaf m path)
  length-folded leaf m (suc (suc n)) path r len pos e =
      length-LastStep (last_step leaf m (suc (suc n)) path r (omega arith) e)

  NoClash-heads :
      (x y : Bytes) (xs ys : List Bytes) → NoClash H (x ∷ xs) (y ∷ ys) → H.sum x ≡ H.sum y → x ≡ y
  NoClash-heads x y xs ys h e = h x y (inl refl) (inl refl) e

  leaf_of_root :
      (d x : Bytes)
      → NoClash H ((0x00 ∷ x) ∷ []) ((0x00 ∷ d) ∷ [])
      → leaf_hash H d ≡ leaf_hash H x
      → d ≡ x
  unfolding leaf_hash
  leaf_of_root d x h e = sym (ap (drop 1) (NoClash-heads (0x00 ∷ x) (0x00 ∷ d) [] [] h (sym e)))

  -- Equal nodes have equal children, where the inputs do not collide.
  joined_inputs :
      (a b c d : Bytes) (xs ys : List Bytes)
      → NoClash H ((0x01 ∷ a ++ b) ∷ xs) ((0x01 ∷ c ++ d) ∷ ys)
      → node_hash H a b ≡ node_hash H c d
      → a ++ b ≡ c ++ d
  unfolding node_hash
  joined_inputs a b c d xs ys h e =
      ap (drop 1) (NoClash-heads (0x01 ∷ a ++ b) (0x01 ∷ c ++ d) xs ys h e)

  children_left :
      (a b c d : Bytes) (xs ys : List Bytes)
      → length a ≡ length c
      → NoClash H ((0x01 ∷ a ++ b) ∷ xs) ((0x01 ∷ c ++ d) ∷ ys)
      → node_hash H a b ≡ node_hash H c d
      → a ≡ c
  children_left a b c d xs ys len h e =
      (append_parts a b c d len (joined_inputs a b c d xs ys h e)).0

  children_right :
      (a b c d : Bytes) (xs ys : List Bytes)
      → length b ≡ length d
      → NoClash H ((0x01 ∷ a ++ b) ∷ xs) ((0x01 ∷ c ++ d) ∷ ys)
      → node_hash H a b ≡ node_hash H c d
      → b ≡ d
  children_right a b c d xs ys len h e =
      let joined = joined_inputs a b c d xs ys h e in
      (append_parts a b c d (omega (arith, ap length joined, length-append a b, length-append c d))
        joined).1

  fold_inputs_left :
      (f : ℕ) (d : Bytes) (m n : ℕ) (path rest : List Bytes) (s l : Bytes)
      → 1 < n
      → path ≡ rest ++ s ∷ []
      → ltb m (largest_power_of_two_less_than n) ≡ true
      → root_from_inclusion H (leaf_hash H d) m (largest_power_of_two_less_than n) rest ≡ some l
      → fold_inputs (suc f) d m n path
        ≡ (0x01 ∷ l ++ s) ∷ fold_inputs f d m (largest_power_of_two_less_than n) rest
  fold_inputs_left f d m n path rest s l two snoc less sub =
      rw (snoc, fold_inputs-snoc f d m n rest s two, less, sub)

  fold_inputs_right :
      (f : ℕ) (d : Bytes) (m n : ℕ) (path rest : List Bytes) (s l : Bytes)
      → 1 < n
      → path ≡ rest ++ s ∷ []
      → ltb m (largest_power_of_two_less_than n) ≡ false
      → root_from_inclusion H
          (leaf_hash H d)
          (m - largest_power_of_two_less_than n)
          (n - largest_power_of_two_less_than n)
          rest
        ≡ some l
      → fold_inputs (suc f) d m n path
        ≡ (0x01 ∷ s ++ l)
          ∷ fold_inputs f d
              (m - largest_power_of_two_less_than n)
              (n - largest_power_of_two_less_than n)
              rest
  fold_inputs_right f d m n path rest s l two snoc more sub =
      rw (snoc, fold_inputs-snoc f d m n rest s two, more, sub)

  fold-IsLeaf :
      (g f : ℕ) (leaves : List Bytes) (m : ℕ) (d : Bytes) (path : List Bytes)
      → length leaves ≤ g
      → length path < f
      → Fits leaves
      → m < length leaves
      → NoClash H (root_inputs g leaves) (fold_inputs f d m (length leaves) path)
      → root_from_inclusion H (leaf_hash H d) m (length leaves) path
        ≡ some (root_from_leaves H leaves)
      → get_elem? leaves m ≡ some d
  fold-IsLeaf g f [] m d path hg hf small lt apart e = absurd (omega arith)
  fold-IsLeaf zero f (x ∷ xs) m d path hg hf small lt apart e = absurd (omega arith)
  fold-IsLeaf (suc g) zero (x ∷ xs) m d path hg hf small lt apart e = absurd (omega arith)
  fold-IsLeaf (suc g) (suc f) (x ∷ []) (suc m) d path hg hf small lt apart e = absurd (omega arith)
  fold-IsLeaf (suc g) (suc f) (x ∷ []) zero d path hg hf small lt apart e =
      let same : leaf_hash H d ≡ leaf_hash H x =
        ground (arith, root_from_inclusion-one H (leaf_hash H d) 0 path, root-singleton H x) in
      ap some (sym (leaf_of_root d x (unfold fold_inputs in apart) same))
  fold-IsLeaf (suc g) (suc f) (x ∷ y ∷ xs) m d path hg hf small lt apart e =
      let leaves = x ∷ y ∷ xs in
      let n = length leaves in
      let k = largest_power_of_two_less_than n in
      let front = take k leaves in
      let back = drop k leaves in
      let (kpos, klt, len_front, len_back) = split_parts leaves (omega arith) small in
      let split = root-split H leaves (omega arith) small in
      elim (last_step (leaf_hash H d) m n path (root_from_leaves H leaves) (omega arith) e) [
        | left rest s l snoc less sub node ↦
            let inputs = fold_inputs_left f d m n path rest s l (omega arith) snoc less sub in
            let apart' = subst (NoClash H (root_inputs (suc g) leaves)) inputs apart in
            let same =
              children_left (root_from_leaves H front) (root_from_leaves H back) l s
                (root_inputs g front ++ root_inputs g back) (fold_inputs f d m k rest)
                (length-root H front (omega arith)
                  ∙ sym (length-folded (leaf_hash H d) m k rest l (length-leaf d) kpos sub))
                apart' (sym split ∙ sym node) in
            sym (get_elem?-take k leaves m (ltb→lt m k less))
            ∙ fold-IsLeaf g f front m d rest (omega arith)
                (omega (arith, ap length snoc, length-append rest (s ∷ []))) (omega arith)
                (omega (arith, ltb→lt m k less))
                (rw len_front (λ a b ia ib.
                  apart' a b (inr (In-append_left a (root_inputs g front) _ ia)) (inr ib)))
                (rw len_front (sub ∙ ap some (sym same)))
        | right rest s l snoc more sub node ↦
            let inputs = fold_inputs_right f d m n path rest s l (omega arith) snoc more sub in
            let apart' = subst (NoClash H (root_inputs (suc g) leaves)) inputs apart in
            let same =
              children_right (root_from_leaves H front) (root_from_leaves H back) s l
                (root_inputs g front ++ root_inputs g back) (fold_inputs f d (m - k) (n - k) rest)
                (length-root H back (omega arith)
                  ∙ sym (
                      length-folded (leaf_hash H d) (m - k) (n - k) rest l (length-leaf d)
                        (omega arith) sub))
                apart' (sym split ∙ sym node) in
            sym (get_elem?-drop k leaves m (ltb-false→le m k more))
            ∙ fold-IsLeaf g f back (m - k) d rest (omega arith)
                (omega (arith, ap length snoc, length-append rest (s ∷ []))) (omega arith)
                (omega (arith, ltb-false→le m k more))
                (rw len_back (λ a b ia ib.
                  apart' a b (inr (In-append_right a (root_inputs g front) _ ia)) (inr ib)))
                (rw len_back (sub ∙ ap some (sym same)))
      ]

  matches-eq_true : (o : Option Bytes) (r : Bytes) → matches o r ≡ true → o ≡ some r
  unfolding matches
  matches-eq_true none r h = cc
  matches-eq_true (some c) r h = ap some (bytes_eq_sound c r h)

  accepted :
      (leaf : Bytes) (m n : ℕ) (path : List Bytes) (root : Bytes)
      → verify_inclusion H leaf m n path root ≡ true
      → (m < n) × (root_from_inclusion H leaf m n path ≡ some root)
  unfolding verify_inclusion
  accepted leaf m n path root h =
      (ground arith, matches-eq_true (root_from_inclusion H leaf m n path) root (ground arith))

  -- What `verify_inclusion` accepts for a tree's size and root is the leaf of the tree at that index,
  -- where the tree has fewer than 2^63 leaves, unless an input hashed for the tree collides with one
  -- hashed for the path.
  pub verify_inclusion-IsLeaf :
      (leaves : List Bytes) (m : ℕ) (d : Bytes) (path : List Bytes)
      → Fits leaves
      → NoClash H
          (root_inputs (length leaves) leaves)
          (fold_inputs (suc (length path)) d m (length leaves) path)
      → verify_inclusion H (leaf_hash H d) m (length leaves) path (root_from_leaves H leaves) ≡ true
      → get_elem? leaves m ≡ some d
  verify_inclusion-IsLeaf leaves m d path small apart h =
      let (lt, e) = accepted (leaf_hash H d) m (length leaves) path (root_from_leaves H leaves) h in
      fold-IsLeaf (length leaves) (suc (length path)) leaves m d path (omega arith) (omega arith)
        small lt apart e
