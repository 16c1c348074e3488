-- ===== src/Store/Bolt/StepBack.antt =====
-- store/bolt/bolt.go: `Seek` and one step back, as tailOf and Predecessor take them.
use mathlib.Core.Option.{some-injective}
use proof.Prelude.{
  ◌≡◌, refl, sym, ap, ◌∙◌, List, [], ◌∷◌, Option, none, some, true, false, if◌then◌else◌, ◌⊎◌, inl,
  inr, Bool-cases, Option-cases,
}
use proof.Prelude.Bytes.{Bytes, bytes_eq, bytes_lt, has_prefix, contains}
use proof.Prelude.Order.{bytes_lt_asym, between}
use proof.Store.{Row}
use proof.Store.Memory.{last_row}
use proof.Store.Bolt.{
  Item, Engine, IsEngine, Codec, done, below, from, last_item, AllAbove, InKeyOrder, chain_prefix,
  entry_key,
}
use proof.Store.Bolt.Read.{step_back, row_of}
use proof.Store.Bolt.Keys.{has_prefix-entry_key}
use proof.Store.Bolt.Rows.{Reads, rows_of, rows_of-in, rows_of-out}

below-all : (key : Bytes) (items : List Item) → from key items ≡ [] → below key items ≡ items
unfolding below from
below-all key [] h = refl
below-all key ((k, v) ∷ items) h = elim (Bool-cases (bytes_lt k key)) [
  | inl less ↦
      let rest : from key items ≡ [] = rw less at h in rw (less, below-all key items rest) refl
  | inr not_less ↦ absurd (cc (rw not_less at h))
]

List-cases : (items : List Item) → (items ≡ []) ⊎ ((x : Item) × (xs : List Item) × (items ≡ x ∷ xs))
List-cases [] = inl refl
List-cases (x ∷ xs) = inr (x, xs, refl)

-- The step back stands on the last item below the key.
pub step_back_lem :
    (D : Engine) (law : IsEngine D) (b : D.Bucket) (key : Bytes)
    → step_back D b key ≡ last_item (below key (D.first b))
unfolding step_back
step_back_lem D law b key = elim (List-cases (D.seek b key)) [
  | inl nothing ↦
      let after = sym (law.seek_lem b key) ∙ nothing in
      rw (nothing, step_back, below-all key (D.first b) after) (law.last_lem b)
  | inr (x, xs, some_there) ↦ rw (some_there, step_back) (law.prev_lem b key)
]

below-in :
    (i u end : Bytes) (items : List Item)
    → bytes_lt i end ≡ true
    → below end ((i, u) ∷ items) ≡ (i, u) ∷ below end items
unfolding below
below-in i u end items h = rw h refl

below-out :
    (i u end : Bytes) (items : List Item)
    → bytes_lt i end ≡ false
    → below end ((i, u) ∷ items) ≡ below end items
unfolding below
below-out i u end items h = rw h refl

last_item-only :
    (x : Item) (items : List Item) → last_item items ≡ none → last_item (x ∷ items) ≡ some x
unfolding last_item
last_item-only x items h = rw h refl

last_item-more :
    (x y : Item) (items : List Item) → last_item items ≡ some y → last_item (x ∷ items) ≡ some y
unfolding last_item
last_item-more x y items h = rw h refl

last-below :
    (k end : Bytes) (items : List Item) (j w : Bytes)
    → AllAbove k items
    → last_item (below end items) ≡ some (j, w)
    → (bytes_lt k j ≡ true) × (bytes_lt j end ≡ true)
last-below k end [] j w above h = absurd (unfold below last_item in cc h)
last-below k end ((i, u) ∷ items) j w (first, above) h = elim (Bool-cases (bytes_lt i end)) [
  | inl less ↦
      let h1 : last_item ((i, u) ∷ below end items) ≡ some (j, w) =
        sym (ap last_item (below-in i u end items less)) ∙ h in
      elim (Option-cases (last_item (below end items))) [
        | inl nothing ↦
            let same : (i, u) ≡ (j, w) =
              some-injective (i, u) (j, w)
                (sym (last_item-only (i, u) (below end items) nothing) ∙ h1) in
            let key : i ≡ j = ap (λ x. x.0) same in (rw (← key) first, rw (← key) less)
        | inr (y, found) ↦
            last-below k end items j w above
              (found ∙ sym (last_item-more (i, u) y (below end items) found) ∙ h1)
      ]
  | inr not_less ↦
      last-below k end items j w above (sym (ap last_item (below-out i u end items not_less)) ∙ h)
]

unfoldable pub rows_below : Bytes → List Row → List Row
rows_below key [] = []
rows_below key (r ∷ rows) =
    let rest = rows_below key rows in
    if bytes_lt (entry_key r.chain_id r.global_seq) key then r ∷ rest else rest

pub rows_below-in :
    (key : Bytes) (r : Row) (rows : List Row)
    → bytes_lt (entry_key r.chain_id r.global_seq) key ≡ true
    → rows_below key (r ∷ rows) ≡ r ∷ rows_below key rows
unfolding rows_below
rows_below-in key r rows h = rw h refl

pub rows_below-out :
    (key : Bytes) (r : Row) (rows : List Row)
    → bytes_lt (entry_key r.chain_id r.global_seq) key ≡ false
    → rows_below key (r ∷ rows) ≡ rows_below key rows
unfolding rows_below
rows_below-out key r rows h = rw h refl

pub last_row-none : (rows : List Row) → last_row rows ≡ none → rows ≡ []
unfolding last_row
last_row-none [] h = refl
last_row-none (e ∷ []) h = cc h
last_row-none (e ∷ f ∷ rows) h = cc (last_row-none (f ∷ rows) h)

pub last_row-some :
    (r e : Row) (rows : List Row) → last_row rows ≡ some e → last_row (r ∷ rows) ≡ some e
unfolding last_row
last_row-some r e [] h = cc h
last_row-some r e (f ∷ rows) h = h

row_of-some :
    (C : Codec) (prefix k v : Bytes) (o : Option Row)
    → has_prefix k prefix ≡ true
    → row_of C prefix (some (k, v)) ≡ done o
    → (e : Row) × (o ≡ some e)
unfolding row_of
row_of-some C prefix k v o p h = elim (Option-cases (C.decode_row v)) [
  | inl bad ↦ absurd (cc (rw (p, bad) at h))
  | inr (e, good) ↦ (e, cc (rw (p, good) at h))
]

row_of-none : (C : Codec) (prefix : Bytes) → row_of C prefix none ≡ done none
unfolding row_of
row_of-none C prefix = refl

row_of-in :
    (C : Codec) (prefix k v : Bytes) (r : Row)
    → has_prefix k prefix ≡ true
    → C.decode_row v ≡ some r
    → row_of C prefix (some (k, v)) ≡ done (some r)
unfolding row_of
row_of-in C prefix k v r p h = rw (p, h) refl

row_of-out :
    (C : Codec) (prefix k v : Bytes)
    → has_prefix k prefix ≡ false
    → row_of C prefix (some (k, v)) ≡ done none
unfolding row_of
row_of-out C prefix k v p = rw p refl

module _ (C : Codec) (id : Bytes) (no_nul : contains id 0 ≡ false) (end : Bytes) where
  -- A row of another chain in front of the items below the end.
  before-other :
      (k v : Bytes) (items : List Item) (mine : List Row)
      → has_prefix k (chain_prefix id) ≡ false
      → row_of C (chain_prefix id) (last_item (below end items))
        ≡ done (last_row (rows_below end mine))
      → row_of C (chain_prefix id) (last_item ((k, v) ∷ below end items))
        ≡ done (last_row (rows_below end mine))
  before-other k v items mine other ih = elim (Option-cases (last_item (below end items))) [
    | inl nothing ↦
        ap (row_of C (chain_prefix id)) (last_item-only (k, v) (below end items) nothing)
        ∙ row_of-out C (chain_prefix id) k v other
        ∙ sym (row_of-none C (chain_prefix id))
        ∙ ap (row_of C (chain_prefix id)) (sym nothing)
        ∙ ih
    | inr (y, found) ↦
        ap (row_of C (chain_prefix id))
          (last_item-more (k, v) y (below end items) found ∙ sym found)
        ∙ ih
  ]

  -- A row of the chain.
  before-own :
      (k v : Bytes) (items : List Item) (r : Row) (mine : List Row)
      → has_prefix end (chain_prefix id) ≡ true
      → AllAbove k items
      → C.decode_row v ≡ some r
      → has_prefix k (chain_prefix id) ≡ true
      → row_of C (chain_prefix id) (last_item (below end items))
        ≡ done (last_row (rows_below end mine))
      → row_of C (chain_prefix id) (last_item ((k, v) ∷ below end items))
        ≡ done (last_row (r ∷ rows_below end mine))
  unfolding last_row
  before-own k v items r mine p above decoded own ih =
      elim (Option-cases (last_item (below end items))) [
        | inl nothing ↦
            let none_left : done none ≡ done (last_row (rows_below end mine)) =
              sym (row_of-none C (chain_prefix id))
              ∙ ap (row_of C (chain_prefix id)) (sym nothing)
              ∙ ih in
            let bare = last_row-none (rows_below end mine) (cc none_left) in
            ap (row_of C (chain_prefix id)) (last_item-only (k, v) (below end items) nothing)
            ∙ row_of-in C (chain_prefix id) k v r own decoded
            ∙ ap (λ l. done (last_row (r ∷ l))) (sym bare)
        | inr ((j, w), found) ↦
            let (after, within) = last-below k end items j w above found in
            let inside =
              between (chain_prefix id) k j end own p (bytes_lt_asym k j after)
                (bytes_lt_asym j end within) in
            let read : row_of C (chain_prefix id) (some (j, w)) ≡ _ =
              ap (row_of C (chain_prefix id)) (sym found) ∙ ih in
            let (e, last) = row_of-some C (chain_prefix id) j w _ inside read in
            ap (row_of C (chain_prefix id)) (last_item-more (k, v) (j, w) (below end items) found)
            ∙ read
            ∙ ap done (last ∙ sym (last_row-some r e (rows_below end mine) last))
      ]

  pub last-rows_of :
      (items : List Item) (rows : List Row)
      → has_prefix end (chain_prefix id) ≡ true
      → InKeyOrder items
      → Reads C items rows
      → row_of C (chain_prefix id) (last_item (below end items))
        ≡ done (last_row (rows_below end (rows_of id rows)))
  last-rows_of [] [] p o h = unfold row_of last_row below last_item rows_of rows_below in refl
  last-rows_of [] (r ∷ rows) p o h = absurd h
  last-rows_of (x ∷ items) [] p o h = absurd h
  last-rows_of ((k, v) ∷ items) (r ∷ rows) p (above, order)
        ((key, decoded, no_nul_r, small), rest) =
      let ih = last-rows_of items rows p order rest in
      let mine : has_prefix k (chain_prefix id) ≡ bytes_eq id r.chain_id =
        rw key (has_prefix-entry_key id r.chain_id r.global_seq no_nul no_nul_r) in
      elim (Bool-cases (bytes_lt k end)) [
        | inl less ↦ elim (Bool-cases (bytes_eq id r.chain_id)) [
          | inl own ↦
              ap (λ l. row_of C (chain_prefix id) (last_item l)) (below-in k v end items less)
              ∙ before-own k v items r (rows_of id rows) p above decoded (mine ∙ own) ih
              ∙ ap (λ l. done (last_row l))
                  (sym (rows_below-in end r (rows_of id rows) (rw (← key) less)))
              ∙ ap (λ l. done (last_row (rows_below end l))) (sym (rows_of-in id r rows own))
          | inr other ↦
              ap (λ l. row_of C (chain_prefix id) (last_item l)) (below-in k v end items less)
              ∙ before-other k v items (rows_of id rows) (mine ∙ other) ih
              ∙ ap (λ l. done (last_row (rows_below end l))) (sym (rows_of-out id r rows other))
        ]
        | inr not_less ↦ elim (Bool-cases (bytes_eq id r.chain_id)) [
          | inl own ↦
              ap (λ l. row_of C (chain_prefix id) (last_item l)) (below-out k v end items not_less)
              ∙ ih
              ∙ ap (λ l. done (last_row l))
                  (sym (rows_below-out end r (rows_of id rows) (rw (← key) not_less)))
              ∙ ap (λ l. done (last_row (rows_below end l))) (sym (rows_of-in id r rows own))
          | inr other ↦
              ap (λ l. row_of C (chain_prefix id) (last_item l)) (below-out k v end items not_less)
              ∙ ih
              ∙ ap (λ l. done (last_row (rows_below end l))) (sym (rows_of-out id r rows other))
        ]
      ]
