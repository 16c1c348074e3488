-- ===== src/Store/Bolt/Ends.antt =====
-- store/bolt/bolt.go: the walk of Bounds over the keys.
use proof.Prelude.{◌≡◌, refl, sym, ap, ◌∙◌, List, [], ◌∷◌, some, true, false, inl, inr, Bool-cases}
use proof.Prelude.Bytes.{Bytes, bytes_eq, bytes_lt, has_prefix, contains}
use proof.Prelude.Int64.{Int64}
use proof.Prelude.Order.{has_prefix_refl, bytes_lt_asym}
use proof.Store.{Row}
use proof.Store.Memory.{empty_chain}
use proof.Store.Bolt.{
  Item, Codec, shared, Answer, done, failed, from, AllAbove, InKeyOrder, chain_prefix,
}
use proof.Store.Bolt.Read.{seq_in, last_seq, both_bounds, bounds_of}
use proof.Store.Bolt.Keys.{has_prefix-entry_key, entry_key-from}
use proof.Store.Bolt.Rows.{Reads, rows_of, rows_of-in, rows_of-out}
use proof.Store.Bolt.Own.{Keyed-Own, AllAbove-Own, none_after, seq_in-entry_key}
use proof.Store.Bolt.Ranges.{from-in, from-out}

-- The number of the last row, or the one so far.
unfoldable pub max_of : Int64 → List Row → Int64
max_of max [] = max
max_of max (r ∷ rows) = max_of r.global_seq rows

-- The bounds of a chain's rows.
unfoldable pub bounds_in : List Row → Answer (Int64 × Int64)
bounds_in [] = failed (shared empty_chain)
bounds_in (r ∷ rows) = done (r.global_seq, max_of r.global_seq rows)

seq-own :
    (prefix k v : Bytes) (max n : Int64) (items : List Item)
    → has_prefix k prefix ≡ true
    → seq_in prefix k ≡ some n
    → last_seq prefix max ((k, v) ∷ items) ≡ last_seq prefix n items
unfolding last_seq
seq-own prefix k v max n items own h = rw (own, h) refl

seq-other :
    (prefix k v : Bytes) (max : Int64) (items : List Item)
    → has_prefix k prefix ≡ false
    → last_seq prefix max ((k, v) ∷ items) ≡ done max
unfolding last_seq
seq-other prefix k v max items other = rw other refl

bounds-own :
    (prefix k v : Bytes) (n : Int64) (items : List Item)
    → has_prefix k prefix ≡ true
    → seq_in prefix k ≡ some n
    → bounds_of prefix ((k, v) ∷ items) ≡ both_bounds n (last_seq prefix n items)
unfolding bounds_of
bounds-own prefix k v n items own h =
    rw (own, h) (ap (both_bounds n) (seq-own prefix k v n n items own h))

bounds-other :
    (prefix k v : Bytes) (items : List Item)
    → has_prefix k prefix ≡ false
    → bounds_of prefix ((k, v) ∷ items) ≡ failed (shared empty_chain)
unfolding bounds_of
bounds-other prefix k v items other = rw other refl

module _ (C : Codec) (id : Bytes) (no_nul : contains id 0 ≡ false) where
  -- From a key of the chain or its prefix on, the walk goes over the chain's rows alone.
  last_seq_lem :
      (start : Bytes) (max : Int64) (items : List Item) (rows : List Row)
      → has_prefix start (chain_prefix id) ≡ true
      → AllAbove start items
      → InKeyOrder items
      → Reads C items rows
      → last_seq (chain_prefix id) max (from (chain_prefix id) items)
        ≡ done (max_of max (rows_of id rows))
  unfolding max_of
  last_seq_lem start max [] [] hs a o h = unfold last_seq from rows_of in refl
  last_seq_lem start max [] (r ∷ rows) hs a o h = absurd h
  last_seq_lem start max (x ∷ items) [] hs a o h = absurd h
  last_seq_lem start max ((k, v) ∷ items) (r ∷ rows) hs (after, a) (above, order) (keyed, rest) =
      let (key, decoded, no_nul_r, small) = keyed in
      let mine : has_prefix k (chain_prefix id) ≡ bytes_eq id r.chain_id =
        rw key (has_prefix-entry_key id r.chain_id r.global_seq no_nul no_nul_r) in
      let p = chain_prefix id in
      elim (Bool-cases (bytes_eq id r.chain_id)) [
        | inl own ↦
            let own_key = (Keyed-Own C id (k, v) r keyed own).1 in
            let at : bytes_lt k p ≡ false = rw own_key (entry_key-from id r.global_seq) in
            let number : seq_in p k ≡ some r.global_seq =
              rw own_key (seq_in-entry_key id r.global_seq small) in
            ap (last_seq p max) (from-in k v p items at)
            ∙ seq-own p k v max r.global_seq (from p items) (mine ∙ own) number
            ∙ last_seq_lem start r.global_seq items rows hs a order rest
            ∙ ap (λ l. done (max_of max l)) (sym (rows_of-in id r rows own))
        | inr other ↦ elim (Bool-cases (bytes_lt k p)) [
          | inl less ↦
              ap (last_seq p max) (from-out k v p items less)
              ∙ last_seq_lem start max items rows hs a order rest
              ∙ ap (λ l. done (max_of max l)) (sym (rows_of-out id r rows other))
          | inr not_less ↦
              let bare =
                none_after id start k (rows_of id rows) hs (mine ∙ other)
                  (bytes_lt_asym start k after) (AllAbove-Own C id k items rows above rest) in
              ap (last_seq p max) (from-in k v p items not_less)
              ∙ seq-other p k v max (from p items) (mine ∙ other)
              ∙ ap (λ l. done (max_of max l)) (sym (rows_of-out id r rows other ∙ bare))
        ]
      ]

  both_of : (min max : Int64) → both_bounds min (done max) ≡ done (min, max)
  unfolding both_bounds
  both_of min max = refl

  first_of :
      (r : Row) (rows : List Row)
      → done (r.global_seq, max_of r.global_seq rows) ≡ bounds_in (r ∷ rows)
  unfolding bounds_in
  first_of r rows = refl

  empty_of : failed (shared empty_chain) ≡ bounds_in []
  unfolding bounds_in
  empty_of = refl

  pub bounds_lem :
      (items : List Item) (rows : List Row)
      → InKeyOrder items
      → Reads C items rows
      → bounds_of (chain_prefix id) (from (chain_prefix id) items) ≡ bounds_in (rows_of id rows)
  bounds_lem [] [] o h = unfold bounds_of from rows_of bounds_in in refl
  bounds_lem [] (r ∷ rows) o h = absurd h
  bounds_lem (x ∷ items) [] o h = absurd h
  bounds_lem ((k, v) ∷ items) (r ∷ rows) (above, order) (keyed, rest) =
      let (key, decoded, no_nul_r, small) = keyed in
      let mine : has_prefix k (chain_prefix id) ≡ bytes_eq id r.chain_id =
        rw key (has_prefix-entry_key id r.chain_id r.global_seq no_nul no_nul_r) in
      let p = chain_prefix id in
      elim (Bool-cases (bytes_eq id r.chain_id)) [
        | inl own ↦
            let own_key = (Keyed-Own C id (k, v) r keyed own).1 in
            let at : bytes_lt k p ≡ false = rw own_key (entry_key-from id r.global_seq) in
            let number : seq_in p k ≡ some r.global_seq =
              rw own_key (seq_in-entry_key id r.global_seq small) in
            ap (bounds_of p) (from-in k v p items at)
            ∙ bounds-own p k v r.global_seq (from p items) (mine ∙ own) number
            ∙ ap (both_bounds r.global_seq)
                (last_seq_lem k r.global_seq items rows (mine ∙ own) above order rest)
            ∙ both_of r.global_seq (max_of r.global_seq (rows_of id rows))
            ∙ first_of r (rows_of id rows)
            ∙ ap bounds_in (sym (rows_of-in id r rows own))
        | inr other ↦ elim (Bool-cases (bytes_lt k p)) [
          | inl less ↦
              ap (bounds_of p) (from-out k v p items less)
              ∙ bounds_lem items rows order rest
              ∙ ap bounds_in (sym (rows_of-out id r rows other))
          | inr not_less ↦
              let bare =
                none_after id p k (rows_of id rows) (has_prefix_refl p) (mine ∙ other) not_less
                  (AllAbove-Own C id k items rows above rest) in
              ap (bounds_of p) (from-in k v p items not_less)
              ∙ bounds-other p k v (from p items) (mine ∙ other)
              ∙ empty_of
              ∙ ap bounds_in (sym (rows_of-out id r rows other ∙ bare))
        ]
      ]
