-- ===== src/Store/Bolt/Ranges.antt =====
-- store/bolt/bolt.go: the walk of Range over the keys.
use proof.Prelude.{
  ◌≡◌, refl, sym, ap, ◌∙◌, List, [], ◌∷◌, ◌++◌, some, Bool, true, false, not, ◌==◌, ◌&&◌, ◌||◌, ◌^◌,
  ◌<◌, inl, inr, Bool-cases, All, length, arith,
}
use proof.Prelude.Bytes.{Bytes, bytes_eq, bytes_lt, has_prefix, contains}
use proof.Prelude.Int64.{Int64, int_lt}
use proof.Prelude.Order.{bytes_lt_trans}
use proof.Store.{Row}
use proof.Store.Memory.{range_rows}
use proof.Store.Bolt.{
  Item, Codec, Answer, done, from, AllAbove, InKeyOrder, chain_prefix, entry_key,
}
use proof.Store.Bolt.Read.{range_items}
use proof.Store.Bolt.Keys.{has_prefix-entry_key, entry_key-prefix}
use proof.Store.Bolt.Rows.{Reads, rows_of, rows_of-in, rows_of-out}
use proof.Store.Bolt.Own.{OwnAbove, Keyed-Own, AllAbove-Own, none_after, key_order}

pub from-in :
    (k v start : Bytes) (items : List Item)
    → bytes_lt k start ≡ false
    → from start ((k, v) ∷ items) ≡ (k, v) ∷ from start items
unfolding from
from-in k v start items h = rw h refl

pub from-out :
    (k v start : Bytes) (items : List Item)
    → bytes_lt k start ≡ true
    → from start ((k, v) ∷ items) ≡ from start items
unfolding from
from-out k v start items h = rw h refl

abbrev outside : Int64 → Int64 → Row → Bool
outside start end r = int_lt r.global_seq start || int_lt end r.global_seq

abbrev full : Int64 → List Row → Bool
full limit out = int_lt 0 limit && length out == limit

rows-skip :
    (start end limit : Int64) (out rows : List Row) (r : Row)
    → outside start end r ≡ true
    → range_rows start end limit out (r ∷ rows) ≡ range_rows start end limit out rows
unfolding range_rows
rows-skip start end limit out rows r h = rw h refl

rows-full :
    (start end limit : Int64) (out rows : List Row) (r : Row)
    → outside start end r ≡ false
    → full limit (out ++ r ∷ []) ≡ true
    → range_rows start end limit out (r ∷ rows) ≡ out ++ r ∷ []
unfolding range_rows
rows-full start end limit out rows r h f = rw (h, f) refl

rows-more :
    (start end limit : Int64) (out rows : List Row) (r : Row)
    → outside start end r ≡ false
    → full limit (out ++ r ∷ []) ≡ false
    → range_rows start end limit out (r ∷ rows) ≡ range_rows start end limit (out ++ r ∷ []) rows
unfolding range_rows
rows-more start end limit out rows r h f = rw (h, f) refl

module _ (C : Codec) (prefix stop : Bytes) (limit : Int64) (out : List Row) where
  items-stop :
      (k v : Bytes) (items : List Item)
      → (not (has_prefix k prefix) || bytes_lt stop k) ≡ true
      → range_items C prefix stop limit out ((k, v) ∷ items) ≡ done out
  unfolding range_items
  items-stop k v items h = rw h refl

  items-full :
      (k v : Bytes) (items : List Item) (r : Row)
      → (not (has_prefix k prefix) || bytes_lt stop k) ≡ false
      → C.decode_row v ≡ some r
      → full limit (out ++ r ∷ []) ≡ true
      → range_items C prefix stop limit out ((k, v) ∷ items) ≡ done (out ++ r ∷ [])
  unfolding range_items
  items-full k v items r h d f = rw (h, d, f) refl

  items-more :
      (k v : Bytes) (items : List Item) (r : Row)
      → (not (has_prefix k prefix) || bytes_lt stop k) ≡ false
      → C.decode_row v ≡ some r
      → full limit (out ++ r ∷ []) ≡ false
      → range_items C prefix stop limit out ((k, v) ∷ items)
        ≡ range_items C prefix stop limit (out ++ r ∷ []) items
  unfolding range_items
  items-more k v items r h d f = rw (h, d, f) refl

-- Nothing is taken from rows past the end.
range_rows-past :
    (id : Bytes) (start end limit : Int64) (k : Bytes) (out rows : List Row)
    → end < 2 ^ 63
    → bytes_lt (entry_key id end) k ≡ true
    → All (OwnAbove id k) rows
    → range_rows start end limit out rows ≡ out
unfolding range_rows
range_rows-past id start end limit k out [] he past above = refl
range_rows-past id start end limit k out (r ∷ rows) he past (((same, small), after), above) =
    let beyond : int_lt end r.global_seq ≡ true =
      sym (key_order id end r.global_seq he small)
      ∙ bytes_lt_trans (entry_key id end) k (entry_key id r.global_seq) past after in
    let out_of : outside start end r ≡ true = ground (arith, beyond) in
    rows-skip start end limit out rows r out_of
    ∙ range_rows-past id start end limit k out rows he past above

module _ (C : Codec) (id : Bytes) (no_nul : contains id 0 ≡ false) (start end limit : Int64) where
  abbrev walk : List Row → List Item → Answer (List Row)
  walk out items = range_items C (chain_prefix id) (entry_key id end) limit out items

  -- An item of another chain is before the start, or it ends the walk.
  other_lem :
      (out : List Row) (k v : Bytes) (items : List Item) (rows : List Row)
      → has_prefix k (chain_prefix id) ≡ false
      → AllAbove k items
      → Reads C items rows
      → walk out (from (entry_key id start) items)
        ≡ done (range_rows start end limit out (rows_of id rows))
      → walk out (from (entry_key id start) ((k, v) ∷ items))
        ≡ done (range_rows start end limit out (rows_of id rows))
  unfolding range_rows
  other_lem out k v items rows other above rest ih =
      elim (Bool-cases (bytes_lt k (entry_key id start))) [
        | inl less ↦ ap (walk out) (from-out k v (entry_key id start) items less) ∙ ih
        | inr not_less ↦
            let bare =
              none_after id (entry_key id start) k (rows_of id rows) (entry_key-prefix id start)
                other not_less (AllAbove-Own C id k items rows above rest) in
            ap (walk out) (from-in k v (entry_key id start) items not_less)
            ∙ items-stop C (chain_prefix id) (entry_key id end) limit out k v
                (from (entry_key id start) items) (rw other refl)
            ∙ ap (λ l. done (range_rows start end limit out l)) (sym bare)
      ]

  -- A row of the chain at the start or after it.
  reached_lem :
      (out : List Row) (k v : Bytes) (items : List Item) (r : Row) (rows : List Row)
      → r.global_seq < 2 ^ 63
      → C.decode_row v ≡ some r
      → has_prefix k (chain_prefix id) ≡ true
      → int_lt r.global_seq start ≡ false
      → bytes_lt (entry_key id end) k ≡ int_lt end r.global_seq
      → AllAbove k items
      → Reads C items rows
      → end < 2 ^ 63
      → ((o : List Row)
          → walk o (from (entry_key id start) items)
            ≡ done (range_rows start end limit o (rows_of id rows)))
      → walk out ((k, v) ∷ from (entry_key id start) items)
        ≡ done (range_rows start end limit out (r ∷ rows_of id rows))
  reached_lem out k v items r rows small decoded own reached at_end above rest he ih =
      let left = from (entry_key id start) items in
      elim (Bool-cases (int_lt end r.global_seq)) [
        | inl past ↦
            let beyond = at_end ∙ past in
            let out_of : outside start end r ≡ true = ground (arith, past) in
            items-stop C (chain_prefix id) (entry_key id end) limit out k v left
              (rw (own, beyond) refl)
            ∙ ap done (
                sym (
                  rows-skip start end limit out (rows_of id rows) r out_of
                  ∙ range_rows-past id start end limit k out (rows_of id rows) he beyond
                      (AllAbove-Own C id k items rows above rest)))
        | inr within ↦
            let not_out : outside start end r ≡ false = ground (arith, reached, within) in
            let go_on : (not (has_prefix k (chain_prefix id)) || bytes_lt (entry_key id end) k)
                ≡ false =
              rw (own, at_end) within in
            elim (Bool-cases (full limit (out ++ r ∷ []))) [
              | inl full_now ↦
                  items-full C (chain_prefix id) (entry_key id end) limit out k v left r go_on
                    decoded full_now
                  ∙ ap done
                      (sym (rows-full start end limit out (rows_of id rows) r not_out full_now))
              | inr not_full ↦
                  items-more C (chain_prefix id) (entry_key id end) limit out k v left r go_on
                    decoded not_full
                  ∙ ih (out ++ r ∷ [])
                  ∙ ap done
                      (sym (rows-more start end limit out (rows_of id rows) r not_out not_full))
            ]
      ]

  own_lem :
      (out : List Row) (k v : Bytes) (items : List Item) (r : Row) (rows : List Row)
      → k ≡ entry_key id r.global_seq
      → r.global_seq < 2 ^ 63
      → C.decode_row v ≡ some r
      → has_prefix k (chain_prefix id) ≡ true
      → AllAbove k items
      → Reads C items rows
      → start < 2 ^ 63
      → end < 2 ^ 63
      → ((o : List Row)
          → walk o (from (entry_key id start) items)
            ≡ done (range_rows start end limit o (rows_of id rows)))
      → walk out (from (entry_key id start) ((k, v) ∷ items))
        ≡ done (range_rows start end limit out (r ∷ rows_of id rows))
  own_lem out k v items r rows key small decoded own above rest hs he ih =
      let at_start : bytes_lt k (entry_key id start) ≡ int_lt r.global_seq start =
        rw key (key_order id r.global_seq start small hs) in
      let at_end : bytes_lt (entry_key id end) k ≡ int_lt end r.global_seq =
        rw key (key_order id end r.global_seq he small) in
      elim (Bool-cases (bytes_lt k (entry_key id start))) [
        | inl less ↦
            let before = sym at_start ∙ less in
            ap (walk out) (from-out k v (entry_key id start) items less)
            ∙ ih out
            ∙ ap done
                (sym (rows-skip start end limit out (rows_of id rows) r (ground (arith, before))))
        | inr not_less ↦
            ap (walk out) (from-in k v (entry_key id start) items not_less)
            ∙ reached_lem out k v items r rows small decoded own (sym at_start ∙ not_less) at_end
                above rest he ih
      ]

  pub range_lem :
      (out : List Row) (items : List Item) (rows : List Row)
      → start < 2 ^ 63
      → end < 2 ^ 63
      → InKeyOrder items
      → Reads C items rows
      → range_items C
          (chain_prefix id)
          (entry_key id end)
          limit
          out
          (from (entry_key id start) items)
        ≡ done (range_rows start end limit out (rows_of id rows))
  range_lem out [] [] hs he o h = unfold range_items from range_rows rows_of in refl
  range_lem out [] (r ∷ rows) hs he o h = absurd h
  range_lem out (x ∷ items) [] hs he o h = absurd h
  range_lem out ((k, v) ∷ items) (r ∷ rows) hs he (above, order) (keyed, rest) =
      let (key, decoded, no_nul_r, small) = keyed in
      let mine : has_prefix k (chain_prefix id) ≡ bytes_eq id r.chain_id =
        rw key (has_prefix-entry_key id r.chain_id r.global_seq no_nul no_nul_r) in
      elim (Bool-cases (bytes_eq id r.chain_id)) [
        | inl own ↦
            let own_key = (Keyed-Own C id (k, v) r keyed own).1 in
            own_lem out k v items r rows own_key small decoded (mine ∙ own) above rest hs he
              (λ o. range_lem o items rows hs he order rest)
            ∙ ap (λ l. done (range_rows start end limit out l)) (sym (rows_of-in id r rows own))
        | inr other ↦
            other_lem out k v items rows (mine ∙ other) above rest
              (range_lem out items rows hs he order rest)
            ∙ ap (λ l. done (range_rows start end limit out l)) (sym (rows_of-out id r rows other))
      ]
