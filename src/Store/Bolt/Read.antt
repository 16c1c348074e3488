-- ===== src/Store/Bolt/Read.antt =====
-- store/bolt/bolt.go: the methods that read.
use proof.Prelude.{
  ℕ, List, [], ◌∷◌, ◌++◌, Option, none, some, true, false, not, ◌==◌, ◌&&◌, ◌||◌, if◌then◌else◌,
  length, drop,
}
use proof.Prelude.Bytes.{Bytes, bytes_lt, has_prefix}
use proof.Prelude.Int64.{Int64, int_lt, is_neg}
use proof.Prelude.BigEndian.{get_uint64}
use proof.Store.{Row, State, Tail}
use proof.Store.Memory.{cancelled_context, empty_chain, not_found}
use proof.Store.Bolt.{
  Item, Engine, Codec, Db, Call, shared, decode_failed, corrupt, Answer, done, failed, view,
  chain_prefix, entry_key,
}

-- `Seek`, then one step back: `Last` when nothing is at the key or after it, else `Prev`.
unfoldable pub step_back : (D : Engine) → D.Bucket → Bytes → Option Item
step_back D b key = elim (D.seek b key) [ [] ↦ D.last b | x ∷ items ↦ D.prev b key ]

-- What the item decodes to, when it is one of the chain's.
unfoldable pub row_of : Codec → Bytes → Option Item → Answer (Option Row)
row_of C prefix none = done none
row_of C prefix (some (k, v)) =
    if has_prefix k prefix
    then elim (C.decode_row v) [ none ↦ failed decode_failed | some e ↦ done (some e) ]
    else done none

unfoldable pub tail_of_row : Bytes → Answer (Option Row) → Answer Tail
tail_of_row id (failed e) = failed e
tail_of_row id (done none) =
    done (record { chain_id = id; empty = true; hash = []; global_seq = 0 })
tail_of_row id (done (some e)) =
    done (record { chain_id = id; empty = false; hash = e.chain_hash; global_seq = e.global_seq })

unfoldable pub found_tail : Answer Tail → Answer (Bytes × Int64)
found_tail (failed e) = failed e
found_tail (done t) = if t.empty then failed (shared empty_chain) else done (t.hash, t.global_seq)

unfoldable pub found_row : Answer (Option Row) → Answer Row
found_row (failed e) = failed e
found_row (done none) = failed (shared not_found)
found_row (done (some e)) = done e

module _ (C : Codec) where
  -- The loop of `Range`, with the rows taken so far; a limit that is not positive is none.
  unfoldable pub range_items : Bytes → Bytes → Int64 → List Row → List Item → Answer (List Row)
  range_items prefix stop limit out [] = done out
  range_items prefix stop limit out ((k, v) ∷ items) =
      if not (has_prefix k prefix) || bytes_lt stop k then done out else elim (C.decode_row v) [
        | none ↦ failed decode_failed
        | some e ↦
            let more = range_items prefix stop limit (out ++ e ∷ []) items in
            if int_lt 0 limit && length (out ++ e ∷ []) == limit then done (out ++ e ∷ []) else more
      ]

  unfoldable pub found_state : Option Bytes → Answer State
  found_state none = failed (shared not_found)
  found_state (some raw) = elim (C.decode_state raw) [
    | none ↦ failed decode_failed
    | some st ↦ done st
  ]

module _ (D : Engine) (C : Codec) where
  unfoldable pub tail_of : D.Bucket → Bytes → Answer Tail
  tail_of b id =
      tail_of_row id (row_of C (chain_prefix id) (step_back D b (chain_prefix id ++ 255 ∷ [])))

  unfoldable pub read_tail : Call → Db D → Bytes → Answer (Bytes × Int64)
  read_tail call db id =
      if call.cancelled
      then failed (shared cancelled_context)
      else found_tail (view call (tail_of db.entries id))

  unfoldable pub predecessor : Call → Db D → Bytes → Int64 → Answer Row
  predecessor call db id start =
      if call.cancelled
      then failed (shared cancelled_context)
      else found_row
          (view call (row_of C (chain_prefix id) (step_back D db.entries (entry_key id start))))

  unfoldable pub range : Call → Db D → Bytes → Int64 → Int64 → Int64 → Answer (List Row)
  range call db id start end limit =
      if call.cancelled
      then failed (shared cancelled_context)
      else let start = if is_neg start then 0 else start in
        view call (
          range_items C (chain_prefix id) (entry_key id end) limit []
            (D.seek db.entries (entry_key id start)))

  unfoldable pub get_state : Call → Db D → Bytes → Answer State
  get_state call db id =
      if call.cancelled
      then failed (shared cancelled_context)
      else view call (found_state C (D.get db.state id))

-- The number in a key, behind the chain's prefix.
unfoldable pub seq_in : Bytes → Bytes → Option ℕ
seq_in prefix k = get_uint64 (drop (length prefix) k)

-- The loop of `Bounds`, with the highest number so far.
unfoldable pub last_seq : Bytes → Int64 → List Item → Answer Int64
last_seq prefix max [] = done max
last_seq prefix max ((k, v) ∷ items) =
    if has_prefix k prefix
    then elim (seq_in prefix k) [ none ↦ failed corrupt | some n ↦ last_seq prefix n items ]
    else done max

unfoldable pub both_bounds : Int64 → Answer Int64 → Answer (Int64 × Int64)
both_bounds min (failed e) = failed e
both_bounds min (done max) = done (min, max)

unfoldable pub bounds_of : Bytes → List Item → Answer (Int64 × Int64)
bounds_of prefix [] = failed (shared empty_chain)
bounds_of prefix ((k, v) ∷ items) =
    if has_prefix k prefix
    then elim (seq_in prefix k) [
      | none ↦ failed corrupt
      | some min ↦ both_bounds min (last_seq prefix min ((k, v) ∷ items))
    ]
    else failed (shared empty_chain)

module _ (D : Engine) where
  unfoldable pub bounds : Call → Db D → Bytes → Answer (Int64 × Int64)
  bounds call db id =
      if call.cancelled
      then failed (shared cancelled_context)
      else view call (bounds_of (chain_prefix id) (D.seek db.entries (chain_prefix id)))
