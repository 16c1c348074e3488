-- ===== src/Store/Bolt/Lookup.antt =====
-- store/bolt/bolt.go: the methods that read, beside those of store/memory/memory.go.
use proof.Prelude.{
  ◌≡◌, refl, sym, ap, ◌∙◌, List, [], ◌∷◌, ◌++◌, Option, none, some, true, false, if◌then◌else◌, ◌^◌,
  ◌<◌, inl, inr, Bool-cases, Option-cases, All, arith,
}
use proof.Prelude.Bytes.{Bytes, bytes_lt, has_prefix, contains}
use proof.Prelude.Int64.{Int64, int_lt, is_neg}
use proof.Prelude.Order.{has_prefix-append}
use proof.Store.{Row, State}
use proof.Store.Memory
use proof.Store.Memory.{
  Outcome, ok, err, Store, empty_chain, not_found, last_row, best_before, range_rows,
}
use proof.Store.Bolt.{
  Engine, IsEngine, Codec, Db, Call, shared, Answer, done, failed, view, chain_prefix, entry_key,
}
use proof.Store.Bolt.Read.{
  step_back, row_of, tail_of_row, found_tail, found_row, range_items, found_state, bounds_of,
  tail_of, read_tail, predecessor, range, get_state, bounds,
}
use proof.Store.Bolt.Keys.{entry_key-end, entry_key-prefix}
use proof.Store.Bolt.Rows.{rows_of, SameState, Refines}
use proof.Store.Bolt.StepBack.{
  last_row-none, step_back_lem, rows_below, rows_below-in, rows_below-out, last-rows_of,
}
use proof.Store.Bolt.Own.{Own, Reads-Own, key_order}
use proof.Store.Bolt.Ranges.{range_lem}
use proof.Store.Bolt.Ends.{max_of, bounds_in, bounds_lem}

unfoldable pub as_answer : {A : Type 0} → Outcome A → Answer A
as_answer (ok a) = done a
as_answer (err e) = failed (shared e)

rows_below-end :
    (id : Bytes) (rows : List Row)
    → All (Own id) rows
    → rows_below (chain_prefix id ++ 255 ∷ []) rows ≡ rows
rows_below-end id [] h = unfold rows_below in refl
rows_below-end id (r ∷ rows) ((same, small), h) =
    rows_below-in (chain_prefix id ++ 255 ∷ []) r rows
      (rw same (entry_key-end id r.global_seq small))
    ∙ ap (λ l. r ∷ l) (rows_below-end id rows h)

unfoldable or_else : Option Row → Option Row → Option Row
or_else best none = best
or_else best (some e) = some e

or_else-last :
    (r : Row) (best : Option Row) (rows : List Row)
    → or_else (some r) (last_row rows) ≡ or_else best (last_row (r ∷ rows))
unfolding or_else last_row
or_else-last r best [] = refl
or_else-last r best (f ∷ rows) = elim (Option-cases (last_row (f ∷ rows))) [
  | inl nothing ↦ absurd (cc (last_row-none (f ∷ rows) nothing))
  | inr (e, found) ↦ rw found refl
]

-- The best row before a number, when `best` is the one so far.
best_before-below :
    (id : Bytes) (start : Int64) (best : Option Row) (rows : List Row)
    → start < 2 ^ 63
    → All (Own id) rows
    → best_before start best rows ≡ or_else best (last_row (rows_below (entry_key id start) rows))
unfolding best_before
best_before-below id start best [] hs h = unfold rows_below last_row or_else in refl
best_before-below id start best (r ∷ rows) hs ((same, small), h) =
    let key : bytes_lt (entry_key r.chain_id r.global_seq) (entry_key id start)
        ≡ int_lt r.global_seq start =
      rw same (key_order id r.global_seq start small hs) in
    elim (Bool-cases (int_lt r.global_seq start)) [
      | inl less ↦ rw less (
          best_before-below id start (some r) rows hs h
          ∙ or_else-last r best (rows_below (entry_key id start) rows)
          ∙ ap (λ l. or_else best (last_row l))
              (sym (rows_below-in (entry_key id start) r rows (key ∙ less))))
      | inr not_less ↦ rw not_less (
          best_before-below id start best rows hs h
          ∙ ap (λ l. or_else best (last_row l))
              (sym (rows_below-out (entry_key id start) r rows (key ∙ not_less))))
    ]

range_rows-start :
    (id : Bytes) (start end limit : Int64) (out rows : List Row)
    → start < 2 ^ 64
    → is_neg start ≡ true
    → All (Own id) rows
    → range_rows start end limit out rows ≡ range_rows 0 end limit out rows
unfolding range_rows
range_rows-start id start end limit out [] hs neg h = refl
range_rows-start id start end limit out (r ∷ rows) hs neg ((same, small), h) =
    let rest = range_rows-start id start end limit out rows hs neg h in
    let more = range_rows-start id start end limit (out ++ r ∷ []) rows hs neg h in
    let early : int_lt r.global_seq start ≡ false = ground arith in
    let first : int_lt r.global_seq 0 ≡ false = ground arith in rw (early, first, rest, more) refl

last_row-max :
    (r : Row) (rows : List Row)
    → (e : Row) × (last_row (r ∷ rows) ≡ some e) × (e.global_seq ≡ max_of r.global_seq rows)
unfolding last_row max_of
last_row-max r [] = (r, refl, refl)
last_row-max r (f ∷ rows) = last_row-max f rows

tail_answer :
    (id : Bytes) (rows : List Row)
    → found_tail (tail_of_row id (done (last_row rows)))
      ≡ as_answer (elim (last_row rows) [
        | none ↦ err empty_chain
        | some e ↦ ok (e.chain_hash, e.global_seq)
      ])
unfolding found_tail tail_of_row as_answer
tail_answer id rows = elim (Option-cases (last_row rows)) [
  | inl nothing ↦ rw nothing refl
  | inr (e, found) ↦ rw found refl
]

row_answer :
    (o : Option Row)
    → found_row (done o) ≡ as_answer (elim o [ none ↦ err not_found | some e ↦ ok e ])
unfolding found_row as_answer
row_answer none = refl
row_answer (some e) = refl

or_else-none : (o : Option Row) → or_else none o ≡ o
unfolding or_else
or_else-none none = refl
or_else-none (some e) = refl

state_answer :
    (C : Codec) (raw : Option Bytes) (st : Option State)
    → SameState C raw st
    → found_state C raw ≡ as_answer (elim st [ none ↦ err not_found | some st ↦ ok st ])
unfolding found_state as_answer
state_answer C none none h = refl
state_answer C none (some st) h = absurd h
state_answer C (some raw) none h = absurd h
state_answer C (some raw) (some st) h = rw (h, found_state) refl

bounds_answer :
    (rows : List Row)
    → bounds_in rows
      ≡ as_answer (elim rows [
        | [] ↦ err empty_chain
        | first ∷ others ↦ elim (last_row (first ∷ others)) [
          | none ↦ err empty_chain
          | some l ↦ ok (first.global_seq, l.global_seq)
        ]
      ])
unfolding bounds_in as_answer
bounds_answer [] = refl
bounds_answer (r ∷ rows) =
    let (e, found, number) = last_row-max r rows in
    rw found (ap (λ m. done (r.global_seq, m)) (sym number))

module _ (D : Engine) (law : IsEngine D) (C : Codec) (db : Db D) (s : Store)
    (same : Refines D C db s) (call : Call) (begins : call.begins ≡ true) (id : Bytes)
    (no_nul : contains id 0 ≡ false) where
  begun : {A : Type 0} (a : Answer A) → view call a ≡ a
  unfolding view
  begun a = rw begins refl

  rows-Own : All (Own id) (rows_of id same.rows)
  rows-Own = Reads-Own C id (D.first db.entries) same.rows same.reads

  before_end :
      (end : Bytes)
      → has_prefix end (chain_prefix id) ≡ true
      → row_of C (chain_prefix id) (step_back D db.entries end)
        ≡ done (last_row (rows_below end (rows_of id same.rows)))
  before_end end p =
      ap (row_of C (chain_prefix id)) (step_back_lem D law db.entries end)
      ∙ last-rows_of C id no_nul end (D.first db.entries) same.rows p (law.in_order db.entries)
          same.reads

  pub tail_lem : tail_of D C db.entries id ≡ tail_of_row id (done (last_row (s.entries id)))
  unfolding tail_of
  tail_lem = ap (tail_of_row id) (
      before_end (chain_prefix id ++ 255 ∷ []) (has_prefix-append (chain_prefix id) (255 ∷ []))
      ∙ ap (λ l. done (last_row l))
          (rows_below-end id (rows_of id same.rows) rows-Own ∙ sym (same.entries id no_nul)))

  read_tail-Refines : read_tail D C call db id ≡ as_answer (Memory.read_tail call.cancelled s id)
  unfolding read_tail Memory.read_tail
  read_tail-Refines = elim (Bool-cases call.cancelled) [
    | inl ended ↦ rw ended (unfold as_answer in refl)
    | inr not_ended ↦
        rw (begun (tail_of D C db.entries id), not_ended, tail_lem) (tail_answer id (s.entries id))
  ]

  bounds-Refines : bounds D call db id ≡ as_answer (Memory.bounds call.cancelled s id)
  unfolding bounds Memory.bounds
  bounds-Refines = elim (Bool-cases call.cancelled) [
    | inl ended ↦ rw ended (unfold as_answer in refl)
    | inr not_ended ↦
        rw
          (
            begun (bounds_of (chain_prefix id) (D.seek db.entries (chain_prefix id))),
            not_ended,
            law.seek_lem db.entries (chain_prefix id),
            bounds_lem C id no_nul (D.first db.entries) same.rows (law.in_order db.entries)
                same.reads,
            same.entries id no_nul,
          )
          (bounds_answer (rows_of id same.rows))
  ]

  get_state-Refines : get_state D C call db id ≡ as_answer (Memory.get_state call.cancelled s id)
  unfolding get_state Memory.get_state
  get_state-Refines = elim (Bool-cases call.cancelled) [
    | inl ended ↦ rw ended (unfold as_answer in refl)
    | inr not_ended ↦
        rw (begun (found_state C (D.get db.state id)), not_ended)
          (state_answer C (D.get db.state id) (s.state id) (same.state id))
  ]

  -- Once bbolt begins the transaction, `ReadTail`, `Bounds` and `GetState` answer for a chain without
  -- a NUL byte in its name as the store in memory does, errors included.
  pub lookup-Refines :
      (read_tail D C call db id ≡ as_answer (Memory.read_tail call.cancelled s id))
      × (bounds D call db id ≡ as_answer (Memory.bounds call.cancelled s id))
      × (get_state D C call db id ≡ as_answer (Memory.get_state call.cancelled s id))
  lookup-Refines = (read_tail-Refines, bounds-Refines, get_state-Refines)

  -- Once bbolt begins the transaction, `Predecessor` of a number that is not negative answers for a
  -- chain without a NUL byte in its name as the store in memory does, errors included.
  pub predecessor-Refines :
      (start : Int64)
      → start < 2 ^ 63
      → predecessor D C call db id start ≡ as_answer (Memory.predecessor call.cancelled s id start)
  unfolding predecessor Memory.predecessor
  predecessor-Refines start hs = elim (Bool-cases call.cancelled) [
    | inl ended ↦ rw ended (unfold as_answer in refl)
    | inr not_ended ↦
        let best : best_before start none (s.entries id)
            ≡ last_row (rows_below (entry_key id start) (rows_of id same.rows)) =
          ap (best_before start none) (same.entries id no_nul)
          ∙ best_before-below id start none (rows_of id same.rows) hs rows-Own
          ∙ or_else-none (last_row (rows_below (entry_key id start) (rows_of id same.rows))) in
        rw
          (
            begun (row_of C (chain_prefix id) (step_back D db.entries (entry_key id start))),
            not_ended,
            before_end (entry_key id start) (entry_key-prefix id start),
            best,
          )
          (row_answer (last_row (rows_below (entry_key id start) (rows_of id same.rows))))
  ]

  walked :
      (start end limit : Int64)
      → start < 2 ^ 63
      → end < 2 ^ 63
      → range_items C
          (chain_prefix id)
          (entry_key id end)
          limit
          []
          (D.seek db.entries (entry_key id start))
        ≡ done (range_rows start end limit [] (rows_of id same.rows))
  walked start end limit hs he =
      ap (range_items C (chain_prefix id) (entry_key id end) limit [])
        (law.seek_lem db.entries (entry_key id start))
      ∙ range_lem C id no_nul start end limit [] (D.first db.entries) same.rows hs he
          (law.in_order db.entries) same.reads

  in_memory :
      (start end limit : Int64)
      → done (range_rows start end limit [] (rows_of id same.rows))
        ≡ as_answer (ok (range_rows start end limit [] (s.entries id)))
  unfolding as_answer
  in_memory start end limit =
      ap (λ l. done (range_rows start end limit [] l)) (sym (same.entries id no_nul))

  -- Once bbolt begins the transaction, `Range` up to a number that is not negative gives for a chain
  -- without a NUL byte in its name the rows that the store in memory gives, at any start and limit.
  pub range-Refines :
      (start end limit : Int64)
      → start < 2 ^ 64
      → end < 2 ^ 63
      → range D C call db id start end limit
        ≡ as_answer (Memory.range call.cancelled s id start end limit)
  unfolding range Memory.range
  range-Refines start end limit hs he = elim (Bool-cases call.cancelled) [
    | inl ended ↦ rw ended (unfold as_answer in refl)
    | inr not_ended ↦ elim (Bool-cases (is_neg start)) [
      | inl neg ↦
          rw
            (
              begun (
                  range_items C (chain_prefix id) (entry_key id end) limit []
                    (D.seek db.entries (entry_key id (if is_neg start then 0 else start)))),
              not_ended,
              neg,
            )
            (walked 0 end limit (omega arith) he
              ∙ ap done (
                  sym
                    (range_rows-start id start end limit [] (rows_of id same.rows) hs neg rows-Own))
              ∙ in_memory start end limit)
      | inr pos ↦
          rw
            (
              begun (
                  range_items C (chain_prefix id) (entry_key id end) limit []
                    (D.seek db.entries (entry_key id (if is_neg start then 0 else start)))),
              not_ended,
              pos,
            )
            (walked start end limit (ground arith) he ∙ in_memory start end limit)
    ]
  ]
