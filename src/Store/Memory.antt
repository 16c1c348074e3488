-- ===== src/Store/Memory.antt =====
-- store/memory/memory.go: the store in memory. `cancelled` is whether the call's context has ended;
-- the mutex makes each method one step.
pub mod Leases
pub mod Placed
pub mod Appended
pub mod Extends
pub mod Together
use proof.Prelude.{
  ℕ, zero, suc, ◌+◌, ◌-◌, List, [], ◌∷◌, ◌++◌, Option, none, some, Bool, true, false, not, ltb,
  ◌==◌, ◌&&◌, ◌||◌, if◌then◌else◌, length,
}
use proof.Prelude.Bytes.{Bytes, bytes_eq, is_empty, contains}
use proof.Prelude.Int64.{Int64, int_lt, is_neg}
use proof.ChainFormat.Timestamp.{Time}
use proof.Store.{Row, State, Tail, Table, put}
use proof.Store.CheckAppend.{AppendError, check_append}

pub data StoreError : Type 0 where
  cancelled_context empty_chain_id empty_entry_id : StoreError
  empty_chain not_found nil_state : StoreError
  token_failed no_lease wrong_token : StoreError
  no_chains nil_function bad_chain_id chain_twice chain_leased : StoreError
  update_failed : StoreError
  append_refused : AppendError → StoreError

pub data Outcome (A : Type 0) : Type 0 where
  ok : A → Outcome A
  err : StoreError → Outcome A

pub record Store : Type 0 where
  pub entries : Table (List Row)
  pub state : Table (Option State)
  pub leases : Table (Option Bytes)

abbrev pub new_store : Store
new_store = record { entries = λ _. []; state = λ _. none; leases = λ _. none }

-- The first row with the number is overwritten, else the row goes to the end.
unfoldable pub upsert : List Row → Row → List Row
upsert [] e = e ∷ []
upsert (r ∷ rows) e = if r.global_seq == e.global_seq then e ∷ rows else r ∷ upsert rows e

-- `sort.Slice` by number; the numbers of one chain are all different.
unfoldable pub insert_row : Row → List Row → List Row
insert_row e [] = e ∷ []
insert_row e (r ∷ rows) =
    if int_lt e.global_seq r.global_seq then e ∷ r ∷ rows else r ∷ insert_row e rows

unfoldable pub sort_rows : List Row → List Row
sort_rows [] = []
sort_rows (e ∷ rows) = insert_row e (sort_rows rows)

unfoldable pub upsert_rows : Table (List Row) → List Row → Table (List Row)
upsert_rows chains [] = chains
upsert_rows chains (e ∷ rows) =
    upsert_rows (put chains e.chain_id (upsert (chains e.chain_id) e)) rows

unfoldable pub upsert_locked : Store → List Row → Store
upsert_locked s rows = record s { entries = λ id. sort_rows (upsert_rows s.entries rows id) }

-- The rows are looked at before any is written.
unfoldable pub check_rows : List Row → Option StoreError
check_rows [] = none
check_rows (e ∷ rows) =
    let rest = check_rows rows in
    if is_empty e.chain_id
    then some empty_chain_id
    else if is_empty e.entry_id
    then some empty_entry_id
    else rest

unfoldable pub write_batch : Bool → Store → List Row → Option StoreError × Store
write_batch cancelled s rows =
    if cancelled
    then (some cancelled_context, s)
    else elim (check_rows rows) [ some e ↦ (some e, s) | none ↦ (none, upsert_locked s rows) ]

unfoldable pub last_row : List Row → Option Row
last_row [] = none
last_row (e ∷ []) = some e
last_row (e ∷ f ∷ rows) = last_row (f ∷ rows)

unfoldable pub read_tail : Bool → Store → Bytes → Outcome (Bytes × Int64)
read_tail cancelled s id =
    if cancelled then err cancelled_context else elim (last_row (s.entries id)) [
      | none ↦ err empty_chain
      | some e ↦ ok (e.chain_hash, e.global_seq)
    ]

unfoldable pub best_before : Int64 → Option Row → List Row → Option Row
best_before start best [] = best
best_before start best (e ∷ rows) =
    best_before start (if int_lt e.global_seq start then some e else best) rows

unfoldable pub predecessor : Bool → Store → Bytes → Int64 → Outcome Row
predecessor cancelled s id start =
    if cancelled
    then err cancelled_context
    else elim (best_before start none (s.entries id)) [ none ↦ err not_found | some e ↦ ok e ]

-- The loop of `Range`, with the rows taken so far; a limit that is not positive is none.
unfoldable pub range_rows : Int64 → Int64 → Int64 → List Row → List Row → List Row
range_rows start end limit out [] = out
range_rows start end limit out (e ∷ rows) =
    let rest = range_rows start end limit out rows in
    let more = range_rows start end limit (out ++ e ∷ []) rows in
    if int_lt e.global_seq start || int_lt end e.global_seq
    then rest
    else if int_lt 0 limit && length (out ++ e ∷ []) == limit
    then out ++ e ∷ []
    else more

unfoldable pub range : Bool → Store → Bytes → Int64 → Int64 → Int64 → Outcome (List Row)
range cancelled s id start end limit =
    if cancelled then err cancelled_context else ok (range_rows start end limit [] (s.entries id))

unfoldable pub bounds : Bool → Store → Bytes → Outcome (Int64 × Int64)
bounds cancelled s id = if cancelled then err cancelled_context else elim (s.entries id) [
  | [] ↦ err empty_chain
  | first ∷ rows ↦ elim (last_row (first ∷ rows)) [
    | none ↦ err empty_chain
    | some l ↦ ok (first.global_seq, l.global_seq)
  ]
]

unfoldable pub get_state : Bool → Store → Bytes → Outcome State
get_state cancelled s id =
    if cancelled
    then err cancelled_context
    else elim (s.state id) [ none ↦ err not_found | some st ↦ ok st ]

-- A nil pointer is `none`.
unfoldable pub put_state : Bool → Store → Option State → Option StoreError × Store
put_state true s st = (some cancelled_context, s)
put_state false s none = (some nil_state, s)
put_state false s (some st) =
    if is_empty st.chain_id
    then (some empty_chain_id, s)
    else (none, record s { state = put s.state st.chain_id (some st) })

-- The token is random; `none` is a failure to draw one.
unfoldable pub acquire : Bool → Option Bytes → Store → Bytes → Outcome (Option Bytes) × Store
acquire cancelled drawn s id =
    if cancelled then (err cancelled_context, s) else elim (s.leases id) [
      | some held ↦ (ok none, s)
      | none ↦ elim drawn [
        | none ↦ (err token_failed, s)
        | some token ↦ (ok (some token), record s { leases = put s.leases id (some token) })
      ]
    ]

unfoldable pub release : Bool → Store → Bytes → Bytes → Option StoreError × Store
release cancelled s id token =
    if cancelled then (some cancelled_context, s) else elim (s.leases id) [
      | none ↦ (some no_lease, s)
      | some held ↦
          if not (bytes_eq held token)
          then (some wrong_token, s)
          else (none, record s { leases = put s.leases id none })
    ]

-- The names of a call: none empty or with a NUL byte, none twice. `seen` are those before.
unfoldable pub member : Bytes → List Bytes → Bool
member id [] = false
member id (j ∷ ids) = bytes_eq id j || member id ids

unfoldable pub check_names : List Bytes → List Bytes → Option StoreError
check_names seen [] = none
check_names seen (id ∷ ids) =
    let rest = check_names (id ∷ seen) ids in
    if is_empty id || contains id 0
    then some bad_chain_id
    else if member id seen
    then some chain_twice
    else rest

unfoldable pub any_leased : Store → List Bytes → Bool
any_leased s [] = false
any_leased s (id ∷ ids) = elim (s.leases id) [ some held ↦ true | none ↦ any_leased s ids ]

unfoldable pub tail_of : Store → Bytes → Tail
tail_of s id = elim (last_row (s.entries id)) [
  | none ↦ record { chain_id = id; empty = true; hash = []; global_seq = 0 }
  | some e ↦ record { chain_id = id; empty = false; hash = e.chain_hash; global_seq = e.global_seq }
]

unfoldable pub tails : Store → List Bytes → List Tail
tails s [] = []
tails s (id ∷ ids) = tail_of s id ∷ tails s ids

unfoldable pub put_states : Table (Option State) → List State → Table (Option State)
put_states m [] = m
put_states m (st ∷ states) = put_states (put m st.chain_id (some st)) states

-- What the callback of `UpdateChains` returns, with an error of its own type.
pub data Update (E : Type 0) : Type 0 where
  rows : List Row → List State → Update E
  refused : E → Update E

pub data UpdateError (E : Type 0) : Type 0 where
  by_store : StoreError → UpdateError E
  by_caller : E → UpdateError E

module _ {E : Type 0} where
  unfoldable pub apply_update : Store → List Tail → Update E → Option (UpdateError E) × Store
  apply_update s ts (refused e) = (some (by_caller e), s)
  apply_update s ts (rows es sts) = elim (check_rows es) [
    | some e ↦ (some (by_store e), s)
    | none ↦ elim (check_append ts es sts) [
      | some e ↦ (some (by_store (append_refused e)), s)
      | none ↦ (none, record (upsert_locked s es) { state = put_states s.state sts })
    ]
  ]

  unfoldable pub update_chains :
      Bool → Store → List Bytes → Option (List Tail → Update E) → Option (UpdateError E) × Store
  update_chains cancelled s ids fn =
      if cancelled
      then (some (by_store cancelled_context), s)
      else if length ids == 0
      then (some (by_store no_chains), s)
      else elim fn [
        | none ↦ (some (by_store nil_function), s)
        | some f ↦ elim (check_names [] ids) [
          | some e ↦ (some (by_store e), s)
          | none ↦
              if any_leased s ids
              then (some (by_store chain_leased), s)
              else apply_update s (tails s ids) (f (tails s ids))
        ]
      ]
