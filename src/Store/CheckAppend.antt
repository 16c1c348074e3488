-- ===== src/Store/CheckAppend.antt =====
-- store/append_check.go: entries continue the tails, and states name the last entries.
pub mod Continues
pub mod Accepted
use proof.Prelude.{
  ℕ, List, [], ◌∷◌, Option, none, some, Bool, true, false, not, ◌==◌, ◌&&◌, ◌||◌, if◌then◌else◌,
}
use proof.Prelude.Bytes.{Bytes, bytes_eq}
use proof.Prelude.Int64.{Int64, int_next}
use proof.Store.{Row, State, Tail, Table, put}

pub data AppendError : Type 0 where
  unnamed_chain wrong_seq not_linked : AppendError
  state_unnamed state_without_entries state_not_last : AppendError

pub record Cursor : Type 0 where
  pub next : Int64
  pub prev : Bytes
  pub last : Option Row

unfoldable pub tail_cursor : Tail → Cursor
tail_cursor t =
    if t.empty
    then record { next = 0; prev = []; last = none }
    else record { next = int_next t.global_seq; prev = t.hash; last = none }

unfoldable pub cursors : Table (Option Cursor) → List Tail → Table (Option Cursor)
cursors chains [] = chains
cursors chains (t ∷ tails) = cursors (put chains t.chain_id (some (tail_cursor t))) tails

pub data Scan : Type 0 where
  done : Table (Option Cursor) → Scan
  failed : AppendError → Scan

-- One entry at its chain's cursor.
unfoldable pub check_entry : Table (Option Cursor) → Row → Scan
check_entry chains e = elim (chains e.chain_id) [
  | none ↦ failed unnamed_chain
  | some c ↦
      if not (e.global_seq == c.next)
      then failed wrong_seq
      else if not (bytes_eq e.previous_hash c.prev)
      then failed not_linked
      else done (
          put chains e.chain_id
            (some (record { next = int_next c.next; prev = e.chain_hash; last = some e })))
]

unfoldable pub check_entries : Table (Option Cursor) → List Row → Scan
check_entries chains [] = done chains
check_entries chains (e ∷ entries) = elim (check_entry chains e) [
  | failed err ↦ failed err
  | done chains' ↦ check_entries chains' entries
]

unfoldable pub check_state : Table (Option Cursor) → State → Option AppendError
check_state chains st = elim (chains st.chain_id) [
  | none ↦ some state_unnamed
  | some c ↦ elim c.last [
    | none ↦ some state_without_entries
    | some e ↦
        if not (st.head_seq == e.global_seq) || not (bytes_eq st.head_hash e.chain_hash)
        then some state_not_last
        else none
  ]
]

unfoldable pub check_states : Table (Option Cursor) → List State → Option AppendError
check_states chains [] = none
check_states chains (st ∷ states) = elim (check_state chains st) [
  | some err ↦ some err
  | none ↦ check_states chains states
]

-- `none` is a nil error.
unfoldable pub check_append : List Tail → List Row → List State → Option AppendError
check_append tails entries states = elim (check_entries (cursors (λ _. none) tails) entries) [
  | failed err ↦ some err
  | done chains ↦ check_states chains states
]
