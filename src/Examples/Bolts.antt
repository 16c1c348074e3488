-- ===== src/Examples/Bolts.antt =====
-- A file with three entries of two chains, and a codec that keeps what the entries differ in.
use proof.Prelude.{◌≡◌, refl, sym, ap, List, [], ◌∷◌, Option, none, some, true, false, ◌⊎◌, arith}
use proof.Prelude.Bytes.{Bytes, codes, bytes_eq, bytes_lt, contains, has_prefix}
use proof.Prelude.Int64.{Int64, minus_one}
use proof.Prelude.BigEndian.{put_uint32, put_uint64}
use proof.Store.{Row, State, Tail, put}
use proof.Store.Memory
use proof.Store.Memory.{Store, Update, rows, ok, check_names, member}
use proof.Store.CheckAppend.{
  check_append, check_entries, check_entry, check_states, check_state, cursors, tail_cursor,
}
use proof.Store.Bolt.{
  Item, Codec, Db, Call, BoltError, done, failed, InKeyOrder, below, from, last_item, insert_item,
  chain_prefix, entry_key, view, update,
}
use proof.Store.Bolt.Write.{
  File, initialise, created, validate_entries, put_entries, written, put_state_in, write_batch,
}
use proof.Store.Bolt.Read.{
  step_back, row_of, tail_of_row, found_row, tail_of, read_tail, predecessor, range_items, range,
  get_state, bounds,
}
use proof.Store.Bolt.Leases.{acquire, release}
use proof.Store.Bolt.Update.{
  UpdateError, transaction, apply_update, by_bolt, append_all, put_all, put_states, any_leased,
  tails, first_tail, update_chains,
}
use proof.Store.Bolt.Listing.{chain_of, past_chain, with_chain, page, chains, chains_after}
use proof.Store.Bolt.Names.{has_rows, Ascending}
use proof.Store.Bolt.Every.{chains-Ascending}
use proof.Store.Bolt.Rows.{Refines, Reads, rows_of}
use proof.Store.Bolt.Transaction.{IsFault}
use proof.Store.Bolt.Lookup.{as_answer, lookup-Refines, predecessor-Refines, range-Refines}
use proof.Store.Bolt.Batches.{Storable, IsReason, write_batch-Refines}
use proof.Store.Bolt.Holding.{acquire-Refines}
use proof.Store.Bolt.Releasing.{as_error, release-Refines}
use proof.Store.Bolt.Opening.{initialise-acquire}
use proof.Store.Bolt.Atomic.{update_chains-Refines}
use proof.Store.Bolt.States.{StorableState}
use proof.Store.Bolt.Listed.{listed, listed_law, find, insert-InKeyOrder}
use proof.Examples.Chains.{noon}

abbrev log : Bytes
log = codes "log"

abbrev mail : Bytes
mail = codes "mail"

abbrev row_at : Bytes → Int64 → Row
row_at id n = record {
  chain_id = id;
  entry_id = codes "e";
  entry_type = codes "call";
  format_version = 3;
  global_seq = n;
  run_id = [];
  sequence_num = n;
  timestamp = noon;
  content_hash = [];
  previous_hash = codes "h";
  chain_hash = codes "h";
}

abbrev state_at : Bytes → Int64 → State
state_at id n = record { chain_id = id; head_seq = n; head_hash = codes "h"; computed_at = noon }

abbrev read_row : Bytes → Option Row
read_row [] = none
read_row (n ∷ id) = some (row_at id n)

abbrev read_state : Bytes → Option State
read_state [] = none
read_state (n ∷ id) = some (state_at id n)

abbrev short : Codec
short = record {
  encode_row = λ r. some (r.global_seq ∷ r.chain_id);
  decode_row = read_row;
  encode_state = λ st. some (st.head_seq ∷ st.chain_id);
  decode_state = read_state;
}

abbrev quiet : Call
quiet = record { cancelled = false; begins = true; commits = true }

abbrev items : List Item
items = (entry_key log 0, 0 ∷ log) ∷ (entry_key log 1, 1 ∷ log) ∷ (entry_key mail 0, 0 ∷ mail) ∷ []

items-InKeyOrder : InKeyOrder items
unfolding entry_key put_uint64 put_uint32 bytes_lt
items-InKeyOrder = ((refl, (refl, tt)), ((refl, tt), (tt, tt)))

abbrev file : Db listed
file = record { entries = (items, items-InKeyOrder); state = ([], tt); leases = ([], tt) }

abbrev all_rows : List Row
all_rows = row_at log 0 ∷ row_at log 1 ∷ row_at mail 0 ∷ []

-- The store in memory with the same rows.
abbrev in_memory : Store
in_memory = record { entries = λ id. rows_of id all_rows; state = λ id. none; leases = λ id. none }

file-Reads : Reads short items all_rows
unfolding contains
file-Reads = (
  (refl, refl, refl, omega arith),
  ((refl, refl, refl, omega arith), ((refl, refl, refl, omega arith), tt)),
)

file-Refines : Refines listed short file in_memory
unfolding find
file-Refines = record {
  rows = all_rows;
  reads = file-Reads;
  entries = λ id h. refl;
  state = λ id. tt;
  leases = λ id. refl;
}

log_no_nul : contains log 0 ≡ false
unfolding contains
log_no_nul = refl

-- A negative end: the file gives every row of the chain, the store in memory none.
range_neg_file :
    range listed short quiet file log 0 minus_one 0 ≡ done (row_at log 0 ∷ row_at log 1 ∷ [])
unfolding range range_items view chain_prefix entry_key put_uint64 put_uint32 from bytes_lt
    has_prefix
range_neg_file = refl

range_neg_memory : Memory.range false in_memory log 0 minus_one 0 ≡ ok []
unfolding Memory.range Memory.range_rows rows_of bytes_eq
range_neg_memory = refl

-- A negative start: the file gives the last row, the store in memory none.
predecessor_neg_file : predecessor listed short quiet file log minus_one ≡ done (row_at log 1)
unfolding predecessor view row_of found_row step_back chain_prefix entry_key put_uint64 put_uint32
    from below last_item bytes_lt has_prefix
predecessor_neg_file = refl

predecessor_neg_memory :
    Memory.predecessor false in_memory log minus_one ≡ Memory.err Memory.not_found
unfolding Memory.predecessor Memory.best_before rows_of bytes_eq
predecessor_neg_memory = refl

range-Refines_example :
    range listed short quiet file log 1 5 0
    ≡ as_answer (Memory.range quiet.cancelled in_memory log 1 5 0)
range-Refines_example =
    range-Refines listed listed_law short file in_memory file-Refines quiet refl log log_no_nul 1 5
      0 (omega arith) (omega arith)

predecessor-Refines_example :
    predecessor listed short quiet file log 1
    ≡ as_answer (Memory.predecessor quiet.cancelled in_memory log 1)
predecessor-Refines_example =
    predecessor-Refines listed listed_law short file in_memory file-Refines quiet refl log
      log_no_nul 1 (omega arith)

lookup-Refines_example :
    (read_tail listed short quiet file log
      ≡ as_answer (Memory.read_tail quiet.cancelled in_memory log))
    × (bounds listed quiet file log ≡ as_answer (Memory.bounds quiet.cancelled in_memory log))
    × (get_state listed short quiet file log
        ≡ as_answer (Memory.get_state quiet.cancelled in_memory log))
lookup-Refines_example =
    lookup-Refines listed listed_law short file in_memory file-Refines quiet refl log log_no_nul

abbrev read_again : Option Bytes → Option Row
read_again none = none
read_again (some raw) = read_row raw

abbrev read_state_again : Option Bytes → Option State
read_state_again none = none
read_state_again (some raw) = read_state raw

row_at-Storable : (id : Bytes) (n : Int64) → Storable short (row_at id n)
row_at-Storable id n raw h = sym (ap read_again h)

state_at-StorableState : (id : Bytes) (n : Int64) → StorableState short (state_at id n)
state_at-StorableState id n raw h = sym (ap read_state_again h)

abbrev two_more : List Row
two_more = row_at log 2 ∷ row_at mail 1 ∷ []

write_batch-Refines_example :
    (((write_batch listed short quiet file two_more).0 ≡ none)
      × ((Memory.write_batch quiet.cancelled in_memory two_more).0 ≡ none)
      × Refines listed short
          ((write_batch listed short quiet file two_more).1)
          ((Memory.write_batch quiet.cancelled in_memory two_more).1))
    ⊎ ((e : BoltError) × IsReason listed listed_law short quiet file two_more e
        × ((write_batch listed short quiet file two_more).0 ≡ some e)
        × ((write_batch listed short quiet file two_more).1 ≡ file))
write_batch-Refines_example =
    write_batch-Refines listed listed_law short quiet file in_memory two_more file-Refines
      (row_at-Storable log 2, (row_at-Storable mail 1, tt))

-- The batch is written.
two_more_written : (write_batch listed short quiet file two_more).0 ≡ none
unfolding write_batch validate_entries put_entries written update contains
two_more_written = refl

abbrev more : List Tail → Update Bytes
more ts = rows two_more (state_at log 2 ∷ [])

update_chains-Refines_example :
    (((update_chains listed short quiet file (log ∷ mail ∷ []) (some more)).0 ≡ none)
      × ((Memory.update_chains quiet.cancelled in_memory (log ∷ mail ∷ []) (some more)).0 ≡ none)
      × Refines listed short
          ((update_chains listed short quiet file (log ∷ mail ∷ []) (some more)).1)
          ((Memory.update_chains quiet.cancelled in_memory (log ∷ mail ∷ []) (some more)).1))
    ⊎ ((e : UpdateError Bytes) × (update_chains listed short quiet file
            (log ∷ mail ∷ [])
            (some more)
          ≡ (some e, file)))
update_chains-Refines_example =
    update_chains-Refines listed listed_law short quiet file in_memory (log ∷ mail ∷ []) more
      file-Refines
      (λ ts.
        ((row_at-Storable log 2, (row_at-Storable mail 1, tt)), (state_at-StorableState log 2, tt)))

more_written : (update_chains listed short quiet file (log ∷ mail ∷ []) (some more)).0 ≡ none
unfolding update_chains transaction apply_update by_bolt append_all put_all put_states put_state_in
    any_leased tails first_tail tail_of tail_of_row row_of step_back below from last_item
    validate_entries put_entries update contains find check_names member check_append check_entries
    check_entry check_states check_state cursors tail_cursor put bytes_eq bytes_lt has_prefix
    chain_prefix entry_key put_uint64 put_uint32
more_written = refl

abbrev token : Bytes
token = codes "7f"

acquire-Refines_example :
    (((acquire listed quiet (some token) file log).0
        ≡ as_answer ((Memory.acquire quiet.cancelled (some token) in_memory log).0))
      × Refines listed short
          ((acquire listed quiet (some token) file log).1)
          ((Memory.acquire quiet.cancelled (some token) in_memory log).1))
    ⊎ ((e : BoltError) × IsFault e
        × (acquire listed quiet (some token) file log ≡ (failed e, file)))
acquire-Refines_example =
    acquire-Refines listed listed_law short quiet token file in_memory log file-Refines

release-Refines_example :
    (((release listed quiet file log token).0
        ≡ as_error ((Memory.release quiet.cancelled in_memory log token).0))
      × Refines listed short
          ((release listed quiet file log token).1)
          ((Memory.release quiet.cancelled in_memory log token).1))
    ⊎ ((e : BoltError) × IsFault e × (release listed quiet file log token ≡ (some e, file)))
release-Refines_example =
    release-Refines listed listed_law short quiet file in_memory log token file-Refines

-- A file that a writer left with a lease on the chain.
abbrev left_leased : File listed
left_leased = record {
  entries = some (items, items-InKeyOrder);
  by_id = none;
  state = none;
  leases = some ((log, token) ∷ [], (tt, tt));
}

left_opened : (initialise listed quiet left_leased).0 ≡ done file
unfolding initialise created
left_opened = refl

initialise-acquire_example : (acquire listed quiet (some token) file log).0 ≡ done (some token)
initialise-acquire_example =
    initialise-acquire listed listed_law short left_leased quiet quiet file log token
      (insert_item log token [], insert-InKeyOrder log token [] tt) left_opened refl refl refl refl

chains-Ascending_example :
    (ids : List Bytes) × (chains listed quiet file ≡ done ids)
    × Ascending ids
    × ((id : Bytes) → contains id 0 ≡ false → member id ids ≡ has_rows (in_memory.entries id))
chains-Ascending_example =
    chains-Ascending listed listed_law short file in_memory quiet file-Refines refl refl

two_chains : chains listed quiet file ≡ done (log ∷ mail ∷ [])
unfolding chains page with_chain chain_of past_chain view from bytes_lt entry_key put_uint64
    put_uint32
two_chains = refl

-- The chains after one, a page of one name.
page_after : chains_after listed quiet file (some log) 1 ≡ done (mail ∷ [])
unfolding chains_after page with_chain chain_of past_chain view from bytes_lt entry_key put_uint64
    put_uint32
page_after = refl
