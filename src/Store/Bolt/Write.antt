-- ===== src/Store/Bolt/Write.antt =====
-- store/bolt/bolt.go: Open for writing, WriteBatch and PutState.
use proof.Prelude.{List, [], ◌∷◌, Option, none, some, if◌then◌else◌}
use proof.Prelude.Bytes.{is_empty, contains}
use proof.Prelude.Int64.{is_neg}
use proof.Store.{Row, State}
use proof.Store.Memory.{cancelled_context, empty_chain_id, empty_entry_id, nil_state}
use proof.Store.Bolt.{
  Engine, Codec, Db, Call, BoltError, shared, negative_seq, nul_in_chain_id, encode_failed,
  put_failed, database_failed, Answer, done, failed, update, key_sep, entry_key,
}

unfoldable pub validate_entries : List Row → Option BoltError
validate_entries [] = none
validate_entries (e ∷ rows) =
    let rest = validate_entries rows in
    if is_empty e.chain_id
    then some (shared empty_chain_id)
    else if is_empty e.entry_id
    then some (shared empty_entry_id)
    else if is_neg e.global_seq
    then some negative_seq
    else if contains e.chain_id key_sep
    then some nul_in_chain_id
    else rest

module _ (D : Engine) where
  unfoldable pub written : Db D → Answer D.Bucket → Answer (Db D)
  written db (failed e) = failed e
  written db (done b) = done (record db { entries = b })

module _ (D : Engine) (C : Codec) where
  unfoldable pub put_entries : D.Bucket → List Row → Answer D.Bucket
  put_entries b [] = done b
  put_entries b (e ∷ rows) = elim (C.encode_row e) [
    | none ↦ failed encode_failed
    | some raw ↦ elim (D.put b (entry_key e.chain_id e.global_seq) raw) [
      | none ↦ failed put_failed
      | some new ↦ put_entries new rows
    ]
  ]

  unfoldable pub write_batch : Call → Db D → List Row → Option BoltError × Db D
  write_batch call db rows =
      if call.cancelled
      then (some (shared cancelled_context), db)
      else elim (validate_entries rows) [
        | some e ↦ (some e, db)
        | none ↦ update call db (written D db (put_entries db.entries rows))
      ]

  -- Inside an open transaction.
  unfoldable pub put_state_in : Db D → State → Answer (Db D)
  put_state_in db st =
      if is_empty st.chain_id then failed (shared empty_chain_id) else elim (C.encode_state st) [
        | none ↦ failed encode_failed
        | some raw ↦ elim (D.put db.state st.chain_id raw) [
          | none ↦ failed put_failed
          | some new ↦ done (record db { state = new })
        ]
      ]

  -- A nil pointer is `none`.
  unfoldable pub put_state : Call → Db D → Option State → Option BoltError × Db D
  put_state call db st = if call.cancelled then (some (shared cancelled_context), db) else elim st [
    | none ↦ (some (shared nil_state), db)
    | some new ↦ update call db (put_state_in db new)
  ]

-- The buckets a file has before it is opened, the legacy index with them.
pub record File (D : Engine) : Type 0 where
  pub entries : Option D.Bucket
  pub by_id : Option D.Bucket
  pub state : Option D.Bucket
  pub leases : Option D.Bucket

module _ (D : Engine) where
  -- `CreateBucketIfNotExists`.
  unfoldable pub created : Option D.Bucket → D.Bucket
  created none = D.empty
  created (some b) = b

  -- The transaction of `Open`: the buckets there are stay, the legacy index goes, and the leases
  -- bucket is made new.
  unfoldable pub initialise : Call → File D → Answer (Db D) × File D
  initialise call file =
      if call.begins
      then if call.commits
        then (
          done (record {
            entries = created file.entries;
            state = created file.state;
            leases = D.empty;
          }),
          record {
            entries = some (created file.entries);
            by_id = none;
            state = some (created file.state);
            leases = some D.empty;
          },
        )
        else (failed database_failed, file)
      else (failed database_failed, file)
