-- ===== src/Store/Bolt/Leases.antt =====
-- store/bolt/bolt.go: Acquire and Release.
use proof.Prelude.{Option, none, some, not, if◌then◌else◌}
use proof.Prelude.Bytes.{Bytes, bytes_eq}
use proof.Store.Memory.{cancelled_context, token_failed, no_lease, wrong_token}
use proof.Store.Bolt.{Engine, Db, Call, BoltError, shared, put_failed, Answer, done, failed, update}

module _ (D : Engine) where
  unfoldable pub leased : Db D → Option D.Bucket → Answer (Db D)
  leased db none = failed put_failed
  leased db (some b) = done (record db { leases = b })

  -- What `Acquire` answers from the result of its transaction.
  unfoldable pub granted : Bytes → Option BoltError × Db D → Answer (Option Bytes) × Db D
  granted token (some e, db) = (failed e, db)
  granted token (none, db) = (done (some token), db)

  -- A transaction that changes nothing still begins and commits.
  unfoldable pub refused : Option BoltError × Db D → Answer (Option Bytes) × Db D
  refused (some e, db) = (failed e, db)
  refused (none, db) = (done none, db)

  -- The token is random; `none` is a failure to draw one.
  unfoldable pub acquire : Call → Option Bytes → Db D → Bytes → Answer (Option Bytes) × Db D
  acquire call drawn db id =
      if call.cancelled then (failed (shared cancelled_context), db) else elim drawn [
        | none ↦ (failed (shared token_failed), db)
        | some token ↦ elim (D.get db.leases id) [
          | some held ↦ refused (update call db (done db))
          | none ↦ granted token (update call db (leased db (D.put db.leases id token)))
        ]
      ]

  unfoldable pub released : Db D → Bytes → Bytes → Answer (Db D)
  released db id token = elim (D.get db.leases id) [
    | none ↦ failed (shared no_lease)
    | some held ↦
        if not (bytes_eq held token)
        then failed (shared wrong_token)
        else leased db (D.delete db.leases id)
  ]

  unfoldable pub release : Call → Db D → Bytes → Bytes → Option BoltError × Db D
  release call db id token =
      if call.cancelled
      then (some (shared cancelled_context), db)
      else update call db (released db id token)
