-- ===== src/Store/Bolt/Update.antt =====
-- store/bolt/bolt.go: UpdateChains, one transaction over several chains.
use proof.Prelude.{
  List, [], ◌∷◌, Option, none, some, Bool, true, false, ◌==◌, if◌then◌else◌, length,
}
use proof.Prelude.Bytes.{Bytes}
use proof.Store.{Row, State, Tail}
use proof.Store.CheckAppend.{check_append}
use proof.Store.Memory.{
  cancelled_context, no_chains, nil_function, chain_leased, append_refused, check_names, Update,
  rows, refused,
}
use proof.Store.Bolt.{
  Engine, Codec, Db, Call, BoltError, shared, database_failed, Answer, done, failed, update,
}
use proof.Store.Bolt.Write.{validate_entries, put_entries, put_state_in}
use proof.Store.Bolt.Read.{tail_of}

-- An error of the store, or the callback's own.
pub data UpdateError (E : Type 0) : Type 0 where
  by_store : BoltError → UpdateError E
  by_caller : E → UpdateError E

module _ (D : Engine) where
  unfoldable pub any_leased : Db D → List Bytes → Bool
  any_leased db [] = false
  any_leased db (id ∷ ids) = elim (D.get db.leases id) [
    | some held ↦ true
    | none ↦ any_leased db ids
  ]

unfoldable pub first_tail : Tail → Answer (List Tail) → Answer (List Tail)
first_tail t (failed e) = failed e
first_tail t (done ts) = done (t ∷ ts)

module _ (D : Engine) (C : Codec) where
  unfoldable pub tails : Db D → List Bytes → Answer (List Tail)
  tails db [] = done []
  tails db (id ∷ ids) = elim (tail_of D C db.entries id) [
    | failed e ↦ failed e
    | done t ↦ first_tail t (tails db ids)
  ]

  unfoldable pub put_states : Db D → List State → Answer (Db D)
  put_states db [] = done db
  put_states db (st ∷ states) = elim (put_state_in D C db st) [
    | failed e ↦ failed e
    | done new ↦ put_states new states
  ]

  unfoldable pub put_all : Db D → List Row → List State → Answer (Db D)
  put_all db es sts = elim (put_entries D C db.entries es) [
    | failed e ↦ failed e
    | done b ↦ put_states (record db { entries = b }) sts
  ]

  unfoldable pub append_all : Db D → List Tail → List Row → List State → Answer (Db D)
  append_all db ts es sts = elim (validate_entries es) [
    | some e ↦ failed e
    | none ↦ elim (check_append ts es sts) [
      | some e ↦ failed (shared (append_refused e))
      | none ↦ put_all db es sts
    ]
  ]

-- The callback's error goes out as it is; what it returns is looked at and written in the same
-- transaction.
unfoldable pub by_bolt :
    {E : Type 0} {D : Engine} → Option BoltError × Db D → Option (UpdateError E) × Db D
by_bolt (none, db) = (none, db)
by_bolt (some e, db) = (some (by_store e), db)

module _ (D : Engine) (C : Codec) {E : Type 0} where
  unfoldable pub apply_update : Call → Db D → List Tail → Update E → Option (UpdateError E) × Db D
  apply_update call db ts (refused e) = (some (by_caller e), db)
  apply_update call db ts (rows es sts) = by_bolt (update call db (append_all D C db ts es sts))

  -- The transaction, once it has begun.
  unfoldable pub transaction :
      Call → Db D → List Bytes → (List Tail → Update E) → Option (UpdateError E) × Db D
  transaction call db ids f =
      if any_leased D db ids
      then (some (by_store (shared chain_leased)), db)
      else elim (tails D C db ids) [
        | failed e ↦ (some (by_store e), db)
        | done ts ↦ apply_update call db ts (f ts)
      ]

  unfoldable pub update_chains :
      Call → Db D → List Bytes → Option (List Tail → Update E) → Option (UpdateError E) × Db D
  update_chains call db ids fn =
      if call.cancelled
      then (some (by_store (shared cancelled_context)), db)
      else if length ids == 0
      then (some (by_store (shared no_chains)), db)
      else elim fn [
        | none ↦ (some (by_store (shared nil_function)), db)
        | some f ↦ elim (check_names [] ids) [
          | some e ↦ (some (by_store (shared e)), db)
          | none ↦
              if call.begins
              then transaction call db ids f
              else (some (by_store database_failed), db)
        ]
      ]
