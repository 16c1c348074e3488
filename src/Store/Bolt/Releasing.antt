-- ===== src/Store/Bolt/Releasing.antt =====
-- store/bolt/bolt.go: Release, beside that of store/memory/memory.go.
use proof.Prelude.{
  ◌≡◌, refl, sym, ap, ◌∙◌, Option, none, some, true, false, ◌⊎◌, inl, inr, Bool-cases, Option-cases,
}
use proof.Prelude.Bytes.{Bytes, bytes_eq}
use proof.Store.{put}
use proof.Store.Memory
use proof.Store.Memory.{Store, StoreError, cancelled_context, wrong_token, no_lease}
use proof.Store.Bolt.{Engine, IsEngine, Codec, Db, Call, BoltError, shared, failed, update}
use proof.Store.Bolt.Leases.{leased, released, release}
use proof.Store.Bolt.Rows.{Refines}
use proof.Store.Bolt.Transaction.{IsFault, failed≢done, one_failure, update-cases}
use proof.Store.Bolt.Holding.{leases_kept, agree, lease_update}

unfoldable pub as_error : Option StoreError → Option BoltError
as_error none = none
as_error (some e) = some (shared e)

module _ (D : Engine) (law : IsEngine D) (C : Codec) where
  release_live :
      (call : Call) (db : Db D) (id token : Bytes)
      → call.cancelled ≡ false
      → release D call db id token ≡ update call db (released D db id token)
  unfolding release update
  release_live call db id token live = rw live refl

  release_ended :
      (call : Call) (db : Db D) (s : Store) (id token : Bytes)
      → call.cancelled ≡ true
      → (release D call db id token ≡ (as_error (some cancelled_context), db))
        × (Memory.release call.cancelled s id token ≡ (some cancelled_context, s))
  unfolding release Memory.release as_error
  release_ended call db s id token ended = (rw ended refl, rw ended refl)

  -- The transaction is refused for the reason given, or bbolt fails.
  refused_lem :
      (call : Call) (db : Db D) (s : Store) (id token : Bytes) (e : StoreError)
      → Refines D C db s
      → call.cancelled ≡ false
      → released D db id token ≡ failed (shared e)
      → Memory.release call.cancelled s id token ≡ (some e, s)
      → (((release D call db id token).0 ≡ as_error ((Memory.release call.cancelled s id token).0))
          × Refines D C
              ((release D call db id token).1)
              ((Memory.release call.cancelled s id token).1))
        ⊎ ((f : BoltError) × IsFault f × (release D call db id token ≡ (some f, db)))
  unfolding as_error
  refused_lem call db s id token e same live why memory =
      let at = release_live call db id token live in
      elim (update-cases call db (released D db id token)) [
        | inl (new, wrote, kept) ↦ absurd (failed≢done (sym why ∙ wrote))
        | inr (f, inr fault, lost) ↦ inr (f, inr fault, at ∙ lost)
        | inr (f, inl known, lost) ↦
            let named = one_failure (released D db id token) f (shared e) known why in
            inl (
              agree D law C as_error _ _ (some e) db s (at ∙ lost ∙ ap (λ x. (some x, db)) named)
                memory same)
      ]

  free_lem :
      (db : Db D) (id token : Bytes)
      → D.get db.leases id ≡ none
      → released D db id token ≡ failed (shared no_lease)
  unfolding released
  free_lem db id token h = rw (h, released) refl

  wrong_lem :
      (db : Db D) (id held token : Bytes)
      → D.get db.leases id ≡ some held
      → bytes_eq held token ≡ false
      → released D db id token ≡ failed (shared wrong_token)
  unfolding released
  wrong_lem db id held token h k = rw (h, k, released) refl

  right_lem :
      (db : Db D) (id held token : Bytes)
      → D.get db.leases id ≡ some held
      → bytes_eq held token ≡ true
      → released D db id token ≡ leased D db (D.delete db.leases id)
  unfolding released
  right_lem db id held token h k = rw (h, k, released) refl

  memory_free :
      (call : Call) (s : Store) (id token : Bytes)
      → call.cancelled ≡ false
      → s.leases id ≡ none
      → Memory.release call.cancelled s id token ≡ (some no_lease, s)
  unfolding Memory.release
  memory_free call s id token live h = rw (live, h) refl

  memory_wrong :
      (call : Call) (s : Store) (id held token : Bytes)
      → call.cancelled ≡ false
      → s.leases id ≡ some held
      → bytes_eq held token ≡ false
      → Memory.release call.cancelled s id token ≡ (some wrong_token, s)
  unfolding Memory.release
  memory_wrong call s id held token live h k = rw (live, h, k) refl

  memory_right :
      (call : Call) (s : Store) (id held token : Bytes)
      → call.cancelled ≡ false
      → s.leases id ≡ some held
      → bytes_eq held token ≡ true
      → Memory.release call.cancelled s id token
        ≡ (none, record s { leases = put s.leases id none })
  unfolding Memory.release
  memory_right call s id held token live h k = rw (live, h, k) refl

  -- Where a file refines a store in memory, `Release` answers as in memory and the file refines what
  -- the store becomes, or bbolt fails and the file is as it was.
  pub release-Refines :
      (call : Call) (db : Db D) (s : Store) (id token : Bytes)
      → Refines D C db s
      → (((release D call db id token).0 ≡ as_error ((Memory.release call.cancelled s id token).0))
          × Refines D C
              ((release D call db id token).1)
              ((Memory.release call.cancelled s id token).1))
        ⊎ ((f : BoltError) × IsFault f × (release D call db id token ≡ (some f, db)))
  unfolding as_error
  release-Refines call db s id token same = elim (Bool-cases call.cancelled) [
    | inl ended ↦
        let (file, memory) = release_ended call db s id token ended in
        inl (agree D law C as_error _ _ (some cancelled_context) db s file memory same)
    | inr live ↦ elim (Option-cases (s.leases id)) [
      | inl free ↦
          refused_lem call db s id token no_lease same live
            (free_lem db id token (same.leases id ∙ free)) (memory_free call s id token live free)
      | inr (held, lease) ↦ elim (Bool-cases (bytes_eq held token)) [
        | inr wrong ↦
            refused_lem call db s id token wrong_token same live
              (wrong_lem db id held token (same.leases id ∙ lease) wrong)
              (memory_wrong call s id held token live lease wrong)
        | inl right ↦
            let at =
              release_live call db id token live
              ∙ ap (update call db) (right_lem db id held token (same.leases id ∙ lease) right) in
            elim (lease_update D law C call db (D.delete db.leases id)) [
              | inr (f, fault, lost) ↦ inr (f, fault, at ∙ lost)
              | inl (b, deleted, kept) ↦ inl (
                  agree D law C as_error _ _ none (record db { leases = b })
                    (record s { leases = put s.leases id none }) (at ∙ kept)
                    (memory_right call s id held token live lease right)
                    (leases_kept D law C db s b id none same
                      (λ j. law.get-delete db.leases b id j deleted)))
            ]
      ]
    ]
  ]
