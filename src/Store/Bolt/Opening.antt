-- ===== src/Store/Bolt/Opening.antt =====
-- store/bolt/bolt.go: the leases of a file that Open has just opened.
use proof.Prelude.{◌≡◌, refl, sym, ap, ◌∙◌, some, true, false, inl, inr, Bool-cases}
use proof.Prelude.Bytes.{Bytes}
use proof.Store.Bolt.{Engine, IsEngine, Codec, Db, Call, done, update}
use proof.Store.Bolt.Write.{File, created, initialise}
use proof.Store.Bolt.Leases.{leased, granted, acquire}
use proof.Store.Bolt.Transaction.{failed≢done, done-injective}
use proof.Store.Bolt.Holding.{acquire_free}

module _ (D : Engine) (law : IsEngine D) (C : Codec) where
  abbrev fresh : File D → Db D
  fresh file = record {
    entries = created D file.entries;
    state = created D file.state;
    leases = D.empty;
  }

  no_leases :
      (file : File D) (opening : Call) (db : Db D)
      → (initialise D opening file).0 ≡ done db
      → db.leases ≡ D.empty
  unfolding initialise
  no_leases file opening db opened = elim (Bool-cases opening.begins) [
    | inr not_begun ↦ absurd (failed≢done (rw not_begun at opened))
    | inl begins ↦ elim (Bool-cases opening.commits) [
      | inr lost ↦ absurd (failed≢done (rw (begins, lost) at opened))
      | inl commits ↦
          ap (λ (d : Db D). d.leases)
            (sym (done-injective (fresh file) db (rw (begins, commits) at opened)))
    ]
  ]

  granted_lem :
      (call : Call) (db : Db D) (b : D.Bucket) (token : Bytes)
      → call.begins ≡ true
      → call.commits ≡ true
      → granted D token (update call db (leased D db (some b)))
        ≡ (done (some token), record db { leases = b })
  unfolding granted leased update
  granted_lem call db b token begins commits = rw (begins, commits) refl

  -- A file just opened grants the next `Acquire` of any chain, whatever leases it held, where the
  -- context has not ended, bbolt begins and commits the transaction, and the token can be put.
  pub initialise-acquire :
      (file : File D) (opening call : Call) (db : Db D) (id token : Bytes) (b : D.Bucket)
      → (initialise D opening file).0 ≡ done db
      → call.cancelled ≡ false
      → call.begins ≡ true
      → call.commits ≡ true
      → D.put D.empty id token ≡ some b
      → (acquire D call (some token) db id).0 ≡ done (some token)
  initialise-acquire file opening call db id token b opened live begins commits room =
      let at =
        acquire_free D law C call token db id live
          (ap (λ l. D.get l id) (no_leases file opening db opened) ∙ law.get-empty id) in
      let here : D.put db.leases id token ≡ some b =
        ap (λ l. D.put l id token) (no_leases file opening db opened) ∙ room in
      ap (λ r. r.0)
        (at
          ∙ ap (λ o. granted D token (update call db (leased D db o))) here
          ∙ granted_lem call db b token begins commits)
