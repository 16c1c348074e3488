-- ===== src/Store/Bolt/Holding.antt =====
-- store/bolt/bolt.go: Acquire, beside that of store/memory/memory.go.
use proof.Prelude.{
  ◌≡◌, refl, sym, ap, subst, ◌∙◌, Option, none, some, true, false, if◌then◌else◌, ◌⊎◌, inl, inr,
  Bool-cases, Option-cases,
}
use proof.Prelude.Bytes.{Bytes, bytes_eq}
use proof.Store.{put}
use proof.Store.Memory
use proof.Store.Memory.{Store, StoreError, ok, err, cancelled_context, wrong_token, no_lease}
use proof.Store.Bolt.{
  Engine, IsEngine, Codec, Db, Call, BoltError, done, failed, put_failed, update,
}
use proof.Store.Bolt.Leases.{leased, granted, refused, acquire}
use proof.Store.Bolt.Rows.{Refines}
use proof.Store.Bolt.Transaction.{IsFault, failed≢done, done-injective, update-cases}
use proof.Store.Bolt.Lookup.{as_answer}

module _ (D : Engine) (law : IsEngine D) (C : Codec) where
  pub leases_kept :
      (db : Db D) (s : Store) (b : D.Bucket) (id : Bytes) (lease : Option Bytes)
      → Refines D C db s
      → ((j : Bytes) → D.get b j ≡ (if bytes_eq id j then lease else D.get db.leases j))
      → Refines D C (record db { leases = b }) (record s { leases = put s.leases id lease })
  unfolding put
  leases_kept db s b id lease same h = record {
    rows = same.rows;
    reads = same.reads;
    entries = same.entries;
    state = same.state;
    leases = λ j. h j ∙ ap (λ l. if bytes_eq id j then lease else l) (same.leases j);
  }

  -- The results of a call in the file and in memory, from what they are.
  pub agree :
      {X Y : Type 0} (g : Y → X) (r : X × Db D) (m : Y × Store) (o : Y) (new : Db D) (t : Store)
      → r ≡ (g o, new)
      → m ≡ (o, t)
      → Refines D C new t
      → (r.0 ≡ g (m.0)) × Refines D C (r.1) (m.1)
  agree g r m o new t er em same = (
    ap (λ x. x.0) er ∙ ap (λ y. g (y.0)) (sym em),
    subst (λ x. Refines D C (x.1) (m.1)) (sym er)
        (subst (λ y. Refines D C new (y.1)) (sym em) same),
  )

  -- What a transaction that writes the leases bucket comes to.
  pub lease_update :
      (call : Call) (db : Db D) (o : Option D.Bucket)
      → ((b : D.Bucket) × (o ≡ some b)
          × (update call db (leased D db o) ≡ (none, record db { leases = b })))
        ⊎ ((e : BoltError) × IsFault e × (update call db (leased D db o) ≡ (some e, db)))
  unfolding leased
  lease_update call db none = elim (update-cases call db (failed put_failed)) [
    | inl (new, wrote, kept) ↦ absurd (failed≢done wrote)
    | inr (e, inl same, lost) ↦ inr (e, inl (cc same), lost)
    | inr (e, inr fault, lost) ↦ inr (e, inr fault, lost)
  ]
  lease_update call db (some b) = elim (update-cases call db (done (record db { leases = b }))) [
    | inl (new, wrote, kept) ↦ inl (
      b,
      refl,
      kept ∙ ap (λ n. (none, n)) (sym (done-injective (record db { leases = b }) new wrote)),
    )
    | inr (e, inl same, lost) ↦ absurd (failed≢done (sym same))
    | inr (e, inr fault, lost) ↦ inr (e, inr fault, lost)
  ]

  acquire_held :
      (call : Call) (token held : Bytes) (db : Db D) (id : Bytes)
      → call.cancelled ≡ false
      → D.get db.leases id ≡ some held
      → acquire D call (some token) db id ≡ refused D (update call db (done db))
  unfolding acquire update
  acquire_held call token held db id live h = rw (live, h) refl

  pub acquire_free :
      (call : Call) (token : Bytes) (db : Db D) (id : Bytes)
      → call.cancelled ≡ false
      → D.get db.leases id ≡ none
      → acquire D call (some token) db id
        ≡ granted D token (update call db (leased D db (D.put db.leases id token)))
  unfolding acquire update
  acquire_free call token db id live h = rw (live, h) refl

  memory_held :
      (call : Call) (token held : Bytes) (s : Store) (id : Bytes)
      → call.cancelled ≡ false
      → s.leases id ≡ some held
      → Memory.acquire call.cancelled (some token) s id ≡ (ok none, s)
  unfolding Memory.acquire
  memory_held call token held s id live h = rw (live, h) refl

  memory_free :
      (call : Call) (token : Bytes) (s : Store) (id : Bytes)
      → call.cancelled ≡ false
      → s.leases id ≡ none
      → Memory.acquire call.cancelled (some token) s id
        ≡ (ok (some token), record s { leases = put s.leases id (some token) })
  unfolding Memory.acquire
  memory_free call token s id live h = rw (live, h) refl

  acquire_ended :
      (call : Call) (token : Bytes) (db : Db D) (s : Store) (id : Bytes)
      → call.cancelled ≡ true
      → (acquire D call (some token) db id ≡ (as_answer (err cancelled_context), db))
        × (Memory.acquire call.cancelled (some token) s id ≡ (err cancelled_context, s))
  unfolding acquire Memory.acquire as_answer
  acquire_ended call token db s id ended = (rw ended refl, rw ended refl)

  taken_lem :
      (call : Call) (token : Bytes) (db : Db D) (s : Store) (id : Bytes)
      → Refines D C db s
      → call.cancelled ≡ false
      → s.leases id ≡ none
      → (((acquire D call (some token) db id).0
            ≡ as_answer ((Memory.acquire call.cancelled (some token) s id).0))
          × Refines D C
              ((acquire D call (some token) db id).1)
              ((Memory.acquire call.cancelled (some token) s id).1))
        ⊎ ((e : BoltError) × IsFault e × (acquire D call (some token) db id ≡ (failed e, db)))
  unfolding granted as_answer
  taken_lem call token db s id same live free =
      let at = acquire_free call token db id live (same.leases id ∙ free) in
      elim (lease_update call db (D.put db.leases id token)) [
        | inr (e, fault, lost) ↦ inr (e, fault, at ∙ ap (granted D token) lost)
        | inl (b, taken, kept) ↦ inl (
            agree as_answer (acquire D call (some token) db id)
              (Memory.acquire call.cancelled (some token) s id) (ok (some token))
              (record db { leases = b }) (record s { leases = put s.leases id (some token) })
              (at ∙ ap (granted D token) kept) (memory_free call token s id live free)
              (leases_kept db s b id (some token) same
                (λ j. law.get-put db.leases b id token j taken)))
      ]

  -- Where a file refines a store in memory, `Acquire` with a token drawn answers as in memory and the
  -- file refines what the store becomes, or bbolt fails and the file is as it was.
  pub acquire-Refines :
      (call : Call) (token : Bytes) (db : Db D) (s : Store) (id : Bytes)
      → Refines D C db s
      → (((acquire D call (some token) db id).0
            ≡ as_answer ((Memory.acquire call.cancelled (some token) s id).0))
          × Refines D C
              ((acquire D call (some token) db id).1)
              ((Memory.acquire call.cancelled (some token) s id).1))
        ⊎ ((e : BoltError) × IsFault e × (acquire D call (some token) db id ≡ (failed e, db)))
  unfolding refused as_answer
  acquire-Refines call token db s id same = elim (Bool-cases call.cancelled) [
    | inl ended ↦
        let (file, memory) = acquire_ended call token db s id ended in
        inl (agree as_answer _ _ (err cancelled_context) db s file memory same)
    | inr live ↦ elim (Option-cases (s.leases id)) [
      | inl free ↦ taken_lem call token db s id same live free
      | inr (held, lease) ↦
          let at = acquire_held call token held db id live (same.leases id ∙ lease) in
          elim (update-cases call db (done db)) [
            | inl (new, wrote, kept) ↦ inl (
                agree as_answer _ _ (ok none) db s
                  (at
                    ∙ ap (refused D) kept
                    ∙ ap (λ n. (done none, n)) (sym (done-injective db new wrote)))
                  (memory_held call token held s id live lease) same)
            | inr (e, inl absurd_error, lost) ↦ absurd (failed≢done (sym absurd_error))
            | inr (e, inr fault, lost) ↦ inr (e, inr fault, at ∙ ap (refused D) lost)
          ]
    ]
  ]
