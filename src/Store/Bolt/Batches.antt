-- ===== src/Store/Bolt/Batches.antt =====
-- store/bolt/bolt.go: WriteBatch, beside that of store/memory/memory.go.
use proof.Prelude.{
  ◌≡◌, refl, sym, ap, subst, ◌∙◌, List, [], ◌∷◌, none, some, true, false, if◌then◌else◌, ◌^◌, ◌<◌,
  ◌⊎◌, inl, inr, Bool-cases, Option-cases, All, arith,
}
use proof.Prelude.Bytes.{Bytes, bytes_eq, bytes_eq_sound, bytes_eq_sym, contains}
use proof.Store.{Row}
use proof.Store.Memory
use proof.Store.Memory.{Store, cancelled_context, check_rows, upsert_locked, sort_rows}
use proof.Store.Memory.Placed.{
  IsSmall, place, place_rows, upsert_rows-place, sort-Ascending, Ascending-Distinct,
}
use proof.Store.Bolt.{
  Engine, IsEngine, Codec, Db, Call, BoltError, shared, done, failed, database_failed, update,
  entry_key,
}
use proof.Store.Bolt.Write.{validate_entries, put_entries, written, write_batch}
use proof.Store.Bolt.Transaction.{Answer-cases, failed≢done, done-injective, update-cases}
use proof.Store.Bolt.Rows.{Reads, rows_of, Refines}
use proof.Store.Bolt.Own.{Reads-Own}
use proof.Store.Bolt.Placing.{
  insert_keyed, insert-Reads, rows_of-Ascending, rows_of-insert-other, rows_of-insert-own,
  Own-IsSmall,
}

-- The text a row encodes to decodes to the row.
abbrev pub Storable : Codec → Row → Type 0
Storable C r = (raw : Bytes) → C.encode_row r ≡ some raw → C.decode_row raw ≡ some r

-- What `validateEntries` leaves.
abbrev pub Keyable : Row → Type 0
Keyable r = (contains r.chain_id 0 ≡ false) × (r.global_seq < 2 ^ 63)

pub validate_entries-Keyable :
    (rows : List Row) → validate_entries rows ≡ none → All Keyable rows × (check_rows rows ≡ none)
unfolding validate_entries check_rows
validate_entries-Keyable [] h = (tt, refl)
validate_entries-Keyable (e ∷ rows) h =
    let rest : validate_entries rows ≡ none = ground arith in
    let (all, checked) = validate_entries-Keyable rows rest in
    let no_nul : contains e.chain_id 0 ≡ false = ground arith in
    let small : e.global_seq < 2 ^ 63 = ground arith in
    (((no_nul, small), all), ground (arith, checked))

Keyable-IsSmall : (es : List Row) → All Keyable es → All IsSmall es
Keyable-IsSmall [] k = tt
Keyable-IsSmall (e ∷ es) ((no_nul, small), k) = (small, Keyable-IsSmall es k)

module _ (D : Engine) (law : IsEngine D) (C : Codec) where
  put-step :
      (b c : D.Bucket) (e : Row) (es : List Row)
      → put_entries D C b (e ∷ es) ≡ done c
      → (raw : Bytes) × (next : D.Bucket) × (C.encode_row e ≡ some raw)
        × (D.put b (entry_key e.chain_id e.global_seq) raw ≡ some next)
        × (put_entries D C next es ≡ done c)
  unfolding put_entries
  put-step b c e es h = elim (Option-cases (C.encode_row e)) [
    | inl bad ↦ absurd (failed≢done (rw (bad, put_entries) at h))
    | inr (raw, good) ↦ elim (Option-cases (D.put b (entry_key e.chain_id e.global_seq) raw)) [
      | inl full ↦ absurd (failed≢done (rw (good, full, put_entries) at h))
      | inr (next, taken) ↦ (raw, next, good, taken, rw (good, taken, put_entries) at h)
    ]
  ]

  one_lem :
      (b : D.Bucket) (e : Row) (rows : List Row) (id : Bytes)
      → contains e.chain_id 0 ≡ false
      → e.global_seq < 2 ^ 63
      → Reads C (D.first b) rows
      → rows_of id (insert_keyed e rows)
        ≡ (if bytes_eq e.chain_id id then place e (rows_of id rows) else rows_of id rows)
  one_lem b e rows id no_nul small r = elim (Bool-cases (bytes_eq e.chain_id id)) [
    | inl own ↦ rw own (
        rows_of-insert-own C e no_nul small id (D.first b) rows (bytes_eq_sound e.chain_id id own)
          (law.in_order b) r)
    | inr other ↦ rw other (
        rows_of-insert-other C e no_nul small id (D.first b) rows
          (bytes_eq_sym e.chain_id id ∙ other) r)
  ]

  -- The entries of a batch, each at its place.
  pub put_entries-place :
      (b c : D.Bucket) (es rows : List Row)
      → All Keyable es
      → All (Storable C) es
      → Reads C (D.first b) rows
      → put_entries D C b es ≡ done c
      → (new : List Row) × Reads C (D.first c) new
        × ((id : Bytes) → rows_of id new ≡ place_rows id es (rows_of id rows))
  put_entries-place b c [] rows k s r h =
      unfold put_entries place_rows in
      let same : done b ≡ done c = h in
      (rows, subst (λ n. Reads C (D.first n) rows) (done-injective b c same) r, λ id. refl)
  put_entries-place b c (e ∷ es) rows ((no_nul, small), k) (s, ss) r h =
      let (raw, next, encoded, taken, rest) = put-step b c e es h in
      let items = law.first-put b next (entry_key e.chain_id e.global_seq) raw taken in
      let reads : Reads C (D.first next) (insert_keyed e rows) =
        rw items (insert-Reads C raw e (D.first b) rows (refl, s raw encoded, no_nul, small) r) in
      let (new, new_reads, places) =
        put_entries-place next c es (insert_keyed e rows) k ss reads rest in
      (
        new,
        new_reads,
        λ id.
            places id
            ∙ ap (place_rows id es) (one_lem b e rows id no_nul small r)
            ∙ (unfold place_rows in refl),
      )

  written-done :
      (db : Db D) (b : D.Bucket) → written D db (done b) ≡ done (record db { entries = b })
  unfolding written
  written-done db b = refl

  written-failed : (db : Db D) (e : BoltError) → written D db (failed e) ≡ failed e
  unfolding written
  written-failed db e = refl

  write_batch-live :
      (call : Call) (db : Db D) (es : List Row)
      → call.cancelled ≡ false
      → validate_entries es ≡ none
      → write_batch D C call db es ≡ update call db (written D db (put_entries D C db.entries es))
  unfolding write_batch update
  write_batch-live call db es live good = rw (live, good) refl

  -- Why `WriteBatch` answers an error: the context has ended, an entry is refused, an entry is not
  -- encoded or put, or bbolt fails.
  abbrev pub IsReason : Call → Db D → List Row → BoltError → Type 0
  IsReason call db es e =
      (call.cancelled ≡ true)
      ⊎ ((validate_entries es ≡ some e)
          ⊎ ((put_entries D C db.entries es ≡ failed e) ⊎ (e ≡ database_failed)))

  why_lem :
      (call : Call) (db : Db D) (es : List Row) (e : BoltError)
      → (written D db (put_entries D C db.entries es) ≡ failed e) ⊎ (e ≡ database_failed)
      → (put_entries D C db.entries es ≡ failed e) ⊎ (e ≡ database_failed)
  unfolding written
  why_lem call db es e (inr lost) = inr lost
  why_lem call db es e (inl h) = elim (Answer-cases (put_entries D C db.entries es)) [
    | inl (b, good) ↦ absurd (failed≢done (sym (rw (good, written) at h)))
    | inr (f, bad) ↦ inl (bad ∙ cc (rw (bad, written) at h))
  ]

  -- A `WriteBatch` that answers no error went through in memory too.
  write_batch-cases :
      (call : Call) (db : Db D) (es : List Row)
      → ((b : D.Bucket) × (call.cancelled ≡ false)
          × (validate_entries es ≡ none)
          × (put_entries D C db.entries es ≡ done b)
          × (write_batch D C call db es ≡ (none, record db { entries = b })))
        ⊎ ((e : BoltError) × IsReason call db es e × (write_batch D C call db es ≡ (some e, db)))
  unfolding write_batch
  write_batch-cases call db es = elim (Bool-cases call.cancelled) [
    | inl ended ↦ inr (shared cancelled_context, inl ended, rw ended refl)
    | inr live ↦ elim (Option-cases (validate_entries es)) [
      | inr (e, bad) ↦ inr (e, inr (inl bad), rw (live, bad) refl)
      | inl good ↦ elim (update-cases call db (written D db (put_entries D C db.entries es))) [
        | inr (e, why, lost) ↦
            inr (
              e,
              inr (inr (why_lem call db es e why)),
              write_batch-live call db es live good ∙ lost,
            )
        | inl (new, wrote, kept) ↦ elim (Answer-cases (put_entries D C db.entries es)) [
          | inr (e, bad) ↦ absurd (failed≢done (sym (written-failed db e) ∙ rw bad at wrote))
          | inl (b, put_all) ↦
              let same : done (record db { entries = b }) ≡ done new =
                sym (written-done db b) ∙ rw put_all at wrote in
              inl (
                b,
                live,
                good,
                put_all,
                write_batch-live call db es live good
                    ∙ kept
                    ∙ ap (λ n. (none, n))
                        (sym (done-injective (record db { entries = b }) new same)),
              )
        ]
      ]
    ]
  ]

  sorted_lem :
      (db : Db D) (s : Store) (es : List Row)
      → (same : Refines D C db s) → (id : Bytes) → contains id 0 ≡ false
      → All Keyable es
      → (upsert_locked s es).entries id ≡ place_rows id es (rows_of id same.rows)
  unfolding upsert_locked
  sorted_lem db s es same id no_nul k =
      let here = same.entries id no_nul in
      let rows = rows_of id same.rows in
      let ascending =
        rows_of-Ascending C id (D.first db.entries) same.rows (law.in_order db.entries)
          same.reads in
      let small = Own-IsSmall id rows (Reads-Own C id (D.first db.entries) same.rows same.reads) in
      upsert_rows-place id s.entries es (rw here (Ascending-Distinct rows ascending))
        (rw here small) (Keyable-IsSmall es k)
      ∙ ap (λ l. place_rows id es (sort_rows l)) here
      ∙ ap (place_rows id es) (sort-Ascending rows ascending)

  in_memory :
      (call : Call) (s : Store) (es : List Row)
      → call.cancelled ≡ false
      → check_rows es ≡ none
      → Memory.write_batch call.cancelled s es ≡ (none, upsert_locked s es)
  unfolding Memory.write_batch
  in_memory call s es live checked = rw (live, checked) refl

  pub entries_kept :
      (db : Db D) (s : Store) (b : D.Bucket) (es : List Row)
      → Refines D C db s
      → All (Storable C) es
      → All Keyable es
      → put_entries D C db.entries es ≡ done b
      → Refines D C (record db { entries = b }) (upsert_locked s es)
  entries_kept db s b es same ss k h =
      let (new, reads, places) = put_entries-place db.entries b es same.rows k ss same.reads h in
      record {
        rows = new;
        reads = reads;
        entries = λ id no_nul. sorted_lem db s es same id no_nul k ∙ sym (places id);
        state = λ id. unfold upsert_locked in same.state id;
        leases = λ id. unfold upsert_locked in same.leases id;
      }

  -- Where a file refines a store in memory, `WriteBatch` succeeds only where it does in memory and the
  -- file then refines what the store becomes, or it answers an error, for one of the reasons named, and
  -- the file is as it was. Every entry must decode from the text it encodes to.
  pub write_batch-Refines :
      (call : Call) (db : Db D) (s : Store) (es : List Row)
      → Refines D C db s
      → All (Storable C) es
      → (((write_batch D C call db es).0 ≡ none)
          × ((Memory.write_batch call.cancelled s es).0 ≡ none)
          × Refines D C
              ((write_batch D C call db es).1)
              ((Memory.write_batch call.cancelled s es).1))
        ⊎ ((e : BoltError) × IsReason call db es e
            × ((write_batch D C call db es).0 ≡ some e)
            × ((write_batch D C call db es).1 ≡ db))
  write_batch-Refines call db s es same ss = elim (write_batch-cases call db es) [
    | inr (e, why, refused) ↦ inr (e, why, ap (λ r. r.0) refused, ap (λ r. r.1) refused)
    | inl (b, live, valid, put_all, wrote) ↦
        let (k, checked) = validate_entries-Keyable es valid in
        let memory = in_memory call s es live checked in
        inl (
          ap (λ r. r.0) wrote,
          ap (λ r. r.0) memory,
          subst (λ r. Refines D C (r.1) ((Memory.write_batch call.cancelled s es).1)) (sym wrote)
              (subst (λ r. Refines D C (record db { entries = b }) (r.1)) (sym memory)
                (entries_kept db s b es same ss k put_all)),
        )
  ]
