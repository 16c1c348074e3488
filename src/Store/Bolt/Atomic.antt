-- ===== src/Store/Bolt/Atomic.antt =====
-- store/bolt/bolt.go: UpdateChains, beside that of store/memory/memory.go.
use proof.Prelude.{
  ◌≡◌, refl, sym, ap, subst, ◌∙◌, List, [], ◌∷◌, Option, none, some, true, false, ◌==◌, ◌⊎◌, inl,
  inr, Bool-cases, Option-cases, All, length, arith,
}
use proof.Prelude.Bytes.{Bytes, contains}
use proof.Store.{Row, State, Tail}
use proof.Store.CheckAppend.{check_append}
use proof.Store.Memory
use proof.Store.Memory.{
  Store, Update, rows, refused, check_names, check_rows, last_row, upsert_locked, cancelled_context,
  no_chains, chain_leased, append_refused,
}
use proof.Store.Bolt.{Engine, IsEngine, Codec, Db, Call, shared, done, database_failed, update}
use proof.Store.Bolt.Write.{validate_entries, put_entries}
use proof.Store.Bolt.Read.{tail_of_row}
use proof.Store.Bolt.Update.{
  UpdateError, by_store, by_caller, any_leased, first_tail, tails, put_states, put_all, append_all,
  by_bolt, apply_update, transaction, update_chains,
}
use proof.Store.Bolt.Rows.{Refines}
use proof.Store.Bolt.Lookup.{tail_lem}
use proof.Store.Bolt.Transaction.{failed≢done, update-cases, Answer-cases}
use proof.Store.Bolt.Batches.{Storable, validate_entries-Keyable, entries_kept}
use proof.Store.Bolt.States.{StorableState, states_kept}

-- None of the names has a NUL byte.
abbrev HasNoNul : Bytes → Type 0
HasNoNul id = contains id 0 ≡ false

check_names-HasNoNul : (seen ids : List Bytes) → check_names seen ids ≡ none → All HasNoNul ids
unfolding check_names
check_names-HasNoNul seen [] h = tt
check_names-HasNoNul seen (id ∷ ids) h =
    let rest : check_names (id ∷ seen) ids ≡ none = ground arith in
    (ground arith, check_names-HasNoNul (id ∷ seen) ids rest)

-- What the callback returns decodes from what it encodes to.
abbrev pub AllStorable : {E : Type 0} → Codec → Update E → Type 0
AllStorable C (rows es sts) = All (Storable C) es × All (StorableState C) sts
AllStorable C (refused e) = Unit

memory_tail :
    (s : Store) (id : Bytes)
    → tail_of_row id (done (last_row (s.entries id))) ≡ done (Memory.tail_of s id)
unfolding tail_of_row Memory.tail_of
memory_tail s id = elim (Option-cases (last_row (s.entries id))) [
  | inl nothing ↦ rw (nothing, Memory.tail_of) refl
  | inr (e, found) ↦ rw (found, Memory.tail_of) refl
]

module _ (D : Engine) (law : IsEngine D) (C : Codec) where
  leased_lem :
      (db : Db D) (s : Store) (ids : List Bytes)
      → Refines D C db s
      → any_leased D db ids ≡ Memory.any_leased s ids
  unfolding any_leased Memory.any_leased
  leased_lem db s [] same = refl
  leased_lem db s (id ∷ ids) same =
      let ih = leased_lem db s ids same in
      elim (Option-cases (s.leases id)) [
        | inl free ↦ rw (same.leases id ∙ free, free, any_leased, Memory.any_leased) ih
        | inr (held, lease) ↦ rw (same.leases id ∙ lease, lease, any_leased, Memory.any_leased) refl
      ]

  tails_lem :
      (call : Call) (db : Db D) (s : Store) (ids : List Bytes)
      → Refines D C db s
      → call.begins ≡ true
      → All HasNoNul ids
      → tails D C db ids ≡ done (Memory.tails s ids)
  unfolding tails Memory.tails first_tail
  tails_lem call db s [] same begins h = refl
  tails_lem call db s (id ∷ ids) same begins (no_nul, h) =
      let here = tail_lem D law C db s same call begins id no_nul ∙ memory_tail s id in
      rw (here, tails_lem call db s ids same begins h, tails, first_tail) refl

  append-step :
      (db new : Db D) (ts : List Tail) (es : List Row) (sts : List State)
      → append_all D C db ts es sts ≡ done new
      → (b : D.Bucket) × (validate_entries es ≡ none)
        × (check_append ts es sts ≡ none)
        × (put_entries D C db.entries es ≡ done b)
        × (put_states D C (record db { entries = b }) sts ≡ done new)
  unfolding append_all put_all
  append-step db new ts es sts h = elim (Option-cases (validate_entries es)) [
    | inr (e, bad) ↦ absurd (failed≢done (rw (bad, append_all) at h))
    | inl valid ↦ elim (Option-cases (check_append ts es sts)) [
      | inr (e, bad) ↦ absurd (failed≢done (rw (valid, bad, append_all) at h))
      | inl goes_on ↦ elim (Answer-cases (put_entries D C db.entries es)) [
        | inr (e, bad) ↦ absurd (failed≢done (rw (valid, goes_on, bad, append_all, put_all) at h))
        | inl (b, good) ↦
            (b, valid, goes_on, good, rw (valid, goes_on, good, append_all, put_all) at h)
      ]
    ]
  ]

  memory_apply :
      {E : Type 0} (s : Store) (ts : List Tail) (es : List Row) (sts : List State)
      → check_rows es ≡ none
      → check_append ts es sts ≡ none
      → Memory.apply_update {E = E} s ts (rows es sts)
        ≡ (none, record (upsert_locked s es) { state = Memory.put_states s.state sts })
  unfolding Memory.apply_update
  memory_apply s ts es sts h k = rw (h, k, Memory.apply_update) refl

  -- The update as in memory, or an error and the file as it was.
  abbrev pub Whole :
      {E : Type 0}
      → Option (UpdateError E) × Db D
      → Option (Memory.UpdateError E) × Store
      → Db D
      → Type 0
  Whole {E} r m db =
      ((r.0 ≡ none) × (m.0 ≡ none) × Refines D C (r.1) (m.1))
      ⊎ ((e : UpdateError E) × (r ≡ (some e, db)))

  apply_lem :
      {E : Type 0} (call : Call) (db : Db D) (s : Store) (ts : List Tail) (u : Update E)
      → Refines D C db s
      → AllStorable C u
      → Whole (apply_update D C call db ts u) (Memory.apply_update s ts u) db
  unfolding apply_update by_bolt upsert_locked
  apply_lem call db s ts (refused e) same ss = inr (by_caller e, refl)
  apply_lem {E} call db s ts (rows es sts) same (se, ss) =
      elim (update-cases call db (append_all D C db ts es sts)) [
        | inr (e, why, lost) ↦ inr (by_store e, ap by_bolt lost)
        | inl (new, wrote, kept) ↦
            let (b, valid, goes_on, put_rows, put_sts) = append-step db new ts es sts wrote in
            let (k, checked) = validate_entries-Keyable es valid in
            let memory = memory_apply {E = E} s ts es sts checked goes_on in
            let both =
              states_kept D law C (record db { entries = b }) new (upsert_locked s es) sts
                (entries_kept D law C db s b es same se k put_rows) ss put_sts in
            inl (
              ap (λ r. (by_bolt {E = E} r).0) kept,
              ap (λ m. m.0) memory,
              subst
                  (λ r.
                    Refines D C ((by_bolt {E = E} r).1)
                      ((Memory.apply_update {E = E} s ts (rows es sts)).1))
                  (sym kept) (subst (λ m. Refines D C new (m.1)) (sym memory) both),
            )
      ]

  memory_reached :
      {E : Type 0} (call : Call) (s : Store) (ids : List Bytes) (f : List Tail → Update E)
      → call.cancelled ≡ false
      → (length ids == 0) ≡ false
      → check_names [] ids ≡ none
      → Memory.any_leased s ids ≡ false
      → Memory.update_chains call.cancelled s ids (some f)
        ≡ Memory.apply_update s (Memory.tails s ids) (f (Memory.tails s ids))
  unfolding Memory.update_chains
  memory_reached call s ids f live some_named named free =
      rw (live, some_named, named, free, Memory.update_chains) refl

  file_reached :
      {E : Type 0} (call : Call) (db : Db D) (s : Store) (ids : List Bytes)
      (f : List Tail → Update E)
      → Refines D C db s
      → check_names [] ids ≡ none
      → call.begins ≡ true
      → Memory.any_leased s ids ≡ false
      → transaction D C call db ids f
        ≡ apply_update D C call db (Memory.tails s ids) (f (Memory.tails s ids))
  unfolding transaction
  file_reached call db s ids f same named begins free =
      rw
        (
          leased_lem db s ids same,
          free,
          tails_lem call db s ids same begins (check_names-HasNoNul [] ids named),
          transaction,
        )
        refl

  file_leased :
      {E : Type 0} (call : Call) (db : Db D) (s : Store) (ids : List Bytes)
      (f : List Tail → Update E)
      → Refines D C db s
      → Memory.any_leased s ids ≡ true
      → transaction D C call db ids f ≡ (some (by_store (shared chain_leased)), db)
  unfolding transaction
  file_leased call db s ids f same leased = rw (leased_lem db s ids same, leased) refl

  file_begun :
      {E : Type 0} (call : Call) (db : Db D) (ids : List Bytes) (f : List Tail → Update E)
      → call.cancelled ≡ false
      → (length ids == 0) ≡ false
      → check_names [] ids ≡ none
      → call.begins ≡ true
      → update_chains D C call db ids (some f) ≡ transaction D C call db ids f
  unfolding update_chains transaction apply_update update
  file_begun call db ids f live some_named named begins =
      rw (live, some_named, named, begins, update_chains) refl

  transaction_lem :
      {E : Type 0} (call : Call) (db : Db D) (s : Store) (ids : List Bytes)
      (f : List Tail → Update E)
      → Refines D C db s
      → ((ts : List Tail) → AllStorable C (f ts))
      → call.cancelled ≡ false
      → (length ids == 0) ≡ false
      → check_names [] ids ≡ none
      → call.begins ≡ true
      → Whole
          (transaction D C call db ids f)
          (Memory.update_chains call.cancelled s ids (some f))
          db
  transaction_lem {E = E} call db s ids f same ss live some_named named begins =
      elim (Bool-cases (Memory.any_leased s ids)) [
        | inl leased ↦ inr (by_store (shared chain_leased), file_leased call db s ids f same leased)
        | inr free ↦
            let ts = Memory.tails s ids in
            subst (λ r. Whole r (Memory.update_chains call.cancelled s ids (some f)) db)
              (sym (file_reached call db s ids f same named begins free))
              (subst (λ m. Whole (apply_update D C call db ts (f ts)) m db)
                (sym (memory_reached call s ids f live some_named named free))
                (apply_lem call db s ts (f ts) same (ss ts)))
      ]

  -- Where a file refines a store in memory, `UpdateChains` with a callback succeeds only where it does
  -- in memory and the file then refines what the store becomes, or it answers an error and the file is
  -- as it was. What the callback returns must decode from what it encodes to.
  pub update_chains-Refines :
      {E : Type 0} (call : Call) (db : Db D) (s : Store) (ids : List Bytes)
      (f : List Tail → Update E)
      → Refines D C db s
      → ((ts : List Tail) → AllStorable C (f ts))
      → Whole
          (update_chains D C call db ids (some f))
          (Memory.update_chains call.cancelled s ids (some f))
          db
  unfolding update_chains
  update_chains-Refines call db s ids f same ss = elim (Bool-cases call.cancelled) [
    | inl ended ↦ inr (by_store (shared cancelled_context), rw (ended, update_chains) refl)
    | inr live ↦ elim (Bool-cases (length ids == 0)) [
      | inl empty ↦ inr (by_store (shared no_chains), rw (live, empty, update_chains) refl)
      | inr some_named ↦ elim (Option-cases (check_names [] ids)) [
        | inr (e, bad) ↦ inr (by_store (shared e), rw (live, some_named, bad, update_chains) refl)
        | inl named ↦ elim (Bool-cases call.begins) [
          | inr not_begun ↦ inr (
            by_store database_failed,
            rw (live, some_named, named, not_begun, update_chains) refl,
          )
          | inl begins ↦
              subst (λ r. Whole r (Memory.update_chains call.cancelled s ids (some f)) db)
                (sym (file_begun call db ids f live some_named named begins))
                (transaction_lem call db s ids f same ss live some_named named begins)
        ]
      ]
    ]
  ]
