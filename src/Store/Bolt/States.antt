-- ===== src/Store/Bolt/States.antt =====
-- store/bolt/bolt.go: putState, beside what store/memory/memory.go does with head states.
use proof.Prelude.{
  ◌≡◌, sym, subst, List, [], ◌∷◌, Option, some, false, if◌then◌else◌, inl, inr, Bool-cases,
  Option-cases, All,
}
use proof.Prelude.Bytes.{Bytes, bytes_eq, is_empty}
use proof.Store.{State, put}
use proof.Store.Memory
use proof.Store.Memory.{Store, cancelled_context, nil_state, empty_chain_id}
use proof.Store.Bolt.{Engine, IsEngine, Codec, Db, done}
use proof.Store.Bolt.Write.{put_state_in}
use proof.Store.Bolt.Update.{put_states}
use proof.Store.Bolt.Rows.{SameState, Refines}
use proof.Store.Bolt.Transaction.{failed≢done, done-injective, Answer-cases}

abbrev pub StorableState : Codec → State → Type 0
StorableState C st = (raw : Bytes) → C.encode_state st ≡ some raw → C.decode_state raw ≡ some st

module _ (D : Engine) (law : IsEngine D) (C : Codec) where
  state-step :
      (db new : Db D) (st : State)
      → put_state_in D C db st ≡ done new
      → (raw : Bytes) × (b : D.Bucket) × (is_empty st.chain_id ≡ false)
        × (C.encode_state st ≡ some raw)
        × (D.put db.state st.chain_id raw ≡ some b)
        × (new ≡ record db { state = b })
  unfolding put_state_in
  state-step db new st h = elim (Bool-cases (is_empty st.chain_id)) [
    | inl empty ↦ absurd (failed≢done (rw (empty, put_state_in) at h))
    | inr named ↦ elim (Option-cases (C.encode_state st)) [
      | inl bad ↦ absurd (failed≢done (rw (named, bad, put_state_in) at h))
      | inr (raw, good) ↦ elim (Option-cases (D.put db.state st.chain_id raw)) [
        | inl full ↦ absurd (failed≢done (rw (named, good, full, put_state_in) at h))
        | inr (b, taken) ↦ (
          raw,
          b,
          named,
          good,
          taken,
          sym (
              done-injective (record db { state = b }) new
                (rw (named, good, taken, put_state_in) at h)),
        )
      ]
    ]
  ]

  same_put :
      (key j raw : Bytes) (st : State) (o : Option Bytes) (t : Option State)
      → C.decode_state raw ≡ some st
      → SameState C o t
      → SameState C (if bytes_eq key j then some raw else o) (if bytes_eq key j then some st else t)
  same_put key j raw st o t decoded h = elim (Bool-cases (bytes_eq key j)) [
    | inl own ↦ rw own decoded
    | inr other ↦ rw other h
  ]

  state_kept :
      (db new : Db D) (s : Store) (st : State)
      → Refines D C db s
      → StorableState C st
      → put_state_in D C db st ≡ done new
      → Refines D C new (record s { state = put s.state st.chain_id (some st) })
  unfolding put
  state_kept db new s st same storable h =
      let (raw, b, named, good, taken, is_new) = state-step db new st h in
      subst (λ n. Refines D C n (record s { state = put s.state st.chain_id (some st) }))
        (sym is_new)
        (record {
          rows = same.rows;
          reads = same.reads;
          entries = same.entries;
          state = λ j.
              subst (λ o. SameState C o (if bytes_eq st.chain_id j then some st else s.state j))
                (sym (law.get-put db.state b st.chain_id raw j taken))
                (same_put st.chain_id j raw st (D.get db.state j) (s.state j) (storable raw good)
                  (same.state j));
          leases = same.leases;
        })

  -- The states of an update, one after the other.
  pub states_kept :
      (db new : Db D) (s : Store) (sts : List State)
      → Refines D C db s
      → All (StorableState C) sts
      → put_states D C db sts ≡ done new
      → Refines D C new (record s { state = Memory.put_states s.state sts })
  unfolding put_states Memory.put_states
  states_kept db new s [] same ss h = subst (λ n. Refines D C n s) (done-injective db new h) same
  states_kept db new s (st ∷ sts) same (first, ss) h =
      elim (Answer-cases (put_state_in D C db st)) [
        | inr (e, bad) ↦ absurd (failed≢done (rw (bad, put_states) at h))
        | inl (next, good) ↦
            states_kept next new (record s { state = put s.state st.chain_id (some st) }) sts
              (state_kept db next s st same first good) ss (rw (good, put_states) at h)
      ]
