-- ===== src/Linker/AppendChains/Written.antt =====
-- linker/append_chains.go: the rows, heads and results of an AppendChains that succeeds.
use proof.Prelude.{
  ℕ, suc, ◌+◌, ◌^◌, ◌<◌, ◌≡◌, ◌≢◌, refl, sym, ap, ◌∙◌, List, [], ◌∷◌, ◌++◌, Option, some, Bool,
  Bool-cases, Option-cases, inl, inr, In, arith, All, length, if◌then◌else◌, subst, ◌==◌,
}
use proof.Prelude.Bytes.{Bytes, bytes_eq}
use proof.Prelude.Int64.{Int64, int_next}
use proof.Hash.{Sha512}
use proof.ChainFormat.Timestamp.{Time}
use proof.ChainFormat.Hash.{format_v2}
use proof.Store.{Row, State, Tail}
use proof.Store.CheckAppend.Continues.{last_of}
use proof.Store.Memory.{Store, Update, rows, refused, tail_of, tails, update_chains}
use proof.Store.Memory.Placed.{IsSmall}
use proof.Store.Memory.Appended.{IsOrdered, All-append}
use proof.Store.Memory.Extends.{HasSmall, Extended, update_chains-Extended}
use proof.Linker.{Appended, linked, link, sort_inputs}
use proof.Linker.AppendChains.{
  ChainInputs, ChainsError, Batch, Gathered, Outcome, prepare_one, prepare, chain_ids, gather, join,
  link_batch, link_batches, update_of, results_of, update_batches, append_chains,
}
use proof.Linker.AppendChains.Whole.{Outcome-cases, err≢ok, Batches-cases, prepare_one-chain_id}
use proof.Linker.AppendChains.Steps.{
  next_after, hash_after, part, IsRunId, ok-injective, join-ok, gather_rows-ok, tail-next_after,
  tail-hash_after, length-sort_inputs, gather-ok, link-IsSmall, prepare_one-sorted,
  prepare_one-IsRunId,
}

module _ (H : Sha512) (format : Int64) (now : Time) (drawn : ℕ → Option Bytes) (s : Store) where
  -- One batch, by its index: its inputs, sorted, are linked after the last row of the chain.
  abbrev pub IsPart : ℕ → ChainInputs → Gathered → Type 0
  IsPart i x g =
      (run_id : Bytes) × (first : Row) × (more : List Row) × (l : Row) × IsRunId
        (format == format_v2) (drawn i) run_id
      × (link H format x.chain_id (hash_after (last_of (s.entries x.chain_id)))
            (next_after (last_of (s.entries x.chain_id))) run_id (sort_inputs x.inputs)
          ≡ linked (first ∷ more))
      × (last_of (first ∷ more) ≡ some l)
      × (g ≡ part x.chain_id run_id now (first ∷ more) first l)

  -- The parts of the batches, in order, from an index on.
  abbrev pub AreParts : ℕ → List ChainInputs → Gathered → Type 0
  AreParts i [] g = g ≡ record { entries = []; states = []; results = [] }
  AreParts i (x ∷ xs) g =
      (p : Gathered) × (q : Gathered) × IsPart i x p
      × AreParts (suc i) xs q
      × (g ≡ record {
        entries = p.entries ++ q.entries;
        states = p.states ++ q.states;
        results = p.results ++ q.results;
      })

  link_batch-IsPart :
      (i : ℕ) (x : ChainInputs) (b : Batch) {p : Gathered}
      → IsRunId (format == format_v2) (drawn i) b.run_id
      → b.chain_id ≡ x.chain_id
      → b.sorted ≡ sort_inputs x.inputs
      → link_batch H format now b (tail_of s b.chain_id) ≡ Outcome.ok p
      → IsPart i x p
  unfolding link_batch
  link_batch-IsPart i x b {p} run is sorted h =
      elim (Bool-cases (bytes_eq (tail_of s b.chain_id).chain_id b.chain_id)) [
        | inr other ↦ absurd (err≢ok (rw (other, link_batch) at h))
        | inl same ↦
            let (first, more, l, made, last, g_is) =
              gather_rows-ok now b
                (link H format b.chain_id
                  (if (tail_of s b.chain_id).empty then [] else (tail_of s b.chain_id).hash)
                  (if (tail_of s b.chain_id).empty
                    then 0
                    else int_next (tail_of s b.chain_id).global_seq)
                  b.run_id b.sorted)
                (rw (same, link_batch) at h) in
            (
              b.run_id,
              first,
              more,
              l,
              run,
              rw (← is) (
                  rw (← sorted) (
                    rw (← tail-hash_after s b.chain_id)
                      (rw (← tail-next_after s b.chain_id) made))),
              last,
              g_is ∙ ap (λ id. part id b.run_id now (first ∷ more) first l) is,
            )
      ]

  link_batches-cons :
      (b : Batch) (batches : List Batch) (t : Tail) (ts : List Tail) {g : Gathered}
      → link_batches H format now (b ∷ batches) (t ∷ ts) ≡ Outcome.ok g
      → (p : Gathered) × (link_batch H format now b t ≡ Outcome.ok p)
        × (join p (link_batches H format now batches ts) ≡ Outcome.ok g)
  unfolding link_batches
  link_batches-cons b batches t ts h = elim (Outcome-cases (link_batch H format now b t)) [
    | inr (e, bad) ↦ absurd (err≢ok (rw (bad, link_batches) at h))
    | inl (p, good) ↦ (p, good, rw (good, link_batches) at h)
  ]

  module _ (valid_utf8 : Bytes → Bool) where
    link_batches-AreParts :
        (seen : List Bytes) (i : ℕ) (xs : List ChainInputs) {batches : List Batch} {g : Gathered}
        → prepare valid_utf8 format drawn seen i xs ≡ Outcome.ok batches
        → link_batches H format now batches (tails s (chain_ids batches)) ≡ Outcome.ok g
        → AreParts i xs g
    unfolding prepare chain_ids tails link_batches
    link_batches-AreParts seen i [] {batches} {g} h k = sym (
        ok-injective _ g (
          subst (λ bs. link_batches H format now bs (tails s (chain_ids bs)) ≡ Outcome.ok g)
            (sym (ok-injective [] batches h)) k))
    link_batches-AreParts seen i (x ∷ xs) {batches} {g} h k =
        elim (Outcome-cases (prepare_one valid_utf8 format drawn seen i x)) [
          | inr (e, bad) ↦ absurd (err≢ok (rw (bad, prepare) at h))
          | inl (b, good) ↦
              let (rest, more, same) =
                Batches-cases (prepare valid_utf8 format drawn (x.chain_id ∷ seen) (suc i) xs) b
                  (rw (good, prepare) at h) in
              let k' : link_batches H format now (b ∷ rest)
                    (tail_of s b.chain_id ∷ tails s (chain_ids rest))
                  ≡ Outcome.ok g =
                subst (λ bs. link_batches H format now bs (tails s (chain_ids bs)) ≡ Outcome.ok g)
                  (sym same) k in
              let (p, linked_p, joined) =
                link_batches-cons b rest (tail_of s b.chain_id) (tails s (chain_ids rest)) k' in
              let (q, linked_q, g_is) =
                join-ok p (link_batches H format now rest (tails s (chain_ids rest))) joined in
              (
                p,
                q,
                link_batch-IsPart i x b (prepare_one-IsRunId valid_utf8 format drawn seen i x good)
                    (prepare_one-chain_id valid_utf8 format drawn seen i x good)
                    (prepare_one-sorted valid_utf8 format drawn seen i x good) linked_p,
                link_batches-AreParts (x.chain_id ∷ seen) (suc i) xs more linked_q,
                g_is,
              )
        ]

  -- The numbers of the new rows of every batch are below 2^63.
  abbrev pub HasRoom : ChainInputs → Type 0
  HasRoom x = next_after (last_of (s.entries x.chain_id)) + length x.inputs < 2 ^ 63

  IsPart-IsSmall :
      (i : ℕ) (x : ChainInputs) (p : Gathered) → HasRoom x → IsPart i x p → All IsSmall p.entries
  unfolding link
  IsPart-IsSmall i x p room (run_id, first, more, l, run, made, last, p_is) =
      let next : Int64 = next_after (last_of (s.entries x.chain_id)) in
      let long = length-sort_inputs x.inputs in
      subst (λ (q : Gathered). All IsSmall q.entries) (sym p_is)
        (link-IsSmall H format x.chain_id next run_id (hash_after (last_of (s.entries x.chain_id)))
          0 (sort_inputs x.inputs) (omega (arith, long)) made)

  AreParts-IsSmall :
      (i : ℕ) (xs : List ChainInputs) (g : Gathered)
      → ((x : ChainInputs) → In x xs → HasRoom x)
      → AreParts i xs g
      → All IsSmall g.entries
  AreParts-IsSmall i [] g room g_is = subst (λ (q : Gathered). All IsSmall q.entries) (sym g_is) tt
  AreParts-IsSmall i (x ∷ xs) g room (p, q, part_p, parts, g_is) =
      subst (λ (r : Gathered). All IsSmall r.entries) (sym g_is)
        (All-append IsSmall p.entries q.entries (IsPart-IsSmall i x p (room x (inl refl)) part_p)
          (AreParts-IsSmall (suc i) xs q (λ y k. room y (inr k)) parts))

abbrev entries_of : Update ChainsError → List Row
entries_of (rows es sts) = es
entries_of (refused e) = []

abbrev states_of : Update ChainsError → List State
states_of (rows es sts) = sts
states_of (refused e) = []

refused≢rows : {e : ChainsError} {es : List Row} {sts : List State} → refused e ≢ rows es sts
refused≢rows h = cc

module _ (H : Sha512) (valid_utf8 : Bytes → Bool) (format : Int64) (now : Time)
    (drawn : ℕ → Option Bytes) where
  gather-HasSmall :
      (s : Store) (xs : List ChainInputs) {batches : List Batch}
      → ((x : ChainInputs) → In x xs → HasRoom H format now drawn s x)
      → prepare valid_utf8 format drawn [] 0 xs ≡ Outcome.ok batches
      → HasSmall (update_of (gather H format now batches (tails s (chain_ids batches))))
  gather-HasSmall s xs {batches} room h =
      elim (Outcome-cases (gather H format now batches (tails s (chain_ids batches)))) [
        | inr (e, bad) ↦ subst (λ r. HasSmall (update_of r)) (sym bad) tt
        | inl (g, good) ↦
            subst (λ r. HasSmall (update_of r)) (sym good)
              (AreParts-IsSmall H format now drawn s 0 xs g room (
                link_batches-AreParts H format now drawn s valid_utf8 [] 0 xs h
                  (gather-ok H format now batches (tails s (chain_ids batches)) good)))
      ]

  update_batches-AreParts :
      (later : Bool) (s : Store) (xs : List ChainInputs) {batches : List Batch} {r : List Appended}
      → ((id : Bytes) → IsOrdered (s.entries id))
      → ((x : ChainInputs) → In x xs → HasRoom H format now drawn s x)
      → prepare valid_utf8 format drawn [] 0 xs ≡ Outcome.ok batches
      → (update_batches H valid_utf8 format now drawn later s batches).0 ≡ Outcome.ok r
      → (g : Gathered) × AreParts H format now drawn s 0 xs g
        × (r ≡ g.results)
        × Extended s g.entries g.states
            ((update_batches H valid_utf8 format now drawn later s batches).1)
  unfolding update_batches
  update_batches-AreParts later s xs {batches} {r} order room h k =
      let ids : List Bytes = chain_ids batches in
      let fn : List Tail → Update ChainsError = λ ts. update_of (gather H format now batches ts) in
      elim (Option-cases (update_chains later s ids (some fn)).0) [
        | inr (e, failed) ↦ absurd (err≢ok (rw (failed, update_batches) at k))
        | inl done ↦
            let (free, (es, sts, made, append, extended)) =
              update_chains-Extended later s ids fn order (gather-HasSmall s xs room h) done in
            elim (Outcome-cases (gather H format now batches (tails s ids))) [
              | inr (e, bad) ↦ absurd (refused≢rows (ap update_of (sym bad) ∙ made))
              | inl (g, good) ↦
                  let rows_are : rows g.entries g.states ≡ rows es sts =
                    ap update_of (sym good) ∙ made in
                  (
                    g,
                    link_batches-AreParts H format now drawn s valid_utf8 [] 0 xs h
                        (gather-ok H format now batches (tails s ids) good),
                    sym (ok-injective _ r (rw (done, update_batches) at k)) ∙ ap results_of good,
                    rw (ap entries_of rows_are) (rw (ap states_of rows_are) extended),
                  )
            ]
      ]

  -- An `AppendChains` that succeeds, on a store whose chains are in order and where the numbers of the
  -- new rows stay below 2^63: the inputs of every batch, sorted, were linked after the last row of its
  -- chain (with the run id drawn for it in format v2, without one otherwise), the store is the one before with just these rows behind those of their chains and each last
  -- new row recorded as its chain's head at the time of the call, and the answer lists for every batch,
  -- in order, the rows appended, their first and last number and the new head.
  pub append_chains-AreParts :
      (cancelled later : Bool) (s : Store) (batches : List ChainInputs) {r : List Appended}
      → ((id : Bytes) → IsOrdered (s.entries id))
      → ((x : ChainInputs) → In x batches → HasRoom H format now drawn s x)
      → (append_chains H valid_utf8 format now drawn cancelled later s batches).0 ≡ Outcome.ok r
      → (g : Gathered) × AreParts H format now drawn s 0 batches g
        × (r ≡ g.results)
        × Extended s g.entries g.states
            ((append_chains H valid_utf8 format now drawn cancelled later s batches).1)
  unfolding append_chains
  append_chains-AreParts cancelled later s batches {r} order room h =
      elim (Outcome-cases (prepare valid_utf8 format drawn [] 0 batches)) [
        | inr (e', bad) ↦ absurd (ground arith)
        | inl (prepared, good) ↦
            let taken : append_chains H valid_utf8 format now drawn cancelled later s batches
                ≡ update_batches H valid_utf8 format now drawn later s prepared =
              ground arith in
            rw taken (update_batches-AreParts later s batches order room good (rw taken at h))
      ]
