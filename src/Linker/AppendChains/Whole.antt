-- ===== src/Linker/AppendChains/Whole.antt =====
-- linker/append_chains.go: an AppendChains that answers with an error.
use proof.Prelude.{
  ℕ, suc, ◌≡◌, ◌≢◌, refl, sym, ap₂, List, [], ◌∷◌, Option, some, Bool, Option-cases, ◌⊎◌, inl, inr,
  arith, map,
}
use proof.Prelude.Bytes.{Bytes}
use proof.Prelude.Int64.{Int64}
use proof.Hash.{Sha512}
use proof.ChainFormat.Timestamp.{Time}
use proof.Store.{Tail}
use proof.Store.Memory.{Store, Update, update_chains}
use proof.Store.Memory.Together.{update_chains-some}
use proof.Linker.AppendChains.{
  ChainInputs, ChainsError, Batch, Outcome, then_batch, prepare_one, prepare, chain_ids, gather,
  update_of, update_batches, append_chains,
}

pub Outcome-cases :
    {A : Type 0} (r : Outcome A)
    → ((a : A) × (r ≡ Outcome.ok a)) ⊎ ((e : ChainsError) × (r ≡ Outcome.err e))
Outcome-cases (Outcome.ok a) = inl (a, refl)
Outcome-cases (Outcome.err e) = inr (e, refl)

pub err≢ok : {A : Type 0} {e : ChainsError} {a : A} → Outcome.err e ≢ Outcome.ok a
err≢ok e = cc

module _ (H : Sha512) (valid_utf8 : Bytes → Bool) (format : Int64) (now : Time)
    (drawn : ℕ → Option Bytes) where
  update_batches-err :
      (cancelled : Bool) (s : Store) (batches : List Batch) {e : ChainsError}
      → (update_batches H valid_utf8 format now drawn cancelled s batches).0 ≡ Outcome.err e
      → (update_batches H valid_utf8 format now drawn cancelled s batches).1 ≡ s
  unfolding update_batches
  update_batches-err cancelled s batches h =
      let fn : Option (List Tail → Update ChainsError) =
        some (λ ts. update_of (gather H format now batches ts)) in
      elim (Option-cases (update_chains cancelled s (chain_ids batches) fn).0) [
        | inl done ↦ absurd (err≢ok (sym (rw (done, update_batches) at h)))
        | inr (e, failed) ↦ update_chains-some cancelled s (chain_ids batches) fn failed
      ]

  -- An `AppendChains` that answers with an error leaves the store as it was.
  pub append_chains-err :
      (cancelled later : Bool) (s : Store) (batches : List ChainInputs) {e : ChainsError}
      → (append_chains H valid_utf8 format now drawn cancelled later s batches).0 ≡ Outcome.err e
      → (append_chains H valid_utf8 format now drawn cancelled later s batches).1 ≡ s
  unfolding append_chains
  append_chains-err cancelled later s batches {e} h =
      elim (Outcome-cases (prepare valid_utf8 format drawn [] 0 batches)) [
        | inr (e', bad) ↦ ground arith
        | inl (prepared, good) ↦ ground (arith, update_batches-err later s prepared {e = e})
      ]

-- What is prepared is for the chains of the call, in order.
pub Batches-cases :
    (r : Outcome (List Batch)) (b : Batch) {prepared : List Batch}
    → then_batch b r ≡ Outcome.ok prepared
    → (rest : List Batch) × (r ≡ Outcome.ok rest) × (b ∷ rest ≡ prepared)
Batches-cases (Outcome.ok rest) b h = (rest, refl, cc)
Batches-cases (Outcome.err e) b h = absurd (err≢ok h)

module _ (valid_utf8 : Bytes → Bool) (format : Int64) (drawn : ℕ → Option Bytes) where
  pub prepare_one-chain_id :
      (seen : List Bytes) (i : ℕ) (batch : ChainInputs) {b : Batch}
      → prepare_one valid_utf8 format drawn seen i batch ≡ Outcome.ok b
      → b.chain_id ≡ batch.chain_id
  unfolding prepare_one
  prepare_one-chain_id seen i batch h = ground arith

  chain_ids-prepare :
      (seen : List Bytes) (i : ℕ) (batches : List ChainInputs) {prepared : List Batch}
      → prepare valid_utf8 format drawn seen i batches ≡ Outcome.ok prepared
      → chain_ids prepared ≡ map (λ (x : ChainInputs). x.chain_id) batches
  unfolding prepare chain_ids
  chain_ids-prepare seen i [] {prepared} h =
      elim prepared as (λ p. Outcome.ok [] ≡ Outcome.ok p → chain_ids p ≡ []) [
        | [] ↦ (λ e. refl)
        | b ∷ bs ↦ (λ e. cc)
      ]
        h
  chain_ids-prepare seen i (batch ∷ batches) h =
      elim (Outcome-cases (prepare_one valid_utf8 format drawn seen i batch)) [
        | inr (e, bad) ↦ absurd (err≢ok (rw (bad, prepare) at h))
        | inl (b, good) ↦
            let (rest, more, same) =
              Batches-cases
                (prepare valid_utf8 format drawn (batch.chain_id ∷ seen) (suc i) batches) b
                (rw (good, prepare) at h) in
            rw (← same) (
              ap₂ ◌∷◌ (prepare_one-chain_id seen i batch good)
                (chain_ids-prepare (batch.chain_id ∷ seen) (suc i) batches more))
      ]
