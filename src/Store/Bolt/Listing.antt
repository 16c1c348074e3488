-- ===== src/Store/Bolt/Listing.antt =====
-- store/bolt/bolt.go: Chains and ChainsAfter, from one chain to the next by a seek.
use proof.Prelude.{
  ℕ, zero, suc, List, [], ◌∷◌, ◌++◌, Option, none, some, ◌==◌, if◌then◌else◌, length,
}
use proof.Prelude.Bytes.{Bytes}
use proof.Prelude.Int64.{Int64, int_lt}
use proof.Store.Memory.{cancelled_context}
use proof.Store.Bolt.{
  Item, Engine, Db, Call, shared, no_separator, bad_limit, Answer, done, failed, view, key_sep,
}

-- `k[:i]` at the first separator; `none` when there is none.
unfoldable pub chain_of : Bytes → Option Bytes
chain_of [] = none
chain_of (x ∷ k) =
    let rest = chain_of k in
    if x == key_sep then some [] else elim rest [ none ↦ none | some c ↦ some (x ∷ c) ]

-- Past every key of the chain.
unfoldable pub past_chain : Bytes → Bytes
past_chain id = id ++ (suc key_sep) ∷ []

unfoldable pub with_chain : Bytes → Answer (List Bytes) → Answer (List Bytes)
with_chain id (failed e) = failed e
with_chain id (done ids) = done (id ∷ ids)

module _ (D : Engine) where
  -- The loop, for at most so many chains.
  unfoldable pub page : D.Bucket → ℕ → List Item → Answer (List Bytes)
  page b zero items = done []
  page b (suc n) [] = done []
  page b (suc n) ((k, v) ∷ items) = elim (chain_of k) [
    | none ↦ failed no_separator
    | some id ↦ with_chain id (page b n (D.seek b (past_chain id)))
  ]

  -- Each round passes an item or more, so that there are no more rounds than items.
  unfoldable pub chains : Call → Db D → Answer (List Bytes)
  chains call db =
      if call.cancelled
      then failed (shared cancelled_context)
      else view call (page db.entries (length (D.first db.entries)) (D.first db.entries))

  -- A nil pointer is `none`.
  unfoldable pub chains_after : Call → Db D → Option Bytes → Int64 → Answer (List Bytes)
  chains_after call db after limit =
      if call.cancelled
      then failed (shared cancelled_context)
      else if int_lt limit 1
      then failed bad_limit
      else elim after [
        | none ↦ view call (page db.entries limit (D.first db.entries))
        | some id ↦ view call (page db.entries limit (D.seek db.entries (past_chain id)))
      ]
