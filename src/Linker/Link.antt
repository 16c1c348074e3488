-- ===== src/Linker/Link.antt =====
-- What it takes for a batch to be linked.
pub mod Verified
pub mod Total
use proof.Prelude.{
  ℕ, zero, suc, ◌+◌, ◌%◌, ◌^◌, ◌<◌, ◌≤◌, ◌≡◌, ◌≢◌, refl, sym, ap, ◌∙◌, List, [], ◌∷◌, ◌++◌, map,
  Option, none, some, Bool, true, false, not, ◌==◌, ◌&&◌, ◌||◌, if◌then◌else◌, length, arith, ◌⊎◌,
  inl, inr, Bool-cases, Option-cases, all, All, ==_iff, ==_refl,
}
use proof.Prelude.Bytes.{Bytes, bytes_eq, bytes_eq_sound, is_empty, is_empty-eq_true, is_hex}
use proof.Prelude.Int64.{Int64, is_neg, int_next}
use proof.Hash.{Sha512, hex_encode, length-hex_encode}
use proof.ChainFormat.Timestamp.{Time, valid_timestamp}
use proof.ChainFormat.Tombstone.{is_tombstone}
use proof.ChainFormat.Hash.{
  FieldError, Checked, format_v2, format_v3, normalize_format_version, validate_chain_hash_inputs,
  validate_chain_hash_inputs_v3, compute_chain_hash, compute_chain_hash_v3,
  compute_chain_hash_unchecked, compute_chain_hash_v3_unchecked,
}
use proof.Store.{Row}
use proof.Verify.{Entry}
use proof.Verify.Walker.{format_timestamp, chain_hash_pattern}
use proof.Verify.Walker.Links.{
  Linked, Link, Contiguous, IsHashedV3, IsHashedV2, hashed_v3, hashed_v2,
}
use proof.Linker.{
  Input, LinkError, Linking, linked, refused, then_row, linked_row, entry_hash, link_from, link,
  bad_field, unexpected_chain_hash,
}
use proof.Linker.Export.{to_exported}

pub Checked-cases :
    {A : Type 0} (r : Checked A)
    → ((a : A) × (r ≡ Checked.ok a)) ⊎ ((e : FieldError) × (r ≡ Checked.err e))
Checked-cases (Checked.ok a) = inl (a, refl)
Checked-cases (Checked.err e) = inr (e, refl)

Linking-cases :
    (r : Linking) → ((rows : List Row) × (r ≡ linked rows)) ⊎ ((e : LinkError) × (r ≡ refused e))
Linking-cases (linked rows) = inl (rows, refl)
Linking-cases (refused e) = inr (e, refl)

refused≢linked : {e : LinkError} {rows : List Row} → refused e ≢ linked rows
refused≢linked e = cc

abbrev pub rows_of : Linking → List Row
rows_of (linked rows) = rows
rows_of (refused e) = []

expected :
    (x : Input) (hash : Bytes)
    → (not (is_empty x.expect_chain_hash) && not (bytes_eq x.expect_chain_hash hash)) ≡ false
    → (is_empty x.expect_chain_hash ≡ true) ⊎ (x.expect_chain_hash ≡ hash)
expected x hash h = elim (Bool-cases (is_empty x.expect_chain_hash)) [
  | inl empty ↦ inl empty
  | inr named ↦ inr (bytes_eq_sound x.expect_chain_hash hash (ground arith))
]

module _ (H : Sha512) (format : Int64) (chain_id : Bytes) (next : Int64) (run_id : Bytes) where
  -- A batch is linked only if its first entry is hashed, the hash is the one expected if one is,
  -- and the rest is linked after it.
  pub link_from-linked :
      (previous : Bytes) (i : ℕ) (x : Input) (batch : List Input) {rows : List Row}
      → link_from H format chain_id previous next run_id i (x ∷ batch) ≡ linked rows
      → (hash : Bytes) × (rest : List Row) × (entry_hash H format previous run_id i
            ((next + i) % 2 ^ 64)
            x
          ≡ Checked.ok hash)
        × ((is_empty x.expect_chain_hash ≡ true) ⊎ (x.expect_chain_hash ≡ hash))
        × (link_from H format chain_id hash next run_id (suc i) batch ≡ linked rest)
        × (linked_row format chain_id run_id i ((next + i) % 2 ^ 64) previous hash x ∷ rest ≡ rows)
  unfolding link_from
  link_from-linked previous i x batch {rows} h =
      elim (Checked-cases (entry_hash H format previous run_id i ((next + i) % 2 ^ 64) x)) [
        | inr (e, bad) ↦ absurd (refused≢linked (rw (bad, link_from) at h))
        | inl (hash, good) ↦
            let hashed = rw (good, link_from) at h in
            elim (Bool-cases
              (not (is_empty x.expect_chain_hash) && not (bytes_eq x.expect_chain_hash hash))) [
                | inl bad ↦ absurd (refused≢linked (rw bad at hashed))
                | inr fine ↦
                    let step : then_row
                          (linked_row format chain_id run_id i ((next + i) % 2 ^ 64) previous hash
                            x)
                          (link_from H format chain_id hash next run_id (suc i) batch)
                        ≡ linked rows =
                      rw fine at hashed in
                    elim (Linking-cases
                      (link_from H format chain_id hash next run_id (suc i) batch)) [
                        | inr (e, bad) ↦ absurd (refused≢linked (rw bad at step))
                        | inl (rest, more) ↦ (
                          hash,
                          rest,
                          good,
                          expected x hash fine,
                          more,
                          ap rows_of (rw more at step),
                        )
                      ]
              ]
      ]
