-- ===== src/Linker/Link/Total.antt =====
-- When `link` does not refuse: the hash before the batch is none or a digest, the numbers stay below
-- 2^63, and every input holds a content hash and a year that are in order.
use proof.Prelude.{
  ℕ, suc, ◌+◌, ◌%◌, ◌^◌, ◌<◌, ◌≡◌, refl, ap, List, [], ◌∷◌, none, Bool, true, false, not, ◌==◌,
  ◌&&◌, length, arith, inl, inr, all, In, &&-eq_true,
}
use proof.Prelude.Bytes.{Bytes, bytes_eq, is_empty, is_hex}
use proof.Prelude.Int64.{Int64}
use proof.Hash.{Sha512}
use proof.ChainFormat.Timestamp.{valid_timestamp}
use proof.ChainFormat.Hash.{
  FieldError, Checked, format_v3, validate_hash_field, validate_chain_hash_inputs_v3,
  compute_chain_hash_v3, compute_chain_hash_v3_unchecked,
}
use proof.Store.{Row}
use proof.Verify.Walker.{chain_hash_pattern}
use proof.Verify.Walker.Complete.{StartsWell}
use proof.Linker.{Input, linked, linked_row, entry_hash, link_from, link}
use proof.Linker.Link.Verified.{hash_v3-pattern}

-- An input that can be hashed.
abbrev pub IsHashable : Input → Type 0
IsHashable x =
    (chain_hash_pattern x.content_hash ≡ true)
    × (valid_timestamp x.timestamp ≡ true)
    × (x.expect_chain_hash ≡ [])

pattern-shape :
    (s : Bytes) → chain_hash_pattern s ≡ true → (length s == 128 ≡ true) × (all is_hex s ≡ true)
unfolding chain_hash_pattern
pattern-shape s h = &&-eq_true (length s == 128) (all is_hex s) h

valid_digest :
    (bad not_hex : FieldError) (s : Bytes) (allow : Bool)
    → chain_hash_pattern s ≡ true
    → validate_hash_field bad not_hex s allow ≡ none
unfolding validate_hash_field
valid_digest bad not_hex [] allow h = absurd (ground (arith, pattern-shape [] h))
valid_digest bad not_hex (c ∷ s) allow h = ground (arith, pattern-shape (c ∷ s) h)

valid_previous :
    (bad not_hex : FieldError) (s : Bytes)
    → StartsWell s
    → validate_hash_field bad not_hex s true ≡ none
unfolding validate_hash_field
valid_previous bad not_hex s (inl empty) = rw empty refl
valid_previous bad not_hex s (inr digest) = valid_digest bad not_hex s true digest

valid_v3 :
    (previous : Bytes) (g : Int64) (c : Bytes)
    → StartsWell previous
    → g < 2 ^ 63
    → chain_hash_pattern c ≡ true
    → validate_chain_hash_inputs_v3 previous g c ≡ none
unfolding validate_chain_hash_inputs_v3
valid_v3 previous g c start small digest = ground (
  arith,
  valid_previous FieldError.previous_hash_length FieldError.previous_hash_not_hex previous start,
  valid_digest FieldError.content_hash_length FieldError.content_hash_not_hex c false digest,
)

module _ (H : Sha512) where
  hash_ok :
      (previous : Bytes) (i : ℕ) (g : Int64) (x : Input) (run_id : Bytes)
      → StartsWell previous
      → g < 2 ^ 63
      → IsHashable x
      → entry_hash H format_v3 previous run_id i g x
        ≡ Checked.ok (compute_chain_hash_v3_unchecked H previous g x.timestamp x.content_hash)
  unfolding entry_hash compute_chain_hash_v3
  hash_ok previous i g x run_id start small ready =
      ground (arith, valid_v3 previous g x.content_hash start small (ready.0))

link_from-cons :
    (H : Sha512) (format : Int64) (chain_id run_id : Bytes) (next : Int64) (previous : Bytes)
    (i : ℕ) (x : Input) (batch : List Input) {hash : Bytes} {rows : List Row}
    → entry_hash H format previous run_id i ((next + i) % 2 ^ 64) x ≡ Checked.ok hash
    → x.expect_chain_hash ≡ []
    → link_from H format chain_id hash next run_id (suc i) batch ≡ linked rows
    → link_from H format chain_id previous next run_id i (x ∷ batch)
      ≡ linked (linked_row format chain_id run_id i ((next + i) % 2 ^ 64) previous hash x ∷ rows)
unfolding link_from
link_from-cons H format chain_id run_id next previous i x batch {hash} hashed free more =
    let no_check : (not (is_empty x.expect_chain_hash) && not (bytes_eq x.expect_chain_hash hash))
        ≡ false =
      ap (λ s. not (is_empty s) && not (bytes_eq s hash)) free in
    rw (hashed, link_from) (rw no_check (rw more refl))

module _ (H : Sha512) (chain_id run_id : Bytes) where
  link_from_total :
      (next : Int64) (batch : List Input) (previous : Bytes) (i : ℕ)
      → ((x : Input) → In x batch → IsHashable x)
      → StartsWell previous
      → next + i + length batch < 2 ^ 63
      → (rows : List Row) × (link_from H format_v3 chain_id previous next run_id i batch
          ≡ linked rows)
        × (length rows ≡ length batch)
  unfolding link_from
  link_from_total next [] previous i ready start small = ([], refl, refl)
  link_from_total next (x ∷ batch) previous i ready start small =
      let g = (next + i) % 2 ^ 64 in
      let hash = compute_chain_hash_v3_unchecked H previous g x.timestamp x.content_hash in
      let now = ready x (inl refl) in
      let hashed = hash_ok H previous i g x run_id start (omega arith) now in
      let (rows, e, len) =
        link_from_total next batch hash (suc i) (λ y iy. ready y (inr iy))
          (inr (hash_v3-pattern H previous g x.timestamp x.content_hash)) (omega arith) in
      let row = linked_row format_v3 chain_id run_id i g previous hash x in
      (
        row ∷ rows,
        link_from-cons H format_v3 chain_id run_id next previous i x batch hashed (now.2) e,
        omega arith,
      )

  -- A batch of inputs whose content hashes are digests, whose years have four digits, and that
  -- expect no hash, is linked in format v3 with one row for each input, after none or a digest and
  -- with numbers below 2^63.
  pub link-eq_linked :
      (previous : Bytes) (next : Int64) (batch : List Input)
      → ((x : Input) → In x batch → IsHashable x)
      → StartsWell previous
      → next + length batch < 2 ^ 63
      → (rows : List Row) × (link H format_v3 chain_id previous next run_id batch ≡ linked rows)
        × (length rows ≡ length batch)
  unfolding link
  link-eq_linked previous next batch ready start small =
      link_from_total next batch previous 0 ready start (omega arith)
