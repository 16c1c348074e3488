-- ===== src/Verify/Binding/Bound.antt =====
-- What it means that an anchor is bound, and that it rules out another history.
use proof.Prelude.{
  ℕ, ◌≡◌, ◌↔◌, refl, ap, ◌∙◌, [], Bool, true, false, not, ◌==◌, ◌&&◌, ◌||◌, arith, ◌⊎◌, inl, inr,
  Bool-cases, false≢true,
}
use proof.Prelude.Bytes.{
  Bytes, bytes_eq, bytes_eq_sound, bytes_eq_refl, bytes_eq_iff, is_empty, is_empty-eq_true,
}
use proof.Prelude.Int64.{is_neg}
use proof.Hash.{Sha512}
use proof.Anchor.{Anchor}
use proof.Anchor.ChainHash.{
  AnchorHash, ok, bar_in_field, anchor_hash, seed_anchor_hash, seed_anchor_id,
}
use proof.Verify.Walker.{Walker}
use proof.Verify.Binding.{BindReply, reply, fail, bind_head, bind_range, bind, is_unreadable}

-- An anchor describes the walked chain: the walk is of a whole chain without a break, and its ends,
-- its height, its place in the series and its head are the anchor's.
pub record Describes (H : Sha512) (w : Walker) (a : Anchor) (previous : Bytes) : Type 0 where
  pub whole : w.opts.previous_hash ≡ []
  pub unbroken : is_neg w.res.first_break ≡ true
  pub start : w.first.entry_id ≡ a.range.start_entry_id
  pub end : w.last.entry_id ≡ a.range.end_entry_id
  pub height : w.res.entries_verified ≡ a.entry_count
  pub place : bytes_eq previous seed_anchor_hash ≡ bytes_eq a.previous_anchor_id seed_anchor_id
  pub head :
      anchor_hash H previous a.subject w.first.entry_id w.last.entry_id w.last.chain_hash
      ≡ ok a.chain_hash

abbrev pub IsBound : BindReply → Type 0
IsBound (reply r) = r.bound ≡ true
IsBound (fail r e) = ⊥

AnchorHash-cases : (h : AnchorHash) → ((b : Bytes) × (h ≡ ok b)) ⊎ ((i : ℕ) × (h ≡ bar_in_field i))
AnchorHash-cases (ok b) = inl (b, refl)
AnchorHash-cases (bar_in_field i) = inr (i, refl)

module _ (H : Sha512) (w : Walker) (a : Anchor) (previous : Bytes) where
  abbrev recomputed : AnchorHash
  recomputed = anchor_hash H previous a.subject w.first.entry_id w.last.entry_id w.last.chain_hash

  bind_head-IsBound : IsBound (bind_head H w a previous) → recomputed ≡ ok a.chain_hash
  unfolding bind_head
  bind_head-IsBound b = elim (AnchorHash-cases recomputed) [
    | inr (i, bad) ↦ absurd (rw (bad, bind_head) at b)
    | inl (hash, good) ↦
        let made = rw (good, bind_head) at b in
        elim (Bool-cases (bytes_eq hash a.chain_hash)) [
          | inl same ↦ good ∙ ap ok (bytes_eq_sound hash a.chain_hash same)
          | inr other ↦ cc (rw other at made)
        ]
  ]

  head-bind_head : recomputed ≡ ok a.chain_hash → IsBound (bind_head H w a previous)
  unfolding bind_head
  head-bind_head h = rw (h, bind_head) (rw (bytes_eq_refl a.chain_hash) refl)

  -- Whether the predecessor hash and the predecessor's id disagree on being the seeds.
  abbrev misplaced : Bool
  misplaced =
      bytes_eq previous seed_anchor_hash && not (bytes_eq a.previous_anchor_id seed_anchor_id)
      || not (bytes_eq previous seed_anchor_hash) && bytes_eq a.previous_anchor_id seed_anchor_id

  abbrev off_start : Bool
  off_start = not (bytes_eq w.first.entry_id a.range.start_entry_id)

  abbrev off_end : Bool
  off_end = not (bytes_eq w.last.entry_id a.range.end_entry_id)

  abbrev off_height : Bool
  off_height = not (w.res.entries_verified == a.entry_count)

  bind_range-IsBound :
      IsBound (bind_range H w a previous)
      → (off_start ≡ false)
        × (off_end ≡ false)
        × (off_height ≡ false)
        × (misplaced ≡ false)
        × (recomputed ≡ ok a.chain_hash)
  unfolding bind_range
  bind_range-IsBound b = elim (Bool-cases off_start) [
    | inl bad ↦ absurd (false≢true (rw (bad, bind_range) at b))
    | inr start ↦
        let b1 = rw (start, bind_range) at b in
        elim (Bool-cases off_end) [
          | inl bad ↦ absurd (false≢true (rw bad at b1))
          | inr end ↦
              let b2 = rw end at b1 in
              elim (Bool-cases off_height) [
                | inl bad ↦ absurd (false≢true (rw bad at b2))
                | inr height ↦
                    let b3 = rw height at b2 in
                    elim (Bool-cases misplaced) [
                      | inl bad ↦ absurd (false≢true (rw bad at b3))
                      | inr place ↦ (start, end, height, place, bind_head-IsBound (rw place at b3))
                    ]
              ]
        ]
  ]

  bind-IsBound :
      IsBound (bind H w a previous)
      → (not (is_empty w.opts.previous_hash) ≡ false)
        × (is_neg w.res.first_break ≡ true)
        × IsBound (bind_range H w a previous)
  unfolding bind
  bind-IsBound b = elim (Bool-cases (not (is_empty w.opts.previous_hash))) [
    | inl part ↦ absurd (rw (part, bind) at b)
    | inr whole ↦
        let b1 = rw (whole, bind) at b in
        elim (Bool-cases (is_neg w.res.first_break)) [
          | inl unbroken ↦ (whole, unbroken, rw unbroken at b1)
          | inr broken ↦ elim (Bool-cases (is_unreadable w.res.breaks)) [
            | inl unreadable ↦ absurd (rw unreadable at rw broken at b1)
            | inr readable ↦ absurd (false≢true (rw readable at rw broken at b1))
          ]
        ]
  ]

  Describes-bind_range : Describes H w a previous → IsBound (bind_range H w a previous)
  unfolding bind_range
  Describes-bind_range d =
      let start : off_start ≡ false =
        ap not ((bytes_eq_iff w.first.entry_id a.range.start_entry_id).1 d.start) in
      let end : off_end ≡ false =
        ap not ((bytes_eq_iff w.last.entry_id a.range.end_entry_id).1 d.end) in
      let height : off_height ≡ false = ground (arith, d.height) in
      let place : misplaced ≡ false = ground (arith, d.place) in
      rw (start, bind_range) (rw end (rw height (rw place (head-bind_head (d.head)))))

  -- `bind` of an anchor is bound exactly when the anchor describes the walked chain.
  pub bind-Describes : IsBound (bind H w a previous) ↔ Describes H w a previous
  unfolding bind
  bind-Describes = (
    λ b.
        let (whole, unbroken, inner) = bind-IsBound b in
        let (start, end, height, place, head) = bind_range-IsBound inner in
        record {
          whole = is_empty-eq_true w.opts.previous_hash (ground arith);
          unbroken = unbroken;
          start = bytes_eq_sound w.first.entry_id a.range.start_entry_id (ground arith);
          end = bytes_eq_sound w.last.entry_id a.range.end_entry_id (ground arith);
          height = ground arith;
          place = ground arith;
          head = head;
        },
    λ d.
        let whole : not (is_empty w.opts.previous_hash) ≡ false =
          ap (λ s. not (is_empty s)) (d.whole) in
        rw (whole, bind) (rw (d.unbroken) (Describes-bind_range d)),
  )
