-- ===== src/Verify/Binding/Genuine.antt =====
-- What `VerifyAnchor` answers: never a bound result beside an error, and never a bound result without
-- a signature that verified.
use proof.Prelude.{
  ℕ, ◌≡◌, refl, List, [], ◌∷◌, ◌⊎◌, inl, inr, Option, some, Bool, true, false, ◌==◌, not, length,
  Option-cases, arith,
}
use proof.Prelude.Bytes.{Bytes}
use proof.Hash.{Sha512}
use proof.ChainFormat.Timestamp.{Time}
use proof.Anchor.{Anchor, validate_version_invariants}
use proof.Anchor.ChainHash.{AnchorHash, ok, bar_in_field, anchor_hash}
use proof.Anchor.Signature.{
  Crypto, KeySource, Trust, SignatureError, Verified, trusted, rejected, verify_signature,
}
use proof.Verify.{Entry}
use proof.Verify.Walker.{Walker}
use proof.Verify.Binding.{
  BindReply, reply, fail, validate_previous_anchor_hash, bind_head, bind_range, bind, bind_anchor,
  with_signature, then_signature, verify_anchor,
}
use proof.Verify.Binding.Bound.{IsBound}

Verified-cases :
    (r : Verified) → ((t : Trust) × (r ≡ trusted t)) ⊎ ((e : SignatureError) × (r ≡ rejected e))
Verified-cases (trusted t) = inl (t, refl)
Verified-cases (rejected e) = inr (e, refl)

-- A reply of `VerifyAnchor` that can be believed, next to what `BindAnchor` answers.
abbrev pub IsGenuine : Crypto → Anchor → KeySource → BindReply → BindReply → Type 0
IsGenuine C a source bound (fail res e) = res.bound ≡ false
IsGenuine C a source bound (reply r) =
    (r.signature_verified ≡ true)
    × (t : Trust) × (verify_signature C a (some source) ≡ trusted t)
    × (r.trust ≡ some t)
    × (r.bound ≡ true → IsBound bound)

-- No error stands beside a bound result.
abbrev is_quiet : BindReply → Bool
is_quiet (fail res e) = not res.bound
is_quiet (reply r) = true

then_signature-IsGenuine :
    (C : Crypto) (a : Anchor) (source : KeySource) (bound : BindReply)
    → is_quiet bound ≡ true
    → IsGenuine C a source bound (then_signature C bound a source)
unfolding with_signature
then_signature-IsGenuine C a source (fail res e) quiet = ground arith
then_signature-IsGenuine C a source (reply res) quiet =
    elim (Verified-cases (verify_signature C a (some source))) [
      | inr (e, bad) ↦ rw (bad, with_signature) refl
      | inl (t, good) ↦ rw (good, with_signature) (refl, t, good, refl, λ b. b)
    ]

AnchorHash-cases : (h : AnchorHash) → ((b : Bytes) × (h ≡ ok b)) ⊎ ((i : ℕ) × (h ≡ bar_in_field i))
AnchorHash-cases (ok b) = inl (b, refl)
AnchorHash-cases (bar_in_field i) = inr (i, refl)

module _ (H : Sha512) where
  bind_head_quiet :
      (w : Walker) (a : Anchor) (previous : Bytes) → is_quiet (bind_head H w a previous) ≡ true
  unfolding bind_head
  bind_head_quiet w a previous =
      elim (AnchorHash-cases
        (anchor_hash H previous a.subject w.first.entry_id w.last.entry_id w.last.chain_hash)) [
          | inl (hash, good) ↦ rw (good, bind_head) (ground arith)
          | inr (i, bad) ↦ rw (bad, bind_head) refl
        ]

  bind_range_quiet :
      (w : Walker) (a : Anchor) (previous : Bytes) → is_quiet (bind_range H w a previous) ≡ true
  unfolding bind_range
  bind_range_quiet w a previous = ground (arith, bind_head_quiet w a previous)

  bind_quiet : (w : Walker) (a : Anchor) (previous : Bytes) → is_quiet (bind H w a previous) ≡ true
  unfolding bind
  bind_quiet w a previous = ground (arith, bind_range_quiet w a previous)

  bind_anchor_quiet :
      (parse : Bytes → Option Time) (a : Anchor) (entries : List Entry) (previous : Bytes)
      → is_quiet (bind_anchor H parse a entries previous) ≡ true
  unfolding bind_anchor
  bind_anchor_quiet parse a [] previous = refl
  bind_anchor_quiet parse a (e ∷ entries) previous =
      let filled : (length (e ∷ entries) == 0) ≡ false = ground arith in
      elim (Option-cases (validate_previous_anchor_hash previous)) [
        | inr (err, bad) ↦ rw (filled, bind_anchor) (rw bad refl)
        | inl fine ↦ elim (Option-cases (validate_version_invariants a)) [
          | inr (err, bad) ↦ rw (filled, bind_anchor) (rw fine (rw bad refl))
          | inl valid ↦ rw (filled, bind_anchor) (rw fine (rw valid (bind_quiet _ a previous)))
        ]
      ]

  -- Beside an error of `VerifyAnchor` nothing is bound. Where it gives no error, the signature verified
  -- under a key of the source, with the trust that is reported, and a bound result is one that
  -- `BindAnchor` gives for the entries.
  pub verify_anchor-IsGenuine :
      (C : Crypto) (parse : Bytes → Option Time) (a : Anchor) (entries : List Entry)
      (previous : Bytes) (source : KeySource)
      → IsGenuine C a source
          (bind_anchor H parse a entries previous)
          (verify_anchor H C parse a entries previous (some source))
  unfolding verify_anchor
  verify_anchor-IsGenuine C parse a entries previous source =
      then_signature-IsGenuine C a source (bind_anchor H parse a entries previous)
        (bind_anchor_quiet parse a entries previous)
