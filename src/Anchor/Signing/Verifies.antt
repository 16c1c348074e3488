-- ===== src/Anchor/Signing/Verifies.antt =====
-- What `SignAnchor` gives, `VerifySignature` accepts.
use proof.Prelude.{
  ◌≡◌, ◌≢◌, refl, sym, ap, ◌∙◌, subst, ◌⊎◌, inl, inr, none, some, true, false, not, ◌==◌, ◌||◌,
  length, arith, Bool-cases, Option-cases,
}
use proof.Prelude.Bytes.{Bytes, contains, is_empty}
use proof.Anchor.{Anchor, validate_counts, VersionError, validate_version_invariants}
use proof.Anchor.Signature.{
  Crypto, Canonical, Canonicalized, form, refused, canonicalize, KeySource, found, Trust, trusted,
  decode_signature, verify_canonical, verify_with, verify_signature,
}
use proof.Anchor.Signing.{
  Signer, SignError, SignResult, ok, err, key_id_of, check_canonical, check_signature,
  sign_canonical, to_sign, sign_form, sign_anchor,
}

SignResult-cases :
    {A : Type 0} (r : SignResult A) → ((a : A) × (r ≡ ok a)) ⊎ ((e : SignError) × (r ≡ err e))
SignResult-cases (ok a) = inl (a, refl)
SignResult-cases (err e) = inr (e, refl)

Canonicalized-cases :
    (r : Canonicalized) → ((c : Canonical) × (r ≡ form c)) ⊎ ((e : VersionError) × (r ≡ refused e))
Canonicalized-cases (form c) = inl (c, refl)
Canonicalized-cases (refused e) = inr (e, refl)

err≢ok : {A : Type 0} {e : SignError} {a : A} → err e ≢ ok a
err≢ok e = cc

abbrev or_anchor : Anchor → SignResult Anchor → Anchor
or_anchor a (ok b) = b
or_anchor a (err e) = a

-- The signature is outside of what is signed and of what the version asks for.
canonicalize-signature :
    (a : Anchor) (s : Bytes) → canonicalize (record a { signature = s }) ≡ canonicalize a
unfolding canonicalize
canonicalize-signature a s = refl

validate-signature :
    (a : Anchor) (s : Bytes)
    → validate_version_invariants (record a { signature = s }) ≡ validate_version_invariants a
unfolding validate_version_invariants validate_counts
validate-signature a s = refl

-- What the code relies on: a text that base64 wrote reads back and has no line break, and a key id
-- is not empty.
pub record IsFaithful (C : Crypto) : Type 0 where
  pub decodes : (b : Bytes) → C.base64_decode (C.base64_encode b) ≡ some b
  pub one_line :
      (b : Bytes)
      → (contains (C.base64_encode b) b'\r' || contains (C.base64_encode b) b'\n') ≡ false
  pub named : (key : Bytes) (id : Bytes) → C.key_id key ≡ some id → is_empty id ≡ false

module _ (C : Crypto) where
  key_id_of-ok :
      (s : Signer) {id key : Bytes}
      → key_id_of C (some s) ≡ ok (id, key)
      → (length key ≡ 1952) × (C.key_id key ≡ some id)
  unfolding key_id_of
  key_id_of-ok s h = ground arith

  check_signature-ok :
      (key canonical sig : Bytes) {out : Bytes}
      → check_signature C key canonical sig ≡ ok out
      → (length out ≡ 3309) × (C.mldsa_verify key canonical out ≡ true)
  unfolding check_signature
  check_signature-ok key canonical sig h = ground arith

  -- A signature that `sign_canonical` gives was checked against the signer's own key.
  sign_canonical-ok :
      (s : Signer) (canonical : Bytes) {id key sig : Bytes}
      → key_id_of C (some s) ≡ ok (id, key)
      → sign_canonical C (some s) canonical ≡ ok sig
      → (length sig ≡ 3309) × (C.mldsa_verify key canonical sig ≡ true)
  unfolding sign_canonical
  sign_canonical-ok s canonical {id} {key} {sig} known h =
      let at_key = rw (known, sign_canonical) at h in
      elim (Option-cases (check_canonical C canonical)) [
        | inr (e, bad) ↦ absurd (err≢ok (rw bad at at_key))
        | inl clear ↦
            let at_sign = rw clear at at_key in
            elim (Option-cases (s.sign canonical)) [
              | inl failed ↦ absurd (err≢ok (rw failed at at_sign))
              | inr (drawn, made) ↦ check_signature-ok key canonical drawn (rw made at at_sign)
            ]
      ]

  sign_form-ok :
      (s : Signer) (out : Anchor) {id key : Bytes} {signed : Anchor}
      → key_id_of C (some s) ≡ ok (id, key)
      → sign_form C (some s) out ≡ ok signed
      → (c : Canonical) × (sig : Bytes) × (canonicalize out ≡ form c)
        × (length sig ≡ 3309)
        × (C.mldsa_verify key (C.marshal c) sig ≡ true)
        × (record out { signature = C.base64_encode sig } ≡ signed)
  unfolding sign_form
  sign_form-ok s out {id} {key} known h = elim (Canonicalized-cases (canonicalize out)) [
    | inr (e, bad) ↦ absurd (err≢ok (rw (bad, sign_form) at h))
    | inl (c, made) ↦
        let at_sign = rw (made, sign_form) at h in
        elim (SignResult-cases (sign_canonical C (some s) (C.marshal c))) [
          | inr (e, bad) ↦ absurd (err≢ok (rw bad at at_sign))
          | inl (sig, good) ↦
              let (len, valid) = sign_canonical-ok s (C.marshal c) known good in
              (c, sig, made, len, valid, ap (or_anchor out) (rw good at at_sign))
        ]
  ]

  decode_signature-encode :
      (sig : Bytes)
      → IsFaithful C
      → length sig ≡ 3309
      → decode_signature C (C.base64_encode sig) ≡ inr sig
  unfolding decode_signature
  decode_signature-encode sig faithful len =
      let size : not (length sig == 3309) ≡ false = rw len refl in
      rw (faithful.one_line sig, decode_signature) (rw (faithful.decodes sig) (rw size refl))

  verify_with-signed :
      (out : Anchor) (key : Bytes) (trust : Trust) (sig : Bytes) (c : Canonical)
      → IsFaithful C
      → length key ≡ 1952
      → length sig ≡ 3309
      → canonicalize out ≡ form c
      → C.mldsa_verify key (C.marshal c) sig ≡ true
      → verify_with C (record out { signature = C.base64_encode sig }) key trust ≡ trusted trust
  unfolding verify_with verify_canonical
  verify_with-signed out key trust sig c faithful len_key len_sig made valid =
      let size : not (length key == 1952) ≡ false = rw len_key refl in
      let signed : Anchor = record out { signature = C.base64_encode sig } in
      rw (size, verify_with)
        (rw (decode_signature-encode sig faithful len_sig) (
          rw (canonicalize-signature out (C.base64_encode sig) ∙ made, verify_canonical)
            (rw valid refl)))

  sign_anchor-ok :
      (s : Signer) (a : Anchor) {id key : Bytes} {signed : Anchor}
      → key_id_of C (some s) ≡ ok (id, key)
      → sign_anchor C (some s) a ≡ ok signed
      → (validate_version_invariants (to_sign C a id) ≡ none)
        × (sign_form C (some s) (to_sign C a id) ≡ ok signed)
  unfolding sign_anchor
  sign_anchor-ok s a {id} {key} known h =
      let at_key = rw (known, sign_anchor) at h in
      elim (Option-cases (validate_version_invariants (to_sign C a id))) [
        | inr (e, bad) ↦ absurd (err≢ok (rw bad at at_key))
        | inl valid ↦ (valid, rw valid at at_key)
      ]

  to_sign-named :
      (a : Anchor) (id : Bytes)
      → is_empty id ≡ false
      → is_empty (to_sign C a id).signing_key_id ≡ false
  to_sign-named a id named = elim (Bool-cases (is_empty a.signing_key_id)) [
    | inl empty ↦ rw empty named
    | inr full ↦ rw full full
  ]

  -- An anchor that `SignAnchor` gives is accepted by `VerifySignature`, with the trust of a key source
  -- that answers the anchor's key id with the signer's public key. Base64 reads back what it wrote,
  -- on one line, and key ids are not empty.
  pub verify_signature-sign_anchor :
      (s : Signer) (a : Anchor) (source : KeySource) (trust : Trust) {id key : Bytes}
      {signed : Anchor}
      → IsFaithful C
      → key_id_of C (some s) ≡ ok (id, key)
      → sign_anchor C (some s) a ≡ ok signed
      → source signed.signing_key_id ≡ found key trust
      → verify_signature C signed (some source) ≡ trusted trust
  unfolding verify_signature
  verify_signature-sign_anchor s a source trust {id} {key} {signed} faithful known h answers =
      let (valid, made) = sign_anchor-ok s a known h in
      let (c, sig, canonical, len, good, same) = sign_form-ok s (to_sign C a id) known made in
      let (len_key, given) = key_id_of-ok s known in
      let out : Anchor = record (to_sign C a id) { signature = C.base64_encode sig } in
      let checked =
        verify_with-signed (to_sign C a id) key trust sig c faithful len_key len canonical good in
      let answers' : source out.signing_key_id ≡ found key trust =
        subst (λ b. source b.signing_key_id ≡ found key trust) (sym same) answers in
      let named = to_sign-named a id (faithful.named key id given) in
      subst (λ b. verify_signature C b (some source) ≡ trusted trust) same
        (rw (validate-signature (to_sign C a id) (C.base64_encode sig) ∙ valid, verify_signature)
          (rw named (rw answers' checked)))
