-- ===== src/Commitment/Binding.antt =====
-- A commitment opens to what was committed, and to nothing else.
use proof.Prelude.{
  ◌≡◌, refl, sym, ap, ◌∙◌, [], ◌∷◌, ◌++◌, some, true, false, not, ◌==◌, length, arith,
  append-injective, inl, inr, Option-cases,
}
use proof.Prelude.Bytes.{Bytes, bytes_eq_sound, bytes_eq_refl}
use proof.Hash.{Sha512, NoClash, hex_encode, hex_encode-injective}
use proof.Commitment.{domain, commit_input, compute, verify, salted}

module _ (H : Sha512) where
  compute-some :
      (nonce content : Bytes) {c : Bytes}
      → compute H nonce content ≡ some c
      → (length nonce ≡ 32) × (hex_encode (H.sum (commit_input H nonce content)) ≡ c)
  unfolding compute
  compute-some nonce content h = ground arith

  verify-eq_true :
      (commitment nonce content : Bytes)
      → verify H commitment nonce content ≡ true
      → compute H nonce content ≡ some commitment
  unfolding verify
  verify-eq_true commitment nonce content h = elim (Option-cases (compute H nonce content)) [
    | inl bad ↦ cc (rw (bad, verify) at h)
    | inr (want, good) ↦ good ∙ ap some (bytes_eq_sound want commitment (rw (good, verify) at h))
  ]

  commit_input-injective :
      (m n x y : Bytes)
      → length m ≡ length n
      → commit_input H m x ≡ commit_input H n y
      → (m ≡ n) × (H.sum x ≡ H.sum y)
  unfolding commit_input
  commit_input-injective m n x y len e =
      let whole = (append-injective domain domain (m ++ H.sum x) (n ++ H.sum y) refl e).1 in
      append-injective m n (H.sum x) (H.sum y) len whole

  -- A drawn nonce of 32 bytes gives a commitment, and `verify` accepts it with that nonce and content.
  pub verify-salted :
      (nonce content : Bytes)
      → length nonce ≡ 32
      → (c : Bytes) × (salted H (some nonce) content ≡ some (c, nonce))
        × (verify H c nonce content ≡ true)
  unfolding salted verify
  verify-salted nonce content len =
      let full : not (length nonce == 32) ≡ false = rw len refl in
      let c = hex_encode (H.sum (commit_input H nonce content)) in
      let made : compute H nonce content ≡ some c = unfold compute in rw full refl in
      (c, rw (made, salted) refl, rw (made, verify) (bytes_eq_refl c))

  -- One commitment does not open in two ways: both nonce and content are the same, unless the two
  -- contents or the two inputs that hold their digests collide.
  pub verify-injective :
      (commitment m n x y : Bytes)
      → NoClash H (x ∷ commit_input H m x ∷ []) (y ∷ commit_input H n y ∷ [])
      → verify H commitment m x ≡ true
      → verify H commitment n y ≡ true
      → (m ≡ n) × (x ≡ y)
  verify-injective commitment m n x y apart hx hy =
      let (lm, cx) = compute-some m x (verify-eq_true commitment m x hx) in
      let (ln, cy) = compute-some n y (verify-eq_true commitment n y hy) in
      let (nonces, contents) = commit_input-injective m n x y (lm ∙ sym ln) (
        apart (commit_input H m x) (commit_input H n y) (inr (inl refl)) (inr (inl refl)) (
          hex_encode-injective (H.sum (commit_input H m x)) (H.sum (commit_input H n y))
            (cx ∙ sym cy))) in
      (nonces, apart x y (inl refl) (inl refl) contents)
