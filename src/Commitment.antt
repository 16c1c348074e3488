-- ===== src/Commitment.antt =====
-- commitment/commitment.go: a salted hash of a content. What `rand.Read` gives is a parameter; the
-- inputs are byte strings and the output is hex.
pub mod Binding
use proof.Prelude.{
  ℕ, List, [], ◌∷◌, ◌++◌, Option, none, some, Bool, true, false, not, ◌==◌, if◌then◌else◌, length,
}
use proof.Prelude.Bytes.{Bytes, codes, bytes_eq}
use proof.Hash.{Sha512, hex_encode}

abbrev pub domain : Bytes
domain = codes "aleutian.commit.v1:"

abbrev pub nonce_size : ℕ
nonce_size = 32

module _ (H : Sha512) where
  -- What is hashed: the domain, the nonce and the digest of the content.
  unfoldable pub commit_input : Bytes → Bytes → Bytes
  commit_input nonce content = domain ++ (nonce ++ H.sum content)

  -- `none` is `ErrNonceSize`.
  unfoldable pub compute : Bytes → Bytes → Option Bytes
  compute nonce content =
      if not (length nonce == nonce_size)
      then none
      else some (hex_encode (H.sum (commit_input nonce content)))

  unfoldable pub verify : Bytes → Bytes → Bytes → Bool
  verify commitment nonce content = elim (compute nonce content) [
    | none ↦ false
    | some want ↦ bytes_eq want commitment
  ]

  -- `rand.Read` fills 32 bytes or fails.
  unfoldable pub salted : Option Bytes → Bytes → Option (Bytes × Bytes)
  salted drawn content = elim drawn [
    | none ↦ none
    | some nonce ↦ elim (compute nonce content) [ none ↦ none | some c ↦ some (c, nonce) ]
  ]
