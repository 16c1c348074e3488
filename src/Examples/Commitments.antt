-- ===== src/Examples/Commitments.antt =====
-- A commitment to a content of three bytes.
use proof.Prelude.{◌≡◌, refl, [], ◌∷◌, true, replicate}
use proof.Prelude.Bytes.{Bytes, codes, bytes_eq}
use proof.Hash.{padding, NoClash, hex_encode}
use proof.Commitment.{commit_input, compute, verify}
use proof.Commitment.Binding.{verify-injective}
use proof.Examples.Clash.{NoClash-no_clash}

abbrev nonce : Bytes
nonce = replicate 32 7

abbrev text : Bytes
text = codes "yes"

abbrev opened : Bytes
opened = hex_encode (padding.sum (commit_input padding nonce text))

opens : verify padding opened nonce text ≡ true
unfolding verify compute commit_input hex_encode bytes_eq
opens = refl

apart :
    NoClash padding
      (text ∷ commit_input padding nonce text ∷ [])
      (text ∷ commit_input padding nonce text ∷ [])
unfolding commit_input hex_encode bytes_eq
apart =
    NoClash-no_clash padding (text ∷ commit_input padding nonce text ∷ [])
      (text ∷ commit_input padding nonce text ∷ []) refl

verify-injective_example : (nonce ≡ nonce) × (text ≡ text)
verify-injective_example = verify-injective padding opened nonce nonce text text apart opens opens
