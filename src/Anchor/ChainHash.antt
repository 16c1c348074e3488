-- ===== src/Anchor/ChainHash.antt =====
-- anchor/chainhash.go: the hash that binds an anchor to the anchor before it and to the head of the
-- chain.
use proof.Prelude.{
  ℕ, suc, ◌≡◌, refl, sym, ◌∙◌, List, [], ◌∷◌, ◌++◌, Option, none, some, false, if◌then◌else◌, arith,
  append-injective,
}
use proof.Prelude.Bytes.{Bytes, codes, contains, cut_at}
use proof.Hash.{Sha512, NoClash, hex_encode, hex_sum-injective}

abbrev pub chain_domain_v2 : Bytes
chain_domain_v2 = codes "aleutian.anchor.v2:"

-- SHA-512 of "aleutian.anchor.seed.v2", in hex.
unfoldable pub seed_anchor_hash : Bytes
seed_anchor_hash =
    codes
      "03443d96d3b369839f63f98b712463efba04c00551822743108d60c5f291627859ff0b7dc29f99e3c847b07b0b18bb385426c744847c1b070563f8dd07271f27"

unfoldable pub seed_anchor_id : Bytes
seed_anchor_id = codes "anchor_00000000-0000-0000-0000-000000000000"

-- The first field that holds a '|', by its place.
unfoldable pub first_bar : ℕ → List Bytes → Option ℕ
first_bar i [] = none
first_bar i (v ∷ values) = if contains v b'|' then some i else first_bar (suc i) values

-- `none` is a nil error; the field is named in the error by its place.
unfoldable pub validate_chain_hash_delimiters : Bytes → Bytes → Bytes → Bytes → Bytes → Option ℕ
unfolding first_bar
validate_chain_hash_delimiters previous subject start end tip =
    first_bar 0 (previous ∷ subject ∷ start ∷ end ∷ tip ∷ [])

unfoldable pub anchor_input : Bytes → Bytes → Bytes → Bytes → Bytes → Bytes
anchor_input previous subject start end tip =
    chain_domain_v2
    ++ (previous ++ b'|' ∷ (subject ++ b'|' ∷ (start ++ b'|' ∷ (end ++ b'|' ∷ tip))))

pub data AnchorHash : Type 0 where
  ok : Bytes → AnchorHash
  bar_in_field : ℕ → AnchorHash

-- The fields that the hash of an anchor binds.
pub record SameAnchored (p q s t a b c d x y : Bytes) : Type 0 where
  pub previous : p ≡ q
  pub subject : s ≡ t
  pub start : a ≡ b
  pub end : c ≡ d
  pub tip : x ≡ y

validate_chain_hash_delimiters-none :
    (p s a c x : Bytes)
    → validate_chain_hash_delimiters p s a c x ≡ none
    → (contains p b'|' ≡ false)
      × (contains s b'|' ≡ false)
      × (contains a b'|' ≡ false)
      × (contains c b'|' ≡ false)
      × (contains x b'|' ≡ false)
unfolding validate_chain_hash_delimiters
validate_chain_hash_delimiters-none p s a c x h = ground arith

pub anchor_input-injective :
    (p q s t a b c d x y : Bytes)
    → validate_chain_hash_delimiters p s a c x ≡ none
    → validate_chain_hash_delimiters q t b d y ≡ none
    → anchor_input p s a c x ≡ anchor_input q t b d y
    → SameAnchored p q s t a b c d x y
unfolding anchor_input
anchor_input-injective p q s t a b c d x y hp hq e =
    let (hp, hs, ha, hc, hx) = validate_chain_hash_delimiters-none p s a c x hp in
    let (hq, ht, hb, hd, hy) = validate_chain_hash_delimiters-none q t b d y hq in
    let whole = (append-injective chain_domain_v2 chain_domain_v2 _ _ refl e).1 in
    let first = cut_at b'|' p _ q _ hp hq whole in
    let second = cut_at b'|' s _ t _ hs ht first.1 in
    let third = cut_at b'|' a _ b _ ha hb second.1 in
    let fourth = cut_at b'|' c x d y hc hd third.1 in
    record {
      previous = first.0;
      subject = second.0;
      start = third.0;
      end = fourth.0;
      tip = fourth.1;
    }

module _ (H : Sha512) where
  unfoldable pub anchor_hash_unchecked : Bytes → Bytes → Bytes → Bytes → Bytes → Bytes
  anchor_hash_unchecked previous subject start end tip =
      hex_encode (H.sum (anchor_input previous subject start end tip))

  -- `ChainHash`.
  unfoldable pub anchor_hash : Bytes → Bytes → Bytes → Bytes → Bytes → AnchorHash
  anchor_hash previous subject start end tip =
      elim (validate_chain_hash_delimiters previous subject start end tip) [
        | some i ↦ bar_in_field i
        | none ↦ ok (anchor_hash_unchecked previous subject start end tip)
      ]

  anchor_hash-ok :
      (p s a c x : Bytes) {hash : Bytes}
      → anchor_hash p s a c x ≡ ok hash
      → (validate_chain_hash_delimiters p s a c x ≡ none)
        × (hex_encode (H.sum (anchor_input p s a c x)) ≡ hash)
  unfolding anchor_hash anchor_hash_unchecked
  anchor_hash-ok p s a c x h = ground arith

  -- Two anchor hashes that `ChainHash` gives are equal only for the same five fields, unless the two
  -- inputs collide.
  pub anchor_hash-injective :
      (p q s t a b c d x y : Bytes) {hash : Bytes}
      → NoClash H (anchor_input p s a c x ∷ []) (anchor_input q t b d y ∷ [])
      → anchor_hash p s a c x ≡ ok hash
      → anchor_hash q t b d y ≡ ok hash
      → SameAnchored p q s t a b c d x y
  anchor_hash-injective p q s t a b c d x y apart h k =
      let (clear, one) = anchor_hash-ok p s a c x h in
      let (clear', two) = anchor_hash-ok q t b d y k in
      anchor_input-injective p q s t a b c d x y clear clear' (
        hex_sum-injective H (anchor_input p s a c x) (anchor_input q t b d y) apart (one ∙ sym two))
