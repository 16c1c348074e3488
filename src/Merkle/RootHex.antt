-- ===== src/Merkle/RootHex.antt =====
-- merkle/roothex.go: the root over content hashes in hex. `hex.DecodeString` takes both cases of the
-- letters and an even number of digits.
use proof.Prelude.{
  ℕ, ◌+◌, ◌-◌, ◌*◌, ◌/◌, ◌%◌, ◌<◌, ◌≡◌, refl, ap, List, [], ◌∷◌, Option, none, some, true, leb, ltb,
  ◌==◌, ◌&&◌, if◌then◌else◌, length, arith, map, all, In, inl, inr, &&-eq_true, ltb→lt,
}
use proof.Prelude.Bytes.{Bytes, hex_digit}
use proof.Hash.{Sha512, hex_encode}
use proof.Merkle.Tree.{root_from_leaves, Fits}
use proof.Merkle.Frontier.{root, frontier_from_leaves}
use proof.Merkle.Frontier.Holds.{root-frontier_from_leaves}

unfoldable pub hex_value : ℕ → Option ℕ
hex_value c =
    if leb b'0' c && leb c b'9'
    then some (c - b'0')
    else if leb b'a' c && leb c b'f'
    then some (c - b'a' + 10)
    else if leb b'A' c && leb c b'F'
    then some (c - b'A' + 10)
    else none

unfoldable pub hex_byte : Option ℕ → Option ℕ → Option ℕ
hex_byte none low = none
hex_byte (some high) none = none
hex_byte (some high) (some low) = some (high * 16 + low)

unfoldable pub and_then : Option ℕ → Option Bytes → Option Bytes
and_then none rest = none
and_then (some b) none = none
and_then (some b) (some bs) = some (b ∷ bs)

unfoldable pub hex_decode : Bytes → Option Bytes
unfolding hex_byte hex_value and_then
hex_decode [] = some []
hex_decode (c ∷ []) = none
hex_decode (c ∷ d ∷ s) = and_then (hex_byte (hex_value c) (hex_value d)) (hex_decode s)

-- One leaf: it decodes, to 64 bytes.
unfoldable pub decode_leaf : Bytes → Option Bytes
decode_leaf h = elim (hex_decode h) [
  | none ↦ none
  | some b ↦ if length b == 64 then some b else none
]

unfoldable pub decode_leaves : List Bytes → Option (List Bytes)
decode_leaves [] = some []
decode_leaves (h ∷ hashes) = elim (decode_leaf h) [
  | none ↦ none
  | some b ↦ elim (decode_leaves hashes) [ none ↦ none | some raw ↦ some (b ∷ raw) ]
]

digit-hex_value : (n : ℕ) → n < 16 → hex_value (hex_digit n) ≡ some n
unfolding hex_value
digit-hex_value n h = ground arith

-- A decoder of what the encoder wrote.
pub hex_decode-hex_encode :
    (b : Bytes) → all (λ x. ltb x 256) b ≡ true → hex_decode (hex_encode b) ≡ some b
unfolding hex_decode hex_encode
hex_decode-hex_encode [] h = refl
hex_decode-hex_encode (x ∷ b) h =
    let (small, rest) = &&-eq_true (ltb x 256) (all (λ x. ltb x 256) b) h in
    let lt = ltb→lt x 256 small in
    rw
      (
        digit-hex_value (x / 16) (omega arith),
        digit-hex_value (x % 16) (omega arith),
        hex_decode-hex_encode b rest,
      )
      (ap (λ (y : ℕ). some (y ∷ b)) (omega arith))

-- A leaf as the entries hold it: the bytes of a digest.
abbrev pub IsDigest : Bytes → Type 0
IsDigest b = (length b ≡ 64) × (all (λ x. ltb x 256) b ≡ true)

decode_leaves-map :
    (leaves : List Bytes)
    → ((b : Bytes) → In b leaves → IsDigest b)
    → decode_leaves (map hex_encode leaves) ≡ some leaves
unfolding decode_leaves decode_leaf
decode_leaves-map [] h = refl
decode_leaves-map (b ∷ leaves) h =
    let (len, bytes) = h b (inl refl) in
    let full : (length b == 64) ≡ true = rw len refl in
    rw (hex_decode-hex_encode b bytes, decode_leaves)
      (rw full (rw (decode_leaves-map leaves (λ c i. h c (inr i))) refl))

module _ (H : Sha512) where
  -- `none` is an error.
  unfoldable pub root_hex : List Bytes → Option Bytes
  unfolding decode_leaves
  root_hex hashes = elim (decode_leaves hashes) [
    | none ↦ none
    | some raw ↦ some (hex_encode (root H (frontier_from_leaves H raw)))
  ]

  -- Over the hex forms of fewer than 2^63 digests, `root_hex` is the hex form of the tree's root.
  pub root_hex-map :
      (leaves : List Bytes)
      → ((b : Bytes) → In b leaves → IsDigest b)
      → Fits leaves
      → root_hex (map hex_encode leaves) ≡ some (hex_encode (root_from_leaves H leaves))
  unfolding root_hex
  root_hex-map leaves digests small =
      rw (decode_leaves-map leaves digests, root_hex)
        (ap (λ r. some (hex_encode r)) (root-frontier_from_leaves H leaves small))
