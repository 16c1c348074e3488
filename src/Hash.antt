-- ===== src/Hash.antt =====
-- SHA-512 and the hex encoding, which the program takes from Go's standard library. The hash is a
-- parameter: all that is used of it is that a digest has 64 bytes. Where a theorem needs collision
-- resistance, its hypothesis names the inputs among which no two collide.
use proof.Prelude.{
  drop, get_elem?, ap, none, some, inl, ℕ, zero, suc, ◌*◌, ◌/◌, ◌%◌, ◌<◌, ◌≡◌, refl, ◌++◌, List, [],
  ◌∷◌, Bool, length, take, replicate, length-take, length-append, length-replicate, arith, ltb, In,
  all, map, true, &&-eq_true, ltb→lt,
}
use proof.Prelude.Bytes.{Bytes, hex_digit, is_hex}

pub record Sha512 : Type 0 where
  pub sum : Bytes → Bytes
  pub length-sum : (b : Bytes) → length (sum b) ≡ 64
  pub bytes-sum : (b : Bytes) → all (λ x. ltb x 256) (sum b) ≡ true

-- No input of the first list collides with one of the second.
abbrev pub NoClash : Sha512 → List Bytes → List Bytes → Type 0
NoClash H xs ys = (x y : Bytes) → In x xs → In y ys → H.sum x ≡ H.sum y → x ≡ y

-- A function with those properties, for examples: the input cut or filled up to 64 bytes.
abbrev pub padded : Bytes → Bytes
padded b = take 64 (map (λ x. x % 256) b ++ replicate 64 0)

pub length-padded : (b : Bytes) → length (padded b) ≡ 64
length-padded b =
    let bytes = map (λ (x : ℕ). x % 256) b in
    omega (
      arith,
      length-take 64 (bytes ++ replicate 64 0),
      length-append bytes (replicate 64 0),
      length-replicate 64 (let z : ℕ = 0 in z),
    )

all-take : (p : ℕ → Bool) (n : ℕ) (xs : Bytes) → all p xs ≡ true → all p (take n xs) ≡ true
all-take p zero xs h = refl
all-take p (suc n) [] h = refl
all-take p (suc n) (x ∷ xs) h = ground (arith, all-take p n xs)

bytes_mod : (b : Bytes) → all (λ x. ltb x 256) (map (λ x. x % 256) b ++ replicate 64 0) ≡ true
bytes_mod [] = refl
bytes_mod (x ∷ b) = ground (arith, bytes_mod b)

pub bytes-padded : (b : Bytes) → all (λ x. ltb x 256) (padded b) ≡ true
bytes-padded b = all-take (λ x. ltb x 256) 64 (map (λ x. x % 256) b ++ replicate 64 0) (bytes_mod b)

abbrev pub padding : Sha512
padding = record { sum = padded; length-sum = length-padded; bytes-sum = bytes-padded }

-- `hex.EncodeToString`.
unfoldable pub hex_encode : Bytes → Bytes
hex_encode [] = []
hex_encode (b ∷ bs) = hex_digit (b / 16) ∷ hex_digit (b % 16) ∷ hex_encode bs

pub length-hex_encode : (b : Bytes) → length (hex_encode b) ≡ 2 * length b
unfolding hex_encode
length-hex_encode [] = refl
length-hex_encode (b ∷ bs) = omega (arith, length-hex_encode bs)

hex_digit-is_hex : (n : ℕ) → n < 16 → is_hex (hex_digit n) ≡ true
unfolding is_hex
hex_digit-is_hex n h = ground arith

-- The hex form of bytes is lowercase hex.
pub all-hex_encode : (b : Bytes) → all (λ x. ltb x 256) b ≡ true → all is_hex (hex_encode b) ≡ true
unfolding hex_encode
all-hex_encode [] h = refl
all-hex_encode (b ∷ bs) h =
    let (small, rest) = &&-eq_true (ltb b 256) (all (λ x. ltb x 256) bs) h in
    let lt = ltb→lt b 256 small in
    rw (hex_digit-is_hex (b / 16) (omega arith), hex_digit-is_hex (b % 16) (omega arith))
      (all-hex_encode bs rest)

hex_digit-injective : (m n : ℕ) → hex_digit m ≡ hex_digit n → m ≡ n
hex_digit-injective m n e = ground arith

abbrev nth : ℕ → Bytes → ℕ
nth i s = elim (get_elem? s i) [ none ↦ 0 | some c ↦ c ]

-- A byte is given by its two hex digits.
pub hex_encode-injective : (a b : Bytes) → hex_encode a ≡ hex_encode b → a ≡ b
unfolding hex_encode
hex_encode-injective [] [] e = refl
hex_encode-injective [] (y ∷ b) e = cc
hex_encode-injective (x ∷ a) [] e = cc
hex_encode-injective (x ∷ a) (y ∷ b) e =
    let high = hex_digit-injective (x / 16) (y / 16) (ap (nth 0) e) in
    let low = hex_digit-injective (x % 16) (y % 16) (ap (nth 1) e) in
    let same : x ≡ y = omega arith in cc (hex_encode-injective a b (ap (drop 2) e))

-- Two digests in hex that are equal are of one input, if those two do not collide.
pub hex_sum-injective :
    (H : Sha512) (x y : Bytes)
    → NoClash H (x ∷ []) (y ∷ [])
    → hex_encode (H.sum x) ≡ hex_encode (H.sum y)
    → x ≡ y
hex_sum-injective H x y apart e =
    apart x y (inl refl) (inl refl) (hex_encode-injective (H.sum x) (H.sum y) e)
