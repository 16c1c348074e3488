-- ===== src/Prelude/BigEndian.antt =====
-- `binary.BigEndian`: numbers of 32 and 64 bits, the most significant byte first.
use Prim.Native.Nat.{ℕ, ◌+◌, ◌*◌, ◌/◌, ◌%◌, ◌^◌, ◌<◌}
use mathlib.Core.Path.{◌≡◌, refl, ap, ◌∙◌}
use mathlib.Core.Bool.{false, ◌&&◌, ◌||◌}
use mathlib.Core.List.{[], ◌∷◌, ◌++◌}
use mathlib.Core.Option.{Option, none, some}
use native.Mathlib.Omega.{arith}
use proof.Prelude.Tests.{◌==◌, ltb}
use proof.Prelude.Lists.{length}
use proof.Prelude.Bytes.{Bytes, bytes_lt}

-- `binary.BigEndian.PutUint32` and `PutUint64`.
unfoldable pub put_uint32 : ℕ → Bytes
put_uint32 n = (n / 2 ^ 24 % 256) ∷ (n / 2 ^ 16 % 256) ∷ (n / 2 ^ 8 % 256) ∷ (n % 256) ∷ []

unfoldable pub put_uint64 : ℕ → Bytes
put_uint64 n = put_uint32 (n / 2 ^ 32) ++ put_uint32 (n % 2 ^ 32)

-- `binary.BigEndian.Uint64`; `none` is the panic on fewer than eight bytes.
unfoldable pub get_uint64 : Bytes → Option ℕ
get_uint64 (a ∷ b ∷ c ∷ d ∷ e ∷ f ∷ g ∷ h ∷ rest) =
    some ((((((((a * 256 + b) * 256 + c) * 256 + d) * 256 + e) * 256 + f) * 256 + g) * 256) + h)
get_uint64 k = none

pub put_uint32-injective : (a b : ℕ) → a < 2 ^ 32 → b < 2 ^ 32 → put_uint32 a ≡ put_uint32 b → a ≡ b
unfolding put_uint32
put_uint32-injective a b ha hb e = ground arith

pub put_uint64-injective : (a b : ℕ) → a < 2 ^ 64 → b < 2 ^ 64 → put_uint64 a ≡ put_uint64 b → a ≡ b
unfolding put_uint64 put_uint32
put_uint64-injective a b ha hb e =
    let high =
      put_uint32-injective (a / 2 ^ 32) (b / 2 ^ 32) (omega arith) (omega arith)
        (unfold put_uint32 in ground arith) in
    let low =
      put_uint32-injective (a % 2 ^ 32) (b % 2 ^ 32) (omega arith) (omega arith)
        (unfold put_uint32 in ground arith) in
    omega arith

pub length-put_uint64 : (v : ℕ) → length (put_uint64 v) ≡ 8
unfolding put_uint64 put_uint32
length-put_uint64 v = refl

-- Four bytes decide as the number they stand for.
four_lt :
    (a3 a2 a1 a0 b3 b2 b1 b0 : ℕ) (u v : Bytes)
    → a3 < 256
    → a2 < 256
    → a1 < 256
    → a0 < 256
    → b3 < 256
    → b2 < 256
    → b1 < 256
    → b0 < 256
    → bytes_lt (a3 ∷ a2 ∷ a1 ∷ a0 ∷ u) (b3 ∷ b2 ∷ b1 ∷ b0 ∷ v) ≡ (
        ltb (((a3 * 256 + a2) * 256 + a1) * 256 + a0) (((b3 * 256 + b2) * 256 + b1) * 256 + b0)
        || (((a3 * 256 + a2) * 256 + a1) * 256 + a0 == ((b3 * 256 + b2) * 256 + b1) * 256 + b0
            && bytes_lt u v))
unfolding bytes_lt
four_lt a3 a2 a1 a0 b3 b2 b1 b0 u v p3 p2 p1 p0 q3 q2 q1 q0 = ground arith

four_bytes :
    (n : ℕ)
    → n < 2 ^ 32
    → ((n / 2 ^ 24 % 256 * 256 + n / 2 ^ 16 % 256) * 256 + n / 2 ^ 8 % 256) * 256 + n % 256 ≡ n
four_bytes n h = omega arith

bytes_lt-put_uint32 :
    (a b : ℕ) (u v : Bytes)
    → a < 2 ^ 32
    → b < 2 ^ 32
    → bytes_lt (put_uint32 a ++ u) (put_uint32 b ++ v) ≡ (ltb a b || (a == b && bytes_lt u v))
unfolding put_uint32
bytes_lt-put_uint32 a b u v ha hb =
    let core =
      four_lt (a / 2 ^ 24 % 256) (a / 2 ^ 16 % 256) (a / 2 ^ 8 % 256) (a % 256) (b / 2 ^ 24 % 256)
        (b / 2 ^ 16 % 256) (b / 2 ^ 8 % 256) (b % 256) u v (omega arith) (omega arith) (omega arith)
        (omega arith) (omega arith) (omega arith) (omega arith) (omega arith) in
    rw (four_bytes a ha, four_bytes b hb) at core

split_lt :
    (a b : ℕ)
    → (ltb (a / 2 ^ 32) (b / 2 ^ 32)
        || (a / 2 ^ 32 == b / 2 ^ 32
            && (ltb (a % 2 ^ 32) (b % 2 ^ 32) || (a % 2 ^ 32 == b % 2 ^ 32 && false))))
      ≡ ltb a b
split_lt a b = ground arith

pub bytes_lt-put_uint64 :
    (a b : ℕ) → a < 2 ^ 64 → b < 2 ^ 64 → bytes_lt (put_uint64 a) (put_uint64 b) ≡ ltb a b
unfolding put_uint64 put_uint32 bytes_lt
bytes_lt-put_uint64 a b ha hb =
    let high : bytes_lt (put_uint64 a) (put_uint64 b) ≡ _ =
      bytes_lt-put_uint32 (a / 2 ^ 32) (b / 2 ^ 32) (put_uint32 (a % 2 ^ 32))
        (put_uint32 (b % 2 ^ 32)) (omega arith) (omega arith) in
    let low : bytes_lt (put_uint32 (a % 2 ^ 32)) (put_uint32 (b % 2 ^ 32)) ≡ _ =
      bytes_lt-put_uint32 (a % 2 ^ 32) (b % 2 ^ 32) [] [] (omega arith) (omega arith) in
    high ∙ rw low (split_lt a b)

pub get_uint64-put_uint64 : (n : ℕ) → n < 2 ^ 64 → get_uint64 (put_uint64 n) ≡ some n
unfolding get_uint64 put_uint64 put_uint32
get_uint64-put_uint64 n h =
    let high = four_bytes (n / 2 ^ 32) (omega arith) in
    let low = four_bytes (n % 2 ^ 32) (omega arith) in ap some (omega arith)
