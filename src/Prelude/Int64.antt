-- ===== src/Prelude/Int64.antt =====
-- Go's int64 and int, as two's complement bit patterns: a value below 2 ^ 64, the values from
-- 2 ^ 63 on being the negative ones. Also strconv's decimal form of such a value.
use Prim.Native.Nat.{ℕ, zero, suc, ◌+◌, ◌-◌, ◌/◌, ◌%◌, ◌^◌}
use mathlib.Core.Bool.{Bool}
use mathlib.Core.List.{[], ◌∷◌}
use proof.Prelude.Tests.{ltb, leb, ◌==◌, if◌then◌else◌}
use proof.Prelude.Bytes.{Bytes}

abbrev pub Int64 : Type 0
Int64 = ℕ

-- `x < 0`.
abbrev pub is_neg : Int64 → Bool
is_neg x = leb (2 ^ 63) x

-- `a < b`, signed.
abbrev pub int_lt : Int64 → Int64 → Bool
int_lt a b = ltb ((a + 2 ^ 63) % 2 ^ 64) ((b + 2 ^ 63) % 2 ^ 64)

-- `x + 1`, with the wrap-around.
abbrev pub int_next : Int64 → Int64
int_next x = (x + 1) % 2 ^ 64

-- `-1`.
abbrev pub minus_one : Int64
minus_one = 2 ^ 64 - 1

-- The decimal digits of a number, in front of what follows. Twenty digits hold every uint64.
unfoldable pub digits_onto : ℕ → ℕ → Bytes → Bytes
digits_onto zero n out = out
digits_onto (suc f) n out =
    let rest = digits_onto f (n / 10) ((b'0' + n % 10) ∷ out) in if n == 0 then out else rest

unfoldable pub uint_digits : ℕ → Bytes
uint_digits n = if n == 0 then b'0' ∷ [] else digits_onto 20 n []

-- `strconv.AppendInt(nil, x, 10)`.
unfoldable pub format_int : Int64 → Bytes
format_int x = if is_neg x then b'-' ∷ uint_digits (2 ^ 64 - x) else uint_digits x
