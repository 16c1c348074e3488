-- ===== src/Prelude/Decimal.antt =====
-- The decimal form of an int64 determines it, and holds no separator.
use Prim.Native.Nat.{ℕ, zero, suc, ◌+◌, ◌-◌, ◌*◌, ◌/◌, ◌%◌, ◌^◌, ◌<◌, ◌≤◌}
use mathlib.Core.Path.{◌≡◌, refl, sym, ap, ◌∙◌}
use mathlib.Core.Bool.{false}
use mathlib.Core.Logic.{inl, inr, ◌≢◌}
use mathlib.Core.List.{[], ◌∷◌}
use native.Mathlib.Omega.{arith}
use native.Mathlib.Nat.{pow-succ'}
use proof.Prelude.Tests.{◌==◌, Bool-cases}
use proof.Prelude.Bytes.{Bytes, contains}
use proof.Prelude.Int64.{Int64, is_neg, digits_onto, uint_digits, format_int}

-- The number that digits spell behind n.
abbrev value : ℕ → Bytes → ℕ
value n [] = n
value n (c ∷ s) = value (n * 10 + (c - b'0')) s

value-digits_onto :
    (f n : ℕ) (out : Bytes) → n < 10 ^ f → value 0 (digits_onto f n out) ≡ value n out
unfolding digits_onto
value-digits_onto zero n out h = let e : n ≡ 0 = omega arith in rw e
value-digits_onto (suc f) n out h = elim (Bool-cases (n == 0)) [
  | inl done ↦ let e : n ≡ 0 = ground arith in rw e
  | inr more ↦
      let small : n / 10 < 10 ^ f = omega (arith, pow-succ' 10 f) in
      let e : (n / 10) * 10 + ((b'0' + n % 10) - b'0') ≡ n = omega arith in
      rw more (value-digits_onto f (n / 10) ((b'0' + n % 10) ∷ out) small ∙ ap (λ v. value v out) e)
]

value-uint_digits : (n : ℕ) → n < 10 ^ 20 → value 0 (uint_digits n) ≡ n
unfolding uint_digits
value-uint_digits n h = elim (Bool-cases (n == 0)) [
  | inl zero_value ↦ ground arith
  | inr more ↦ rw more (value-digits_onto 20 n [] h)
]

-- The first byte of a digit string is no sign.
abbrev first : Bytes → ℕ
first [] = b'0'
first (c ∷ s) = c

first-digits_onto : (f n : ℕ) (out : Bytes) → b'0' ≤ first out → b'0' ≤ first (digits_onto f n out)
unfolding digits_onto
first-digits_onto zero n out h = h
first-digits_onto (suc f) n out h = elim (Bool-cases (n == 0)) [
  | inl done ↦ rw done h
  | inr more ↦ rw more (first-digits_onto f (n / 10) ((b'0' + n % 10) ∷ out) (omega arith))
]

first-uint_digits : (n : ℕ) → b'0' ≤ first (uint_digits n)
unfolding uint_digits
first-uint_digits n = elim (Bool-cases (n == 0)) [
  | inl done ↦ rw done (omega arith)
  | inr more ↦ rw more (first-digits_onto 20 n [] (omega arith))
]

sign_ne_digits : (m n : ℕ) → b'-' ∷ uint_digits m ≢ uint_digits n
sign_ne_digits m n e = absurd (omega (arith, ap first e, first-uint_digits n))

uint_digits-injective :
    (m n : ℕ) → m < 10 ^ 20 → n < 10 ^ 20 → uint_digits m ≡ uint_digits n → m ≡ n
uint_digits-injective m n hm hn e =
    sym (value-uint_digits m hm) ∙ ap (value 0) e ∙ value-uint_digits n hn

tail_of : Bytes → Bytes
tail_of [] = []
tail_of (c ∷ s) = s

-- Two int64 with one decimal form are equal.
pub format_int-injective :
    (x y : Int64) → x < 2 ^ 64 → y < 2 ^ 64 → format_int x ≡ format_int y → x ≡ y
unfolding format_int tail_of
format_int-injective x y hx hy e = elim (Bool-cases (is_neg x)) [
  | inl nx ↦ elim (Bool-cases (is_neg y)) [
    | inl ny ↦
        let same =
          uint_digits-injective (2 ^ 64 - x) (2 ^ 64 - y) (omega arith) (omega arith)
            (ap tail_of (rw (nx, ny) at e)) in
        omega arith
    | inr py ↦ absurd (sign_ne_digits (2 ^ 64 - x) y (rw (nx, py) at e))
  ]
  | inr px ↦ elim (Bool-cases (is_neg y)) [
    | inl ny ↦ absurd (sign_ne_digits (2 ^ 64 - y) x (sym (rw (px, ny) at e)))
    | inr py ↦ uint_digits-injective x y (omega arith) (omega arith) (rw (px, py) at e)
  ]
]

-- Digits are no separators, for any separator above them.
pub contains-digits_onto :
    (f n : ℕ) (out : Bytes) (c : ℕ) → b'9' < c → contains (digits_onto f n out) c ≡ contains out c
unfolding digits_onto contains
contains-digits_onto zero n out c h = refl
contains-digits_onto (suc f) n out c h = elim (Bool-cases (n == 0)) [
  | inl done ↦ rw done
  | inr more ↦ rw (more, contains-digits_onto f (n / 10) ((b'0' + n % 10) ∷ out) c h) (ground arith)
]

pub contains-format_int : (x : Int64) (c : ℕ) → b'9' < c → contains (format_int x) c ≡ false
unfolding format_int uint_digits contains
contains-format_int x c h =
    ground (arith, contains-digits_onto 20 x [] c, contains-digits_onto 20 (2 ^ 64 - x) [] c)
