-- ===== src/Merkle/Split.antt =====
-- `largestPowerOfTwoLessThan` of merkle/merkle.go, the split point of RFC 9162 §2.1.
use proof.Prelude.{
  ℕ, zero, suc, ◌-◌, ◌*◌, ◌/◌, ◌%◌, ◌^◌, ◌≤◌, ◌<◌, ◌≡◌, refl, arith, leb, if◌then◌else◌, Bool-cases,
  inl, inr, leb-eq_false, le→leb, leb→le, sym, ◌∙◌,
}
use native.Mathlib.Nat.{pow-succ', pow-le-pow_right}
use native.Mathlib.Decide.{dec_le}

-- `for k <= (n-1)>>1 { k <<= 1 }` in an int of 64 bits, with fuel.
split_loop : ℕ → ℕ → ℕ → ℕ
split_loop zero n k = k
split_loop (suc fuel) n k =
    let rest = split_loop fuel n (k * 2 % 2 ^ 64) in if leb k ((n - 1) / 2) then rest else k

-- 63 rounds take k from 1 past any int.
unfoldable pub largest_power_of_two_less_than : ℕ → ℕ
unfolding split_loop
largest_power_of_two_less_than n = split_loop 63 n 1

pub pow_step : (d : ℕ) → 2 ^ suc d ≡ 2 * 2 ^ d
pow_step d = pow-succ' 2 d

pub pow_pos : (d : ℕ) → 0 < 2 ^ d
pow_pos zero = omega arith
pow_pos (suc d) = omega (arith, pow_step d, pow_pos d)

le-mul_pos : (a p : ℕ) → 0 < p → a ≤ a * p
le-mul_pos a p h = grind arith

mul-pow_step : (k d : ℕ) → k * 2 ^ suc d ≡ k * 2 * 2 ^ d
mul-pow_step k d = rw pow_step (omega arith)

-- From k, the loop reaches K = k * 2 ^ d, the one with K < n ≤ 2K. No doubling on the way wraps.
split_loop_reaches :
    (fuel d n k : ℕ)
    → d ≤ fuel
    → n < 2 ^ 63
    → k * 2 ^ d < n
    → n ≤ 2 * (k * 2 ^ d)
    → split_loop fuel n k ≡ k * 2 ^ d
unfolding split_loop
split_loop_reaches zero zero n k hd hn lo hi = omega arith
split_loop_reaches zero (suc d) n k hd hn lo hi = absurd (omega arith)
split_loop_reaches (suc fuel) zero n k hd hn lo hi =
    rw (leb-eq_false k ((n - 1) / 2) (omega arith)) (omega arith)
split_loop_reaches (suc fuel) (suc d) n k hd hn lo hi =
    let e = mul-pow_step k d in
    let low = le-mul_pos (k * 2) (2 ^ d) (pow_pos d) in
    let small : k * 2 % 2 ^ 64 ≡ k * 2 = omega arith in
    rw (le→leb k ((n - 1) / 2) (omega arith), small)
      (split_loop_reaches fuel d n (k * 2) (omega arith) hn (omega arith) (omega arith) ∙ sym e)

-- Where the loop stops: at a power of two K with K < n ≤ 2K, if the fuel takes k past n.
split_loop_bounds :
    (fuel n k i : ℕ)
    → n < 2 ^ 63
    → k ≡ 2 ^ i
    → k < n
    → n ≤ k * 2 ^ fuel
    → (j : ℕ) × (split_loop fuel n k ≡ 2 ^ j)
      × (split_loop fuel n k < n)
      × (n ≤ 2 * split_loop fuel n k)
unfolding split_loop
split_loop_bounds zero n k i hn e lo hi = absurd (omega arith)
split_loop_bounds (suc fuel) n k i hn e lo hi = elim (Bool-cases (leb k ((n - 1) / 2))) [
  | inl more ↦
      let le = leb→le k ((n - 1) / 2) more in
      let small : k * 2 % 2 ^ 64 ≡ k * 2 = omega arith in
      rw (more, small)
        (split_loop_bounds fuel n (k * 2) (suc i) hn (omega (arith, pow_step i)) (omega arith)
          (omega (arith, mul-pow_step k fuel)))
  | inr done ↦ rw done (i, e, lo, ground arith)
]

-- The result is a power of two k with k < n ≤ 2k, for every n of an int from 2 on.
pub largest_power_bounds :
    (n : ℕ)
    → 1 < n
    → n < 2 ^ 63
    → (j : ℕ) × (largest_power_of_two_less_than n ≡ 2 ^ j)
      × (largest_power_of_two_less_than n < n)
      × (n ≤ 2 * largest_power_of_two_less_than n)
unfolding largest_power_of_two_less_than
largest_power_bounds n lo hn = split_loop_bounds 63 n 1 0 hn refl lo (omega arith)

exponent_le : (i : ℕ) → 2 ^ i < 2 ^ 63 → i ≤ 63
exponent_le i h = elim (dec_le i 63) [
  | yes p ↦ p
  | no p ↦
      let big : 2 ^ 63 ≤ 2 ^ i = pow-le-pow_right (omega arith) {i = 63} (omega arith) in
      absurd (omega arith)
]

-- It is the only power of two with those bounds.
pub largest_power_unique :
    (n i : ℕ) → n < 2 ^ 63 → 2 ^ i < n → n ≤ 2 * 2 ^ i → largest_power_of_two_less_than n ≡ 2 ^ i
unfolding largest_power_of_two_less_than
largest_power_unique n i hn lo hi =
    split_loop_reaches 63 i n 1 (exponent_le i (omega arith)) hn (omega arith) (omega arith)
    ∙ omega arith
