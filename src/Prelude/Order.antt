-- ===== src/Prelude/Order.antt =====
-- The byte order of texts, and their prefixes.
use mathlib.Core.Path.{◌≡◌, refl, sym, ◌∙◌}
use mathlib.Core.Logic.{◌⊎◌, inl, inr}
use mathlib.Core.Bool.{true, false, false≢true}
use mathlib.Core.List.{[], ◌∷◌, ◌++◌}
use native.Mathlib.Omega.{arith}
use proof.Prelude.Tests.{Bool-cases}
use proof.Prelude.Bytes.{Bytes, bytes_eq, bytes_lt, bytes_eq_refl, has_prefix}

pub bytes_lt_irrefl : (a : Bytes) → bytes_lt a a ≡ false
unfolding bytes_lt
bytes_lt_irrefl [] = refl
bytes_lt_irrefl (x ∷ a) = ground (arith, bytes_lt_irrefl a)

pub bytes_lt_asym : (a b : Bytes) → bytes_lt a b ≡ true → bytes_lt b a ≡ false
unfolding bytes_lt
bytes_lt_asym [] [] h = cc
bytes_lt_asym [] (y ∷ b) h = refl
bytes_lt_asym (x ∷ a) [] h = cc
bytes_lt_asym (x ∷ a) (y ∷ b) h = ground (arith, bytes_lt_asym a b)

pub bytes_lt_total : (a b : Bytes) → bytes_lt a b ≡ false → bytes_lt b a ≡ false → a ≡ b
unfolding bytes_lt
bytes_lt_total [] [] h k = refl
bytes_lt_total [] (y ∷ b) h k = cc
bytes_lt_total (x ∷ a) [] h k = cc
bytes_lt_total (x ∷ a) (y ∷ b) h k = ground (arith, bytes_lt_total a b)

pub bytes_lt_trans :
    (a b c : Bytes) → bytes_lt a b ≡ true → bytes_lt b c ≡ true → bytes_lt a c ≡ true
unfolding bytes_lt
bytes_lt_trans [] [] c h k = cc
bytes_lt_trans [] (y ∷ b) [] h k = cc
bytes_lt_trans [] (y ∷ b) (z ∷ c) h k = refl
bytes_lt_trans (x ∷ a) [] c h k = cc
bytes_lt_trans (x ∷ a) (y ∷ b) [] h k = cc
bytes_lt_trans (x ∷ a) (y ∷ b) (z ∷ c) h k = ground (arith, bytes_lt_trans a b c)

-- `c <= a` and `a < b` give `c < b`.
pub bytes_lt_from :
    (a b c : Bytes) → bytes_lt a c ≡ false → bytes_lt a b ≡ true → bytes_lt c b ≡ true
bytes_lt_from a b c h k = elim (Bool-cases (bytes_lt c a)) [
  | inl less ↦ bytes_lt_trans c a b less k
  | inr not_less ↦ let same = bytes_lt_total a c h not_less in rw (← same) k
]

-- Different keys are in one order.
pub bytes_lt_decided :
    (j k : Bytes)
    → bytes_eq j k ≡ false
    → ((bytes_lt j k ≡ true) × (bytes_lt k j ≡ false))
      ⊎ ((bytes_lt j k ≡ false) × (bytes_lt k j ≡ true))
bytes_lt_decided j k h = elim (Bool-cases (bytes_lt j k)) [
  | inl less ↦ inl (less, bytes_lt_asym j k less)
  | inr not_less ↦ elim (Bool-cases (bytes_lt k j)) [
    | inl more ↦ inr (not_less, more)
    | inr equal ↦
        let same = bytes_lt_total j k not_less equal in
        let refl_eq = bytes_eq_refl k in cc (rw same at h)
  ]
]

-- `a < b` and `b <= c` give `a < c`.
pub bytes_lt_to : (a b c : Bytes) → bytes_lt a b ≡ true → bytes_lt c b ≡ false → bytes_lt a c ≡ true
bytes_lt_to a b c h k = elim (Bool-cases (bytes_lt b c)) [
  | inl less ↦ bytes_lt_trans a b c h less
  | inr not_less ↦ let same = bytes_lt_total b c not_less k in rw (← same) h
]

-- A key that is not below another and not the same is above it.
pub not_below : (j k : Bytes) → bytes_lt j k ≡ false → bytes_eq j k ≡ false → bytes_lt k j ≡ true
not_below j k h apart = elim (Bool-cases (bytes_lt k j)) [
  | inl above ↦ above
  | inr not_above ↦
      let same = bytes_lt_total j k h not_above in
      let equal : bytes_eq j k ≡ true = rw same (bytes_eq_refl k) in
      absurd (false≢true (sym apart ∙ equal))
]

pub bytes_lt-append : (p a b : Bytes) → bytes_lt (p ++ a) (p ++ b) ≡ bytes_lt a b
unfolding bytes_lt
bytes_lt-append [] a b = refl
bytes_lt-append (x ∷ p) a b = ground (arith, bytes_lt-append p a b)

pub bytes_eq-append : (p a b : Bytes) → bytes_eq (p ++ a) (p ++ b) ≡ bytes_eq a b
unfolding bytes_eq
bytes_eq-append [] a b = refl
bytes_eq-append (x ∷ p) a b = ground (arith, bytes_eq-append p a b)

pub has_prefix-append : (p a : Bytes) → has_prefix (p ++ a) p ≡ true
unfolding has_prefix
has_prefix-append [] a = refl
has_prefix-append (x ∷ p) a = ground (arith, has_prefix-append p a)

pub has_prefix_refl : (p : Bytes) → has_prefix p p ≡ true
unfolding has_prefix
has_prefix_refl [] = refl
has_prefix_refl (x ∷ p) = ground (arith, has_prefix_refl p)

-- What lies between two texts with a prefix has it.
pub between :
    (p a x b : Bytes)
    → has_prefix a p ≡ true
    → has_prefix b p ≡ true
    → bytes_lt x a ≡ false
    → bytes_lt b x ≡ false
    → has_prefix x p ≡ true
unfolding has_prefix bytes_lt
between [] a x b ha hb h k = refl
between (y ∷ p) [] x b ha hb h k = cc
between (y ∷ p) (u ∷ a) x [] ha hb h k = cc
between (y ∷ p) (u ∷ a) [] (w ∷ b) ha hb h k = cc
between (y ∷ p) (u ∷ a) (v ∷ x) (w ∷ b) ha hb h k = ground (arith, between p a x b)
