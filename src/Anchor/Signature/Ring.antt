-- ===== src/Anchor/Signature/Ring.antt =====
-- What a key ring answers.
use proof.Prelude.{
  ◌≡◌, ◌≢◌, sym, ap, ap₂, subst, List, [], ◌∷◌, none, some, false, length, In, inl, inr, Bool-cases,
  Option-cases, arith,
}
use mathlib.Core.Option.{some-injective}
use proof.Prelude.Bytes.{Bytes, bytes_eq, bytes_eq_sound, is_empty}
use proof.Anchor.Signature.{
  Trust, found, KeyRing, RingError, NewKeyRing, ring, ring_refused, check_keys, new_key_ring,
  lookup, ring_public_key,
}

-- A key that the ring was made with, under a name, of the size of ML-DSA-65.
pub record IsRingKey (keys : List (Bytes × Bytes)) (id key : Bytes) : Type 0 where
  pub given : In (id, key) keys
  pub named : is_empty id ≡ false
  pub size : length key ≡ 1952

lookup-IsRingKey :
    (keys : List (Bytes × Bytes)) (id key : Bytes)
    → check_keys keys ≡ none
    → lookup keys id ≡ some key
    → IsRingKey keys id key
unfolding check_keys lookup
lookup-IsRingKey [] id key c h = cc
lookup-IsRingKey ((i, k) ∷ keys) id key c h =
    let named : is_empty i ≡ false = ground arith in
    let size : length k ≡ 1952 = ground arith in
    let rest_checked : check_keys keys ≡ none = ground arith in
    elim (Bool-cases (bytes_eq i id)) [
      | inl here ↦
          let same_id = bytes_eq_sound i id here in
          let same_key = some-injective k key (rw here at h) in
          record {
            given = inl (sym (ap₂ (λ a b. (a, b)) same_id same_key));
            named = subst (λ z. is_empty z ≡ false) same_id named;
            size = subst (λ z. length z ≡ 1952) same_key size;
          }
      | inr there ↦
          let rest = lookup-IsRingKey keys id key rest_checked (rw there at h) in
          record { given = inr (rest.given); named = rest.named; size = rest.size }
    ]

abbrev Rung : NewKeyRing → KeyRing → KeyRing
Rung (ring s) r = s
Rung (ring_refused e) r = r

ring_refused≢ring : {e : RingError} {r : KeyRing} → ring_refused e ≢ ring r
ring_refused≢ring e = cc

new_key_ring-ok :
    (trust : Trust) (keys : List (Bytes × Bytes)) {r : KeyRing}
    → new_key_ring (some trust) keys ≡ ring r
    → (check_keys keys ≡ none) × (r ≡ record { trust = trust; keys = keys })
unfolding new_key_ring
new_key_ring-ok trust keys {r} h = elim (Option-cases (check_keys keys)) [
  | inr (e, bad) ↦ absurd (ring_refused≢ring (rw (bad, new_key_ring) at h))
  | inl fine ↦ (fine, sym (ap (λ n. Rung n r) (rw (fine, new_key_ring) at h)))
]

-- A key that a new key ring answers for an id is one that it was made with, under that id, which is
-- not empty; it has 1952 bytes, and the trust is the ring's.
pub ring_public_key-IsRingKey :
    (trust : Trust) (keys : List (Bytes × Bytes)) (r : KeyRing) (id key : Bytes) (answered : Trust)
    → new_key_ring (some trust) keys ≡ ring r
    → ring_public_key r id ≡ found key answered
    → IsRingKey keys id key × (answered ≡ trust)
unfolding ring_public_key
ring_public_key-IsRingKey trust keys r id key answered made h =
    let (checked, is_ring) = new_key_ring-ok trust keys made in
    let h' = rw is_ring at h in
    elim (Option-cases (lookup keys id)) [
      | inl missing ↦ cc (rw (missing, ring_public_key) at h')
      | inr (k, held) ↦
          let answer = rw (held, ring_public_key) at h' in
          let same_key : k ≡ key = cc answer in
          let same_trust : answered ≡ trust = cc answer in
          (subst (IsRingKey keys id) same_key (lookup-IsRingKey keys id k checked held), same_trust)
    ]
