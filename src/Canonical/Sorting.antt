-- ===== src/Canonical/Sorting.antt =====
-- canonical/json.go: the order in which the members of a map are written, and insertions into it.
use proof.Prelude.{◌≡◌, refl, sym, ap, List, [], ◌∷◌, true, false, inl, inr, Bool-cases}
use proof.Prelude.Bytes.{Bytes, bytes_eq, bytes_lt}
use proof.Prelude.Order.{bytes_lt_from, bytes_lt_decided}
use proof.Canonical.{Written, insert_member}

abbrev Parts : Type 0
Parts = List (Bytes × Written)

insert_past :
    (i k : Bytes) (u w : Written) (ms : Parts)
    → bytes_lt i k ≡ true
    → insert_member (k, w) ((i, u) ∷ ms) ≡ (i, u) ∷ insert_member (k, w) ms
unfolding insert_member
insert_past i k u w ms h = rw h refl

insert_here :
    (i k : Bytes) (u w : Written) (ms : Parts)
    → bytes_lt i k ≡ false
    → insert_member (k, w) ((i, u) ∷ ms) ≡ (k, w) ∷ (i, u) ∷ ms
unfolding insert_member
insert_here i k u w ms h = rw h refl

insert_nil : (m : Bytes × Written) → insert_member m [] ≡ m ∷ []
unfolding insert_member
insert_nil (k, w) = refl

-- One key stops before the head, and the other goes past it.
insert_apart :
    (i j k : Bytes) (u v w : Written) (ms : Parts)
    → bytes_lt i j ≡ true
    → bytes_lt i k ≡ false
    → insert_member (j, v) (insert_member (k, w) ((i, u) ∷ ms))
      ≡ insert_member (k, w) (insert_member (j, v) ((i, u) ∷ ms))
insert_apart i j k u v w ms ij ik =
    let kj = bytes_lt_from i j k ik ij in
    rw (insert_here i k u w ms ik, insert_past i j u v ms ij)
      (rw (insert_past k j w v ((i, u) ∷ ms) kj, insert_here i k u w (insert_member (j, v) ms) ik)
        (rw (insert_past i j u v ms ij) refl))

-- Both stop before the head.
insert_before :
    (i j k : Bytes) (u v w : Written) (ms : Parts)
    → bytes_lt i j ≡ false
    → bytes_lt i k ≡ false
    → bytes_lt j k ≡ true
    → bytes_lt k j ≡ false
    → insert_member (j, v) (insert_member (k, w) ((i, u) ∷ ms))
      ≡ insert_member (k, w) (insert_member (j, v) ((i, u) ∷ ms))
insert_before i j k u v w ms ij ik jk kj =
    rw (insert_here i k u w ms ik, insert_here i j u v ms ij)
      (rw (insert_here k j w v ((i, u) ∷ ms) kj, insert_past j k v w ((i, u) ∷ ms) jk)
        (rw (insert_here i k u w ms ik) refl))

-- Insertions of two different keys commute.
pub insert_member_comm :
    (j k : Bytes) (v w : Written) (ms : Parts)
    → bytes_eq j k ≡ false
    → insert_member (j, v) (insert_member (k, w) ms)
      ≡ insert_member (k, w) (insert_member (j, v) ms)
insert_member_comm j k v w [] h = elim (bytes_lt_decided j k h) [
  | inl (a, b) ↦
      rw (insert_nil (k, w), insert_nil (j, v))
        (rw (insert_here k j w v [] b, insert_past j k v w [] a) (rw (insert_nil (k, w)) refl))
  | inr (a, b) ↦
      rw (insert_nil (k, w), insert_nil (j, v))
        (rw (insert_past k j w v [] b, insert_here j k v w [] a) (rw (insert_nil (j, v)) refl))
]
insert_member_comm j k v w ((i, u) ∷ ms) h =
    let ih = insert_member_comm j k v w ms h in
    elim (Bool-cases (bytes_lt i j)) [
      | inl ij ↦ elim (Bool-cases (bytes_lt i k)) [
        | inl ik ↦
            rw (insert_past i k u w ms ik, insert_past i j u v ms ij)
              (rw
                (
                  insert_past i j u v (insert_member (k, w) ms) ij,
                  insert_past i k u w (insert_member (j, v) ms) ik,
                )
                (ap (λ r. (i, u) ∷ r) ih))
        | inr ik ↦ insert_apart i j k u v w ms ij ik
      ]
      | inr ij ↦ elim (Bool-cases (bytes_lt i k)) [
        | inl ik ↦ sym (insert_apart i k j u w v ms ik ij)
        | inr ik ↦ elim (bytes_lt_decided j k h) [
          | inl (jk, kj) ↦ insert_before i j k u v w ms ij ik jk kj
          | inr (jk, kj) ↦ sym (insert_before i k j u w v ms ik ij kj jk)
        ]
      ]
    ]
