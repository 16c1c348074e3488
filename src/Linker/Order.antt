-- ===== src/Linker/Order.antt =====
-- linker/order.go: what a batch that passes `validate_batch_ordering` is, and that sorting keeps it.
use proof.Prelude.{
  ◌≡◌, List, [], ◌∷◌, none, Bool, true, false, arith, inl, inr, In, Bool-cases, Option-cases,
}
use proof.Prelude.Bytes.{Bytes, bytes_eq, bytes_eq_refl, is_empty}
use proof.ChainFormat.Timestamp.{valid_timestamp, is_zero_time}
use proof.ChainFormat.Tombstone.{is_tombstone}
use proof.Linker.{
  Input, check_input, seen_before, validate_from, validate_batch_ordering, insert_input,
  sort_inputs, arrives_before, is_reserved,
}

-- An input that the linker takes.
pub record IsSound (valid_utf8 : Bytes → Bool) (x : Input) : Type 0 where
  pub named : is_empty x.entry_id ≡ false
  pub utf8 : valid_utf8 x.entry_id ≡ true
  pub timed : valid_timestamp x.timestamp ≡ true
  pub arrived : is_zero_time x.ingested_at ≡ false
  pub unreserved : is_reserved x ≡ false

-- No two inputs have one id, and none has an id of the list.
abbrev pub IsFresh : List Bytes → List Input → Type 0
IsFresh seen [] = Unit
IsFresh seen (x ∷ inputs) = ¬ In x.entry_id seen × IsFresh (x.entry_id ∷ seen) inputs

pub unreserved-tombstone :
    (x : Input) → is_reserved x ≡ false → is_tombstone x.entry_type x.entry_id ≡ false
unfolding is_reserved is_tombstone
unreserved-tombstone x h = ground arith

seen_before-In : (id : Bytes) (seen : List Bytes) → seen_before id seen ≡ false → ¬ In id seen
unfolding seen_before
seen_before-In id [] h i = absurd i
seen_before-In id (j ∷ seen) h (inl e) =
    let same : bytes_eq id j ≡ true = rw e (bytes_eq_refl j) in absurd (ground arith)
seen_before-In id (j ∷ seen) h (inr i) = seen_before-In id seen (ground arith) i

module _ (valid_utf8 : Bytes → Bool) where
  check_input-none :
      (seen : List Bytes) (x : Input)
      → check_input valid_utf8 seen x ≡ none
      → IsSound valid_utf8 x × (seen_before x.entry_id seen ≡ false)
  unfolding check_input
  check_input-none seen x h = (
    record {
      named = ground arith;
      utf8 = ground arith;
      timed = ground arith;
      arrived = ground arith;
      unreserved = ground arith;
    },
    ground arith,
  )

  validate_from-first :
      (seen : List Bytes) (x : Input) (inputs : List Input)
      → validate_from valid_utf8 seen (x ∷ inputs) ≡ none
      → (check_input valid_utf8 seen x ≡ none)
        × (validate_from valid_utf8 (x.entry_id ∷ seen) inputs ≡ none)
  unfolding validate_from
  validate_from-first seen x inputs h = elim (Option-cases (check_input valid_utf8 seen x)) [
    | inl clear ↦ (clear, rw (clear, validate_from) at h)
    | inr (e, bad) ↦ cc (rw (bad, validate_from) at h)
  ]

  validate_from_lem :
      (seen : List Bytes) (inputs : List Input)
      → validate_from valid_utf8 seen inputs ≡ none
      → ((x : Input) → In x inputs → IsSound valid_utf8 x) × IsFresh seen inputs
  validate_from_lem seen [] h = ((λ x i. absurd i), tt)
  validate_from_lem seen (x ∷ inputs) h =
      let (clear, rest) = validate_from-first seen x inputs h in
      let (sound, fresh) = check_input-none seen x clear in
      let more = validate_from_lem (x.entry_id ∷ seen) inputs rest in
      (
        (λ y i. elim i [ inl e ↦ rw e sound | inr later ↦ (more.0) y later ]),
        (seen_before-In x.entry_id seen fresh, more.1),
      )

  -- A batch that is accepted has sound inputs only, and no id twice.
  pub validate_batch_ordering_lem :
      (inputs : List Input)
      → validate_batch_ordering valid_utf8 inputs ≡ none
      → ((x : Input) → In x inputs → IsSound valid_utf8 x) × IsFresh [] inputs
  unfolding validate_batch_ordering
  validate_batch_ordering_lem inputs h = validate_from_lem [] inputs h

In-insert_input :
    (x y : Input) (inputs : List Input) → In x (insert_input y inputs) → In x (y ∷ inputs)
unfolding insert_input
In-insert_input x y [] i = i
In-insert_input x y (z ∷ inputs) i = elim (Bool-cases (arrives_before z y)) [
  | inl before ↦ elim (rw (before, insert_input) at i) [
    | inl e ↦ inr (inl e)
    | inr later ↦ elim (In-insert_input x y inputs later) [
      | inl e ↦ inl e
      | inr older ↦ inr (inr older)
    ]
  ]
  | inr after ↦ rw (after, insert_input) at i
]

-- Sorting takes no input from elsewhere.
pub In-sort_inputs : (x : Input) (inputs : List Input) → In x (sort_inputs inputs) → In x inputs
unfolding sort_inputs
In-sort_inputs x [] i = i
In-sort_inputs x (y ∷ inputs) i = elim (In-insert_input x y (sort_inputs inputs) i) [
  | inl e ↦ inl e
  | inr later ↦ inr (In-sort_inputs x inputs later)
]
