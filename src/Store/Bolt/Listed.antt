-- ===== src/Store/Bolt/Listed.antt =====
-- A database as bbolt documents it: each bucket is a list of items in key order.
use proof.Prelude.{
  ◌≡◌, refl, sym, ap, ◌∙◌, List, [], ◌∷◌, Option, none, some, true, false, false≢true,
  if◌then◌else◌, inl, inr, Bool-cases,
}
use proof.Prelude.Bytes.{Bytes, bytes_eq, bytes_eq_sound, bytes_eq_refl, bytes_lt}
use proof.Prelude.Order.{bytes_lt_irrefl, bytes_lt_trans, not_below}
use proof.Store.Bolt.{
  Item, Engine, IsEngine, below, from, last_item, insert_item, AllAbove, InKeyOrder,
}

unfoldable pub find : Bytes → List Item → Option Bytes
find key [] = none
find key ((k, v) ∷ items) = let rest = find key items in if bytes_eq k key then some v else rest

unfoldable pub remove : Bytes → List Item → List Item
remove key [] = []
remove key ((k, v) ∷ items) =
    let rest = remove key items in if bytes_eq k key then rest else (k, v) ∷ rest

AllAbove-insert :
    (j key value : Bytes) (items : List Item)
    → bytes_lt j key ≡ true
    → AllAbove j items
    → AllAbove j (insert_item key value items)
unfolding insert_item
AllAbove-insert j key value [] h a = (h, tt)
AllAbove-insert j key value ((k, v) ∷ items) h (first, a) = elim (Bool-cases (bytes_lt k key)) [
  | inl less ↦ rw less (first, AllAbove-insert j key value items h a)
  | inr not_less ↦ elim (Bool-cases (bytes_eq k key)) [
    | inl same ↦ rw (not_less, same) (h, a)
    | inr other ↦ rw (not_less, other) (h, (first, a))
  ]
]

AllAbove-lower :
    (j k : Bytes) (items : List Item) → bytes_lt j k ≡ true → AllAbove k items → AllAbove j items
AllAbove-lower j k [] h a = tt
AllAbove-lower j k ((i, v) ∷ items) h (first, a) =
    (bytes_lt_trans j k i h first, AllAbove-lower j k items h a)

pub insert-InKeyOrder :
    (key value : Bytes) (items : List Item)
    → InKeyOrder items
    → InKeyOrder (insert_item key value items)
unfolding insert_item
insert-InKeyOrder key value [] o = (tt, tt)
insert-InKeyOrder key value ((k, v) ∷ items) (a, o) = elim (Bool-cases (bytes_lt k key)) [
  | inl less ↦
      rw less (AllAbove-insert k key value items less a, insert-InKeyOrder key value items o)
  | inr not_less ↦ elim (Bool-cases (bytes_eq k key)) [
    | inl same ↦ rw (not_less, same) (rw (← bytes_eq_sound k key same) a, o)
    | inr other ↦
        let above = not_below k key not_less other in
        rw (not_less, other) ((above, AllAbove-lower key k items above a), (a, o))
  ]
]

AllAbove-remove :
    (j key : Bytes) (items : List Item) → AllAbove j items → AllAbove j (remove key items)
unfolding remove
AllAbove-remove j key [] a = tt
AllAbove-remove j key ((k, v) ∷ items) (first, a) =
    let rest = AllAbove-remove j key items a in
    elim (Bool-cases (bytes_eq k key)) [
      | inl same ↦ rw same rest
      | inr other ↦ rw other (first, rest)
    ]

pub remove-InKeyOrder :
    (key : Bytes) (items : List Item) → InKeyOrder items → InKeyOrder (remove key items)
unfolding remove
remove-InKeyOrder key [] o = tt
remove-InKeyOrder key ((k, v) ∷ items) (a, o) =
    let rest = remove-InKeyOrder key items o in
    elim (Bool-cases (bytes_eq k key)) [
      | inl same ↦ rw same rest
      | inr other ↦ rw other (AllAbove-remove k key items a, rest)
    ]

-- Two keys that are not the same are not both a third.
apart_lem :
    (k key j : Bytes) → bytes_eq k key ≡ false → bytes_eq k j ≡ true → bytes_eq key j ≡ false
apart_lem k key j other mine = elim (Bool-cases (bytes_eq key j)) [
  | inr apart ↦ apart
  | inl both ↦
      let same : k ≡ key = bytes_eq_sound k j mine ∙ sym (bytes_eq_sound key j both) in
      absurd (false≢true (sym other ∙ rw same (bytes_eq_refl key)))
]

lower_apart : (k key : Bytes) → bytes_lt k key ≡ true → bytes_eq k key ≡ false
lower_apart k key less = elim (Bool-cases (bytes_eq k key)) [
  | inr apart ↦ apart
  | inl same ↦
      let equal = bytes_eq_sound k key same in
      absurd (false≢true (sym (bytes_lt_irrefl key) ∙ rw equal at less))
]

find-insert :
    (key value j : Bytes) (items : List Item)
    → find j (insert_item key value items) ≡ (if bytes_eq key j then some value else find j items)
unfolding find insert_item
find-insert key value j [] = refl
find-insert key value j ((k, v) ∷ items) =
    let ih = find-insert key value j items in
    elim (Bool-cases (bytes_lt k key)) [
      | inl less ↦ elim (Bool-cases (bytes_eq k j)) [
        | inl mine ↦ rw (less, mine, apart_lem k key j (lower_apart k key less) mine) refl
        | inr other ↦ rw (less, other) ih
      ]
      | inr not_less ↦ elim (Bool-cases (bytes_eq k key)) [
        | inl same ↦
            let equal = bytes_eq_sound k key same in
            elim (Bool-cases (bytes_eq key j)) [
              | inl mine ↦ rw (not_less, same, mine) refl
              | inr apart ↦
                  let k_apart : bytes_eq k j ≡ false = rw equal apart in
                  rw (not_less, same, apart, k_apart) refl
            ]
        | inr other ↦ rw (not_less, other) refl
      ]
    ]

find-remove :
    (key j : Bytes) (items : List Item)
    → find j (remove key items) ≡ (if bytes_eq key j then none else find j items)
unfolding find remove
find-remove key j [] = elim (Bool-cases (bytes_eq key j)) [
  | inl mine ↦ rw mine refl
  | inr apart ↦ rw apart refl
]
find-remove key j ((k, v) ∷ items) =
    let ih = find-remove key j items in
    elim (Bool-cases (bytes_eq k key)) [
      | inl same ↦
          let equal = bytes_eq_sound k key same in
          elim (Bool-cases (bytes_eq key j)) [
            | inl mine ↦ rw (same, mine) (rw mine at ih)
            | inr apart ↦
                let k_apart : bytes_eq k j ≡ false = rw equal apart in
                rw (same, apart, k_apart) (rw apart at ih)
          ]
      | inr other ↦ elim (Bool-cases (bytes_eq k j)) [
        | inl mine ↦ rw (other, mine, apart_lem k key j other mine) refl
        | inr apart ↦ rw (other, apart) ih
      ]
    ]

abbrev pub listed : Engine
listed = record {
  Bucket = (items : List Item) × InKeyOrder items;
  empty = ([], tt);
  first = λ b. b.0;
  seek = λ b key. from key (b.0);
  prev = λ b key. last_item (below key (b.0));
  last = λ b. last_item (b.0);
  get = λ b key. find key (b.0);
  put = λ b key value. some (insert_item key value (b.0), insert-InKeyOrder key value (b.0) (b.1));
  delete = λ b key. some (remove key (b.0), remove-InKeyOrder key (b.0) (b.1));
}

abbrev items_of : Option ((items : List Item) × InKeyOrder items) → List Item
items_of none = []
items_of (some b) = b.0

pub listed_law : IsEngine listed
listed_law = record {
  in_order = λ b. b.1;
  seek_lem = λ b key. refl;
  prev_lem = λ b key. refl;
  last_lem = λ b. refl;
  first-empty = refl;
  first-put = λ b c key value h. sym (ap (λ o. items_of o) h);
  get-empty = λ key. unfold find in refl;
  get-put = λ b c key value j h. ap (find j) (sym (ap items_of h)) ∙ find-insert key value j (b.0);
  get-delete = λ b c key j h. ap (find j) (sym (ap items_of h)) ∙ find-remove key j (b.0);
}
