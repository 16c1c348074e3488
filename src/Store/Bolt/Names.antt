-- ===== src/Store/Bolt/Names.antt =====
-- store/bolt/bolt.go: the seek past a chain, as Chains makes it.
use proof.Prelude.{
  ◌≤◌, ◌≡◌, refl, sym, ap, ◌∙◌, List, [], ◌∷◌, ◌++◌, some, Bool, true, false, if◌then◌else◌, ◌==◌,
  inl, inr, Bool-cases, All, length, arith,
}
use proof.Prelude.Bytes.{Bytes, bytes_lt, has_prefix, contains}
use proof.Prelude.Order.{bytes_lt_to}
use proof.Store.{Row}
use proof.Store.Bolt.{Item, Codec, from, AllAbove, InKeyOrder, entry_key}
use proof.Store.Bolt.Listing.{chain_of}
use proof.Store.Bolt.Rows.{Reads}
use proof.Store.Bolt.Ranges.{from-in, from-out}

pub chain_of-key : (c r : Bytes) → contains c 0 ≡ false → chain_of ((c ++ 0 ∷ []) ++ r) ≡ some c
unfolding chain_of contains
chain_of-key [] r h = refl
chain_of-key (x ∷ c) r h =
    let rest : contains c 0 ≡ false = ground arith in
    let not_sep : (x == 0) ≡ false = ground arith in rw (not_sep, chain_of-key c r rest) refl

-- A key of a chain is before the place past it.
pub before_past : (c r : Bytes) → bytes_lt ((c ++ 0 ∷ []) ++ r) (c ++ 1 ∷ []) ≡ true
unfolding bytes_lt
before_past [] r = refl
before_past (x ∷ c) r = ground (arith, before_past c r)

lt_nil : (x : Bytes) → bytes_lt x [] ≡ false
unfolding bytes_lt
lt_nil [] = refl
lt_nil (y ∷ x) = refl

-- What lies from a key of a chain on and is not past the chain has the chain's prefix.
pub until_past :
    (c a x : Bytes)
    → has_prefix a (c ++ 0 ∷ []) ≡ true
    → bytes_lt x a ≡ false
    → bytes_lt x (c ++ 1 ∷ []) ≡ true
    → has_prefix x (c ++ 0 ∷ []) ≡ true
unfolding has_prefix bytes_lt
until_past [] [] x h k l = cc
until_past [] (y ∷ a) [] h k l = cc
until_past [] (y ∷ a) (z ∷ x) h k l = let nil = lt_nil x in ground (arith, nil)
until_past (w ∷ c) [] x h k l = cc
until_past (w ∷ c) (y ∷ a) [] h k l = cc
until_past (w ∷ c) (y ∷ a) (z ∷ x) h k l = ground (arith, until_past c a x)

-- A key past a chain is one of a chain with a greater name.
pub past_lt :
    (c d r : Bytes)
    → contains c 0 ≡ false
    → bytes_lt ((d ++ 0 ∷ []) ++ r) (c ++ 1 ∷ []) ≡ false
    → bytes_lt c d ≡ true
unfolding bytes_lt contains
past_lt [] [] r h k = cc
past_lt [] (y ∷ d) r h k = refl
past_lt (x ∷ c) [] r h k = ground arith
past_lt (x ∷ c) (y ∷ d) r h k = ground (arith, past_lt c d r)

-- Two seeks, the second further on, are the second.
pub from-from :
    (key next : Bytes) (items : List Item)
    → bytes_lt next key ≡ false
    → from next (from key items) ≡ from next items
from-from key next [] h = unfold from in refl
from-from key next ((k, v) ∷ items) h = elim (Bool-cases (bytes_lt k key)) [
  | inl less ↦
      ap (from next) (from-out k v key items less)
      ∙ from-from key next items h
      ∙ sym (from-out k v next items (bytes_lt_to k key next less h))
  | inr not_less ↦ elim (Bool-cases (bytes_lt k next)) [
    | inl before ↦
        ap (from next) (from-in k v key items not_less)
        ∙ from-out k v next (from key items) before
        ∙ from-from key next items h
        ∙ sym (from-out k v next items before)
    | inr after ↦
        ap (from next) (from-in k v key items not_less)
        ∙ from-in k v next (from key items) after
        ∙ ap (λ l. (k, v) ∷ l) (from-from key next items h)
        ∙ sym (from-in k v next items after)
  ]
]

unfoldable pub has_rows : List Row → Bool
has_rows [] = false
has_rows (r ∷ rows) = true

abbrev pub Ascending : List Bytes → Type 0
Ascending [] = Unit
Ascending (id ∷ ids) = All (λ j. bytes_lt id j ≡ true) ids × Ascending ids

-- The rows whose keys are not below the one given.
unfoldable pub rows_from : Bytes → List Row → List Row
rows_from key [] = []
rows_from key (r ∷ rows) =
    let rest = rows_from key rows in
    if bytes_lt (entry_key r.chain_id r.global_seq) key then rest else r ∷ rest

pub from-Reads :
    (C : Codec) (key : Bytes) (items : List Item) (rows : List Row)
    → Reads C items rows
    → Reads C (from key items) (rows_from key rows)
unfolding from rows_from
from-Reads C key [] [] h = tt
from-Reads C key [] (r ∷ rows) h = absurd h
from-Reads C key (x ∷ items) [] h = absurd h
from-Reads C key ((k, v) ∷ items) (r ∷ rows) ((is_key, decoded, no_nul, small), rest) =
    let ih = from-Reads C key items rows rest in
    elim (Bool-cases (bytes_lt (entry_key r.chain_id r.global_seq) key)) [
      | inl less ↦ rw (is_key, less) ih
      | inr not_less ↦ rw (is_key, not_less) ((refl, decoded, no_nul, small), ih)
    ]

AllAbove-from : (j key : Bytes) (items : List Item) → AllAbove j items → AllAbove j (from key items)
unfolding from
AllAbove-from j key [] a = tt
AllAbove-from j key ((k, v) ∷ items) (first, a) =
    let ih = AllAbove-from j key items a in
    elim (Bool-cases (bytes_lt k key)) [
      | inl less ↦ rw less ih
      | inr not_less ↦ rw not_less (first, ih)
    ]

pub from-InKeyOrder :
    (key : Bytes) (items : List Item) → InKeyOrder items → InKeyOrder (from key items)
unfolding from
from-InKeyOrder key [] o = tt
from-InKeyOrder key ((k, v) ∷ items) (a, o) =
    let ih = from-InKeyOrder key items o in
    elim (Bool-cases (bytes_lt k key)) [
      | inl less ↦ rw less ih
      | inr not_less ↦ rw not_less (AllAbove-from k key items a, ih)
    ]

pub length-from : (key : Bytes) (items : List Item) → length (from key items) ≤ length items
unfolding from
length-from key [] = omega arith
length-from key ((k, v) ∷ items) =
    let ih = length-from key items in
    elim (Bool-cases (bytes_lt k key)) [
      | inl less ↦ rw less (omega arith)
      | inr not_less ↦ rw not_less (omega arith)
    ]
