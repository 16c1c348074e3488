-- ===== src/Store/Bolt.antt =====
-- store/bolt/bolt.go: the store in a bbolt file. This file has the database bbolt gives, as a
-- parameter, its buckets, the keys of the entries, and the errors.
pub mod Write
pub mod Read
pub mod Leases
pub mod Update
pub mod Listing
pub mod Keys
pub mod Rows
pub mod StepBack
pub mod Own
pub mod Ranges
pub mod Ends
pub mod Lookup
pub mod Placing
pub mod Transaction
pub mod Batches
pub mod Holding
pub mod Releasing
pub mod Opening
pub mod States
pub mod Atomic
pub mod Listed
pub mod Names
pub mod Every
use proof.Prelude.{
  ℕ, List, [], ◌∷◌, ◌++◌, Option, none, some, Bool, true, false, ◌≡◌, if◌then◌else◌,
}
use proof.Prelude.Bytes.{Bytes, bytes_eq, bytes_lt}
use proof.Prelude.Int64.{Int64}
use proof.Prelude.BigEndian.{put_uint64}
use proof.Store.{Row, State}
use proof.Store.Memory.{StoreError}

-- A key and its value.
abbrev pub Item : Type 0
Item = Bytes × Bytes

-- What the store calls of bbolt. `first` is `Cursor.First` and what `Next` visits after it, `seek`
-- is `Cursor.Seek` and what `Next` visits after it, `prev` is `Cursor.Prev` after a `Seek` that
-- stands on an item. `none` is no item, or an error of `Put` or `Delete`.
pub record Engine : Type 1 where
  pub Bucket : Type 0
  pub empty : Bucket
  pub first : Bucket → List Item
  pub seek : Bucket → Bytes → List Item
  pub prev : Bucket → Bytes → Option Item
  pub last : Bucket → Option Item
  pub get : Bucket → Bytes → Option Bytes
  pub put : Bucket → Bytes → Bytes → Option Bucket
  pub delete : Bucket → Bytes → Option Bucket

unfoldable pub below : Bytes → List Item → List Item
below key [] = []
below key ((k, v) ∷ items) =
    let rest = below key items in if bytes_lt k key then (k, v) ∷ rest else rest

unfoldable pub from : Bytes → List Item → List Item
from key [] = []
from key ((k, v) ∷ items) =
    let rest = from key items in if bytes_lt k key then rest else (k, v) ∷ rest

unfoldable pub last_item : List Item → Option Item
last_item [] = none
last_item (x ∷ items) = elim (last_item items) [ none ↦ some x | some y ↦ some y ]

-- The value of a key is replaced, or the key goes to its place in byte order.
unfoldable pub insert_item : Bytes → Bytes → List Item → List Item
insert_item key value [] = (key, value) ∷ []
insert_item key value ((k, v) ∷ items) =
    let rest = insert_item key value items in
    if bytes_lt k key
    then (k, v) ∷ rest
    else if bytes_eq k key
    then (key, value) ∷ items
    else (key, value) ∷ (k, v) ∷ items

-- Every key is above `key`.
abbrev pub AllAbove : Bytes → List Item → Type 0
AllAbove key [] = Unit
AllAbove key ((k, v) ∷ items) = (bytes_lt key k ≡ true) × AllAbove key items

abbrev pub InKeyOrder : List Item → Type 0
InKeyOrder [] = Unit
InKeyOrder ((k, v) ∷ items) = AllAbove k items × InKeyOrder items

-- bbolt's documentation: a bucket is a map, its cursor visits the keys in byte order, once each.
pub record IsEngine (D : Engine) : Type 0 where
  pub in_order : (b : D.Bucket) → InKeyOrder (D.first b)
  pub seek_lem : (b : D.Bucket) (key : Bytes) → D.seek b key ≡ from key (D.first b)
  pub prev_lem : (b : D.Bucket) (key : Bytes) → D.prev b key ≡ last_item (below key (D.first b))
  pub last_lem : (b : D.Bucket) → D.last b ≡ last_item (D.first b)
  pub first-empty : D.first D.empty ≡ []
  pub first-put :
      (b c : D.Bucket) (key value : Bytes)
      → D.put b key value ≡ some c
      → D.first c ≡ insert_item key value (D.first b)
  pub get-empty : (key : Bytes) → D.get D.empty key ≡ none
  pub get-put :
      (b c : D.Bucket) (key value j : Bytes)
      → D.put b key value ≡ some c
      → D.get c j ≡ (if bytes_eq key j then some value else D.get b j)
  pub get-delete :
      (b c : D.Bucket) (key j : Bytes)
      → D.delete b key ≡ some c
      → D.get c j ≡ (if bytes_eq key j then none else D.get b j)

-- encoding/json on entries and states; `none` is an error.
pub record Codec : Type 0 where
  pub encode_row : Row → Option Bytes
  pub decode_row : Bytes → Option Row
  pub encode_state : State → Option Bytes
  pub decode_state : Bytes → Option State

-- The buckets of an open file.
pub record Db (D : Engine) : Type 0 where
  pub entries : D.Bucket
  pub state : D.Bucket
  pub leases : D.Bucket

-- Whether the context has ended, and whether bbolt begins and commits the call's transaction.
pub record Call : Type 0 where
  pub cancelled : Bool
  pub begins : Bool
  pub commits : Bool

-- `shared` are the errors that the store in memory has too. `corrupt` is `ErrCorrupt`, for a panic
-- on the bytes of the file; `database_failed` is a transaction that bbolt does not begin or commit.
pub data BoltError : Type 0 where
  shared : StoreError → BoltError
  negative_seq nul_in_chain_id encode_failed decode_failed put_failed : BoltError
  database_failed corrupt no_separator bad_limit : BoltError

pub data Answer (A : Type 0) : Type 0 where
  done : A → Answer A
  failed : BoltError → Answer A

-- `db.View`.
unfoldable pub view : {A : Type 0} → Call → Answer A → Answer A
view call answer = if call.begins then answer else failed database_failed

-- `db.Update`: an error of the function or of the commit leaves the file as it was.
unfoldable pub update : {D : Engine} → Call → Db D → Answer (Db D) → Option BoltError × Db D
update call db answer =
    if call.begins
    then elim answer [
      | failed e ↦ (some e, db)
      | done new ↦ if call.commits then (none, new) else (some database_failed, db)
    ]
    else (some database_failed, db)

abbrev pub key_sep : ℕ
key_sep = 0

unfoldable pub chain_prefix : Bytes → Bytes
chain_prefix id = id ++ key_sep ∷ []

unfoldable pub entry_key : Bytes → Int64 → Bytes
entry_key id seq = (id ++ key_sep ∷ []) ++ put_uint64 seq
