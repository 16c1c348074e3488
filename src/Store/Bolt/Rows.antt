-- ===== src/Store/Bolt/Rows.antt =====
-- store/bolt/bolt.go: the rows that the items of the entries bucket stand for, and the relation
-- between a file and a store in memory.
use proof.Prelude.{
  ◌≡◌, refl, List, [], ◌∷◌, Option, none, some, true, false, if◌then◌else◌, ◌^◌, ◌<◌,
}
use proof.Prelude.Bytes.{Bytes, bytes_eq, contains}
use proof.Store.{Row, State}
use proof.Store.Memory.{Store}
use proof.Store.Bolt.{Item, Engine, Codec, Db, entry_key}

-- The item decodes to the row, and has the row's key.
abbrev pub Keyed : Codec → Item → Row → Type 0
Keyed C (k, v) r =
    (k ≡ entry_key r.chain_id r.global_seq)
    × (C.decode_row v ≡ some r)
    × (contains r.chain_id 0 ≡ false)
    × (r.global_seq < 2 ^ 63)

abbrev pub Reads : Codec → List Item → List Row → Type 0
Reads C [] [] = Unit
Reads C (x ∷ items) (r ∷ rows) = Keyed C x r × Reads C items rows
Reads C items rows = ⊥

-- The rows of one chain.
unfoldable pub rows_of : Bytes → List Row → List Row
rows_of id [] = []
rows_of id (r ∷ rows) =
    let rest = rows_of id rows in if bytes_eq id r.chain_id then r ∷ rest else rest

pub rows_of-in :
    (id : Bytes) (r : Row) (rows : List Row)
    → bytes_eq id r.chain_id ≡ true
    → rows_of id (r ∷ rows) ≡ r ∷ rows_of id rows
unfolding rows_of
rows_of-in id r rows h = rw h refl

pub rows_of-out :
    (id : Bytes) (r : Row) (rows : List Row)
    → bytes_eq id r.chain_id ≡ false
    → rows_of id (r ∷ rows) ≡ rows_of id rows
unfolding rows_of
rows_of-out id r rows h = rw h refl

-- A state is kept under its chain's name.
abbrev pub SameState : Codec → Option Bytes → Option State → Type 0
SameState C none none = Unit
SameState C (some raw) (some st) = C.decode_state raw ≡ some st
SameState C raw st = ⊥

-- The file holds what the store in memory holds, for every chain whose name the file can key.
pub record Refines (D : Engine) (C : Codec) (db : Db D) (s : Store) : Type 0 where
  pub rows : List Row
  pub reads : Reads C (D.first db.entries) rows
  pub entries : (id : Bytes) → contains id 0 ≡ false → s.entries id ≡ rows_of id rows
  pub state : (id : Bytes) → SameState C (D.get db.state id) (s.state id)
  pub leases : (id : Bytes) → D.get db.leases id ≡ s.leases id
