-- ===== src/Store/Bolt/Own.antt =====
-- store/bolt/bolt.go: the rows of one chain among the items of the entries bucket.
use proof.Prelude.{
  ◌≡◌, refl, sym, ap, ◌∙◌, List, [], ◌∷◌, ◌++◌, some, true, false, ◌^◌, ◌<◌, inl, inr, Bool-cases,
  All, false≢true, drop-append, arith,
}
use proof.Prelude.Bytes.{Bytes, bytes_eq, bytes_eq_sound, bytes_lt, has_prefix}
use proof.Prelude.Int64.{Int64, int_lt}
use proof.Prelude.Order.{bytes_lt_asym, between}
use proof.Prelude.BigEndian.{put_uint64, get_uint64-put_uint64}
use proof.Store.{Row}
use proof.Store.Bolt.{Item, Codec, AllAbove, chain_prefix, entry_key}
use proof.Store.Bolt.Read.{seq_in}
use proof.Store.Bolt.Keys.{entry_key-prefix, bytes_lt-entry_key, int_lt-ltb}
use proof.Store.Bolt.Rows.{Keyed, Reads, rows_of, rows_of-in, rows_of-out}

-- A row of the chain, with a key above the one given.
abbrev pub Own : Bytes → Row → Type 0
Own id r = (r.chain_id ≡ id) × (r.global_seq < 2 ^ 63)

abbrev pub OwnAbove : Bytes → Bytes → Row → Type 0
OwnAbove id k r = Own id r × (bytes_lt k (entry_key id r.global_seq) ≡ true)

pub Keyed-Own :
    (C : Codec) (id : Bytes) (x : Item) (r : Row)
    → Keyed C x r
    → bytes_eq id r.chain_id ≡ true
    → Own id r × (x.0 ≡ entry_key id r.global_seq)
Keyed-Own C id (k, v) r (key, decoded, no_nul, small) own =
    let same = bytes_eq_sound id r.chain_id own in
    ((sym same, small), key ∙ ap (λ c. entry_key c r.global_seq) (sym same))

pub Reads-Own :
    (C : Codec) (id : Bytes) (items : List Item) (rows : List Row)
    → Reads C items rows
    → All (Own id) (rows_of id rows)
Reads-Own C id [] [] h = unfold rows_of in tt
Reads-Own C id [] (r ∷ rows) h = absurd h
Reads-Own C id (x ∷ items) [] h = absurd h
Reads-Own C id (x ∷ items) (r ∷ rows) (keyed, rest) =
    let ih = Reads-Own C id items rows rest in
    elim (Bool-cases (bytes_eq id r.chain_id)) [
      | inl own ↦ rw (rows_of-in id r rows own) ((Keyed-Own C id x r keyed own).0, ih)
      | inr other ↦ rw (rows_of-out id r rows other) ih
    ]

pub AllAbove-Own :
    (C : Codec) (id k : Bytes) (items : List Item) (rows : List Row)
    → AllAbove k items
    → Reads C items rows
    → All (OwnAbove id k) (rows_of id rows)
AllAbove-Own C id k [] [] a h = unfold rows_of in tt
AllAbove-Own C id k [] (r ∷ rows) a h = absurd h
AllAbove-Own C id k (x ∷ items) [] a h = absurd h
AllAbove-Own C id k ((j, v) ∷ items) (r ∷ rows) (first, a) (keyed, rest) =
    let ih = AllAbove-Own C id k items rows a rest in
    elim (Bool-cases (bytes_eq id r.chain_id)) [
      | inl own ↦
          let (mine, key) = Keyed-Own C id (j, v) r keyed own in
          rw (rows_of-in id r rows own) ((mine, rw (← key) first), ih)
      | inr other ↦ rw (rows_of-out id r rows other) ih
    ]

-- A key of another chain, past a key of this one, has no row of this one behind it.
pub none_after :
    (id start k : Bytes) (rows : List Row)
    → has_prefix start (chain_prefix id) ≡ true
    → has_prefix k (chain_prefix id) ≡ false
    → bytes_lt k start ≡ false
    → All (OwnAbove id k) rows
    → rows ≡ []
none_after id start k [] hs hk past above = refl
none_after id start k (r ∷ rows) hs hk past ((own, after), above) =
    let inside =
      between (chain_prefix id) start k (entry_key id r.global_seq) hs
        (entry_key-prefix id r.global_seq) past
        (bytes_lt_asym k (entry_key id r.global_seq) after) in
    absurd (false≢true (sym hk ∙ inside))

pub seq_in-entry_key :
    (id : Bytes) (n : Int64) → n < 2 ^ 63 → seq_in (chain_prefix id) (entry_key id n) ≡ some n
unfolding seq_in chain_prefix entry_key
seq_in-entry_key id n h =
    rw (drop-append (id ++ 0 ∷ []) (put_uint64 n)) (get_uint64-put_uint64 n (omega arith))

-- Keys of one chain compare as its numbers do.
pub key_order :
    (id : Bytes) (m n : Int64)
    → m < 2 ^ 63
    → n < 2 ^ 63
    → bytes_lt (entry_key id m) (entry_key id n) ≡ int_lt m n
key_order id m n hm hn =
    bytes_lt-entry_key id m n (omega arith) (omega arith) ∙ sym (int_lt-ltb m n hm hn)
