-- ===== src/Store/Bolt/Every.antt =====
-- store/bolt/bolt.go: the walk of Chains from one chain to the next.
use proof.Prelude.{
  ℕ, zero, suc, ◌≤◌, ◌≡◌, refl, sym, ap, subst, ◌∙◌, List, [], ◌∷◌, some, true, false, false≢true,
  inl, inr, Bool-cases, All, length, arith,
}
use proof.Prelude.Bytes.{Bytes, bytes_eq, bytes_eq_sound, bytes_lt, has_prefix, contains}
use proof.Prelude.Order.{bytes_lt_trans, bytes_lt_asym}
use proof.Prelude.BigEndian.{put_uint64}
use proof.Store.{Row}
use proof.Store.Memory.{Store, member}
use proof.Store.Bolt.{
  Item, Engine, IsEngine, Codec, Db, Call, Answer, done, from, AllAbove, InKeyOrder, chain_prefix,
  entry_key, view,
}
use proof.Store.Bolt.Listing.{chain_of, past_chain, with_chain, page, chains}
use proof.Store.Bolt.Keys.{has_prefix-entry_key, entry_key-prefix}
use proof.Store.Bolt.Rows.{Keyed, Reads, rows_of, rows_of-in, rows_of-out, Refines}
use proof.Store.Bolt.Ranges.{from-in, from-out}
use proof.Store.Bolt.Names.{
  chain_of-key, before_past, until_past, past_lt, from-from, has_rows, Ascending, rows_from,
  from-Reads, from-InKeyOrder, length-from,
}

abbrev IsPast : Bytes → Row → Type 0
IsPast id r = bytes_lt id r.chain_id ≡ true

rows_from-IsPast :
    (id : Bytes) (rows : List Row)
    → contains id 0 ≡ false
    → All (IsPast id) (rows_from (past_chain id) rows)
unfolding rows_from past_chain entry_key
rows_from-IsPast id [] h = tt
rows_from-IsPast id (r ∷ rows) h =
    let ih = rows_from-IsPast id rows h in
    elim (Bool-cases (bytes_lt (entry_key r.chain_id r.global_seq) (past_chain id))) [
      | inl less ↦ rw less ih
      | inr not_less ↦ rw not_less (past_lt id r.chain_id (put_uint64 r.global_seq) h not_less, ih)
    ]

All-rows_from :
    (P : Row → Type 0) (key : Bytes) (rows : List Row) → All P rows → All P (rows_from key rows)
unfolding rows_from
All-rows_from P key [] h = tt
All-rows_from P key (r ∷ rows) (p, h) =
    let ih = All-rows_from P key rows h in
    elim (Bool-cases (bytes_lt (entry_key r.chain_id r.global_seq) key)) [
      | inl less ↦ rw less ih
      | inr not_less ↦ rw not_less (p, ih)
    ]

rows_from-in :
    (key : Bytes) (r : Row) (rows : List Row)
    → bytes_lt (entry_key r.chain_id r.global_seq) key ≡ false
    → rows_from key (r ∷ rows) ≡ r ∷ rows_from key rows
unfolding rows_from
rows_from-in key r rows h = rw h refl

rows_from-out :
    (key : Bytes) (r : Row) (rows : List Row)
    → bytes_lt (entry_key r.chain_id r.global_seq) key ≡ true
    → rows_from key (r ∷ rows) ≡ rows_from key rows
unfolding rows_from
rows_from-out key r rows h = rw h refl

cons_of :
    (id : Bytes) (r : Row) (xs ys : List Row)
    → rows_of id xs ≡ rows_of id ys
    → rows_of id (r ∷ xs) ≡ rows_of id (r ∷ ys)
unfolding rows_of
cons_of id r xs ys h = rw h refl

passed_lem :
    (c start : Bytes) (r : Row)
    → contains c 0 ≡ false
    → contains r.chain_id 0 ≡ false
    → has_prefix start (chain_prefix c) ≡ true
    → bytes_lt start (entry_key r.chain_id r.global_seq) ≡ true
    → bytes_lt (entry_key r.chain_id r.global_seq) (past_chain c) ≡ true
    → c ≡ r.chain_id
unfolding chain_prefix past_chain
passed_lem c start r h no_nul p after less =
    let inside =
      until_past c start (entry_key r.chain_id r.global_seq) p
        (bytes_lt_asym start (entry_key r.chain_id r.global_seq) after) less in
    bytes_eq_sound c r.chain_id
      (sym (has_prefix-entry_key c r.chain_id r.global_seq h no_nul) ∙ inside)

-- A seek past a chain passes no row of another.
others_stay :
    (C : Codec) (id c start : Bytes) (items : List Item) (rows : List Row)
    → bytes_eq id c ≡ false
    → contains c 0 ≡ false
    → has_prefix start (chain_prefix c) ≡ true
    → AllAbove start items
    → Reads C items rows
    → rows_of id (rows_from (past_chain c) rows) ≡ rows_of id rows
others_stay C id c start [] [] other h p a rd = unfold rows_from in refl
others_stay C id c start [] (r ∷ rows) other h p a rd = absurd rd
others_stay C id c start (x ∷ items) [] other h p a rd = absurd rd
others_stay C id c start ((k, v) ∷ items) (r ∷ rows) other h p (first, a)
      ((key, decoded, no_nul, small), rest) =
    let ih = others_stay C id c start items rows other h p a rest in
    elim (Bool-cases (bytes_lt (entry_key r.chain_id r.global_seq) (past_chain c))) [
      | inr not_less ↦
          ap (rows_of id) (rows_from-in (past_chain c) r rows not_less) ∙ cons_of id r _ _ ih
      | inl less ↦
          let mine = passed_lem c start r h no_nul p (rw (← key) first) less in
          ap (rows_of id) (rows_from-out (past_chain c) r rows less)
          ∙ ih
          ∙ sym (rows_of-out id r rows (ap (bytes_eq id) (sym mine) ∙ other))
    ]

from-head :
    (key : Bytes) (items : List Item) (x : Item) (rest : List Item)
    → from key items ≡ x ∷ rest
    → bytes_lt (x.0) key ≡ false
unfolding from
from-head key [] x rest h = absurd (cc h)
from-head key ((k, v) ∷ items) x rest h = elim (Bool-cases (bytes_lt k key)) [
  | inl less ↦ from-head key items x rest (rw (less, from) at h)
  | inr not_less ↦
      let whole : (k, v) ∷ from key items ≡ x ∷ rest = sym (from-in k v key items not_less) ∙ h in
      let same : (k, v) ≡ x = cc whole in
      let key_same : k ≡ x.0 = ap (λ y. y.0) same in rw (← key_same) not_less
]

nothing_below : (k : Bytes) → bytes_lt k [] ≡ false
unfolding bytes_lt
nothing_below [] = refl
nothing_below (x ∷ k) = refl

chain_of-entry_key : (c : Bytes) (n : ℕ) → contains c 0 ≡ false → chain_of (entry_key c n) ≡ some c
unfolding entry_key
chain_of-entry_key c n h = chain_of-key c (put_uint64 n) h

from-nil : (items : List Item) → from [] items ≡ items
from-nil [] = unfold from in refl
from-nil ((k, v) ∷ items) =
    from-in k v [] items (nothing_below k) ∙ ap (λ l. (k, v) ∷ l) (from-nil items)

-- What the loop gives for rows that stand together: the names of their chains.
abbrev Lists : Answer (List Bytes) → List Row → Type 0
Lists answer rows =
    (ids : List Bytes) × (answer ≡ done ids)
    × Ascending ids
    × ((id : Bytes) → member id ids ≡ has_rows (rows_of id rows))
    × ((g : Bytes) → All (IsPast g) rows → All (λ j. bytes_lt g j ≡ true) ids)

holds_lem :
    (C : Codec) (id k v : Bytes) (items : List Item) (r : Row) (rows : List Row) (ids : List Bytes)
    → Keyed C (k, v) r
    → AllAbove k items
    → Reads C items rows
    → ((j : Bytes) → member j ids ≡ has_rows (rows_of j (rows_from (past_chain r.chain_id) rows)))
    → member id (r.chain_id ∷ ids) ≡ has_rows (rows_of id (r ∷ rows))
unfolding member has_rows
holds_lem C id k v items r rows ids (key, decoded, no_nul, small) above rest holds =
    elim (Bool-cases (bytes_eq id r.chain_id)) [
      | inl own ↦ rw own (ap has_rows (sym (rows_of-in id r rows own)))
      | inr other ↦
          let p : has_prefix k (chain_prefix r.chain_id) ≡ true =
            rw key (entry_key-prefix r.chain_id r.global_seq) in
          rw other (
            holds id
            ∙ ap has_rows (
                others_stay C id r.chain_id k items rows other no_nul p above rest
                ∙ sym (rows_of-out id r rows other)))
    ]

key_before : (c : Bytes) (n : ℕ) → bytes_lt (entry_key c n) (past_chain c) ≡ true
unfolding entry_key past_chain
key_before c n = before_past c (put_uint64 n)

-- A key not below one, and below another.
order_lem :
    (k key next : Bytes)
    → bytes_lt k key ≡ false
    → bytes_lt k next ≡ true
    → bytes_lt next key ≡ false
order_lem k key next h less = elim (Bool-cases (bytes_lt next key)) [
  | inr not_less ↦ not_less
  | inl lower ↦ absurd (false≢true (sym h ∙ bytes_lt_trans k next key less lower))
]

shorter :
    (next : Bytes) (items : List Item) (n : ℕ)
    → suc (length items) ≤ suc n
    → length (from next items) ≤ n
shorter next items n l = omega (arith, length-from next items)

begun :
    (D : Engine) (call : Call) (db : Db D)
    → call.cancelled ≡ false
    → call.begins ≡ true
    → chains D call db ≡ page D db.entries (length (D.first db.entries)) (D.first db.entries)
unfolding chains view
begun D call db live begins = rw (live, begins) refl

module _ (D : Engine) (law : IsEngine D) (C : Codec) (b : D.Bucket) where
  page_step :
      (n : ℕ) (k v : Bytes) (items : List Item) (c : Bytes) (ids : List Bytes)
      → chain_of k ≡ some c
      → page D b n (D.seek b (past_chain c)) ≡ done ids
      → page D b (suc n) ((k, v) ∷ items) ≡ done (c ∷ ids)
  unfolding page with_chain
  page_step n k v items c ids h g = rw (h, g, page, with_chain) refl

  nothing_listed : Lists (done []) []
  nothing_listed = ([], refl, tt, λ id. (unfold member rows_of has_rows in refl), λ g h. tt)

  round_lem :
      (n : ℕ) (k v : Bytes) (items : List Item) (r : Row) (rows : List Row)
      → Keyed C (k, v) r
      → AllAbove k items
      → Reads C items rows
      → Lists
          (page D b n (D.seek b (past_chain r.chain_id)))
          (rows_from (past_chain r.chain_id) rows)
      → Lists (page D b (suc n) ((k, v) ∷ items)) (r ∷ rows)
  round_lem n k v items r rows (key, decoded, no_nul, small) above rest
        (ids, gives, ascends, holds, low) =
      let c = r.chain_id in
      (
        c ∷ ids,
        page_step n k v items c ids (rw key (chain_of-entry_key c r.global_seq no_nul)) gives,
        (low c (rows_from-IsPast c rows no_nul), ascends),
        λ id. holds_lem C id k v items r rows ids (key, decoded, no_nul, small) above rest holds,
        λ g h. (h.0, low g (All-rows_from (IsPast g) (past_chain c) rows (h.1))),
      )

  list_lem :
      (n : ℕ) (key : Bytes) (items : List Item) (rows : List Row)
      → from key (D.first b) ≡ items
      → InKeyOrder items
      → Reads C items rows
      → length items ≤ n
      → Lists (page D b n items) rows
  unfolding page
  list_lem zero key [] [] e o h l = nothing_listed
  list_lem (suc n) key [] [] e o h l = nothing_listed
  list_lem n key [] (r ∷ rows) e o h l = absurd h
  list_lem n key (x ∷ items) [] e o h l = absurd h
  list_lem zero key (x ∷ items) (r ∷ rows) e o h l = absurd (omega arith)
  list_lem (suc n) key ((k, v) ∷ items) (r ∷ rows) e (above, order) (keyed, rest) l =
      let next = past_chain r.chain_id in
      let before : bytes_lt k next ≡ true = rw (keyed.0) (key_before r.chain_id r.global_seq) in
      let apart = order_lem k key next (from-head key (D.first b) (k, v) items e) before in
      let same : from next (D.first b) ≡ from next items =
        sym (from-from key next (D.first b) apart)
        ∙ ap (from next) e
        ∙ from-out k v next items before in
      let ih =
        list_lem n next (from next items) (rows_from next rows) same
          (from-InKeyOrder next items order) (from-Reads C next items rows rest)
          (shorter next items n l) in
      round_lem n k v items r rows keyed above rest (
        subst (λ l. Lists (page D b n l) (rows_from next rows)) (sym (law.seek_lem b next ∙ same))
          ih)

-- Once bbolt begins the transaction, `Chains` of a file lists the chains that have a row in the store
-- in memory that the file refines, each once, in byte order.
pub chains-Ascending :
    (D : Engine) (law : IsEngine D) (C : Codec) (db : Db D) (s : Store) (call : Call)
    → Refines D C db s
    → call.cancelled ≡ false
    → call.begins ≡ true
    → (ids : List Bytes) × (chains D call db ≡ done ids)
      × Ascending ids
      × ((id : Bytes) → contains id 0 ≡ false → member id ids ≡ has_rows (s.entries id))
chains-Ascending D law C db s call same live begins =
    let items = D.first db.entries in
    let (ids, gives, ascends, holds, low) =
      list_lem D law C db.entries (length items) [] items same.rows (from-nil items)
        (law.in_order db.entries) same.reads (omega arith) in
    (
      ids,
      begun D call db live begins ∙ gives,
      ascends,
      λ id no_nul. holds id ∙ ap has_rows (sym (same.entries id no_nul)),
    )
