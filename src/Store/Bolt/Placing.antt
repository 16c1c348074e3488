-- ===== src/Store/Bolt/Placing.antt =====
-- store/bolt/bolt.go: one put of putEntries, seen on the rows.
use proof.Prelude.{
  ◌≡◌, refl, sym, ap, ◌∙◌, List, [], ◌∷◌, true, false, if◌then◌else◌, ◌==◌, ◌^◌, ◌<◌, inl, inr,
  Bool-cases, All, subst, arith,
}
use proof.Prelude.Bytes.{Bytes, bytes_eq, bytes_eq_sound, bytes_eq_refl, bytes_lt, contains}
use proof.Prelude.Int64.{Int64, int_lt}
use proof.Prelude.Order.{bytes_lt_trans, not_below}
use proof.Store.{Row}
use proof.Store.Memory.Placed.{IsSmall, place, place-first, Ascending}
use proof.Store.Bolt.{Item, Codec, insert_item, AllAbove, InKeyOrder, entry_key}
use proof.Store.Bolt.Keys.{entry_key-injective}
use proof.Store.Bolt.Rows.{Keyed, Reads, rows_of, rows_of-in, rows_of-out}
use proof.Store.Bolt.Own.{Own, OwnAbove, Keyed-Own, Reads-Own, AllAbove-Own, key_order}

abbrev key_of : Row → Bytes
key_of r = entry_key r.chain_id r.global_seq

-- `insert_item` on the rows.
unfoldable pub insert_keyed : Row → List Row → List Row
insert_keyed e [] = e ∷ []
insert_keyed e (r ∷ rows) =
    let rest = insert_keyed e rows in
    if bytes_lt (key_of r) (key_of e)
    then r ∷ rest
    else if bytes_eq (key_of r) (key_of e)
    then e ∷ rows
    else e ∷ r ∷ rows

pub insert-Reads :
    (C : Codec) (raw : Bytes) (e : Row) (items : List Item) (rows : List Row)
    → Keyed C (key_of e, raw) e
    → Reads C items rows
    → Reads C (insert_item (key_of e) raw items) (insert_keyed e rows)
unfolding insert_item insert_keyed
insert-Reads C raw e [] [] k h = (k, tt)
insert-Reads C raw e [] (r ∷ rows) k h = absurd h
insert-Reads C raw e (x ∷ items) [] k h = absurd h
insert-Reads C raw e ((j, v) ∷ items) (r ∷ rows) k ((key, decoded, no_nul, small), rest) =
    let ih = insert-Reads C raw e items rows k rest in
    elim (Bool-cases (bytes_lt (key_of r) (key_of e))) [
      | inl less ↦ rw (key, less) ((refl, decoded, no_nul, small), ih)
      | inr not_less ↦ elim (Bool-cases (bytes_eq (key_of r) (key_of e))) [
        | inl same ↦ rw (key, not_less, same) (k, rest)
        | inr other ↦ rw (key, not_less, other) (k, ((refl, decoded, no_nul, small), rest))
      ]
    ]

OwnAbove-ascends :
    (id k : Bytes) (n : Int64) (rows : List Row)
    → n < 2 ^ 63
    → k ≡ entry_key id n
    → All (OwnAbove id k) rows
    → All (λ f. int_lt n f.global_seq ≡ true) rows
OwnAbove-ascends id k n [] hn key h = tt
OwnAbove-ascends id k n (r ∷ rows) hn key (((same, small), after), h) =
    let less = sym (key_order id n r.global_seq hn small) ∙ rw (← key) after in
    (less, OwnAbove-ascends id k n rows hn key h)

-- The numbers of a chain ascend.
pub rows_of-Ascending :
    (C : Codec) (id : Bytes) (items : List Item) (rows : List Row)
    → InKeyOrder items
    → Reads C items rows
    → Ascending (rows_of id rows)
rows_of-Ascending C id [] [] o h = unfold rows_of in tt
rows_of-Ascending C id [] (r ∷ rows) o h = absurd h
rows_of-Ascending C id (x ∷ items) [] o h = absurd h
rows_of-Ascending C id ((k, v) ∷ items) (r ∷ rows) (above, order) (keyed, rest) =
    let ih = rows_of-Ascending C id items rows order rest in
    elim (Bool-cases (bytes_eq id r.chain_id)) [
      | inl own ↦
          let ((same, small), key) = Keyed-Own C id (k, v) r keyed own in
          let after =
            OwnAbove-ascends id k r.global_seq (rows_of id rows) small key
              (AllAbove-Own C id k items rows above rest) in
          rw (rows_of-in id r rows own) (after, ih)
      | inr other ↦ rw (rows_of-out id r rows other) ih
    ]

keyed-less :
    (e r : Row) (rows : List Row)
    → bytes_lt (key_of r) (key_of e) ≡ true
    → insert_keyed e (r ∷ rows) ≡ r ∷ insert_keyed e rows
unfolding insert_keyed
keyed-less e r rows h = rw h refl

keyed-same :
    (e r : Row) (rows : List Row)
    → bytes_lt (key_of r) (key_of e) ≡ false
    → bytes_eq (key_of r) (key_of e) ≡ true
    → insert_keyed e (r ∷ rows) ≡ e ∷ rows
unfolding insert_keyed
keyed-same e r rows h k = rw (h, k) refl

keyed-more :
    (e r : Row) (rows : List Row)
    → bytes_lt (key_of r) (key_of e) ≡ false
    → bytes_eq (key_of r) (key_of e) ≡ false
    → insert_keyed e (r ∷ rows) ≡ e ∷ r ∷ rows
unfolding insert_keyed
keyed-more e r rows h k = rw (h, k) refl

place-lower :
    (e r : Row) (rows : List Row)
    → int_lt r.global_seq e.global_seq ≡ true
    → place e (r ∷ rows) ≡ r ∷ place e rows
unfolding place
place-lower e r rows h = rw h refl

place-number :
    (e r : Row) (rows : List Row) → r.global_seq ≡ e.global_seq → place e (r ∷ rows) ≡ e ∷ rows
unfolding place
place-number e r rows h =
    let not_lower : int_lt r.global_seq e.global_seq ≡ false = ground arith in
    let equal : (r.global_seq == e.global_seq) ≡ true = ground arith in rw (not_lower, equal) refl

AllAbove-trans :
    (j k : Bytes) (items : List Item) → bytes_lt j k ≡ true → AllAbove k items → AllAbove j items
AllAbove-trans j k [] h a = tt
AllAbove-trans j k ((i, v) ∷ items) h (first, a) =
    (bytes_lt_trans j k i h first, AllAbove-trans j k items h a)

pub Own-IsSmall : (id : Bytes) (rows : List Row) → All (Own id) rows → All IsSmall rows
Own-IsSmall id [] h = tt
Own-IsSmall id (r ∷ rows) ((same, small), h) = (small, Own-IsSmall id rows h)

cons_lem :
    (id : Bytes) (r : Row) (xs ys : List Row)
    → rows_of id xs ≡ rows_of id ys
    → rows_of id (r ∷ xs) ≡ rows_of id (r ∷ ys)
unfolding rows_of
cons_lem id r xs ys h = rw h refl

module _ (C : Codec) (e : Row) (no_nul_e : contains e.chain_id 0 ≡ false)
    (small_e : e.global_seq < 2 ^ 63) where
  same_key :
      (r : Row)
      → contains r.chain_id 0 ≡ false
      → r.global_seq < 2 ^ 63
      → bytes_eq (key_of r) (key_of e) ≡ true
      → (r.chain_id ≡ e.chain_id) × (r.global_seq ≡ e.global_seq)
  same_key r no_nul small h =
      entry_key-injective r.chain_id e.chain_id r.global_seq e.global_seq no_nul no_nul_e
        (omega arith) (omega arith) (bytes_eq_sound (key_of r) (key_of e) h)

  -- The rows of another chain stay as they are.
  pub rows_of-insert-other :
      (id : Bytes) (items : List Item) (rows : List Row)
      → bytes_eq id e.chain_id ≡ false
      → Reads C items rows
      → rows_of id (insert_keyed e rows) ≡ rows_of id rows
  rows_of-insert-other id [] [] other h = unfold insert_keyed in rows_of-out id e [] other
  rows_of-insert-other id [] (r ∷ rows) other h = absurd h
  rows_of-insert-other id (x ∷ items) [] other h = absurd h
  rows_of-insert-other id ((k, v) ∷ items) (r ∷ rows) other ((key, decoded, no_nul, small), rest) =
      let ih = rows_of-insert-other id items rows other rest in
      elim (Bool-cases (bytes_lt (key_of r) (key_of e))) [
        | inl less ↦ ap (rows_of id) (keyed-less e r rows less) ∙ cons_lem id r _ _ ih
        | inr not_less ↦ elim (Bool-cases (bytes_eq (key_of r) (key_of e))) [
          | inl same ↦
              let (chain, number) = same_key r no_nul small same in
              let r_other : bytes_eq id r.chain_id ≡ false = rw chain other in
              ap (rows_of id) (keyed-same e r rows not_less same)
              ∙ rows_of-out id e rows other
              ∙ sym (rows_of-out id r rows r_other)
          | inr apart ↦
              ap (rows_of id) (keyed-more e r rows not_less apart)
              ∙ rows_of-out id e (r ∷ rows) other
        ]
      ]

  -- A row of a lower key stays in front.
  before_own :
      (id : Bytes) (r : Row) (rows : List Row)
      → e.chain_id ≡ id
      → r.global_seq < 2 ^ 63
      → bytes_lt (key_of r) (key_of e) ≡ true
      → rows_of id (insert_keyed e rows) ≡ place e (rows_of id rows)
      → rows_of id (r ∷ insert_keyed e rows) ≡ place e (rows_of id (r ∷ rows))
  before_own id r rows own small less ih = elim (Bool-cases (bytes_eq id r.chain_id)) [
    | inl r_own ↦
        let same = sym (bytes_eq_sound id r.chain_id r_own) in
        let at : bytes_lt (entry_key id r.global_seq) (entry_key id e.global_seq) ≡ true =
          subst (λ c. bytes_lt (entry_key c r.global_seq) (entry_key id e.global_seq) ≡ true) same
            (subst (λ c. bytes_lt (key_of r) (entry_key c e.global_seq) ≡ true) own less) in
        let lower = sym (key_order id r.global_seq e.global_seq small small_e) ∙ at in
        rows_of-in id r (insert_keyed e rows) r_own
        ∙ ap (λ l. r ∷ l) ih
        ∙ sym (place-lower e r (rows_of id rows) lower)
        ∙ ap (place e) (sym (rows_of-in id r rows r_own))
    | inr r_other ↦
        rows_of-out id r (insert_keyed e rows) r_other
        ∙ ih
        ∙ ap (place e) (sym (rows_of-out id r rows r_other))
  ]

  -- The rows of the entry's own chain take it in.
  pub rows_of-insert-own :
      (id : Bytes) (items : List Item) (rows : List Row)
      → e.chain_id ≡ id
      → InKeyOrder items
      → Reads C items rows
      → rows_of id (insert_keyed e rows) ≡ place e (rows_of id rows)
  rows_of-insert-own id [] [] own o h =
      let mine : bytes_eq id e.chain_id ≡ true = rw own (bytes_eq_refl id) in
      unfold insert_keyed rows_of place in rows_of-in id e [] mine
  rows_of-insert-own id [] (r ∷ rows) own o h = absurd h
  rows_of-insert-own id (x ∷ items) [] own o h = absurd h
  rows_of-insert-own id ((k, v) ∷ items) (r ∷ rows) own (above, order) (keyed, rest) =
      let ih = rows_of-insert-own id items rows own order rest in
      let (key, decoded, no_nul, small) = keyed in
      let mine : bytes_eq id e.chain_id ≡ true = rw own (bytes_eq_refl id) in
      elim (Bool-cases (bytes_lt (key_of r) (key_of e))) [
        | inl less ↦
            ap (rows_of id) (keyed-less e r rows less) ∙ before_own id r rows own small less ih
        | inr not_less ↦ elim (Bool-cases (bytes_eq (key_of r) (key_of e))) [
          | inl same ↦
              let (chain, number) = same_key r no_nul small same in
              let r_own : bytes_eq id r.chain_id ≡ true = rw chain mine in
              ap (rows_of id) (keyed-same e r rows not_less same)
              ∙ rows_of-in id e rows mine
              ∙ sym (place-number e r (rows_of id rows) number)
              ∙ ap (place e) (sym (rows_of-in id r rows r_own))
          | inr apart ↦
              let next = not_below (key_of r) (key_of e) not_less apart in
              let here : bytes_lt (key_of e) k ≡ true = rw key next in
              let all_above : AllAbove (key_of e) ((k, v) ∷ items) =
                (here, AllAbove-trans (key_of e) k items here above) in
              let after =
                OwnAbove-ascends id (key_of e) e.global_seq (rows_of id (r ∷ rows)) small_e
                  (ap (λ c. entry_key c e.global_seq) own)
                  (AllAbove-Own C id (key_of e) ((k, v) ∷ items) (r ∷ rows) all_above
                    (keyed, rest)) in
              let small_rows =
                Own-IsSmall id (rows_of id (r ∷ rows))
                  (Reads-Own C id ((k, v) ∷ items) (r ∷ rows) (keyed, rest)) in
              ap (rows_of id) (keyed-more e r rows not_less apart)
              ∙ rows_of-in id e (r ∷ rows) mine
              ∙ sym (place-first e (rows_of id (r ∷ rows)) small_e small_rows after)
        ]
      ]
