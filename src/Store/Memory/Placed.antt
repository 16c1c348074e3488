-- ===== src/Store/Memory/Placed.antt =====
-- store/memory/memory.go: what upsertLocked does to one chain.
use proof.Prelude.{
  ◌≡◌, refl, sym, ap, subst, ◌∙◌, List, [], ◌∷◌, true, false, if◌then◌else◌, ◌==◌, ◌^◌, ◌<◌, inl,
  inr, Bool-cases, All, arith,
}
use proof.Prelude.Bytes.{Bytes, bytes_eq, bytes_eq_sound}
use proof.Prelude.Int64.{Int64, int_lt}
use proof.Store.{Row, Table, put}
use proof.Store.Memory.{upsert, insert_row, sort_rows, upsert_rows}

-- The row takes the place of the one with its number, or goes between those beside it.
unfoldable pub place : Row → List Row → List Row
place e [] = e ∷ []
place e (r ∷ rows) =
    let rest = place e rows in
    if int_lt r.global_seq e.global_seq
    then r ∷ rest
    else if r.global_seq == e.global_seq
    then e ∷ rows
    else e ∷ r ∷ rows

-- Those of the rows that are the chain's.
unfoldable pub place_rows : Bytes → List Row → List Row → List Row
place_rows id [] xs = xs
place_rows id (e ∷ es) xs = place_rows id es (if bytes_eq e.chain_id id then place e xs else xs)

abbrev pub IsSmall : Row → Type 0
IsSmall r = r.global_seq < 2 ^ 63

abbrev pub HasOther : Int64 → Row → Type 0
HasOther n r = (r.global_seq == n) ≡ false

abbrev pub Distinct : List Row → Type 0
Distinct [] = Unit
Distinct (r ∷ rows) = All (HasOther r.global_seq) rows × Distinct rows

abbrev pub Ascending : List Row → Type 0
Ascending [] = Unit
Ascending (r ∷ rows) = All (λ f. int_lt r.global_seq f.global_seq ≡ true) rows × Ascending rows

place-insert :
    (e r : Row) (ys : List Row)
    → (r.global_seq == e.global_seq) ≡ false
    → IsSmall e
    → IsSmall r
    → All IsSmall ys
    → insert_row r (place e ys) ≡ place e (insert_row r ys)
unfolding place insert_row
place-insert e r [] h he hr hs = ground arith
place-insert e r (y ∷ ys) h he hr (hy, hs) =
    let ih = place-insert e r ys h he hr hs in ground (arith, ih)

place-same :
    (e r : Row) (ys : List Row)
    → (r.global_seq == e.global_seq) ≡ true
    → All (HasOther r.global_seq) ys
    → IsSmall e
    → IsSmall r
    → All IsSmall ys
    → place e (insert_row r ys) ≡ insert_row e ys
unfolding place insert_row
place-same e r [] h f he hr hs = ground arith
place-same e r (y ∷ ys) h (fy, f) he hr (hy, hs) =
    let ih = place-same e r ys h f he hr hs in ground (arith, ih)

-- What holds of a row and of each of a list holds with the row put among them.
module _ (P : Row → Type 0) where
  All-insert_row : (e : Row) (ys : List Row) → P e → All P ys → All P (insert_row e ys)
  unfolding insert_row
  All-insert_row e [] p h = (p, tt)
  All-insert_row e (y ∷ ys) p (q, h) = elim (Bool-cases (int_lt e.global_seq y.global_seq)) [
    | inl less ↦ rw less (p, (q, h))
    | inr not_less ↦ rw not_less (q, All-insert_row e ys p h)
  ]

  All-sort_rows : (xs : List Row) → All P xs → All P (sort_rows xs)
  unfolding sort_rows
  All-sort_rows [] h = tt
  All-sort_rows (x ∷ xs) (p, h) = All-insert_row x (sort_rows xs) p (All-sort_rows xs h)

  All-upsert : (e : Row) (xs : List Row) → P e → All P xs → All P (upsert xs e)
  unfolding upsert
  All-upsert e [] p h = (p, tt)
  All-upsert e (x ∷ xs) p (q, h) = elim (Bool-cases (x.global_seq == e.global_seq)) [
    | inl same ↦ rw same (p, h)
    | inr other ↦ rw other (q, All-upsert e xs p h)
  ]

upsert-Distinct : (e : Row) (xs : List Row) → Distinct xs → Distinct (upsert xs e)
unfolding upsert
upsert-Distinct e [] d = (tt, tt)
upsert-Distinct e (x ∷ xs) (f, d) = elim (Bool-cases (x.global_seq == e.global_seq)) [
  | inl same ↦
      let number : x.global_seq ≡ e.global_seq = ground arith in
      rw same (subst (λ n. All (HasOther n) xs) number f, d)
  | inr other ↦
      let apart : HasOther x.global_seq e = ground arith in
      rw other (All-upsert (HasOther x.global_seq) e xs apart f, upsert-Distinct e xs d)
]

put_own :
    (m : Table (List Row)) (k j : Bytes) (v : List Row) → bytes_eq k j ≡ true → put m k v j ≡ v
unfolding put
put_own m k j v h = rw h refl

put_other :
    (m : Table (List Row)) (k j : Bytes) (v : List Row) → bytes_eq k j ≡ false → put m k v j ≡ m j
unfolding put
put_other m k j v h = rw h refl

sort-upsert :
    (e : Row) (xs : List Row)
    → Distinct xs
    → IsSmall e
    → All IsSmall xs
    → sort_rows (upsert xs e) ≡ place e (sort_rows xs)
unfolding sort_rows upsert
sort-upsert e [] d he hs = unfold place insert_row in refl
sort-upsert e (x ∷ xs) (f, d) he (hx, hs) =
    let small = All-sort_rows IsSmall xs hs in
    elim (Bool-cases (x.global_seq == e.global_seq)) [
      | inl same ↦ rw same (
          sym (
            place-same e x (sort_rows xs) same (All-sort_rows (HasOther x.global_seq) xs f) he hx
              small))
      | inr other ↦ rw other (
          ap (insert_row x) (sort-upsert e xs d he hs)
          ∙ place-insert e x (sort_rows xs) other he hx small)
    ]

-- After a batch a chain, in order, has the batch's rows of the chain each at its place.
pub upsert_rows-place :
    (id : Bytes) (chains : Table (List Row)) (es : List Row)
    → Distinct (chains id)
    → All IsSmall (chains id)
    → All IsSmall es
    → sort_rows (upsert_rows chains es id) ≡ place_rows id es (sort_rows (chains id))
unfolding upsert_rows place_rows
upsert_rows-place id chains [] d h hs = refl
upsert_rows-place id chains (e ∷ es) d h (he, hs) =
    let next = put chains e.chain_id (upsert (chains e.chain_id) e) in
    elim (Bool-cases (bytes_eq e.chain_id id)) [
      | inl own ↦
          let same = bytes_eq_sound e.chain_id id own in
          let here : next id ≡ upsert (chains id) e =
            put_own chains e.chain_id id (upsert (chains e.chain_id) e) own
            ∙ ap (λ c. upsert (chains c) e) same in
          let ih =
            upsert_rows-place id next es (rw here (upsert-Distinct e (chains id) d))
              (rw here (All-upsert IsSmall e (chains id) he h)) hs in
          ih
          ∙ ap (λ l. place_rows id es (sort_rows l)) here
          ∙ ap (place_rows id es) (sort-upsert e (chains id) d he h)
          ∙ rw own refl
      | inr other ↦
          let there : next id ≡ chains id =
            put_other chains e.chain_id id (upsert (chains e.chain_id) e) other in
          let ih = upsert_rows-place id next es (rw there d) (rw there h) hs in
          ih ∙ ap (λ l. place_rows id es (sort_rows l)) there ∙ rw other refl
    ]

insert_row-first :
    (e : Row) (xs : List Row)
    → All (λ f. int_lt e.global_seq f.global_seq ≡ true) xs
    → insert_row e xs ≡ e ∷ xs
unfolding insert_row
insert_row-first e [] h = refl
insert_row-first e (x ∷ xs) (first, h) = rw first refl

pub place-first :
    (e : Row) (xs : List Row)
    → IsSmall e
    → All IsSmall xs
    → All (λ f. int_lt e.global_seq f.global_seq ≡ true) xs
    → place e xs ≡ e ∷ xs
unfolding place
place-first e [] he hs h = refl
place-first e (x ∷ xs) he (hx, hs) (first, h) = ground arith

pub sort-Ascending : (xs : List Row) → Ascending xs → sort_rows xs ≡ xs
unfolding sort_rows
sort-Ascending [] a = refl
sort-Ascending (x ∷ xs) (first, a) =
    ap (insert_row x) (sort-Ascending xs a) ∙ insert_row-first x xs first

apart-All :
    (n : Int64) (xs : List Row) → All (λ f. int_lt n f.global_seq ≡ true) xs → All (HasOther n) xs
apart-All n [] h = tt
apart-All n (x ∷ xs) (first, h) = (ground arith, apart-All n xs h)

pub Ascending-Distinct : (xs : List Row) → Ascending xs → Distinct xs
Ascending-Distinct [] a = tt
Ascending-Distinct (x ∷ xs) (first, a) = (apart-All x.global_seq xs first, Ascending-Distinct xs a)
