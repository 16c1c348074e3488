-- ===== src/Store/Memory/Appended.antt =====
-- store/memory/memory.go: what upsertLocked does to a chain whose new rows go on from its last.
use mathlib.Core.Option.{some-injective}
use proof.Prelude.{
  ◌≡◌, refl, sym, ap, subst, ◌∙◌, ◌+◌, ◌%◌, ◌^◌, ◌<◌, List, [], ◌∷◌, ◌++◌, append_assoc, append-nil,
  Option, none, some, true, if◌then◌else◌, inl, inr, Bool-cases, Option-cases, All, arith,
}
use proof.Prelude.Bytes.{Bytes, bytes_eq}
use proof.Prelude.Int64.{Int64, int_lt}
use proof.Store.{Row, State, Table, put}
use proof.Store.CheckAppend.Continues.{of_chain, AfterLast, last_of}
use proof.Store.Memory.{Store, last_row, upsert_locked, put_states}
use proof.Store.Memory.Placed.{
  place, place_rows, IsSmall, Ascending, upsert_rows-place, sort-Ascending, Ascending-Distinct,
}

-- Every row is before a number.
abbrev Before : Int64 → Row → Type 0
Before n r = int_lt r.global_seq n ≡ true

place-last : (e : Row) (xs : List Row) → All (Before e.global_seq) xs → place e xs ≡ xs ++ e ∷ []
unfolding place
place-last e [] b = refl
place-last e (x ∷ xs) (first, b) = rw first (ap (λ l. x ∷ l) (place-last e xs b))

last_of-append : (xs : List Row) (e : Row) → last_of (xs ++ e ∷ []) ≡ some e
unfolding last_of
last_of-append [] e = refl
last_of-append (x ∷ xs) e = rw (last_of-append xs e, last_of) refl

pub All-append : (P : Row → Type 0) (xs ys : List Row) → All P xs → All P ys → All P (xs ++ ys)
All-append P [] ys h k = k
All-append P (x ∷ xs) ys (p, h) k = (p, All-append P xs ys h k)

All-last : (P : Row → Type 0) (xs : List Row) (l : Row) → All P xs → last_of xs ≡ some l → P l
unfolding last_of
All-last P [] l a h = cc
All-last P (x ∷ xs) l (p, a) h = elim (Option-cases (last_of xs)) [
  | inl bare ↦ subst P (some-injective x l (rw (bare, last_of) at h)) p
  | inr (m, found) ↦ All-last P xs l a (found ∙ rw (found, last_of) at h)
]

last_of-none : (xs : List Row) → last_of xs ≡ none → xs ≡ []
unfolding last_of
last_of-none [] h = refl
last_of-none (x ∷ xs) h = elim (Option-cases (last_of xs)) [
  | inl bare ↦ cc (rw (bare, last_of) at h)
  | inr (m, found) ↦ cc (rw (found, last_of) at h)
]

Ascending-append :
    (xs : List Row) (e : Row)
    → Ascending xs
    → All (Before e.global_seq) xs
    → Ascending (xs ++ e ∷ [])
Ascending-append [] e a b = (tt, tt)
Ascending-append (x ∷ xs) e (first, a) (less, b) = (
  All-append (λ f. int_lt x.global_seq f.global_seq ≡ true) xs (e ∷ []) first (less, tt),
  Ascending-append xs e a b,
)

-- The rows are before the number after the last.
Before-last :
    (xs : List Row) (l : Row) (n : Int64)
    → Ascending xs
    → All IsSmall xs
    → last_of xs ≡ some l
    → n < 2 ^ 63
    → n ≡ (l.global_seq + 1) % 2 ^ 64
    → All (Before n) xs
unfolding last_of
Before-last [] l n a s h small next = tt
Before-last (x ∷ xs) l n (first, a) (sx, s) h small next = elim (Option-cases (last_of xs)) [
  | inl bare ↦
      let same : x ≡ l = some-injective x l (rw (bare, last_of) at h) in
      let number : x.global_seq ≡ l.global_seq = ap (λ (r : Row). r.global_seq) same in
      (ground arith, rw (last_of-none xs bare) tt)
  | inr (m, found) ↦
      let at : last_of xs ≡ some l = found ∙ rw (found, last_of) at h in
      let rest = Before-last xs l n a s at small next in
      let small_l = All-last IsSmall xs l s at in
      let less = All-last (λ f. int_lt x.global_seq f.global_seq ≡ true) xs l first at in
      let above = All-last (Before n) xs l rest at in (ground (arith, less, above), rest)
]

after_first :
    (o : Option Row) (e : Row) (es : List Row) → AfterLast o (e ∷ es) → AfterLast (some e) es
after_first none e es (number, hash, h) = rw number h
after_first (some l) e es (number, hash, h) = rw number h

Before-first :
    (xs : List Row) (e : Row) (es : List Row)
    → Ascending xs
    → All IsSmall xs
    → IsSmall e
    → AfterLast (last_of xs) (e ∷ es)
    → All (Before e.global_seq) xs
Before-first xs e es a s small h = elim (Option-cases (last_of xs)) [
  | inl bare ↦ rw (last_of-none xs bare) tt
  | inr (l, found) ↦
      let at : AfterLast (some l) (e ∷ es) = rw found at h in
      Before-last xs l e.global_seq a s found small (at.0)
]

-- The rows of the chain, each put at its place, come after those that are there.
pub place_rows-append :
    (id : Bytes) (es xs : List Row)
    → Ascending xs
    → All IsSmall xs
    → All IsSmall es
    → AfterLast (last_of xs) (of_chain id es)
    → place_rows id es xs ≡ xs ++ of_chain id es
unfolding place_rows
place_rows-append id [] xs a s se h = sym (append-nil xs)
place_rows-append id (e ∷ es) xs a s (small, se) h = elim (Bool-cases (bytes_eq e.chain_id id)) [
  | inr other ↦ rw other (place_rows-append id es xs a s se (rw other at h))
  | inl own ↦
      let here : AfterLast (last_of xs) (e ∷ of_chain id es) = rw own at h in
      let before = Before-first xs e (of_chain id es) a s small here in
      let next : AfterLast (last_of (xs ++ e ∷ [])) (of_chain id es) =
        rw (last_of-append xs e) (after_first (last_of xs) e (of_chain id es) here) in
      let ih =
        place_rows-append id es (xs ++ e ∷ []) (Ascending-append xs e a before)
          (All-append IsSmall xs (e ∷ []) s (small, tt)) se next in
      rw (own, place-last e xs before) (ih ∙ append_assoc xs (e ∷ []) (of_chain id es))
]

-- A chain in order, with numbers that are not negative.
abbrev pub IsOrdered : List Row → Type 0
IsOrdered rows = Ascending rows × All IsSmall rows

pub upsert_locked-append :
    (s : Store) (id : Bytes) (es : List Row)
    → IsOrdered (s.entries id)
    → All IsSmall es
    → AfterLast (last_of (s.entries id)) (of_chain id es)
    → (upsert_locked s es).entries id ≡ s.entries id ++ of_chain id es
unfolding upsert_locked
upsert_locked-append s id es (a, small) se h =
    upsert_rows-place id s.entries es (Ascending-Distinct (s.entries id) a) small se
    ∙ ap (place_rows id es) (sort-Ascending (s.entries id) a)
    ∙ place_rows-append id es (s.entries id) a small se h

-- The head of a chain after some are recorded: the last that is the chain's.
unfoldable pub head_after : Bytes → Option State → List State → Option State
head_after id o [] = o
head_after id o (st ∷ states) =
    head_after id (if bytes_eq st.chain_id id then some st else o) states

pub put_states-head_after :
    (m : Table (Option State)) (states : List State) (id : Bytes)
    → put_states m states id ≡ head_after id (m id) states
unfolding put_states head_after put
put_states-head_after m [] id = refl
put_states-head_after m (st ∷ states) id =
    put_states-head_after (put m st.chain_id (some st)) states id

pub last_row-last_of : (rows : List Row) → last_row rows ≡ last_of rows
unfolding last_row last_of
last_row-last_of [] = refl
last_row-last_of (e ∷ []) = refl
last_row-last_of (e ∷ f ∷ rows) = last_row-last_of (f ∷ rows) ∙ elim (Option-cases (last_of rows)) [
  | inl bare ↦ rw bare refl
  | inr (l, found) ↦ rw found refl
]
