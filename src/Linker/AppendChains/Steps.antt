-- ===== src/Linker/AppendChains/Steps.antt =====
-- linker/append_chains.go: what each step of an AppendChains gives when it succeeds.
use proof.Prelude.{
  ℕ, suc, ◌+◌, ◌%◌, ◌^◌, ◌<◌, ◌≡◌, refl, sym, ap, ◌∙◌, List, [], ◌∷◌, ◌++◌, Option, some, none,
  Bool, true, false, Bool-cases, Option-cases, inl, inr, arith, All, length, if◌then◌else◌, subst,
  ◌==◌,
}
use proof.Prelude.Bytes.{Bytes}
use proof.Prelude.Int64.{Int64, int_next}
use proof.Hash.{Sha512}
use proof.ChainFormat.Timestamp.{Time}
use proof.ChainFormat.Hash.{format_v2}
use proof.Store.{Row, Tail}
use proof.Store.CheckAppend.Continues.{last_of}
use proof.Store.Memory.{Store, last_row, tail_of}
use proof.Store.Memory.Placed.{IsSmall}
use proof.Store.Memory.Appended.{last_row-last_of}
use proof.Linker.{Input, Linking, linked, link_from, sort_inputs, insert_input, arrives_before}
use proof.Linker.Link.{link_from-linked, rows_of}
use proof.Linker.AppendChains.{
  ChainInputs, Batch, Gathered, Outcome, prepare_one, gather, gather_rows, join, link_batches,
}
use proof.Linker.AppendChains.Whole.{err≢ok}

-- What an entry after the last of a chain has: its number, and the hash before it.
abbrev pub next_after : Option Row → Int64
next_after none = 0
next_after (some l) = (l.global_seq + 1) % 2 ^ 64

abbrev pub hash_after : Option Row → Bytes
hash_after none = []
hash_after (some l) = l.chain_hash

-- What one batch adds to the store and to the answer.
abbrev pub part : Bytes → Bytes → Time → List Row → Row → Row → Gathered
part chain_id run_id now es first l = record {
  entries = es;
  states =
      (record {
        chain_id = chain_id;
        head_seq = l.global_seq;
        head_hash = l.chain_hash;
        computed_at = now;
      })
      ∷ [];
  results =
      (record {
        run_id = run_id;
        appended = length es;
        first_seq = first.global_seq;
        last_seq = l.global_seq;
        head_hash = l.chain_hash;
      })
      ∷ [];
}

abbrev value : {A : Type 0} → A → Outcome A → A
value a (Outcome.ok b) = b
value a (Outcome.err e) = a

pub ok-injective : {A : Type 0} (a b : A) → Outcome.ok a ≡ Outcome.ok b → a ≡ b
ok-injective a b h = ap (value a) h

pub join-ok :
    (p : Gathered) (r : Outcome Gathered) {g : Gathered}
    → join p r ≡ Outcome.ok g
    → (q : Gathered) × (r ≡ Outcome.ok q)
      × (g ≡ record {
        entries = p.entries ++ q.entries;
        states = p.states ++ q.states;
        results = p.results ++ q.results;
      })
join-ok p (Outcome.err e) h = absurd (err≢ok h)
join-ok p (Outcome.ok q) {g} h = (q, refl, sym (ok-injective _ g h))

pub gather_rows-ok :
    (now : Time) (b : Batch) (r : Linking) {g : Gathered}
    → gather_rows now b r ≡ Outcome.ok g
    → (first : Row) × (more : List Row) × (l : Row) × (r ≡ linked (first ∷ more))
      × (last_of (first ∷ more) ≡ some l)
      × (g ≡ part b.chain_id b.run_id now (first ∷ more) first l)
unfolding gather_rows
gather_rows-ok now b (Linking.refused e) h = absurd (err≢ok h)
gather_rows-ok now b (linked []) h = absurd (err≢ok h)
gather_rows-ok now b (linked (first ∷ more)) {g} h = elim (Option-cases (last_row (first ∷ more))) [
  | inl none_last ↦ absurd (err≢ok (rw (none_last, gather_rows) at h))
  | inr (l, found) ↦ (
    first,
    more,
    l,
    refl,
    sym (last_row-last_of (first ∷ more)) ∙ found,
    sym (ok-injective _ g (rw (found, gather_rows) at h)),
  )
]

pub tail-next_after :
    (s : Store) (id : Bytes)
    → (if (tail_of s id).empty then 0 else int_next (tail_of s id).global_seq)
      ≡ next_after (last_of (s.entries id))
unfolding tail_of
tail-next_after s id = elim (Option-cases (last_row (s.entries id))) [
  | inl bare ↦ rw (bare, tail_of) (ap next_after (sym bare ∙ last_row-last_of (s.entries id)))
  | inr (l, found) ↦
      rw (found, tail_of) (ap next_after (sym found ∙ last_row-last_of (s.entries id)))
]

pub tail-hash_after :
    (s : Store) (id : Bytes)
    → (if (tail_of s id).empty then [] else (tail_of s id).hash)
      ≡ hash_after (last_of (s.entries id))
unfolding tail_of
tail-hash_after s id = elim (Option-cases (last_row (s.entries id))) [
  | inl bare ↦ rw (bare, tail_of) (ap hash_after (sym bare ∙ last_row-last_of (s.entries id)))
  | inr (l, found) ↦
      rw (found, tail_of) (ap hash_after (sym found ∙ last_row-last_of (s.entries id)))
]

length-insert_input :
    (x : Input) (inputs : List Input) → length (insert_input x inputs) ≡ suc (length inputs)
unfolding insert_input
length-insert_input x [] = refl
length-insert_input x (y ∷ inputs) = elim (Bool-cases (arrives_before y x)) [
  | inl later ↦ rw (later, insert_input) (ap suc (length-insert_input x inputs))
  | inr here ↦ rw (here, insert_input) refl
]

pub length-sort_inputs : (inputs : List Input) → length (sort_inputs inputs) ≡ length inputs
unfolding sort_inputs
length-sort_inputs [] = refl
length-sort_inputs (x ∷ inputs) =
    length-insert_input x (sort_inputs inputs) ∙ ap suc (length-sort_inputs inputs)

pub gather-ok :
    (H : Sha512) (format : Int64) (now : Time) (batches : List Batch) (ts : List Tail)
    {g : Gathered}
    → gather H format now batches ts ≡ Outcome.ok g
    → link_batches H format now batches ts ≡ Outcome.ok g
unfolding gather
gather-ok H format now batches ts h = elim (Bool-cases (length ts == length batches)) [
  | inl same ↦ rw (same, gather) at h
  | inr other ↦ absurd (err≢ok (rw (other, gather) at h))
]

pub link-IsSmall :
    (H : Sha512) (format : Int64) (chain_id : Bytes) (next : Int64) (run_id previous : Bytes)
    (i : ℕ) (batch : List Input) {es : List Row}
    → next + i + length batch < 2 ^ 63
    → link_from H format chain_id previous next run_id i batch ≡ linked es
    → All IsSmall es
unfolding link_from
link-IsSmall H format chain_id next run_id previous i [] room h =
    subst (All IsSmall) (ap rows_of h) tt
link-IsSmall H format chain_id next run_id previous i (x ∷ batch) room h =
    let (hash, rest, hashed, expects, more, same) =
      link_from-linked H format chain_id next run_id previous i x batch h in
    subst (All IsSmall) same (
      omega arith,
      link-IsSmall H format chain_id next run_id hash (suc i) batch (omega arith) more,
    )

pub prepare_one-sorted :
    (valid_utf8 : Bytes → Bool) (format : Int64) (drawn : ℕ → Option Bytes) (seen : List Bytes)
    (i : ℕ) (x : ChainInputs) {b : Batch}
    → prepare_one valid_utf8 format drawn seen i x ≡ Outcome.ok b
    → b.sorted ≡ sort_inputs x.inputs
unfolding prepare_one
prepare_one-sorted valid_utf8 format drawn seen i x h = ground arith

-- The run id of a batch: in format v2 the one that is drawn for it, otherwise none.
abbrev pub IsRunId : Bool → Option Bytes → Bytes → Type 0
IsRunId true drawn_id run_id = drawn_id ≡ some run_id
IsRunId false drawn_id run_id = run_id ≡ []

pub prepare_one-IsRunId :
    (valid_utf8 : Bytes → Bool) (format : Int64) (drawn : ℕ → Option Bytes) (seen : List Bytes)
    (i : ℕ) (x : ChainInputs) {b : Batch}
    → prepare_one valid_utf8 format drawn seen i x ≡ Outcome.ok b
    → IsRunId (format == format_v2) (drawn i) b.run_id
unfolding prepare_one
prepare_one-IsRunId valid_utf8 format drawn seen i x {b} h =
    elim (Bool-cases (format == format_v2)) [
      | inl v2 ↦ subst (λ f. IsRunId f (drawn i) b.run_id) (sym v2) (ground arith)
      | inr later ↦ subst (λ f. IsRunId f (drawn i) b.run_id) (sym later) (ground arith)
    ]
