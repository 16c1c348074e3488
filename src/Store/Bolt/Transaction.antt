-- ===== src/Store/Bolt/Transaction.antt =====
-- store/bolt/bolt.go: a write transaction, and the answers of the methods, by cases.
use proof.Prelude.{◌≡◌, ◌≢◌, refl, sym, ◌∙◌, none, some, ◌⊎◌, inl, inr, Bool-cases}
use proof.Store.Bolt.{
  Engine, Db, Call, BoltError, Answer, done, failed, put_failed, database_failed, update,
}

pub Answer-cases :
    {A : Type 0} (a : Answer A) → ((x : A) × (a ≡ done x)) ⊎ ((e : BoltError) × (a ≡ failed e))
Answer-cases (done x) = inl (x, refl)
Answer-cases (failed e) = inr (e, refl)

pub failed≢done : {A : Type 0} {e : BoltError} {x : A} → failed e ≢ done x
failed≢done h = cc h

pub one_failure :
    {A : Type 0} (x : Answer A) (e f : BoltError) → x ≡ failed e → x ≡ failed f → e ≡ f
one_failure x e f h k = cc (sym h ∙ k)

pub done-injective : {A : Type 0} (x y : A) → done x ≡ done y → x ≡ y
done-injective x y h = cc h

-- What bbolt alone can answer: a put it refuses, or a transaction it does not begin or commit.
abbrev pub IsFault : BoltError → Type 0
IsFault e = (e ≡ put_failed) ⊎ (e ≡ database_failed)

-- A transaction writes what its function leaves, or nothing.
pub update-cases :
    {D : Engine} (call : Call) (db : Db D) (answer : Answer (Db D))
    → ((new : Db D) × (answer ≡ done new) × (update call db answer ≡ (none, new)))
      ⊎ ((e : BoltError) × ((answer ≡ failed e) ⊎ (e ≡ database_failed))
          × (update call db answer ≡ (some e, db)))
unfolding update
update-cases call db (failed e) = elim (Bool-cases call.begins) [
  | inl begins ↦ inr (e, inl refl, rw begins refl)
  | inr not_begun ↦ inr (database_failed, inr refl, rw not_begun refl)
]
update-cases call db (done new) = elim (Bool-cases call.begins) [
  | inl begins ↦ elim (Bool-cases call.commits) [
    | inl commits ↦ inl (new, refl, rw (begins, commits) refl)
    | inr lost ↦ inr (database_failed, inr refl, rw (begins, lost) refl)
  ]
  | inr not_begun ↦ inr (database_failed, inr refl, rw not_begun refl)
]
