-- ===== src/Verify/Series/Complete.antt =====
-- A series without a problem: every anchor of it verified, each after the one before it.
use proof.Prelude.{
  ◌≡◌, ◌≢◌, refl, sym, ap, ◌∙◌, subst, List, [], ◌∷◌, ◌++◌, append_assoc, Option, some, ◌==◌,
  length, drop, drop-get_elem?, drop-get_elem?-none, inl, inr, Bool-cases,
}
use proof.Prelude.Bytes.{Bytes}
use proof.Hash.{Sha512}
use proof.ChainFormat.Timestamp.{Time}
use proof.Anchor.{Anchor}
use proof.Anchor.Signature.{Crypto, KeySource}
use proof.Verify.{Entry, Result}
use proof.Verify.Walker.{Walker, new_walker, add, add_all}
use proof.Verify.Series.{
  Problem, Series, new_series, move_on, finish, SeriesReply, SeriesError, checked, refused, reached,
  walk_series, verify_anchor_series,
}
use proof.Verify.Series.Checks.{
  Prior, seed, after_anchor, Follows, prior, settle, Ready, ensure_checked-Bad, finish-Bad,
  finish-Ready,
}
use proof.Verify.Series.Steps.{Verifies, bad, kept, moved, reached-Moves, walk_series-Bad}

module _ (H : Sha512) (C : Crypto) where
  abbrev w0 : Walker
  w0 = new_walker (record { max_breaks = 0; previous_hash = [] })

  module _ (parse : Bytes → Option Time) (subject : Bytes) (keys : KeySource)
      (entries : List Entry) where
    -- An anchor that verified when the walk had read `front`.
    pub record VerifiedAt (hash : Bytes) (a : Anchor) : Type 0 where
      pub front : List Entry
      pub back : List Entry
      pub split : entries ≡ front ++ back
      pub verifies : Verifies H C (add_all H parse w0 front) a hash keys

    unfoldable pub InSeries : Prior → List Anchor → Type 0
    InSeries p [] = Unit
    InSeries p (a ∷ anchors) =
        Follows subject p a × VerifiedAt p.hash a × InSeries (after_anchor a) anchors

    -- The problems after the rest of the walk.
    abbrev problems_after : Series → Walker → List Entry → List Problem
    problems_after s w rest =
        let (s', w') = walk_series H C parse s w rest in
        (finish s' w'.res.entries_verified).problems

    add_all-snoc :
        (w : Walker) (front : List Entry) (e : Entry)
        → add_all H parse w (front ++ e ∷ []) ≡ add H parse (add_all H parse w front) e
    unfolding add_all
    add_all-snoc w [] e = refl
    add_all-snoc w (f ∷ front) e = add_all-snoc (add H parse w f) front e

    walk_series-InSeries :
        (front rest : List Entry) (s : Series)
        → entries ≡ front ++ rest
        → s.subject ≡ subject
        → s.keys ≡ keys
        → Ready s
        → problems_after s (add_all H parse w0 front) rest ≡ []
        → InSeries (prior s) (drop s.next s.anchors)
    unfolding InSeries walk_series
    walk_series-InSeries front [] s split es ek ready clean =
        let over = finish-Ready s _ ready clean in rw (drop-get_elem?-none s.next s.anchors over) tt
    walk_series-InSeries front (e ∷ rest) s split es ek ready clean =
        let w = add H parse (add_all H parse w0 front) e in
        let read = add_all-snoc w0 front e in
        let next = walk_series-InSeries (front ++ e ∷ []) rest in
        let split' : entries ≡ (front ++ e ∷ []) ++ rest =
          split ∙ sym (append_assoc front (e ∷ []) rest) in
        let clean_from = λ (s' : Series) (same : reached H C s w ≡ s').
          subst (λ z. problems_after s' z rest ≡ []) (sym read)
            (subst (λ z. problems_after z w rest ≡ []) same clean) in
        elim (reached-Moves H C s w ready) [
          | bad b ↦
              absurd
                (finish-Bad _ _ (ensure_checked-Bad _ (walk_series-Bad H C parse rest _ w b)) clean)
          | kept same f ↦
              next (settle s) split' es ek (ready.0, inr (refl, f)) (clean_from (settle s) same)
          | moved a here f v same f' ↦
              let at : VerifiedAt s.prev_hash a = record {
                front = front ++ e ∷ [];
                back = rest;
                split = split';
                verifies =
                    subst (λ z. Verifies H C z a s.prev_hash keys) (sym read)
                      (subst (Verifies H C w a s.prev_hash) ek v);
              } in
              let later =
                next (settle (move_on s a)) split' es ek (ready.0, inr (refl, f'))
                  (clean_from (settle (move_on s a)) same) in
              subst (InSeries (prior s)) (sym (drop-get_elem? s.next s.anchors here))
                (subst (λ z. Follows z (prior s) a) es (f a here), at, later)
        ]

abbrev problems_of : SeriesReply → List Problem → List Problem
problems_of (checked res ps) other = ps
problems_of (refused e) other = other

refused≢checked : {e : SeriesError} {r : Result} {ps : List Problem} → refused e ≢ checked r ps
refused≢checked e = cc

-- A series that is checked without a problem has an answer for every one of its anchors: each is for
-- the subject, names the anchor before it (the first names the seed), covers more entries, is not
-- created earlier, and verified, with a bound history and a valid signature under a key of the
-- source, when the walk had read as many entries as it covers.
pub verify_anchor_series-InSeries :
    (H : Sha512) (C : Crypto) (parse : Bytes → Option Time) (subject : Bytes) (entries : List Entry)
    (anchors : List Anchor) (keys : KeySource) (res : Result)
    → verify_anchor_series H C parse subject entries anchors (some keys) ≡ checked res []
    → InSeries H C parse subject keys entries seed anchors
unfolding verify_anchor_series new_series
verify_anchor_series-InSeries H C parse subject entries anchors keys res e =
    elim (Bool-cases (length entries == 0)) [
      | inl empty ↦ absurd (refused≢checked (rw empty at e))
      | inr filled ↦ elim (Bool-cases (length anchors == 0)) [
        | inl empty ↦ absurd (refused≢checked (rw empty at rw filled at e))
        | inr some_anchor ↦
            let e' = rw some_anchor at rw filled at e in
            walk_series-InSeries H C parse subject keys entries [] entries
              (new_series subject anchors keys) refl refl refl (refl, inl refl)
              (unfold add_all in ap (λ r. problems_of r []) e')
      ]
    ]
