-- ===== src/Verify/Series/Checks.antt =====
-- What the check of the next anchor, and the end of a series, leave: a problem, or a series that goes on.
use proof.Prelude.{
  suc, ◌≡◌, ◌≢◌, refl, sym, ap, ◌∙◌, subst, List, [], ◌∷◌, ◌++◌, Option, none, some, Bool, true,
  false, not, ◌==◌, ◌&&◌, ◌||◌, if◌then◌else◌, get_elem?, arith, ◌⊎◌, inl, inr, Bool-cases,
  Option-cases,
}
use proof.Prelude.Bytes.{Bytes, bytes_eq, bytes_eq_sound}
use proof.Prelude.Int64.{Int64, int_lt}
use proof.Anchor.{Anchor}
use proof.Anchor.ChainHash.{seed_anchor_hash, seed_anchor_id}
use proof.Verify.Series.{
  Problem, other_subject, first_not_seed, not_successor, not_growing, back_in_time, unreached,
  Series, stop, check_anchor, check_next, ensure_checked, finish,
}

-- What an anchor is checked against: the seed, or the anchor before it.
pub record Prior : Type 0 where
  pub hash : Bytes
  pub id : Bytes
  pub ms : Int64
  pub covered : Int64

abbrev pub seed : Prior
seed = record { hash = seed_anchor_hash; id = seed_anchor_id; ms = 0; covered = 0 }

abbrev pub after_anchor : Anchor → Prior
after_anchor a = record {
  hash = a.chain_hash;
  id = a.anchor_id;
  ms = a.created_at_ms;
  covered = a.entry_count;
}

-- An anchor goes on from the one before it: for the same subject, naming it, over more entries, and
-- not created earlier.
pub record Follows (subject : Bytes) (p : Prior) (a : Anchor) : Type 0 where
  pub subject_same : a.subject ≡ subject
  pub named : a.previous_anchor_id ≡ p.id
  pub grows : int_lt p.covered a.entry_count ≡ true
  pub later : int_lt a.created_at_ms p.ms ≡ false

abbrev pub prior : Series → Prior
prior s = record { hash = s.prev_hash; id = s.prev_id; ms = s.prev_ms; covered = s.covered }

abbrev pub Bad : Series → Type 0
Bad s = (s.stopped ≡ true) × (s.problems ≢ [])

abbrev pub FollowsNext : Series → Type 0
FollowsNext s = (a : Anchor) → get_elem? s.anchors s.next ≡ some a → Follows s.subject (prior s) a

abbrev pub settle : Series → Series
settle s = record s { unchecked = false }

pub stop-Bad : (s : Series) (p : Problem) → Bad (stop s p)
stop-Bad s p = (refl, λ e. absurd (no_tail s.problems p e))
  where
    no_tail : (ps : List Problem) (q : Problem) → ps ++ q ∷ [] ≢ []
    no_tail [] q e = cc
    no_tail (r ∷ ps) q e = cc

none≢some : {a : Anchor} → ◌≡◌ {A = Option Anchor} none (some a) → ⊥
none≢some e = cc

some_inj : {a b : Anchor} → ◌≡◌ {A = Option Anchor} (some a) (some b) → a ≡ b
some_inj e = cc

-- One guard of a chain of guards that end in an unchanged series.
guarded :
    {Q : Type 0} (s : Series) (b : Bool) (bad rest : Series)
    → Bad bad
    → (b ≡ false → Bad rest ⊎ ((rest ≡ s) × Q))
    → Bad (if b then bad else rest) ⊎ (((if b then bad else rest) ≡ s) × Q)
guarded s true bad rest b go = inl b
guarded s false bad rest b go = go refl

pub not-eq_false : (b : Bool) → not b ≡ false → b ≡ true
not-eq_false true e = refl
not-eq_false false e = cc

pub both_false : (b c : Bool) → (b || c) ≡ false → (b ≡ false) × (c ≡ false)
both_false false c e = (refl, e)
both_false true c e = cc

check_anchor-cases :
    (s : Series) (a : Anchor)
    → Bad (check_anchor s a) ⊎ ((check_anchor s a ≡ s) × Follows s.subject (prior s) a)
unfolding check_anchor
check_anchor-cases s a =
    let n = suc s.next in
    let other = not (bytes_eq a.previous_anchor_id s.prev_id) in
    let late = if int_lt a.created_at_ms s.prev_ms then stop s (back_in_time n) else s in
    let grown = if not (int_lt s.covered a.entry_count) then stop s (not_growing n) else late in
    let named = if other then stop s (not_successor n) else grown in
    let seeded = if other && n == 1 then stop s (first_not_seed n) else named in
    guarded s (not (bytes_eq a.subject s.subject)) (stop s (other_subject n)) seeded (stop-Bad s _)
      (λ e. guarded s (other && n == 1) (stop s (first_not_seed n)) named (stop-Bad s _) (λ _.
        guarded s other (stop s (not_successor n)) grown (stop-Bad s _) (λ o.
          guarded s (not (int_lt s.covered a.entry_count)) (stop s (not_growing n)) late
            (stop-Bad s _)
            (λ g.
              guarded s (int_lt a.created_at_ms s.prev_ms) (stop s (back_in_time n)) s
                (stop-Bad s _)
                (λ l. inr (
                  refl,
                  record {
                    subject_same = bytes_eq_sound _ _ (not-eq_false _ e);
                    named = bytes_eq_sound _ _ (not-eq_false _ o);
                    grows = not-eq_false _ g;
                    later = l;
                  },
                ))))))

abbrev pub Ready : Series → Type 0
Ready s = (s.stopped ≡ false) × ((s.unchecked ≡ true) ⊎ ((s.unchecked ≡ false) × FollowsNext s))

pub check_next-cases :
    (s : Series)
    → s.stopped ≡ false
    → Bad (check_next s) ⊎ ((check_next s ≡ settle s) × FollowsNext s)
check_next-cases s go = elim (Option-cases (get_elem? s.anchors s.next)) [
  | inl over ↦
      let same : check_next s ≡ settle s = unfold check_next in ground arith in
      inr (same, λ a e. absurd (none≢some (sym over ∙ e)))
  | inr (a, here) ↦
      let same : check_next s ≡ check_anchor (settle s) a = unfold check_next in ground arith in
      elim (check_anchor-cases (settle s) a) [
        | inl bad ↦ inl (subst Bad (sym same) bad)
        | inr (kept, f) ↦
            inr
              (same ∙ kept, λ b e. subst (Follows s.subject (prior s)) (some_inj (sym here ∙ e)) f)
      ]
]

pub ensure_checked-cases :
    (s : Series)
    → Ready s
    → Bad (ensure_checked s) ⊎ ((ensure_checked s ≡ settle s) × FollowsNext s)
ensure_checked-cases s (go, inl new) =
    let same : ensure_checked s ≡ check_next s = unfold ensure_checked in ground arith in
    elim (check_next-cases s go) [
      | inl bad ↦ inl (subst Bad (sym same) bad)
      | inr (kept, f) ↦ inr (same ∙ kept, f)
    ]
ensure_checked-cases s (go, inr (old, f)) =
    let same : ensure_checked s ≡ s = unfold ensure_checked in ground arith in
    inr (same ∙ ap (λ (b : Bool). record s { unchecked = b }) old, f)

pub ensure_checked-Bad : (s : Series) → Bad s → Bad (ensure_checked s)
unfolding ensure_checked check_next
ensure_checked-Bad s (stopped, some_problem) = elim (Bool-cases s.unchecked) [
  | inr old ↦ rw (old, ensure_checked) (stopped, some_problem)
  | inl new ↦
      let same : ensure_checked s ≡ settle s = ground arith in
      subst Bad (sym same) (stopped, some_problem)
]

pub finish-Bad :
    (s : Series) (total : Int64) → Bad (ensure_checked s) → (finish s total).problems ≢ []
finish-Bad s total (stopped, some_problem) =
    let same : finish s total ≡ ensure_checked s = unfold finish in ground arith in
    subst (λ (z : Series). z.problems ≢ []) (sym same) some_problem

pub finish-Ready :
    (s : Series) (total : Int64)
    → Ready s
    → (finish s total).problems ≡ []
    → get_elem? s.anchors s.next ≡ none
finish-Ready s total ready clean = elim (ensure_checked-cases s ready) [
  | inl b ↦ absurd (finish-Bad s total b clean)
  | inr (same, f) ↦ elim (Option-cases (get_elem? s.anchors s.next)) [
    | inl over ↦ over
    | inr (a, here) ↦
        let go : s.stopped ≡ false = ready.0 in
        let left : finish s total ≡ stop (settle s) (unreached (suc s.next) a.entry_count total) =
          unfold finish in rw same (ground arith) in
        absurd ((stop-Bad (settle s) _).1 (ap (λ (z : Series). z.problems) (sym left) ∙ clean))
  ]
]
