-- ===== src/Verify/Series/Steps.antt =====
-- What one step of a series does: it finds a problem, waits, or goes past an anchor that verified.
use proof.Prelude.{
  ℕ, ◌≡◌, refl, sym, ap, ◌∙◌, subst, List, [], ◌∷◌, Option, some, true, false, not, ◌==◌, ◌||◌,
  get_elem?, arith, ◌⊎◌, inl, inr, Bool-cases, Option-cases,
}
use proof.Prelude.Bytes.{Bytes}
use proof.Hash.{Sha512}
use proof.ChainFormat.Timestamp.{Time}
use proof.Anchor.{Anchor}
use proof.Anchor.Signature.{Crypto, KeySource}
use proof.Verify.{Entry}
use proof.Verify.Walker.{Walker, add}
use proof.Verify.Binding.{BindResult, BindReply, reply, fail, walker_verify_anchor}
use proof.Verify.Series.{
  Series, check_next, move_on, take_anchor, ensure_checked, reached_checked, reached, walk_series,
}
use proof.Verify.Series.Checks.{
  Bad, FollowsNext, settle, Ready, stop-Bad, not-eq_false, both_false, check_next-cases,
  ensure_checked-cases, ensure_checked-Bad,
}

module _ (H : Sha512) (C : Crypto) where
  -- What `take_anchor` takes: a result that is bound and signed.
  pub record Verifies (w : Walker) (a : Anchor) (hash : Bytes) (keys : KeySource) : Type 0 where
    pub res : BindResult
    pub answer : walker_verify_anchor H C w a hash (some keys) ≡ reply res
    pub bound : res.bound ≡ true
    pub signed : res.signature_verified ≡ true
    pub count : w.res.entries_verified ≡ a.entry_count

  pub data Moves (s s' : Series) (w : Walker) : Type 0 where
    bad : Bad s' → Moves s s' w
    kept : s' ≡ settle s → FollowsNext s → Moves s s' w
    moved :
        (a : Anchor)
        → get_elem? s.anchors s.next ≡ some a
        → FollowsNext s
        → Verifies w a s.prev_hash s.keys
        → s' ≡ settle (move_on s a)
        → FollowsNext (move_on s a)
        → Moves s s' w

  take_anchor-cases :
      (s : Series) (a : Anchor) (r : BindReply)
      → s.stopped ≡ false
      → Bad (take_anchor s a r)
        ⊎ ((res : BindResult) × ((r ≡ reply res)
              × (res.bound ≡ true)
              × (res.signature_verified ≡ true)
              × (take_anchor s a r ≡ check_next (move_on s a))))
  unfolding take_anchor
  take_anchor-cases s a (fail res e) go = inl (stop-Bad s _)
  take_anchor-cases s a (reply r) go = elim (Bool-cases (not r.bound || not r.signature_verified)) [
    | inl no_good ↦ rw no_good (inl (stop-Bad s _))
    | inr good ↦
        let both = both_false _ _ good in
        inr (r, (refl, not-eq_false _ both.0, not-eq_false _ both.1, rw good refl))
  ]

  eq_of : {x y : ℕ} → x == y ≡ true → x ≡ y
  eq_of e = ground arith

  Moves-next :
      (s : Series) (w : Walker) (a : Anchor) (r : BindReply)
      → s.stopped ≡ false
      → FollowsNext s
      → get_elem? s.anchors s.next ≡ some a
      → w.res.entries_verified ≡ a.entry_count
      → walker_verify_anchor H C w a s.prev_hash (some s.keys) ≡ r
      → Moves s (take_anchor (settle s) a r) w
  Moves-next s w a r go f here count e = elim (take_anchor-cases (settle s) a r go) [
    | inl b ↦ Moves.bad b
    | inr (res, (is_reply, b, signed, next)) ↦ elim (check_next-cases (move_on (settle s) a) go) [
      | inl b' ↦ Moves.bad (subst Bad (sym next) b')
      | inr (same, f') ↦
          Moves.moved a here f
            (record { res = res; answer = e ∙ is_reply; bound = b; signed = signed; count = count })
            (next ∙ same) f'
    ]
  ]

  Moves-checked :
      (s : Series) (w : Walker)
      → s.stopped ≡ false
      → FollowsNext s
      → Moves s (reached_checked H C (settle s) w) w
  Moves-checked s w go f = elim (Option-cases (get_elem? s.anchors s.next)) [
    | inl over ↦
        let same : reached_checked H C (settle s) w ≡ settle s =
          unfold reached_checked in ground arith in
        Moves.kept same f
    | inr (a, here) ↦ elim (Bool-cases (w.res.entries_verified == a.entry_count)) [
      | inr other ↦
          let same : reached_checked H C (settle s) w ≡ settle s =
            unfold reached_checked in ground arith in
          Moves.kept same f
      | inl count ↦
          let taken : reached_checked H C (settle s) w
              ≡ take_anchor (settle s) a (walker_verify_anchor H C w a s.prev_hash (some s.keys)) =
            unfold reached_checked in ground arith in
          subst (λ s'. Moves s s' w) (sym taken) (Moves-next s w a _ go f here (eq_of count) refl)
    ]
  ]

  reached_checked-stopped :
      (s : Series) (w : Walker) → s.stopped ≡ true → reached_checked H C s w ≡ s
  unfolding reached_checked
  reached_checked-stopped s w h = ground arith

  pub reached-Moves : (s : Series) (w : Walker) → Ready s → Moves s (reached H C s w) w
  unfolding reached
  reached-Moves s w ready = elim (ensure_checked-cases s ready) [
    | inl b ↦ Moves.bad (subst Bad (sym (reached_checked-stopped (ensure_checked s) w (b.0))) b)
    | inr (same, f) ↦
        subst (λ s'. Moves s s' w) (ap (λ z. reached_checked H C z w) (sym same))
          (Moves-checked s w (ready.0) f)
  ]

  -- A stopped series stays as it is, and keeps its problems to the end.
  reached-Bad : (s : Series) (w : Walker) → Bad s → Bad (reached H C s w)
  unfolding reached
  reached-Bad s w b =
      let b' = ensure_checked-Bad s b in
      subst Bad (sym (reached_checked-stopped (ensure_checked s) w (b'.0))) b'

  pub walk_series-Bad :
      (parse : Bytes → Option Time) (entries : List Entry) (s : Series) (w : Walker)
      → Bad s
      → Bad (walk_series H C parse s w entries).0
  unfolding walk_series
  walk_series-Bad parse [] s w b = b
  walk_series-Bad parse (e ∷ entries) s w b =
      let w' = add H parse w e in
      walk_series-Bad parse entries (reached H C s w') w' (reached-Bad s w' b)
