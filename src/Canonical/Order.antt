-- ===== src/Canonical/Order.antt =====
-- The order in which a map gives its members does not show in the bytes.
use proof.Prelude.{
  ℕ, suc, ◌≡◌, ◌≢◌, refl, ◌∙◌, subst, List, [], ◌∷◌, none, true, false, ltb, map, inl, inr,
  Bool-cases, Option-cases,
}
use proof.Prelude.Bytes.{Bytes, bytes_eq, bytes_lt}
use proof.Canonical.{
  Json, array, object, Elements, end, element, Members, no_more, member, JsonError, Written, ok,
  err, max_depth, Texts, within_depth, framed, with_comma, join, insert_member, sort_members,
  validate_canonical_string, validate_keys, keyed, write_sorted, write_elements, write_members,
}
use proof.Canonical.Sorting.{insert_member_comm}

-- The same value, with the members of its objects in any order.
mutual
  pub data SameJson : Json → Json → Type 0 where
    same : (v : Json) → SameJson v v
    same_array : {vs ws : Elements} → SameElements vs ws → SameJson (array vs) (array ws)
    same_object : {ms ns : Members} → SameMembers ms ns → SameJson (object ms) (object ns)

  pub data SameElements : Elements → Elements → Type 0 where
    no_element : SameElements end end
    next_element :
        {v w : Json} {vs ws : Elements}
        → SameJson v w
        → SameElements vs ws
        → SameElements (element v vs) (element w ws)

  pub data SameMembers : Members → Members → Type 0 where
    no_member : SameMembers no_more no_more
    next_member :
        (k : Bytes) {v w : Json} {ms ns : Members}
        → SameJson v w
        → SameMembers ms ns
        → SameMembers (member k v ms) (member k w ns)
    swapped :
        (j k : Bytes) (v w : Json) (ms : Members)
        → bytes_eq j k ≡ false
        → SameMembers (member j v (member k w ms)) (member k w (member j v ms))
    chained : {ls ms ns : Members} → SameMembers ls ms → SameMembers ms ns → SameMembers ls ns

abbrev Parts : Type 0
Parts = List (Bytes × Written)

-- What the first gives, the second gives.
abbrev Lead : Written → Written → Type 0
Lead v w = (b : Bytes) → v ≡ ok b → w ≡ ok b

abbrev AllLead : List Written → List Written → Type 0
AllLead [] [] = Unit
AllLead (v ∷ vs) (w ∷ ws) = Lead v w × AllLead vs ws
AllLead vs ws = ⊥

abbrev PartsLead : Parts → Parts → Type 0
PartsLead [] [] = Unit
PartsLead ((j, v) ∷ xs) ((k, w) ∷ ys) = (j ≡ k) × Lead v w × PartsLead xs ys
PartsLead xs ys = ⊥

PartsLead-refl : (xs : Parts) → PartsLead xs xs
PartsLead-refl [] = tt
PartsLead-refl ((j, v) ∷ xs) = (refl, λ b e. e, PartsLead-refl xs)

PartsLead-trans : (xs ys zs : Parts) → PartsLead xs ys → PartsLead ys zs → PartsLead xs zs
PartsLead-trans [] [] [] p q = tt
PartsLead-trans [] [] (z ∷ zs) p q = elim q [ ]
PartsLead-trans [] (y ∷ ys) zs p q = elim p [ ]
PartsLead-trans (x ∷ xs) [] zs p q = elim p [ ]
PartsLead-trans (x ∷ xs) (y ∷ ys) [] p q = elim q [ ]
PartsLead-trans ((i, u) ∷ xs) ((j, v) ∷ ys) ((k, w) ∷ zs) (e, f, p) (e', g, q) =
    (e ∙ e', λ b h. g b (f b h), PartsLead-trans xs ys zs p q)

err≢ok : {e : JsonError} {b : Bytes} → err e ≢ ok b
err≢ok e = cc

abbrev bytes_of : Written → Bytes
bytes_of (ok b) = b
bytes_of (err e) = []

framed-Lead : (l r : ℕ) (v w : Written) → Lead v w → Lead (framed l r v) (framed l r w)
framed-Lead l r (err e) w f b h = absurd (err≢ok h)
framed-Lead l r (ok c) w f b h = rw (f c refl) h

within_depth-Lead : (d : ℕ) (v w : Written) → Lead v w → Lead (within_depth d v) (within_depth d w)
within_depth-Lead d v w f b h = elim (Bool-cases (ltb max_depth d)) [
  | inl deep ↦ absurd (err≢ok (rw deep at h))
  | inr fine ↦ rw fine (f b (rw fine at h))
]

with_comma-Lead : (v w x y : Written) → Lead v w → Lead x y → Lead (with_comma v x) (with_comma w y)
with_comma-Lead (err e) w x y f g b h = absurd (err≢ok h)
with_comma-Lead (ok c) w (err e) y f g b h = absurd (err≢ok h)
with_comma-Lead (ok c) w (ok d) y f g b h = rw (f c refl) (rw (g d refl) h)

join-Lead : (vs ws : List Written) → AllLead vs ws → Lead (join vs) (join ws)
unfolding join
join-Lead [] [] a b h = h
join-Lead [] (w ∷ ws) a b h = elim a [ ]
join-Lead (v ∷ vs) [] a b h = elim a [ ]
join-Lead (v ∷ []) (w ∷ []) (f, a) b h = f b h
join-Lead (v ∷ []) (w ∷ y ∷ ws) (f, a) b h = elim a [ ]
join-Lead (v ∷ x ∷ vs) (w ∷ []) (f, a) b h = elim a [ ]
join-Lead (v ∷ x ∷ vs) (w ∷ y ∷ ws) (f, a) b h =
    with_comma-Lead v w (join (x ∷ vs)) (join (y ∷ ws)) f (join-Lead (x ∷ vs) (y ∷ ws) a) b h

insert_member-PartsLead :
    (k : Bytes) (v w : Written) (xs ys : Parts)
    → Lead v w
    → PartsLead xs ys
    → PartsLead (insert_member (k, v) xs) (insert_member (k, w) ys)
unfolding insert_member
insert_member-PartsLead k v w [] [] f p = (refl, f, tt)
insert_member-PartsLead k v w [] (y ∷ ys) f p = elim p [ ]
insert_member-PartsLead k v w (x ∷ xs) [] f p = elim p [ ]
insert_member-PartsLead k v w ((i, u) ∷ xs) ((j, t) ∷ ys) f (e, g, p) =
    elim (Bool-cases (bytes_lt i k)) [
      | inl less ↦
          let less' : bytes_lt j k ≡ true = subst (λ z. bytes_lt z k ≡ true) e less in
          rw (less, less') (e, g, insert_member-PartsLead k v w xs ys f p)
      | inr more ↦
          let more' : bytes_lt j k ≡ false = subst (λ z. bytes_lt z k ≡ false) e more in
          rw (more, more') (refl, f, (e, g, p))
    ]

module _ (T : Texts) where
  keyed-AllLead : (xs ys : Parts) → PartsLead xs ys → AllLead (map (keyed T) xs) (map (keyed T) ys)
  keyed-AllLead [] [] p = tt
  keyed-AllLead [] (y ∷ ys) p = elim p [ ]
  keyed-AllLead (x ∷ xs) [] p = elim p [ ]
  keyed-AllLead ((j, err e) ∷ xs) ((k, w) ∷ ys) (same_key, f, p) =
      (λ b h. absurd (err≢ok h), keyed-AllLead xs ys p)
  keyed-AllLead ((j, ok c) ∷ xs) ((k, w) ∷ ys) (same_key, f, p) =
      (λ b h. rw (f c refl) (rw (← same_key) h), keyed-AllLead xs ys p)

  validate_keys-member :
      (k : Bytes) (v : Json) (ms : Members)
      → validate_keys T (member k v ms) ≡ none
      → (validate_canonical_string T k ≡ none) × (validate_keys T ms ≡ none)
  unfolding validate_keys
  validate_keys-member k v ms h = elim (Option-cases (validate_canonical_string T k)) [
    | inl fine ↦ (fine, rw (fine, validate_keys) at h)
    | inr (e, bad) ↦ cc (rw (bad, validate_keys) at h)
  ]

  member-validate_keys :
      (k : Bytes) (v : Json) (ms : Members)
      → validate_canonical_string T k ≡ none
      → validate_keys T ms ≡ none
      → validate_keys T (member k v ms) ≡ none
  unfolding validate_keys
  member-validate_keys k v ms fine rest = rw (fine, validate_keys) rest

  keys_same :
      {ms ns : Members} → SameMembers ms ns → validate_keys T ms ≡ none → validate_keys T ns ≡ none
  keys_same no_member h = h
  keys_same (next_member k {v} {w} {ms} {ns} s rest) h =
      let both = validate_keys-member k v ms h in
      member-validate_keys k w ns (both.0) (keys_same rest (both.1))
  keys_same (swapped j k v w ms apart) h =
      let one = validate_keys-member j v (member k w ms) h in
      let two = validate_keys-member k w ms (one.1) in
      member-validate_keys k w (member j v ms) (two.0) (member-validate_keys j v ms (one.0) (two.1))
  keys_same (chained s t) h = keys_same t (keys_same s h)

  object-Lead :
      (d : ℕ) (ms ns : Members)
      → (validate_keys T ms ≡ none → validate_keys T ns ≡ none)
      → PartsLead
          (sort_members (write_members T (suc d) ms))
          (sort_members (write_members T (suc d) ns))
      → Lead (write_sorted T d (object ms)) (write_sorted T d (object ns))
  unfolding write_sorted
  object-Lead d ms ns keys p = within_depth-Lead d _ _ (λ b h.
      elim (Option-cases (validate_keys T ms)) [
        | inr (e, bad) ↦ absurd (err≢ok (rw bad at h))
        | inl fine ↦
            rw (keys fine)
              (framed-Lead b'{' b'}' _ _ (join-Lead _ _ (keyed-AllLead _ _ p)) b (rw fine at h))
      ])

  array-Lead :
      (d : ℕ) (vs ws : Elements)
      → AllLead (write_elements T (suc d) vs) (write_elements T (suc d) ws)
      → Lead (write_sorted T d (array vs)) (write_sorted T d (array ws))
  unfolding write_sorted
  array-Lead d vs ws a = within_depth-Lead d _ _ (framed-Lead b'[' b']' _ _ (join-Lead _ _ a))

  mutual
    unfolding write_elements write_members sort_members

    write_same :
        {v w : Json} → SameJson v w → (d : ℕ) → Lead (write_sorted T d v) (write_sorted T d w)
    write_same (same v) d b h = h
    write_same (same_array {vs} {ws} s) d b h = array-Lead d vs ws (elements_same s (suc d)) b h
    write_same (same_object {ms} {ns} s) d b h =
        object-Lead d ms ns (keys_same s) (members_same s (suc d)) b h

    elements_same :
        {vs ws : Elements}
        → SameElements vs ws
        → (d : ℕ) → AllLead (write_elements T d vs) (write_elements T d ws)
    elements_same no_element d = tt
    elements_same (next_element s rest) d = (write_same s d, elements_same rest d)

    members_same :
        {ms ns : Members}
        → SameMembers ms ns
        → (d : ℕ)
        → PartsLead (sort_members (write_members T d ms)) (sort_members (write_members T d ns))
    members_same no_member d = tt
    members_same (next_member k s rest) d =
        insert_member-PartsLead k _ _ _ _ (write_same s d) (members_same rest d)
    members_same (swapped j k v w ms apart) d =
        rw
          (insert_member_comm j k (write_sorted T d v) (write_sorted T d w)
            (sort_members (write_members T d ms)) apart)
          (PartsLead-refl _)
    members_same (chained s t) d = PartsLead-trans _ _ _ (members_same s d) (members_same t d)

  -- If a value is written, then the same value with the members of its objects in another order is
  -- written as the same bytes.
  pub write_sorted-SameJson :
      {v w : Json} (d : ℕ) (b : Bytes)
      → SameJson v w
      → write_sorted T d v ≡ ok b
      → write_sorted T d w ≡ ok b
  write_sorted-SameJson d b s h = write_same s d b h
