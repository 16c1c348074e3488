-- ===== src/Canonical/Writable.antt =====
-- Which values are written.
use proof.Prelude.{
  ℕ, suc, ◌≤◌, ◌≡◌, ◌↔◌, refl, List, [], ◌∷◌, Option, none, some, true, false, ltb, map, inl, inr,
  Bool-cases, Option-cases, arith, ltb→lt, ltb-false→le,
}
use proof.Prelude.Bytes.{Bytes, codes, bytes_lt}
use proof.Canonical.{
  Json, null, boolean, number, float, text, array, object, Elements, end, element, Members, no_more,
  member, JsonError, Written, ok, err, max_depth, Texts, is_float, within_depth, framed, with_comma,
  join, insert_member, sort_members, validate_canonical_string, validate_keys, keyed, unless_error,
  write_sorted, write_elements, write_members,
}

abbrev pub IsOk : Written → Type 0
IsOk (ok b) = Unit
IsOk (err e) = ⊥

abbrev AllOk : List Written → Type 0
AllOk [] = Unit
AllOk (w ∷ ws) = IsOk w × AllOk ws

abbrev Parts : Type 0
Parts = List (Bytes × Written)

abbrev PartsOk : Parts → Type 0
PartsOk [] = Unit
PartsOk ((k, w) ∷ ms) = IsOk w × PartsOk ms

within_depth-IsOk : (d : ℕ) (w : Written) → IsOk (within_depth d w) ↔ ((d ≤ 64) × IsOk w)
within_depth-IsOk d w = elim (Bool-cases (ltb max_depth d)) [
  | inl deep ↦ rw deep (λ b. elim b [ ], λ both. omega (arith, both.0, ltb→lt _ _ deep))
  | inr fine ↦ rw fine (λ b. (omega (arith, ltb-false→le _ _ fine), b), λ both. both.1)
]

framed-IsOk : (l r : ℕ) (w : Written) → IsOk (framed l r w) ↔ IsOk w
framed-IsOk l r (ok b) = (λ x. x, λ x. x)
framed-IsOk l r (err e) = (λ x. x, λ x. x)

with_comma-IsOk : (v w : Written) → IsOk (with_comma v w) ↔ (IsOk v × IsOk w)
with_comma-IsOk (ok b) (ok c) = (λ x. (tt, tt), λ x. tt)
with_comma-IsOk (ok b) (err e) = (λ x. (tt, x), λ x. x.1)
with_comma-IsOk (err e) w = (λ x. elim x [ ], λ x. x.0)

join-IsOk : (ws : List Written) → IsOk (join ws) ↔ AllOk ws
unfolding join
join-IsOk [] = (λ x. tt, λ x. tt)
join-IsOk (w ∷ []) = (λ x. (x, tt), λ x. x.0)
join-IsOk (w ∷ v ∷ ws) =
    let rest = join-IsOk (v ∷ ws) in
    let both = with_comma-IsOk w (join (v ∷ ws)) in
    (λ x. let p = both.0 x in (p.0, rest.0 (p.1)), λ x. both.1 (x.0, rest.1 (x.1)))

insert_member-PartsOk :
    (k : Bytes) (w : Written) (ms : Parts)
    → PartsOk (insert_member (k, w) ms) ↔ (IsOk w × PartsOk ms)
unfolding insert_member
insert_member-PartsOk k w [] = (λ x. x, λ x. x)
insert_member-PartsOk k w ((j, v) ∷ ms) =
    let rest = insert_member-PartsOk k w ms in
    elim (Bool-cases (bytes_lt j k)) [
      | inl less ↦
          rw less
            (λ x. let p = rest.0 (x.1) in (p.0, (x.0, p.1)), λ x. (x.1.0, rest.1 (x.0, x.1.1)))
      | inr more ↦ rw more (λ x. x, λ x. x)
    ]

sort_members-PartsOk : (ms : Parts) → PartsOk (sort_members ms) ↔ PartsOk ms
unfolding sort_members
sort_members-PartsOk [] = (λ x. x, λ x. x)
sort_members-PartsOk ((k, w) ∷ ms) =
    let rest = sort_members-PartsOk ms in
    let here = insert_member-PartsOk k w (sort_members ms) in
    (λ x. let p = here.0 x in (p.0, rest.0 (p.1)), λ x. here.1 (x.0, rest.1 (x.1)))

module _ (T : Texts) where
  -- A text of valid UTF-8 in normal form.
  abbrev pub IsText : Bytes → Type 0
  IsText s = (T.valid_utf8 s ≡ true) × (T.is_nfc s ≡ true)

  -- A value that nests no deeper than 64 from the given depth on, with integers for numbers and texts
  -- in normal form for strings and keys.
  unfoldable mutual
    pub IsWritable : ℕ → Json → Type 0
    IsWritable d null = d ≤ 64
    IsWritable d (boolean b) = d ≤ 64
    IsWritable d (number s) = (d ≤ 64) × (is_float s ≡ false)
    IsWritable d float = ⊥
    IsWritable d (text s) = (d ≤ 64) × IsText s
    IsWritable d (array vs) = (d ≤ 64) × AllWritable (suc d) vs
    IsWritable d (object ms) = (d ≤ 64) × MembersWritable (suc d) ms

    pub AllWritable : ℕ → Elements → Type 0
    AllWritable d end = Unit
    AllWritable d (element v vs) = IsWritable d v × AllWritable d vs

    pub MembersWritable : ℕ → Members → Type 0
    MembersWritable d no_more = Unit
    MembersWritable d (member k v ms) = IsText k × IsWritable d v × MembersWritable d ms

  validate_canonical_string-IsText : (s : Bytes) → (validate_canonical_string T s ≡ none) ↔ IsText s
  unfolding validate_canonical_string
  validate_canonical_string-IsText s = ground arith

  unless_error-IsOk :
      (o : Option JsonError) (w : Written) → IsOk (unless_error T o w) ↔ ((o ≡ none) × IsOk w)
  unless_error-IsOk none w = (λ x. (refl, x), λ x. x.1)
  unless_error-IsOk (some e) w = (λ x. elim x [ ], λ x. cc (x.0))

  keyed-AllOk : (ms : Parts) → AllOk (map (keyed T) ms) ↔ PartsOk ms
  keyed-AllOk [] = (λ x. x, λ x. x)
  keyed-AllOk ((k, ok b) ∷ ms) =
      let rest = keyed-AllOk ms in (λ x. (tt, rest.0 (x.1)), λ x. (tt, rest.1 (x.1)))
  keyed-AllOk ((k, err e) ∷ ms) = (λ x. elim (x.0) [ ], λ x. elim (x.0) [ ])

  validate_keys-none : validate_keys T no_more ≡ none
  unfolding validate_keys
  validate_keys-none = refl

  validate_keys-member :
      (k : Bytes) (v : Json) (ms : Members)
      → (validate_keys T (member k v ms) ≡ none)
        ↔ ((validate_canonical_string T k ≡ none) × (validate_keys T ms ≡ none))
  unfolding validate_keys
  validate_keys-member k v ms = elim (Option-cases (validate_canonical_string T k)) [
    | inl fine ↦ rw (fine, validate_keys) (λ h. (refl, h), λ x. x.1)
    | inr (e, bad) ↦ rw (bad, validate_keys) (λ h. cc h, λ x. cc (x.0))
  ]

  mutual
    unfolding write_sorted write_elements write_members IsWritable

    written : (d : ℕ) (v : Json) → IsOk (write_sorted T d v) ↔ IsWritable d v
    written d null =
        let w = within_depth-IsOk d (ok (codes "null")) in (λ x. (w.0 x).0, λ x. w.1 (x, tt))
    written d (boolean true) =
        let w = within_depth-IsOk d (ok (codes "true")) in (λ x. (w.0 x).0, λ x. w.1 (x, tt))
    written d (boolean false) =
        let w = within_depth-IsOk d (ok (codes "false")) in (λ x. (w.0 x).0, λ x. w.1 (x, tt))
    written d (number s) = elim (Bool-cases (is_float s)) [
      | inl pointed ↦
          rw (pointed, write_sorted) (λ x. elim ((within_depth-IsOk d _).0 x).1 [ ], λ x. cc (x.1))
      | inr whole ↦
          rw (whole, write_sorted)
            (
              λ x. (((within_depth-IsOk d (ok s)).0 x).0, refl),
              λ x. (within_depth-IsOk d (ok s)).1 (x.0, tt),
            )
    ]
    written d float = (λ x. ((within_depth-IsOk d _).0 x).1, λ x. elim x [ ])
    written d (text s) =
        let w =
          within_depth-IsOk d (unless_error T (validate_canonical_string T s) (ok (T.quote s))) in
        let u = unless_error-IsOk (validate_canonical_string T s) (ok (T.quote s)) in
        let t = validate_canonical_string-IsText s in
        (λ x. let p = w.0 x in (p.0, t.0 ((u.0 (p.1)).0)), λ x. w.1 (x.0, u.1 (t.1 (x.1), tt)))
    written d (array vs) =
        let parts = write_elements T (suc d) vs in
        let w = within_depth-IsOk d (framed b'[' b']' (join parts)) in
        let f = framed-IsOk b'[' b']' (join parts) in
        let j = join-IsOk parts in
        let all = written_elements (suc d) vs in
        (
          λ x. let p = w.0 x in (p.0, all.0 (j.0 (f.0 (p.1)))),
          λ x. w.1 (x.0, f.1 (j.1 (all.1 (x.1)))),
        )
    written d (object ms) =
        let parts = write_members T (suc d) ms in
        let whole = framed b'{' b'}' (join (map (keyed T) (sort_members parts))) in
        let w = within_depth-IsOk d (unless_error T (validate_keys T ms) whole) in
        let u = unless_error-IsOk (validate_keys T ms) whole in
        let f = framed-IsOk b'{' b'}' (join (map (keyed T) (sort_members parts))) in
        let j = join-IsOk (map (keyed T) (sort_members parts)) in
        let k = keyed-AllOk (sort_members parts) in
        let s = sort_members-PartsOk parts in
        let all = written_members (suc d) ms in
        (
          λ x.
              let p = w.0 x in let q = u.0 (p.1) in (p.0, all.0 (q.0, s.0 (k.0 (j.0 (f.0 (q.1)))))),
          λ x. let q = all.1 (x.1) in w.1 (x.0, u.1 (q.0, f.1 (j.1 (k.1 (s.1 (q.1)))))),
        )

    written_elements : (d : ℕ) (vs : Elements) → AllOk (write_elements T d vs) ↔ AllWritable d vs
    written_elements d end = (λ x. x, λ x. x)
    written_elements d (element v vs) =
        let now = written d v in
        let rest = written_elements d vs in
        (λ x. (now.0 (x.0), rest.0 (x.1)), λ x. (now.1 (x.0), rest.1 (x.1)))

    written_members :
        (d : ℕ) (ms : Members)
        → ((validate_keys T ms ≡ none) × PartsOk (write_members T d ms)) ↔ MembersWritable d ms
    written_members d no_more = (λ x. tt, λ x. (validate_keys-none, tt))
    written_members d (member k v ms) =
        let now = written d v in
        let rest = written_members d ms in
        let keys = validate_keys-member k v ms in
        let t = validate_canonical_string-IsText k in
        (
          λ x. let p = keys.0 (x.0) in (t.0 (p.0), now.0 (x.1.0), rest.0 (p.1, x.1.1)),
          λ x. let q = rest.1 (x.2) in (keys.1 (t.1 (x.0), q.0), (now.1 (x.1), q.1)),
        )

  -- A value is written exactly when it nests no deeper than 64, its numbers are integers, and its
  -- strings and keys are valid UTF-8 in normal form.
  pub write_sorted-IsWritable : (v : Json) → IsOk (write_sorted T 0 v) ↔ IsWritable 0 v
  write_sorted-IsWritable v = written 0 v
