-- ===== src/Canonical.antt =====
-- canonical/json.go: JSON with sorted keys. A value is a decoded one; an object lists its members in
-- some order, since a Go map has none. The tests of utf8 and norm, and the quoting of a text by
-- encoding/json, are parameters, as is its pass from a value to a decoded one.
pub mod Sorting
pub mod Order
pub mod Writable
use proof.Prelude.{
  ℕ, suc, List, [], ◌∷◌, ◌++◌, Option, none, some, Bool, true, false, ltb, not, ◌==◌, ◌||◌,
  if◌then◌else◌, map,
}
use proof.Prelude.Bytes.{Bytes, codes, bytes_lt}

mutual
  pub data Json : Type 0 where
    null : Json
    boolean : Bool → Json
    number : Bytes → Json
    float : Json
    text : Bytes → Json
    array : Elements → Json
    object : Members → Json

  pub data Elements : Type 0 where
    end : Elements
    element : Json → Elements → Elements

  pub data Members : Type 0 where
    no_more : Members
    member : Bytes → Json → Members → Members

pub data JsonError : Type 0 where
  max_depth_exceeded float_not_allowed lone_surrogate not_nfc decode_failed : JsonError

pub data Written : Type 0 where
  ok : Bytes → Written
  err : JsonError → Written

abbrev pub max_depth : ℕ
max_depth = 64

pub record Texts : Type 0 where
  pub valid_utf8 : Bytes → Bool
  pub is_nfc : Bytes → Bool
  pub quote : Bytes → Bytes
  -- encode, then decode with `UseNumber`
  pub decoded : Json → Option Json

-- A number with a point or an exponent.
unfoldable pub is_float : Bytes → Bool
is_float [] = false
is_float (c ∷ s) = c == b'.' || c == b'e' || c == b'E' || is_float s

-- What follows is written only at an allowed depth.
abbrev pub within_depth : ℕ → Written → Written
within_depth depth w = if ltb max_depth depth then err max_depth_exceeded else w

abbrev pub framed : ℕ → ℕ → Written → Written
framed left right (ok b) = ok (left ∷ (b ++ right ∷ []))
framed left right (err e) = err e

abbrev pub with_comma : Written → Written → Written
with_comma (ok b) (ok c) = ok (b ++ b',' ∷ c)
with_comma (ok b) (err e) = err e
with_comma (err e) w = err e

-- Parts with commas between them, or the first error among them.
unfoldable pub join : List Written → Written
join [] = ok []
join (w ∷ []) = w
join (w ∷ v ∷ parts) = with_comma w (join (v ∷ parts))

-- `sort.Strings` of the keys, each with what is written for its value.
unfoldable pub insert_member : Bytes × Written → List (Bytes × Written) → List (Bytes × Written)
insert_member m [] = m ∷ []
insert_member (k, w) ((j, v) ∷ ms) =
    let rest = insert_member (k, w) ms in
    if bytes_lt j k then (j, v) ∷ rest else (k, w) ∷ (j, v) ∷ ms

unfoldable pub sort_members : List (Bytes × Written) → List (Bytes × Written)
unfolding insert_member
sort_members [] = []
sort_members (m ∷ ms) = insert_member m (sort_members ms)

module _ (T : Texts) where
  unfoldable pub validate_canonical_string : Bytes → Option JsonError
  validate_canonical_string s =
      if not (T.valid_utf8 s)
      then some lone_surrogate
      else if not (T.is_nfc s)
      then some not_nfc
      else none

  -- The keys of an object, in the order of the map's iteration.
  unfoldable pub validate_keys : Members → Option JsonError
  unfolding validate_canonical_string
  validate_keys no_more = none
  validate_keys (member k v ms) =
      let rest = validate_keys ms in
      elim (validate_canonical_string k) [ none ↦ rest | some e ↦ some e ]

  -- A key, a colon and a value.
  abbrev pub keyed : Bytes × Written → Written
  keyed (k, ok b) = ok (T.quote k ++ b':' ∷ b)
  keyed (k, err e) = err e

  abbrev pub unless_error : Option JsonError → Written → Written
  unless_error none w = w
  unless_error (some e) w = err e

  -- The values of an object are written in the order of the sorted keys, so that an error is the first
  -- in that order.
  unfoldable mutual
    unfolding is_float join sort_members validate_canonical_string validate_keys

    pub write_sorted : ℕ → Json → Written
    write_sorted depth null = within_depth depth (ok (codes "null"))
    write_sorted depth (boolean true) = within_depth depth (ok (codes "true"))
    write_sorted depth (boolean false) = within_depth depth (ok (codes "false"))
    write_sorted depth (number s) =
        within_depth depth (if is_float s then err float_not_allowed else ok s)
    write_sorted depth float = within_depth depth (err float_not_allowed)
    write_sorted depth (text s) =
        within_depth depth (unless_error (validate_canonical_string s) (ok (T.quote s)))
    write_sorted depth (array vs) =
        within_depth depth (framed b'[' b']' (join (write_elements (suc depth) vs)))
    write_sorted depth (object ms) = within_depth depth (
        unless_error (validate_keys ms)
          (framed b'{' b'}' (join (map keyed (sort_members (write_members (suc depth) ms))))))

    pub write_elements : ℕ → Elements → List Written
    write_elements depth end = []
    write_elements depth (element v vs) = write_sorted depth v ∷ write_elements depth vs

    pub write_members : ℕ → Members → List (Bytes × Written)
    write_members depth no_more = []
    write_members depth (member k v ms) = (k, write_sorted depth v) ∷ write_members depth ms

  -- `validateInputStrings` of a generic value.
  unfoldable mutual
    unfolding validate_canonical_string

    pub validate_input_strings : ℕ → Json → Option JsonError
    validate_input_strings depth (text s) =
        if ltb max_depth depth then some max_depth_exceeded else validate_canonical_string s
    validate_input_strings depth (array vs) =
        let inner = validate_elements (suc depth) vs in
        if ltb max_depth depth then some max_depth_exceeded else inner
    validate_input_strings depth (object ms) =
        let inner = validate_members (suc depth) ms in
        if ltb max_depth depth then some max_depth_exceeded else inner
    validate_input_strings depth _ = if ltb max_depth depth then some max_depth_exceeded else none

    pub validate_elements : ℕ → Elements → Option JsonError
    validate_elements depth end = none
    validate_elements depth (element v vs) =
        let rest = validate_elements depth vs in
        elim (validate_input_strings depth v) [ none ↦ rest | some e ↦ some e ]

    pub validate_members : ℕ → Members → Option JsonError
    validate_members depth no_more = none
    validate_members depth (member k v ms) =
        let inner = validate_input_strings depth v in
        let rest = validate_members depth ms in
        elim (validate_canonical_string k) [
          | some e ↦ some e
          | none ↦ elim inner [ none ↦ rest | some e ↦ some e ]
        ]

  -- `MarshalJSON` of a generic value.
  unfoldable pub marshal_json : Json → Written
  marshal_json v =
      unless_error (validate_input_strings 0 v)
        (elim (T.decoded v) [ none ↦ err decode_failed | some generic ↦ write_sorted 0 generic ])
