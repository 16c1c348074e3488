-- ===== src/ChainFormat/Capture/Layout.antt =====
-- The canonical bytes of a capture entry as a list of fields, each in a form that fixes where it ends.
use proof.Prelude.{
  ℕ, ◌+◌, ◌^◌, ◌<◌, ◌≤◌, ◌≡◌, refl, sym, ap, ap₂, ◌∙◌, List, [], ◌∷◌, ◌++◌, append_assoc,
  append-nil, none, false, ltb, if◌then◌else◌, length, length-append, append-injective, map, arith,
}
use proof.Prelude.Bytes.{Bytes}
use proof.Prelude.Int64.{Int64, is_neg}
use proof.Prelude.BigEndian.{
  put_uint32, put_uint64, put_uint32-injective, put_uint64-injective, length-put_uint64,
}
use proof.ChainFormat.CaptureEntry.{Unicode, CaptureRequestV3, entry_type_capture_request_v3}
use proof.ChainFormat.Capture.{V3Encoder, append_u64, append_bool, append_str, encode_canonical_v3}

pub data Item : Type 0 where
  str : Bytes → Item
  word : Int64 → Item

-- A text behind its length, a number as eight bytes.
unfoldable pub put : Item → Bytes
put (str s) = put_uint32 (length s) ++ s
put (word v) = put_uint64 v

unfoldable pub put_all : List Item → Bytes
put_all [] = []
put_all (x ∷ items) = put x ++ put_all items

-- What the encoder takes without an error.
abbrev pub Fits : Item → Type 0
Fits (str s) = length s ≤ 256
Fits (word v) = v < 2 ^ 63

abbrev pub AllFit : List Item → Type 0
AllFit [] = Unit
AllFit (x ∷ items) = Fits x × AllFit items

-- The same kinds of fields in the same order.
abbrev pub SameShape : List Item → List Item → Type 0
SameShape [] [] = Unit
SameShape (str s ∷ xs) (str t ∷ ys) = SameShape xs ys
SameShape (word v ∷ xs) (word w ∷ ys) = SameShape xs ys
SameShape xs ys = ⊥

put-injective :
    (s t r q : Bytes)
    → length s ≤ 256
    → length t ≤ 256
    → put (str s) ++ r ≡ put (str t) ++ q
    → (s ≡ t) × (r ≡ q)
unfolding put put_uint32
put-injective s t r q hs ht e =
    let both =
      append-injective (put_uint32 (length s)) (put_uint32 (length t)) (s ++ r) (t ++ q) refl e in
    let same = put_uint32-injective (length s) (length t) (omega arith) (omega arith) (both.0) in
    append-injective s t r q same (both.1)

-- Fields of the same kinds with the same bytes are the same fields.
pub put_all-injective :
    (xs ys : List Item)
    → SameShape xs ys
    → AllFit xs
    → AllFit ys
    → put_all xs ≡ put_all ys
    → xs ≡ ys
unfolding put_all put
put_all-injective [] [] same hx hy e = refl
put_all-injective [] (y ∷ ys) same hx hy e = elim same [ ]
put_all-injective (str s ∷ xs) [] same hx hy e = elim same [ ]
put_all-injective (str s ∷ xs) (word w ∷ ys) same hx hy e = elim same [ ]
put_all-injective (word v ∷ xs) [] same hx hy e = elim same [ ]
put_all-injective (word v ∷ xs) (str t ∷ ys) same hx hy e = elim same [ ]
put_all-injective (str s ∷ xs) (str t ∷ ys) same (hs, hx) (ht, hy) e =
    let (now, later) = put-injective s t (put_all xs) (put_all ys) hs ht e in
    let rest = put_all-injective xs ys same hx hy later in ap₂ (λ a b. str a ∷ b) now rest
put_all-injective (word v ∷ xs) (word w ∷ ys) same (hv, hx) (hw, hy) e =
    let both =
      append-injective (put_uint64 v) (put_uint64 w) (put_all xs) (put_all ys)
        (length-put_uint64 v ∙ sym (length-put_uint64 w)) e in
    let rest = put_all-injective xs ys same hx hy (both.1) in
    ap₂ (λ a b. word a ∷ b) (put_uint64-injective v w (omega arith) (omega arith) (both.0)) rest

-- The length of the bytes of some fields.
abbrev pub total : List Item → ℕ
total [] = 0
total (str s ∷ items) = 4 + length s + total items
total (word v ∷ items) = 8 + total items

pub length-put_all : (items : List Item) → length (put_all items) ≡ total items
unfolding put_all put put_uint32
length-put_all [] = refl
length-put_all (str s ∷ items) =
    omega (arith, length-append s (put_all items), length-put_all items)
length-put_all (word v ∷ items) =
    omega (
      arith,
      length-append (put_uint64 v) (put_all items),
      length-put_uint64 v,
      length-put_all items,
    )

-- The fields of an entry, before they are normalised.
abbrev pub items : CaptureRequestV3 → List Item
items e =
    str e.subject
    ∷ str entry_type_capture_request_v3
    ∷ str e.signing_key_id
    ∷ word e.timestamp_ms
    ∷ str e.capture_method
    ∷ str e.content_hash
    ∷ str e.dlp
    ∷ str e.encryption_mode
    ∷ str e.model
    ∷ str e.pii_action
    ∷ str e.pii_categories
    ∷ word (if e.pii_detected then 1 else 0)
    ∷ str e.pii_digest_key_version
    ∷ str e.processing_mode
    ∷ str e.provider
    ∷ str e.region
    ∷ str e.source_type
    ∷ str e.trust_level
    ∷ str e.user_id
    ∷ []

module _ (U : Unicode) where
  abbrev pub normal : Item → Item
  normal (str s) = str (U.nfc s)
  normal (word v) = word v

  abbrev step : Item → V3Encoder → V3Encoder
  step (str s) = append_str U s
  step (word v) = append_u64 v

  abbrev run : List Item → V3Encoder → V3Encoder
  run [] enc = enc
  run (x ∷ xs) enc = run xs (step x enc)

  run-items :
      (e : CaptureRequestV3) (enc : V3Encoder) → encode_canonical_v3 U e enc ≡ run (items e) enc
  unfolding encode_canonical_v3 append_bool
  run-items e enc = refl

  abbrev enc_of : Bytes → V3Encoder
  enc_of buf = record { buf = buf; error = none }

  step-ok :
      (x : Item) (buf : Bytes)
      → Fits (normal x)
      → step x (enc_of buf) ≡ enc_of (buf ++ put (normal x))
  unfolding append_str append_u64 put
  step-ok (str s) buf h =
      let short : ltb 256 (length (U.nfc s)) ≡ false = ground arith in
      rw short (ap enc_of (append_assoc buf (put_uint32 (length (U.nfc s))) (U.nfc s)))
  step-ok (word v) buf h = let pos : is_neg v ≡ false = ground arith in rw pos refl

  run-ok :
      (xs : List Item) (buf : Bytes)
      → AllFit (map normal xs)
      → run xs (enc_of buf) ≡ enc_of (buf ++ put_all (map normal xs))
  unfolding put_all
  run-ok [] buf h = ap enc_of (sym (append-nil buf))
  run-ok (x ∷ xs) buf (h, hs) = rw (step-ok x buf h) (
      run-ok xs (buf ++ put (normal x)) hs
      ∙ ap enc_of (append_assoc buf (put (normal x)) (put_all (map normal xs))))

  -- An encoder never fails on fields that fit, and writes them one after the other.
  pub encode_canonical_v3-items :
      (e : CaptureRequestV3)
      → AllFit (map normal (items e))
      → encode_canonical_v3 U e (record { buf = []; error = none })
        ≡ record { buf = put_all (map normal (items e)); error = none }
  encode_canonical_v3-items e h = run-items e (enc_of []) ∙ run-ok (items e) [] h
