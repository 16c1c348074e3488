-- ===== src/ChainFormat/Capture/Fields.antt =====
-- What the checks of a capture entry leave of its fields: short ASCII texts, which normalisation keeps.
use proof.Prelude.{
  ℕ, ◌≤◌, ◌≡◌, refl, subst, List, [], ◌∷◌, Option, none, some, Bool, true, false, ltb, leb, ◌&&◌,
  not, length, all, arith, inl, inr, Bool-cases,
}
use proof.Prelude.Bytes.{Bytes, bytes_eq, bytes_eq_sound, is_hex}
use proof.ChainFormat.CaptureEntry.{CaptureError}
use proof.ChainFormat.CaptureRules.{
  first_error, reject_if, matches, id_class, key_version_class, provenance_class, provider_class,
  region_class, is_allowed, is_sha512_hex, validate_optional_hex_digest,
}

abbrev pub AllNone : List (Option CaptureError) → Type 0
AllNone [] = Unit
AllNone (c ∷ cs) = (c ≡ none) × AllNone cs

pub first_error-AllNone : (cs : List (Option CaptureError)) → first_error cs ≡ none → AllNone cs
unfolding first_error
first_error-AllNone [] e = tt
first_error-AllNone (none ∷ cs) e = (refl, first_error-AllNone cs e)
first_error-AllNone (some x ∷ cs) e = cc

pub reject_if-none : (b : Bool) (x : CaptureError) → reject_if b x ≡ none → b ≡ false
reject_if-none false x e = refl
reject_if-none true x e = cc

pub kept : (b : Bool) (x : CaptureError) → reject_if (not b) x ≡ none → b ≡ true
kept true x e = refl
kept false x e = cc

abbrev pub is_ascii : ℕ → Bool
is_ascii c = ltb c 128

pub record Short (n : ℕ) (s : Bytes) : Type 0 where
  pub size : length s ≤ n
  pub ascii : all is_ascii s ≡ true

all-is_ascii :
    (class : ℕ → Bool) (s : Bytes)
    → ((c : ℕ) → class c ≡ true → is_ascii c ≡ true)
    → all class s ≡ true
    → all is_ascii s ≡ true
all-is_ascii class [] h e = refl
all-is_ascii class (c ∷ s) h e =
    let rest = all-is_ascii class s h (ground arith) in let now = h c (ground arith) in ground arith

pub matches-Short :
    (class : ℕ → Bool) (lo hi : ℕ) (s : Bytes)
    → ((c : ℕ) → class c ≡ true → is_ascii c ≡ true)
    → matches class lo hi s ≡ true
    → Short hi s
unfolding matches
matches-Short class lo hi s h e = record {
  size = ground arith;
  ascii = all-is_ascii class s h (ground arith);
}

pub id_class-is_ascii : (c : ℕ) → id_class c ≡ true → is_ascii c ≡ true
unfolding id_class
id_class-is_ascii c h = ground arith

pub key_version_class-is_ascii : (c : ℕ) → key_version_class c ≡ true → is_ascii c ≡ true
unfolding key_version_class
key_version_class-is_ascii c h = ground arith

pub provenance_class-is_ascii : (c : ℕ) → provenance_class c ≡ true → is_ascii c ≡ true
unfolding provenance_class
provenance_class-is_ascii c h = ground arith

pub provider_class-is_ascii : (c : ℕ) → provider_class c ≡ true → is_ascii c ≡ true
unfolding provider_class
provider_class-is_ascii c h = ground arith

pub region_class-is_ascii : (c : ℕ) → region_class c ≡ true → is_ascii c ≡ true
unfolding region_class
region_class-is_ascii c h = ground arith

is_hex-is_ascii : (c : ℕ) → is_hex c ≡ true → is_ascii c ≡ true
unfolding is_hex
is_hex-is_ascii c h = ground arith

pub is_sha512_hex-Short : (s : Bytes) → is_sha512_hex s ≡ true → Short 128 s
unfolding is_sha512_hex
is_sha512_hex-Short s h = matches-Short is_hex 128 128 s is_hex-is_ascii h

pub optional-Short : (name s : Bytes) → validate_optional_hex_digest name s ≡ none → Short 128 s
unfolding validate_optional_hex_digest
optional-Short name [] e = record { size = omega arith; ascii = refl }
optional-Short name (c ∷ s) e = is_sha512_hex-Short (c ∷ s) (kept _ _ e)

-- A property of every word of a vocabulary.
is_allowed-all :
    (p : Bytes → Bool) (words : List Bytes) (s : Bytes)
    → all p words ≡ true
    → is_allowed words s ≡ true
    → p s ≡ true
unfolding is_allowed
is_allowed-all p [] s h e = cc
is_allowed-all p (w ∷ words) s h e = elim (Bool-cases (bytes_eq w s)) [
  | inl same ↦ subst (λ z. p z ≡ true) (bytes_eq_sound w s same) (ground arith)
  | inr other ↦ is_allowed-all p words s (ground arith) (ground arith)
]

abbrev is_short : ℕ → Bytes → Bool
is_short n s = leb (length s) n && all is_ascii s

pub is_allowed-Short :
    (n : ℕ) (words : List Bytes) (s : Bytes)
    → all (is_short n) words ≡ true
    → is_allowed words s ≡ true
    → Short n s
is_allowed-Short n words s h e =
    let short = is_allowed-all (is_short n) words s h e in
    record { size = ground arith; ascii = ground arith }
