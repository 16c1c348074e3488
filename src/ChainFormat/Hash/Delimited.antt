-- ===== src/ChainFormat/Hash/Delimited.antt =====
-- The '|' between the fields of a preimage says where each field ends.
use proof.Prelude.{
  ℕ, zero, suc, ◌^◌, ◌<◌, ◌≡◌, ◌≢◌, refl, sym, ap, ◌∙◌, [], ◌∷◌, ◌++◌, append_assoc, none, some,
  true, false, ◌||◌, arith, all, get_elem?, replicate,
}
use proof.Prelude.Bytes.{cut_at, Bytes, contains, is_hex}
use proof.Prelude.Int64.{Int64, format_int}
use proof.Prelude.Decimal.{format_int-injective, contains-format_int, contains-digits_onto}
use proof.ChainFormat.Timestamp.{
  Time, append_timestamp_micro, append_int_padded, padded_digits, zero_padded,
}
use proof.ChainFormat.Hash.{
  chain_hash_input, chain_hash_input_v3, chain_hash_prefix, chain_hash_prefix_v3,
}

contains-append : (a b : Bytes) (c : ℕ) → contains (a ++ b) c ≡ (contains a c || contains b c)
unfolding contains
contains-append [] b c = refl
contains-append (x ∷ a) b c = ground (arith, contains-append a b c)

contains-replicate : (n c : ℕ) → b'9' < c → contains (replicate n b'0') c ≡ false
unfolding contains
contains-replicate zero c h = refl
contains-replicate (suc n) c h = ground (arith, contains-replicate n c h)

-- A lowercase hex text holds no '|'.
pub all-is_hex-contains : (s : Bytes) → all is_hex s ≡ true → contains s b'|' ≡ false
unfolding contains is_hex
all-is_hex-contains [] h = refl
all-is_hex-contains (c ∷ s) h = ground (arith, all-is_hex-contains s)

contains-padded_digits : (v c : ℕ) → b'9' < c → contains (padded_digits v) c ≡ false
unfolding padded_digits contains
contains-padded_digits v c h = ground (arith, contains-digits_onto 20 v [] c)

no_bar_zeros : (n : ℕ) → contains (replicate n b'0') b'|' ≡ false
no_bar_zeros n = contains-replicate n b'|' (omega arith)

no_bar_digits : (v : ℕ) → contains (padded_digits v) b'|' ≡ false
no_bar_digits v = contains-padded_digits v b'|' (omega arith)

-- The timestamp alone.
abbrev pub timestamp_text : Time → Bytes
timestamp_text t = append_timestamp_micro [] t

append_timestamp_lem :
    (buf : Bytes) (t : Time) → append_timestamp_micro buf t ≡ buf ++ timestamp_text t
unfolding append_timestamp_micro append_int_padded
append_timestamp_lem buf t = simp append_assoc

contains-timestamp : (t : Time) → contains (timestamp_text t) b'|' ≡ false
unfolding append_timestamp_micro append_int_padded contains
contains-timestamp t = unfold zero_padded in simp (contains-append, no_bar_zeros, no_bar_digits)

no_bar_format : (x : Int64) → contains (format_int x) b'|' ≡ false
no_bar_format x = contains-format_int x b'|' (omega arith)

chain_hash_input_v3_lem :
    (p : Bytes) (g : Int64) (t : Time) (c : Bytes)
    → chain_hash_input_v3 p g t c
      ≡ chain_hash_prefix_v3
        ++ (p ++ b'|' ∷ (format_int g ++ b'|' ∷ (timestamp_text t ++ b'|' ∷ c)))
unfolding chain_hash_input_v3
chain_hash_input_v3_lem p g t c = rw append_timestamp_lem (simp append_assoc)

chain_hash_input_lem :
    (p r : Bytes) (n : Int64) (t : Time) (c : Bytes)
    → chain_hash_input p r n t c
      ≡ chain_hash_prefix
        ++ (p ++ b'|' ∷ (r ++ b'|' ∷ (format_int n ++ b'|' ∷ (timestamp_text t ++ b'|' ∷ c))))
unfolding chain_hash_input
chain_hash_input_lem p r n t c = rw append_timestamp_lem (simp append_assoc)

-- The fields that a v3 preimage binds.
pub record SameV3 (p q : Bytes) (g h : Int64) (t u : Time) (c d : Bytes) : Type 0 where
  pub previous : p ≡ q
  pub global_seq : g ≡ h
  pub timestamp : timestamp_text t ≡ timestamp_text u
  pub content : c ≡ d

-- The fields that a v2 preimage binds.
pub record SameV2 (p q r s : Bytes) (m n : Int64) (t u : Time) (c d : Bytes) : Type 0 where
  pub previous : p ≡ q
  pub run_id : r ≡ s
  pub sequence_num : m ≡ n
  pub timestamp : timestamp_text t ≡ timestamp_text u
  pub content : c ≡ d

-- The digit of the domain prefix.
abbrev version_byte : Bytes → ℕ
version_byte s = elim (get_elem? s 16) [ none ↦ 0 | some c ↦ c ]

drop_prefix : (prefix a b : Bytes) → prefix ++ a ≡ prefix ++ b → a ≡ b
drop_prefix [] a b e = e
drop_prefix (x ∷ prefix) a b e = drop_prefix prefix a b (cc)

-- Equal v3 preimages have equal fields, where the previous hashes hold no separator and the numbers
-- are below 2^64.
pub chain_hash_input_v3-injective :
    (p q : Bytes) (g h : Int64) (t u : Time) (c d : Bytes)
    → contains p b'|' ≡ false
    → contains q b'|' ≡ false
    → g < 2 ^ 64
    → h < 2 ^ 64
    → chain_hash_input_v3 p g t c ≡ chain_hash_input_v3 q h u d
    → SameV3 p q g h t u c d
chain_hash_input_v3-injective p q g h t u c d hp hq hg hh e =
    let whole =
      drop_prefix chain_hash_prefix_v3 _ _
        (sym (chain_hash_input_v3_lem p g t c) ∙ e ∙ chain_hash_input_v3_lem q h u d) in
    let first = cut_at b'|' p _ q _ hp hq whole in
    let second =
      cut_at b'|' (format_int g) _ (format_int h) _ (no_bar_format g) (no_bar_format h) first.1 in
    let third =
      cut_at b'|' (timestamp_text t) c (timestamp_text u) d (contains-timestamp t)
        (contains-timestamp u) second.1 in
    record {
      previous = first.0;
      global_seq = format_int-injective g h hg hh second.0;
      timestamp = third.0;
      content = third.1;
    }

-- Equal v2 preimages have equal fields, where previous hashes and run ids hold no separator and the
-- numbers are below 2^64.
pub chain_hash_input-injective :
    (p q r s : Bytes) (m n : Int64) (t u : Time) (c d : Bytes)
    → contains p b'|' ≡ false
    → contains q b'|' ≡ false
    → contains r b'|' ≡ false
    → contains s b'|' ≡ false
    → m < 2 ^ 64
    → n < 2 ^ 64
    → chain_hash_input p r m t c ≡ chain_hash_input q s n u d
    → SameV2 p q r s m n t u c d
chain_hash_input-injective p q r s m n t u c d hp hq hr hs hm hn e =
    let whole =
      drop_prefix chain_hash_prefix _ _
        (sym (chain_hash_input_lem p r m t c) ∙ e ∙ chain_hash_input_lem q s n u d) in
    let first = cut_at b'|' p _ q _ hp hq whole in
    let second = cut_at b'|' r _ s _ hr hs first.1 in
    let third =
      cut_at b'|' (format_int m) _ (format_int n) _ (no_bar_format m) (no_bar_format n) second.1 in
    let fourth =
      cut_at b'|' (timestamp_text t) c (timestamp_text u) d (contains-timestamp t)
        (contains-timestamp u) third.1 in
    record {
      previous = first.0;
      run_id = second.0;
      sequence_num = format_int-injective m n hm hn third.0;
      timestamp = fourth.0;
      content = fourth.1;
    }

-- A v2 preimage is never a v3 preimage: the domain prefixes differ.
pub chain_hash_input-ne-v3 :
    (p q r : Bytes) (m g : Int64) (t u : Time) (c d : Bytes)
    → chain_hash_input p r m t c ≢ chain_hash_input_v3 q g u d
chain_hash_input-ne-v3 p q r m g t u c d e =
    let joined = sym (chain_hash_input_lem p r m t c) ∙ e ∙ chain_hash_input_v3_lem q g u d in
    absurd (omega (arith, ap version_byte joined))
