-- ===== src/Verify/History/Same.antt =====
-- Two intact chains with one head have one history.
use proof.Prelude.{
  ℕ, zero, suc, ◌-◌, ◌^◌, ◌<◌, ◌≤◌, ◌≡◌, ◌≢◌, refl, sym, ap, ◌∙◌, subst, List, [], ◌∷◌, Option,
  some, true, false, length, arith, ◌⊎◌, inl, inr, In, take, drop, length-drop,
}
use proof.Prelude.Bytes.{Bytes}
use proof.Hash.{Sha512, NoClash, hex_encode}
use proof.ChainFormat.Timestamp.{Time}
use proof.ChainFormat.Tombstone.{is_tombstone}
use proof.ChainFormat.Hash.{
  chain_hash_input, chain_hash_input_v3, compute_chain_hash_unchecked,
  compute_chain_hash_v3_unchecked,
}
use proof.ChainFormat.Hash.Delimited.{
  chain_hash_input_v3-injective, chain_hash_input-injective, chain_hash_input-ne-v3, timestamp_text,
}
use proof.Verify.{Entry, Options, Result, intact}
use proof.Verify.Walker.{format_timestamp, chain_hash_pattern, chain}
use proof.Verify.Walker.Links.{
  Link, Linked, IsHashedV3, IsHashedV2, erased, hashed_v3, hashed_v2, chain-intact,
}
use proof.Hash.{hex_encode-injective}
use proof.Verify.History.{
  hash_input, hash_inputs, SameEntry, SameHistory, IsUnerased, head_hash, ReadsNoSign, valid_v2,
  valid_v3, format_timestamp-eq,
}

NoClash-symm : (H : Sha512) (xs ys : List Bytes) → NoClash H xs ys → NoClash H ys xs
NoClash-symm H xs ys apart a b ia ib e = sym (apart b a ib ia (sym e))

lt_trichotomy : (m n : ℕ) → (m < n) ⊎ ((m ≡ n) ⊎ (n < m))
lt_trichotomy m n = grind arith

module _ (H : Sha512) (parse : Bytes → Option Time) (reads : ReadsNoSign parse) where
  -- The stored text of a timestamp is the hashed one.
  spelled_text :
      (s : Bytes) (t : Time) → parse s ≡ some t → format_timestamp t ≡ s → s ≡ timestamp_text t
  spelled_text s t parsed spelled =
      sym spelled ∙ format_timestamp-eq t (reads t (ap parse spelled ∙ parsed))

  hash_input-v3 :
      (p : Bytes) (e : Entry) (t : Time)
      → IsHashedV3 H parse p e t
      → hash_input parse p e ≡ chain_hash_input_v3 p e.global_seq t e.content_hash
  unfolding hash_input
  hash_input-v3 p e t h = rw (h.parsed, hash_input, h.version)

  hash_input-v2 :
      (p : Bytes) (e : Entry) (t : Time)
      → IsHashedV2 H parse p e t
      → hash_input parse p e ≡ chain_hash_input p e.run_id e.sequence_num t e.content_hash
  unfolding hash_input
  hash_input-v2 p e t h = rw (h.parsed, hash_input, h.version)

  -- The stored hash is the hash of the input.
  unerased_hash :
      (p : Bytes) (e : Entry)
      → Link H parse p e
      → is_tombstone e.entry_type e.entry_id ≡ false
      → hex_encode (H.sum (hash_input parse p e)) ≡ e.chain_hash
  unfolding compute_chain_hash_unchecked compute_chain_hash_v3_unchecked
  unerased_hash p e (erased x) u = cc (x.marked)
  unerased_hash p e (hashed_v3 t h) u = rw (hash_input-v3 p e t h) h.hash
  unerased_hash p e (hashed_v2 t h) u = rw (hash_input-v2 p e t h) h.hash

  same_fields :
      (p q : Bytes) (e f : Entry)
      → Link H parse p e
      → Link H parse q f
      → is_tombstone e.entry_type e.entry_id ≡ false
      → is_tombstone f.entry_type f.entry_id ≡ false
      → e.chain_hash ≡ f.chain_hash
      → hash_input parse p e ≡ hash_input parse q f
      → (p ≡ q) × SameEntry e f
  same_fields p q e f (erased x) lf ue uf hash input = cc (x.marked)
  same_fields p q e f (hashed_v3 t h) (erased x) ue uf hash input = cc (x.marked)
  same_fields p q e f (hashed_v2 t h) (erased x) ue uf hash input = cc (x.marked)
  same_fields p q e f (hashed_v3 t h) (hashed_v2 u k) ue uf hash input = absurd (
      chain_hash_input-ne-v3 q p f.run_id f.sequence_num e.global_seq u t f.content_hash
        e.content_hash (sym (sym (hash_input-v3 p e t h) ∙ input ∙ hash_input-v2 q f u k)))
  same_fields p q e f (hashed_v2 t h) (hashed_v3 u k) ue uf hash input = absurd (
      chain_hash_input-ne-v3 p q e.run_id e.sequence_num f.global_seq t u e.content_hash
        f.content_hash (sym (hash_input-v2 p e t h) ∙ input ∙ hash_input-v3 q f u k))
  same_fields p q e f (hashed_v3 t h) (hashed_v3 u k) ue uf hash input =
      let ve = valid_v3 p e.global_seq e.content_hash h.shape in
      let vf = valid_v3 q f.global_seq f.content_hash k.shape in
      let same =
        chain_hash_input_v3-injective p q e.global_seq f.global_seq t u e.content_hash
          f.content_hash ve.0 vf.0 ve.1 vf.1
          (sym (hash_input-v3 p e t h) ∙ input ∙ hash_input-v3 q f u k) in
      (
        same.previous,
        record {
          chain_hash = hash;
          version = h.version ∙ sym k.version;
          run_id = h.no_run_id ∙ sym k.no_run_id;
          sequence_num = h.no_sequence_num ∙ sym k.no_sequence_num;
          timestamp =
              spelled_text e.timestamp t h.parsed h.spelled
              ∙ same.timestamp
              ∙ sym (spelled_text f.timestamp u k.parsed k.spelled);
          content_hash = same.content;
          global_seq = λ v. same.global_seq;
        },
      )
  same_fields p q e f (hashed_v2 t h) (hashed_v2 u k) ue uf hash input =
      let ve = valid_v2 p e.run_id e.sequence_num e.content_hash h.shape in
      let vf = valid_v2 q f.run_id f.sequence_num f.content_hash k.shape in
      let same =
        chain_hash_input-injective p q e.run_id f.run_id e.sequence_num f.sequence_num t u
          e.content_hash f.content_hash ve.0 vf.0 ve.1 vf.1 ve.2 vf.2
          (sym (hash_input-v2 p e t h) ∙ input ∙ hash_input-v2 q f u k) in
      (
        same.previous,
        record {
          chain_hash = hash;
          version = h.version ∙ sym k.version;
          run_id = same.run_id;
          sequence_num = same.sequence_num;
          timestamp =
              spelled_text e.timestamp t h.parsed h.spelled
              ∙ same.timestamp
              ∙ sym (spelled_text f.timestamp u k.parsed k.spelled);
          content_hash = same.content;
          global_seq = λ v. absurd (omega (arith, h.version, v));
        },
      )

  same_step :
      (p q : Bytes) (e f : Entry) (es fs : List Entry)
      → Link H parse p e
      → Link H parse q f
      → is_tombstone e.entry_type e.entry_id ≡ false
      → is_tombstone f.entry_type f.entry_id ≡ false
      → e.chain_hash ≡ f.chain_hash
      → NoClash H (hash_inputs parse p (e ∷ es)) (hash_inputs parse q (f ∷ fs))
      → (p ≡ q) × SameEntry e f
  same_step p q e f es fs le lf ue uf hash apart =
      let digest =
        hex_encode-injective (H.sum (hash_input parse p e)) (H.sum (hash_input parse q f))
          (unerased_hash p e le ue ∙ hash ∙ sym (unerased_hash q f lf uf)) in
      same_fields p q e f le lf ue uf hash
        (apart (hash_input parse p e) (hash_input parse q f) (inl refl) (inl refl) digest)

  -- Linked entries, as many on both sides, with one head: the same history from the same hash.
  pub Linked-same :
      (es fs : List Entry) (p q : Bytes)
      → length es ≡ length fs
      → Linked H parse p es
      → Linked H parse q fs
      → IsUnerased es
      → IsUnerased fs
      → head_hash p es ≡ head_hash q fs
      → NoClash H (hash_inputs parse p es) (hash_inputs parse q fs)
      → (p ≡ q) × SameHistory es fs
  Linked-same [] [] p q n le lf ue uf head apart = (head, tt)
  Linked-same [] (f ∷ fs) p q n le lf ue uf head apart = absurd (omega arith)
  Linked-same (e ∷ es) [] p q n le lf ue uf head apart = absurd (omega arith)
  Linked-same (e ∷ es) (f ∷ fs) p q n le lf ue uf head apart =
      let rest =
        Linked-same es fs e.chain_hash f.chain_hash (omega arith) le.1 lf.1 ue.1 uf.1 head
          (λ a b ia ib. apart a b (inr ia) (inr ib)) in
      let now = same_step p q e f es fs le.0 lf.0 ue.0 uf.0 rest.0 apart in (now.0, (now.1, rest.1))

  -- The entries behind the first n follow the last hash of those.
  Linked-behind :
      (n : ℕ) (fs : List Entry) (p : Bytes)
      → Linked H parse p fs
      → Linked H parse (head_hash p (take n fs)) (drop n fs)
  Linked-behind zero fs p h = h
  Linked-behind (suc n) [] p h = h
  Linked-behind (suc n) (f ∷ fs) p h = Linked-behind n fs f.chain_hash h.1

  IsUnerased-behind : (n : ℕ) (fs : List Entry) → IsUnerased fs → IsUnerased (drop n fs)
  IsUnerased-behind zero fs h = h
  IsUnerased-behind (suc n) [] h = h
  IsUnerased-behind (suc n) (f ∷ fs) h = IsUnerased-behind n fs h.1

  head_behind :
      (n : ℕ) (fs : List Entry) (p : Bytes)
      → head_hash (head_hash p (take n fs)) (drop n fs) ≡ head_hash p fs
  head_behind zero fs p = refl
  head_behind (suc n) [] p = refl
  head_behind (suc n) (f ∷ fs) p = head_behind n fs f.chain_hash

  inputs_behind :
      (n : ℕ) (fs : List Entry) (p x : Bytes)
      → In x (hash_inputs parse (head_hash p (take n fs)) (drop n fs))
      → In x (hash_inputs parse p fs)
  inputs_behind zero fs p x i = i
  inputs_behind (suc n) [] p x i = i
  inputs_behind (suc n) (f ∷ fs) p x i = inr (inputs_behind n fs f.chain_hash x i)

  Linked-front :
      (n : ℕ) (fs : List Entry) (p : Bytes) → Linked H parse p fs → Linked H parse p (take n fs)
  Linked-front zero fs p h = tt
  Linked-front (suc n) [] p h = tt
  Linked-front (suc n) (f ∷ fs) p h = (h.0, Linked-front n fs f.chain_hash h.1)

  Link-digest : {p : Bytes} {e : Entry} → Link H parse p e → chain_hash_pattern e.chain_hash ≡ true
  Link-digest (erased x) = x.digest
  Link-digest (hashed_v3 t h) = h.digest
  Link-digest (hashed_v2 t h) = h.digest

  no_digest : chain_hash_pattern [] ≢ true
  unfolding chain_hash_pattern
  no_digest e = cc

  head_digest :
      (es : List Entry) (p : Bytes)
      → Linked H parse p es
      → chain_hash_pattern p ≡ true
      → chain_hash_pattern (head_hash p es) ≡ true
  head_digest [] p l h = h
  head_digest (e ∷ es) p l h = head_digest es e.chain_hash l.1 (Link-digest l.0)

  -- A longer chain from nothing has another head than a shorter one.
  no_longer :
      (es fs : List Entry) (f : Entry)
      → length es ≤ length fs
      → Linked H parse [] es
      → Linked H parse [] (f ∷ fs)
      → IsUnerased es
      → IsUnerased (f ∷ fs)
      → NoClash H (hash_inputs parse [] es) (hash_inputs parse [] (f ∷ fs))
      → head_hash [] es ≢ head_hash [] (f ∷ fs)
  no_longer es fs f le ls lf us uf apart head =
      let n = length fs - length es in
      let p = head_hash f.chain_hash (take n fs) in
      let same =
        Linked-same es (drop n fs) [] p (omega (arith, length-drop n fs)) ls
          (Linked-behind n fs f.chain_hash lf.1) us (IsUnerased-behind n fs uf.1)
          (head ∙ sym (head_behind n fs f.chain_hash))
          (λ a b ia ib. apart a b ia (inr (inputs_behind n fs f.chain_hash b ib))) in
      let digest =
        head_digest (take n fs) f.chain_hash (Linked-front n fs f.chain_hash lf.1)
          (Link-digest lf.0) in
      no_digest (subst (λ s. chain_hash_pattern s ≡ true) (sym same.0) digest)

  Linked-from_nothing :
      (es fs : List Entry)
      → Linked H parse [] es
      → Linked H parse [] fs
      → IsUnerased es
      → IsUnerased fs
      → NoClash H (hash_inputs parse [] es) (hash_inputs parse [] fs)
      → head_hash [] es ≡ head_hash [] fs
      → SameHistory es fs
  Linked-from_nothing [] [] le lf ue uf apart head = tt
  Linked-from_nothing [] (f ∷ fs) le lf ue uf apart head =
      absurd (no_longer [] fs f (omega arith) le lf ue uf apart head)
  Linked-from_nothing (e ∷ es) [] le lf ue uf apart head = absurd (
      no_longer [] es e (omega arith) lf le uf ue
        (NoClash-symm H (hash_inputs parse [] (e ∷ es)) [] apart) (sym head))
  Linked-from_nothing (e ∷ es) (f ∷ fs) le lf ue uf apart head =
      elim (lt_trichotomy (length es) (length fs)) [
        | inl less ↦ absurd (no_longer (e ∷ es) fs f less le lf ue uf apart head)
        | inr (inl same) ↦
            (Linked-same (e ∷ es) (f ∷ fs) [] [] (omega arith) le lf ue uf head apart).1
        | inr (inr more) ↦ absurd (
            no_longer (f ∷ fs) es e more lf le uf ue
              (NoClash-symm H (hash_inputs parse [] (e ∷ es)) (hash_inputs parse [] (f ∷ fs)) apart)
              (sym head))
      ]

  -- Two chains without erased entries, of fewer than 2^63 entries each, that the walk finds intact
  -- from their first entries on and that end in one chain hash have the same entries: every field
  -- that a hash covers agrees, and so does the number of entries. It holds unless an input hashed
  -- for one collides with one hashed for the other, and where `time.Parse` reads no sign.
  pub same_head-SameHistory :
      (e f : Entry) (es fs : List Entry) (opts : Options) {r s : Result}
      → opts.previous_hash ≡ []
      → length (e ∷ es) < 2 ^ 63
      → length (f ∷ fs) < 2 ^ 63
      → IsUnerased (e ∷ es)
      → IsUnerased (f ∷ fs)
      → NoClash H (hash_inputs parse [] (e ∷ es)) (hash_inputs parse [] (f ∷ fs))
      → chain H parse (e ∷ es) opts ≡ some r
      → chain H parse (f ∷ fs) opts ≡ some s
      → r.verdict ≡ intact
      → s.verdict ≡ intact
      → head_hash [] (e ∷ es) ≡ head_hash [] (f ∷ fs)
      → SameHistory (e ∷ es) (f ∷ fs)
  same_head-SameHistory e f es fs opts none_before se sf ue uf apart runs runs' ie iw head =
      let le = (chain-intact H parse e es opts se runs ie).0 in
      let lf = (chain-intact H parse f fs opts sf runs' iw).0 in
      Linked-from_nothing (e ∷ es) (f ∷ fs) (rw none_before at le) (rw none_before at lf) ue uf
        apart head
