-- ===== src/Verify/Series.antt =====
-- verify/series.go: a series of anchors, each checked when the walk over the chain reaches its height.
-- A problem keeps its kind and the number of its anchor, from 1; the texts are left out.
pub mod Checks
pub mod Steps
pub mod Complete
use proof.Prelude.{
  ℕ, suc, ◌+◌, List, [], ◌∷◌, ◌++◌, Option, none, some, Bool, true, false, not, ◌==◌, ◌&&◌, ◌||◌,
  if◌then◌else◌, length, get_elem?,
}
use proof.Prelude.Bytes.{Bytes, bytes_eq}
use proof.Prelude.Int64.{Int64, int_lt}
use proof.Hash.{Sha512}
use proof.ChainFormat.Timestamp.{Time}
use proof.Anchor.{Anchor}
use proof.Anchor.ChainHash.{seed_anchor_hash, seed_anchor_id}
use proof.Anchor.Signature.{Crypto, KeySource}
use proof.Verify.{Entry, Result, Options}
use proof.Verify.Walker.{Walker, new_walker, add}
use proof.Verify.Binding.{BindOutcome, BindError, BindReply, reply, fail, walker_verify_anchor}

pub data Problem : Type 0 where
  other_subject first_not_seed not_successor not_growing back_in_time : ℕ → Problem
  bind_failed : ℕ → BindError → Problem
  not_verified : ℕ → BindOutcome → Problem
  unreached : ℕ → Int64 → Int64 → Problem

pub record Series : Type 0 where
  pub subject : Bytes
  pub anchors : List Anchor
  pub keys : KeySource
  pub next : ℕ
  pub prev_hash : Bytes
  pub prev_id : Bytes
  pub prev_ms : Int64
  pub covered : Int64
  pub verified : ℕ
  pub problems : List Problem
  pub stopped : Bool
  pub unchecked : Bool

unfoldable pub new_series : Bytes → List Anchor → KeySource → Series
new_series subject anchors keys = record {
  subject = subject;
  anchors = anchors;
  keys = keys;
  next = 0;
  prev_hash = seed_anchor_hash;
  prev_id = seed_anchor_id;
  prev_ms = 0;
  covered = 0;
  verified = 0;
  problems = [];
  stopped = false;
  unchecked = true;
}

-- `fail`.
abbrev pub stop : Series → Problem → Series
stop s p = record s { problems = s.problems ++ p ∷ []; stopped = true }

-- The cases of `checkNext`, on the next anchor.
unfoldable pub check_anchor : Series → Anchor → Series
check_anchor s a =
    let n = suc s.next in
    if not (bytes_eq a.subject s.subject)
    then stop s (other_subject n)
    else if not (bytes_eq a.previous_anchor_id s.prev_id) && n == 1
    then stop s (first_not_seed n)
    else if not (bytes_eq a.previous_anchor_id s.prev_id)
    then stop s (not_successor n)
    else if not (int_lt s.covered a.entry_count)
    then stop s (not_growing n)
    else if int_lt a.created_at_ms s.prev_ms
    then stop s (back_in_time n)
    else s

unfoldable pub check_next : Series → Series
check_next s =
    let s = record s { unchecked = false } in
    if s.stopped
    then s
    else elim (get_elem? s.anchors s.next) [ none ↦ s | some a ↦ check_anchor s a ]

-- The series past an anchor that verified.
abbrev pub move_on : Series → Anchor → Series
move_on s a = record s {
  verified = suc s.verified;
  covered = a.entry_count;
  prev_hash = a.chain_hash;
  prev_id = a.anchor_id;
  prev_ms = a.created_at_ms;
  next = suc s.next;
}

unfoldable pub take_anchor : Series → Anchor → BindReply → Series
take_anchor s a (fail res e) = stop s (bind_failed (suc s.next) e)
take_anchor s a (reply r) =
    if not r.bound || not r.signature_verified
    then stop s (not_verified (suc s.next) r.outcome)
    else check_next (move_on s a)

-- The check before the first entry.
unfoldable pub ensure_checked : Series → Series
ensure_checked s = if s.unchecked then check_next s else s

unfoldable pub finish : Series → Int64 → Series
finish s total =
    let s = ensure_checked s in
    if s.stopped then s else elim (get_elem? s.anchors s.next) [
      | none ↦ s
      | some a ↦ stop s (unreached (suc s.next) a.entry_count total)
    ]

pub data SeriesError : Type 0 where
  no_entries no_anchors no_key_source : SeriesError

pub data SeriesReply : Type 0 where
  checked : Result → List Problem → SeriesReply
  refused : SeriesError → SeriesReply

module _ (H : Sha512) (C : Crypto) where
  unfoldable pub reached_checked : Series → Walker → Series
  reached_checked s w = if s.stopped then s else elim (get_elem? s.anchors s.next) [
    | none ↦ s
    | some a ↦
        if not (w.res.entries_verified == a.entry_count)
        then s
        else take_anchor s a (walker_verify_anchor H C w a s.prev_hash (some s.keys))
  ]

  unfoldable pub reached : Series → Walker → Series
  reached s w = reached_checked (ensure_checked s) w

  -- The loop over the entries.
  unfoldable pub walk_series :
      (Bytes → Option Time) → Series → Walker → List Entry → Series × Walker
  walk_series parse s w [] = (s, w)
  walk_series parse s w (e ∷ entries) =
      let w' = add H parse w e in walk_series parse (reached s w') w' entries

  unfoldable pub verify_anchor_series :
      (Bytes → Option Time) → Bytes → List Entry → List Anchor → Option KeySource → SeriesReply
  verify_anchor_series parse subject entries anchors source =
      if length entries == 0
      then refused no_entries
      else if length anchors == 0
      then refused no_anchors
      else elim source [
        | none ↦ refused no_key_source
        | some keys ↦
            let (s, w) =
              walk_series parse (new_series subject anchors keys)
                (new_walker (record { max_breaks = 0; previous_hash = [] })) entries in
            checked w.res (finish s w.res.entries_verified).problems
      ]
