-- ===== src/Verify/Binding/Anchored.antt =====
-- One anchor fixes one history: entries that are cut off, changed or put in are found.
use proof.Prelude.{List, [], Option}
use proof.Prelude.Bytes.{Bytes}
use proof.Hash.{Sha512}
use proof.ChainFormat.Timestamp.{Time}
use proof.Anchor.{Anchor}
use proof.Anchor.ChainHash.{anchor_input}
use proof.Verify.{Entry, Options}
use proof.Verify.Walker.{Walker, new_walker, add_all}

abbrev pub whole_chain : Options
whole_chain = record { max_breaks = 1; previous_hash = [] }

module _ (H : Sha512) (parse : Bytes → Option Time) where
  abbrev pub walked : List Entry → Walker
  walked entries = add_all H parse (new_walker whole_chain) entries

  -- What the hash of an anchor is computed over, for a walked chain.
  abbrev pub anchored_input : Anchor → Bytes → List Entry → Bytes
  anchored_input a previous entries =
      let w = walked entries in
      anchor_input previous a.subject w.first.entry_id w.last.entry_id w.last.chain_hash
