-- ===== src/Store/Bolt/Keys.antt =====
-- store/bolt/bolt.go: the keys that entryKey and chainPrefix give, and their byte order.
use proof.Prelude.{
  ℕ, ◌≡◌, refl, sym, append_assoc, ◌∙◌, [], ◌∷◌, ◌++◌, true, false, ltb, ◌^◌, ◌<◌, arith,
}
use proof.Prelude.Bytes.{Bytes, bytes_eq, bytes_lt, has_prefix, contains, cut_at}
use proof.Prelude.Int64.{Int64, int_lt}
use proof.Prelude.Order.{bytes_lt-append, has_prefix-append}
use proof.Prelude.BigEndian.{put_uint32, put_uint64, put_uint64-injective, bytes_lt-put_uint64}
use proof.Store.Bolt.{chain_prefix, entry_key}

prefix_lem :
    (c d r : Bytes)
    → contains c 0 ≡ false
    → contains d 0 ≡ false
    → has_prefix ((d ++ 0 ∷ []) ++ r) (c ++ 0 ∷ []) ≡ bytes_eq c d
unfolding has_prefix contains bytes_eq
prefix_lem [] [] r hc hd = refl
prefix_lem [] (y ∷ d) r hc hd = ground arith
prefix_lem (x ∷ c) [] r hc hd = ground arith
prefix_lem (x ∷ c) (y ∷ d) r hc hd = ground (arith, prefix_lem c d r)

-- A key has a chain's prefix exactly when it is one of the chain's.
pub has_prefix-entry_key :
    (c d : Bytes) (n : Int64)
    → contains c 0 ≡ false
    → contains d 0 ≡ false
    → has_prefix (entry_key d n) (chain_prefix c) ≡ bytes_eq c d
unfolding chain_prefix entry_key
has_prefix-entry_key c d n hc hd = prefix_lem c d (put_uint64 n) hc hd

pub entry_key-prefix : (c : Bytes) (n : Int64) → has_prefix (entry_key c n) (chain_prefix c) ≡ true
unfolding chain_prefix entry_key
entry_key-prefix c n = has_prefix-append (c ++ 0 ∷ []) (put_uint64 n)

put_uint64-end : (n : ℕ) → n < 2 ^ 63 → bytes_lt (put_uint64 n) (255 ∷ []) ≡ true
unfolding put_uint64 put_uint32 bytes_lt
put_uint64-end n h = ground arith

-- Every key of a chain is below the end that `tail_of` seeks.
pub entry_key-end :
    (c : Bytes) (n : Int64)
    → n < 2 ^ 63
    → bytes_lt (entry_key c n) (chain_prefix c ++ 255 ∷ []) ≡ true
unfolding chain_prefix entry_key
entry_key-end c n h = bytes_lt-append (c ++ 0 ∷ []) (put_uint64 n) (255 ∷ []) ∙ put_uint64-end n h

pub bytes_lt-entry_key :
    (c : Bytes) (m n : Int64)
    → m < 2 ^ 64
    → n < 2 ^ 64
    → bytes_lt (entry_key c m) (entry_key c n) ≡ ltb m n
unfolding entry_key
bytes_lt-entry_key c m n hm hn =
    bytes_lt-append (c ++ 0 ∷ []) (put_uint64 m) (put_uint64 n) ∙ bytes_lt-put_uint64 m n hm hn

from_prefix : (p a : Bytes) → bytes_lt (p ++ a) p ≡ false
unfolding bytes_lt
from_prefix [] [] = refl
from_prefix [] (y ∷ a) = refl
from_prefix (x ∷ p) a = ground (arith, from_prefix p a)

-- Nothing in a chain is below its prefix.
pub entry_key-from : (c : Bytes) (n : Int64) → bytes_lt (entry_key c n) (chain_prefix c) ≡ false
unfolding entry_key chain_prefix
entry_key-from c n = from_prefix (c ++ 0 ∷ []) (put_uint64 n)

pub int_lt-ltb : (m n : Int64) → m < 2 ^ 63 → n < 2 ^ 63 → int_lt m n ≡ ltb m n
int_lt-ltb m n hm hn = ground arith

-- Different chains or numbers have different keys.
pub entry_key-injective :
    (c d : Bytes) (m n : Int64)
    → contains c 0 ≡ false
    → contains d 0 ≡ false
    → m < 2 ^ 64
    → n < 2 ^ 64
    → entry_key c m ≡ entry_key d n
    → (c ≡ d) × (m ≡ n)
unfolding entry_key
entry_key-injective c d m n hc hd hm hn e =
    let flat : c ++ 0 ∷ put_uint64 m ≡ d ++ 0 ∷ put_uint64 n =
      sym (append_assoc c (0 ∷ []) (put_uint64 m)) ∙ e ∙ append_assoc d (0 ∷ []) (put_uint64 n) in
    let (same, tail) = cut_at 0 c (put_uint64 m) d (put_uint64 n) hc hd flat in
    (same, put_uint64-injective m n hm hn tail)
