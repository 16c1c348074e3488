-- ===== src/Lib.antt =====
-- The audit log: entries linked by hash, the stores that keep them, the linker that adds them, the
-- verifier that walks them, and the Merkle trees over them.
--
-- How the parts work together. The linker (linker/) takes new entries, checks and sorts the batch,
-- reads the tail of the chain from a store (store/) under a lease, gives each entry its number and a
-- hash over the hash before it (chainformat/), and writes the rows. Exported rows are walked by the
-- verifier (verify/), which recomputes the hashes. An anchor (anchor/) is a signed statement about the
-- head of a chain; the verifier binds it to a walk, and checks a series of them as the walk goes on.
-- Merkle trees (merkle/) commit to a range of entries, commitments (commitment/) to one content, and
-- capture entries (chainformat/) have canonical bytes and a hash of their own.
--
-- The files, by the code that they model:
--   Prelude and below   Booleans, lists and bytes; int64 as a number below 2^64 in two's complement
--                       (Prelude/Int64), the decimal digits of strconv (Prelude/Decimal), the order
--                       of byte strings (Prelude/Order) and encoding/binary (Prelude/BigEndian).
--   Hash                SHA-512 as a record, a function with digests of 64 bytes; hex.EncodeToString.
--   Merkle/Split, Tree  merkle/merkle.go: largestPowerOfTwoLessThan, LeafHash, NodeHash, EmptyRoot,
--                       RootFromLeaves.
--   Merkle/Frontier     merkle/frontier.go: Append, Root, FrontierFromLeaves. Frontier/Holds says what
--                       leaves a frontier stands for.
--   Merkle/Inclusion    merkle/inclusion.go: InclusionProof, inclusionPath, VerifyInclusion,
--                       rootFromInclusion.
--   Merkle/Consistency  merkle/consistency.go: ConsistencyProof, subProof, VerifyConsistency.
--   Merkle/RootHex      merkle/roothex.go: RootHex.
--   ChainFormat/        chainformat/chain_hash.go and chain_hash_v3.go (Timestamp, Hash) and
--                       chainformat/tombstone.go (Tombstone).
--   ChainFormat/Capture chainformat/capture_v3.go: CanonicalV3, ContentHashV3, EncodeAndHashV3 and the
--                       encoder; CaptureEntry has the entry, CaptureRules validateV3.
--   Canonical           canonical/json.go: writeSorted, validateInputStrings, validateCanonicalString, and
--                       MarshalJSON of a generic value.
--   Commitment          commitment/commitment.go: Salted, Verify, compute.
--   Anchor              anchor/anchor.go and the version rules of anchor/canonical.go.
--   Anchor/ChainHash    anchor/chainhash.go.
--   Anchor/Signature    Canonicalize, and anchor/verify.go: VerifySignature and the key ring.
--   Anchor/Signing      anchor/sign.go: KeyIDOf, SignCanonical, SignAnchor.
--   Verify, Walker      verify/verify.go: the data, NewWalker, Add, addBreak, checkStart, Chain.
--                       Walker/Links is the rule by which one entry follows another.
--   Verify/History      what a head hash binds.
--   Verify/Binding      verify/anchor.go and walker_anchor.go: BindAnchor, VerifyAnchor, and what they
--                       call.
--   Verify/Series       verify/series.go: NewSeries, Reached, Finish, VerifyAnchorSeries.
--   Store               store/store.go: Entry (named Row here), State, Tail.
--   Store/CheckAppend   store/append_check.go: CheckAppend. Continues and Accepted say what it asks of
--                       the entries of one chain, and of all entries and head states.
--   Store/Memory        store/memory/memory.go: every method of the store. Appended and
--                       Extends are about the store that UpdateChains leaves.
--   Store/Bolt          store/bolt/bolt.go: the buckets, entryKey, chainPrefix, and bbolt as a record of
--                       operations and one of laws. Write has validateEntries, putEntries, WriteBatch,
--                       PutState and the transaction of Open, Read the methods that read, Leases
--                       Acquire and Release, Update UpdateChains, Listing Chains and ChainsAfter.
--   Store/Bolt/Rows     the relation between a file and a store in memory. Keys, Own, StepBack, Ranges and Ends are
--                       about the walk over the keys, Names about the seek past a chain, Placing
--                       and Store/Memory/Placed about a write;
--                       Lookup, Every, Batches, States, Holding, Releasing, Opening, Atomic about the
--                       methods. Listed is a database in which the laws hold.
--   Linker              linker/order.go and link of linker/linker.go; Linker/Append has Append and
--                       continuation, over a record of the store's operations that Append calls.
--   Linker/AppendChains linker/append_chains.go: AppendChains over the store in memory. Whole is about an
--                       error, Steps and Written about a success.
--   Linker/Export       toExported of cmd/proof/main.go.
--   Examples/           concrete trees, chains, appends, files, anchors, capture entries and documents.
--
-- What is a parameter: SHA-512, with collision freedom only among inputs that a theorem names;
-- time.Parse, as a function from text to the fields of a time in UTC; utf8.ValidString; for canonical
-- JSON the quoting of a text and the pass of encoding/json from a value to a decoded one; the contexts,
-- as Booleans that say at which call one has ended; random tokens, nonces and run ids, as options;
-- bbolt, by what its documentation says of buckets and cursors, with a transaction that begins and
-- commits or does neither; encoding/json on rows and states of a file, where a theorem asks that what is
-- written decodes from its text;
-- norm.NFC, of which the theorems need only that it keeps ASCII text; for anchors a record of functions for
-- JSON, base64, ML-DSA-65 and the id of a key, and a signer as its public key and its signing function.
--
-- Integers and fuel. An int64 is a number below 2^64, with 2^63 and above as the negative ones, and
-- additions keep the wrap-around. Lengths are plain numbers, and the theorems on trees assume that the
-- leaves are fewer than 2^63. The loop of largestPowerOfTwoLessThan has 63 rounds, as many as an int
-- can be doubled; the recursion on a tree has as much fuel as leaves, and each step takes a part that
-- is smaller; Chains has as many rounds as there are items, and each passes one; a number of 64 bits
-- has at most 20 digits; the climbs of VerifyConsistency halve a node, and have as many rounds as its
-- number.
--
-- Go maps are functions from keys, with the value of a missing key. sort.Slice and
-- sort.Strings are insertion sorts.
-- The mutex of the store makes each method one step.
--
-- Not modelled: the free texts of breaks, problems and errors; reading entries and anchors from
-- JSON; the text that a frontier is stored as; tombstones for orphans and fresh tombstone values;
-- ML-DSA, keys and encryption; how a file is opened, locked and closed; the sink, bundles and export
-- archives; the reflective walk of canonical JSON over Go structs; the commands.
pub mod Prelude
pub mod Hash
pub mod Merkle
pub mod ChainFormat
pub mod Verify
pub mod Store
pub mod Linker
pub mod Commitment
pub mod Anchor
pub mod Canonical
pub mod Examples
