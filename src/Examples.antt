-- ===== src/Examples.antt =====
-- Concrete trees, chains and stores, with the functions of Go's library replaced by simple ones.
pub mod Clash
pub mod Trees
pub mod Proofs
pub mod Chains
pub mod Appends
pub mod Together
pub mod Commitments
pub mod Captures
pub mod Anchors
pub mod Signatures
pub mod Documents
pub mod Bolts
