-- ===== src/Merkle.antt =====
-- merkle/: RFC 9162 trees over SHA-512.
pub mod Split
pub mod Tree
pub mod Frontier
pub mod Inclusion
pub mod Consistency
pub mod RootHex
