-- ===== src/ChainFormat.antt =====
-- chainformat/: what a chain hash covers.
pub mod Timestamp
pub mod Tombstone
pub mod Hash
pub mod CaptureEntry
pub mod CaptureRules
pub mod Capture
