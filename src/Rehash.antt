-- ===== src/Rehash.antt =====
-- rehash/: migration of entries from an old table of shards to a new one.
pub mod Shards
pub mod Incremental
pub mod Batch
pub mod Rehashers
