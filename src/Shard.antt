-- ===== src/Shard.antt =====
-- shard.go and entry.go: a partition of the cache. `Entry` is the cache entry, `Sub` the locked
-- sub-shard with its policy, `Kv` the operations on string values, which go to the sub-shard that
-- the key's hash names, and `Typed` those on sets, hashes and lists.
pub mod Entry
pub mod Sub
pub mod Kv
pub mod Typed
