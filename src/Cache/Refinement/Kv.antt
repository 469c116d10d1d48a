-- ===== src/Cache/Refinement/Kv.antt =====
-- cache.go over the shards of shard.go: a history of calls to a new cache without a bound.
use mcache.Cache.{Cache}
