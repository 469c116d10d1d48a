-- ===== src/Lib.antt =====
-- mcache is an in-memory cache server in Go. This library models its core in antt; what is proved of
-- it is listed below. Paths are from the repository's root.
--
-- The parts, and how they interact:
-- - ds/list, ds/set and ds/hash are the typed values. Ds.Lists, Ds.Sets and Ds.Hashes have one
--   function for each method. A list is the sequence of its values, a set and a hash are association
--   lists in the order in which one `range` visits the map, which is arbitrary; what a method draws at
--   random is an argument. What would dereference a nil pointer is `panic` (Prelude.Panics).
-- - policy.go, lru.go and lfu.go choose the keys to evict. Policy.Interface has the interface as a
--   record of operations, and `Laws`, what a client relies on. Policy.Lru and Policy.Lfu are the two
--   policies, whose `Laws` modules instantiate the record.
-- - entry.go and shard.go are a partition of the cache. Shard.Entry is an entry with its expiry,
--   Shard.Sub a sub-shard with the parts of the shard's methods that run under its lock, one function
--   for each, with the policy as a parameter; Shard.Kv is the shard, which routes keys to sub-shards;
--   Shard.Typed has the operations on sets, hashes and lists. Shard.Kv.Migration makes the shard one of
--   Rehash.Shards, below, and is an instance of its `Laws`: a shard without a bound, at a time at which
--   none of its entries has expired.
-- - raft/ is the consensus module. Raft.Log is raft/log.go, Raft.State the messages and the state,
--   Raft.Node the handlers of raft/raft.go. The event loop runs a handler to its end before the next,
--   so a run of a node is a list of events; what a handler sends, answers or applies, and what it
--   does to its timers, are recorded in order as effects.
-- - rehash/ migrates entries between two tables of shards. Rehash.Shards has the shard's interface as a
--   record of operations and `Laws`, what a rehasher relies on, where `extract_n` can panic as
--   `ExtractN` does on a shard with a bound below 16; Rehash.Incremental is
--   rehash/incremental.go and Rehash.Batch rehash/batch.go, one function for a call; Rehash.Rehashers
--   is the interface of rehashers, with the incremental and the no-op one.
-- - cache.go is the cache over its shards and its rehasher, in Cache, with the shard and the rehasher
--   as parameters. What its observer is told is a list of events. A pointer into the old table is an
--   index into it.
-- - net/protocol.go and net/protocol_ext.go are the wire format. Net.Bytes has payloads, with the room
--   that a buffer of the pool has behind its bytes and that a slice expression may reach into, and
--   decoders, which return, fail or panic; Net.Commands the codes, Net.Frames the frames,
--   Net.KvWire, Net.SetWire, Net.HashWire and Net.ListWire the messages of the four groups of
--   commands, with the responses to hash and list commands in Net.HashAnswer and Net.ListAnswer. Of an
--   encoder the bytes are modelled, not the buffer that it takes from the pool.
-- - the cache's operations on sets, hashes and lists, in cache.go and cache_ext.go, are in Cache.Typed:
--   the tests for a closed cache and an empty key, and the operation of Shard.Typed on the maps of the
--   key's shard, which is the same whether a rehash is under way or not.
-- - net/server.go, net/server_ext.go and net/raft_cmd.go are the server. Server.Hashes, Server.Lists and
--   Server.Sets are the handlers `processHash`, `processList` and `processSet`, from a decoded request
--   to the response; Server.Blocking has the loops of BLPop and BRPop, where each round is given what
--   the other connections do before it and what its clock reads. Server.Connection is what `handleConn`
--   and `processRequest` do with a payload, and the switch of the client's `readLoop` (net/client.go).
--   Server.Raft has the commands of the log, Server.Raft.Apply `onRaftApply`, Server.Raft.Replicated
--   `raftPropose` and the handlers that use it. A proposer waits while its node applies entries: these
--   are an argument, and the result is handed over through the table of requests that wait.
-- - net/client_ext.go: Client.Hashes has what the hash methods of a client send and return.
--
-- Prelude has the shared helpers: names of the libraries, tests on numbers, lists over the native
-- numbers, signed integers, bounds on bits, byte strings, association lists, lists of keys, decimal numbers.
--
-- Numbers: lengths and indices are natural numbers, Go's `int` arguments are integers; 64-bit sums
-- wrap around where the source's can (`add_int64`, `add_u64`). Clocks are arguments, in nanoseconds,
-- one for each reading; where a loop reads the clock for each entry, the readings are a function of the
-- entry's key. The calls of a cache, with the shards of shard.go, see one time. What `make` does with a
-- count from the wire is modelled for list requests (`make_strings`), on 64 bits, where it panics above
-- 2^48 bytes; that the memory is there is not. The other decoders are modelled without their `make`. The eviction loop of `Set` runs on fuel, one more round than there are
-- entries, where every round but the last removes an entry, which is enough (the first theorem on
-- `Set` below includes it). A run of rehash steps, and the loops of the
-- batch rehasher, are on fuel, the entries and shards that are left. The
-- loop of `applyCommitted` runs on the difference of its two indices.
--
-- Not modelled: sockets, pools and worker goroutines; the server's handler of string and key commands
-- (`process`), which is a parameter of Server.Connection; the client's list, set, string and key
-- methods; the cluster modes, the cache's operations on keys, the matrix ring buffer (mbr/), the
-- command line, metrics and the client SDKs; in raft/, the start and the shutdown of a node and the
-- queue of proposals. Calls that run at once are not, but for the rounds of a blocking pop: a call of a
-- component is one step. Floats are a parameter of Ds.Hashes, and their 64 bits of Net.HashWire and
-- Net.HashAnswer; encoding/json and the texts of errors are parameters of Server, and so is the cache's
-- store of strings in Server.Raft; the pattern match of `matchKeys` is one of Shard.Kv.
pub mod Prelude
pub mod Ds
pub mod Policy
pub mod Shard
pub mod Raft
pub mod Net
pub mod Rehash
pub mod Cache
pub mod Server
pub mod Client
