-- ===== src/Cache.antt =====
-- cache.go: the cache over its shards and its rehasher. A call runs from its first to its last line;
-- it returns the cache after the call, what its observer was told, and an answer.
pub mod Contents
pub mod Map
pub mod Lookup
pub mod Refinement
pub mod Typed
mod Tests
pub mod Tables
use mcache.Prelude.{
  ℕ, ◌+◌, ◌-◌, ◌/◌, Bool, true, false, Option, none, some, List, [], ◌∷◌, ◌++◌, map, Str, ltb, ◌==◌,
  ◌||◌, not, length, replicate, get_elem?, set, if◌then◌else◌,
}
use mcache.Prelude.Int.{ℤ, pos, negsuc, pos_part, ltb_ℤ}
use mcache.Prelude.Panics.{Panics, returns, panic, ◌>>=◌}
use mcache.Rehash.Shards.{Shard, old_shard_index}
use mcache.Rehash.Rehashers.{Rehasher}
use Prim.Native.Nat.{bit_and}

pub data Error : Type 0 where
  key_not_found key_empty value_nil negative_ttl cache_closed invalid_shards rehash_in_progress :
      Error
  -- the error of `strconv` on a text that is no number
  no_number : Str → Error

-- the calls of a `CacheObserver`
pub data Event : Type 0 where
  on_hit on_miss on_set on_del on_evict : Str → Event
  on_rehash_start : ℕ → ℕ → Event
  on_rehash_done : Event

pub data Answer {ℓ} (A : Type ℓ) : Type ℓ where
  ok : A → Answer A
  failed : Error → Answer A

-- `shardCount <= 0 || shardCount&(shardCount-1) != 0`
unfoldable pub is_invalid_count : ℤ → Bool
is_invalid_count (pos n) = n == 0 || not (bit_and n (n - 1) == 0)
is_invalid_count (negsuc n) = true

-- `key == ""`
abbrev pub is_empty : Str → Bool
is_empty [] = true
is_empty (b ∷ key) = false

-- `perShardMax`
abbrev pub per_shard_max : ℕ → ℕ → ℕ
per_shard_max max_size count =
    if ltb 0 max_size then (if ltb (max_size / count) 1 then 1 else max_size / count) else 0

module _ (sh : Shard) (rh : Rehasher sh) where
  pub record Cache : Type 0 where
    pub shards : List sh.State
    pub mask : ℕ
    pub max_size : ℕ
    pub default_ttl : ℤ
    pub closed : Bool
    pub rehasher : rh.State

  -- `New`, with the policy's and the rehasher's names already looked up
  unfoldable pub new_cache : ℤ → ℤ → ℤ → Answer Cache
  new_cache shard_count max_size default_ttl =
      if is_invalid_count shard_count
      then failed invalid_shards
      else if ltb_ℤ default_ttl (pos 0)
      then failed negative_ttl
      else let count = pos_part shard_count in
        let bound = pos_part max_size in
        ok (record {
          shards = replicate count (sh.fresh (per_shard_max bound count));
          mask = count - 1;
          max_size = bound;
          default_ttl = default_ttl;
          closed = false;
          rehasher = rh.fresh;
        })

  -- `shardIndexFor`
  abbrev pub shard_index : Cache → Str → ℕ
  shard_index c key = old_shard_index key c.mask

  -- a step of the rehasher, and the note of its end
  abbrev pub migrate_step : Cache → List Event → Panics (Cache × List Event)
  migrate_step c events = rh.step c.rehasher (shard_index c) c.shards >>= λ out. returns (
    record c { shards = out.1; rehasher = out.0 },
    if out.2.just_completed then events ++ (on_rehash_done ∷ []) else events,
  )

  abbrev pub rehash_step : Cache → List Event → Panics (Cache × List Event)
  rehash_step c events =
      if rh.is_rehashing c.rehasher then migrate_step c events else returns (c, events)

  -- `if oldShard := c.rehasher.OldShard(key); oldShard != nil { oldShard.Del(key) }`
  abbrev pub del_old : Cache → Str → Panics Cache
  del_old c key = elim (rh.old_shard c.rehasher key) [
    | none ↦ returns c
    | some i ↦ elim (get_elem? (rh.old_shards c.rehasher) i) [
      | none ↦ panic
      | some s ↦ returns (record c { rehasher = rh.put_old c.rehasher i (sh.del s key) })
    ]
  ]

  -- the lines of `Set` and `Del` behind the new table's shard
  abbrev pub settle : Cache → Str → List Event → Panics (Cache × List Event)
  settle c key events =
      if rh.is_rehashing c.rehasher
      then (del_old c key >>= λ c'. rehash_step c' events)
      else returns (c, events)

  -- the time to live that `Set` stores
  abbrev pub ttl_of : Cache → Option ℤ → ℤ
  ttl_of c none = c.default_ttl
  ttl_of c (some ttl) = pos (pos_part ttl)

  -- `Set` behind the test of the key, with a nil value and a missing time to live as `none`
  abbrev pub store :
      Cache → Str → Option Str → Option ℤ → Panics (Cache × List Event × Answer (Unit {0}))
  store c key none ttl = returns (c, [], failed value_nil)
  store c key (some v) ttl = elim (get_elem? c.shards (shard_index c key)) [
    | none ↦ panic
    | some s ↦
        let (s', evicted) = sh.set s key v (ttl_of c ttl) in
        settle (record c { shards = set c.shards (shard_index c key) s' }) key
          (on_set key ∷ map on_evict evicted)
        >>= λ out. returns (out.0, out.1, ok tt)
  ]

  -- `Set`
  unfoldable pub set_value :
      Cache → Str → Option Str → Option ℤ → Panics (Cache × List Event × Answer (Unit {0}))
  set_value c key value ttl =
      if c.closed
      then returns (c, [], failed cache_closed)
      else if is_empty key
      then returns (c, [], failed key_empty)
      else store c key value ttl

  -- a lookup in the old table
  abbrev pub get_old : Cache → Str → Panics (Cache × Option Str)
  get_old c key = elim (rh.old_shard c.rehasher key) [
    | none ↦ returns (c, none)
    | some i ↦ elim (get_elem? (rh.old_shards c.rehasher) i) [
      | none ↦ panic
      | some s ↦
          let (s', found) = sh.get s key in
          returns (record c { rehasher = rh.put_old c.rehasher i s' }, found)
    ]
  ]

  abbrev pub found : Cache → Str → Str → Panics (Cache × List Event × Answer Str)
  found c key v = rehash_step c (on_hit key ∷ []) >>= λ out. returns (out.0, out.1, ok v)

  abbrev pub missed : Cache → Str → Panics (Cache × List Event × Answer Str)
  missed c key =
      rehash_step c (on_miss key ∷ []) >>= λ out. returns (out.0, out.1, failed key_not_found)

  abbrev pub answer_old : Cache → Str → Option Str → Panics (Cache × List Event × Answer Str)
  answer_old c key (some v) = found c key v
  answer_old c key none = missed c key

  abbrev pub fetch_old : Cache → Str → Panics (Cache × List Event × Answer Str)
  fetch_old c key = get_old c key >>= λ old. answer_old old.0 key old.1

  -- the lines of `Get` behind the new table's shard, with what it found there
  abbrev pub answer_new : Cache → Str → Option Str → Panics (Cache × List Event × Answer Str)
  answer_new c key (some v) = found c key v
  answer_new c key none = if rh.is_rehashing c.rehasher then fetch_old c key else missed c key

  abbrev pub fetch : Cache → Str → Panics (Cache × List Event × Answer Str)
  fetch c key = elim (get_elem? c.shards (shard_index c key)) [
    | none ↦ panic
    | some s ↦
        let (s', value) = sh.get s key in
        answer_new (record c { shards = set c.shards (shard_index c key) s' }) key value
  ]

  -- `Get`
  unfoldable pub get_value : Cache → Str → Panics (Cache × List Event × Answer Str)
  get_value c key =
      if c.closed
      then returns (c, [], failed cache_closed)
      else if is_empty key
      then returns (c, [], failed key_empty)
      else fetch c key

  abbrev pub remove : Cache → Str → Panics (Cache × List Event × Answer (Unit {0}))
  remove c key = elim (get_elem? c.shards (shard_index c key)) [
    | none ↦ panic
    | some s ↦
        settle (record c { shards = set c.shards (shard_index c key) (sh.del s key) }) key
          (on_del key ∷ [])
        >>= λ out. returns (out.0, out.1, ok tt)
  ]

  -- `Del`
  unfoldable pub del_key : Cache → Str → Panics (Cache × List Event × Answer (Unit {0}))
  del_key c key =
      if c.closed
      then returns (c, [], failed cache_closed)
      else if is_empty key
      then returns (c, [], failed key_empty)
      else remove c key

  -- `Resize`
  unfoldable pub resize : Cache → ℤ → Cache × List Event × Answer (Unit {0})
  resize c shard_count =
      if c.closed
      then (c, [], failed cache_closed)
      else if is_invalid_count shard_count
      then (c, [], failed invalid_shards)
      else if rh.is_rehashing c.rehasher
      then (c, [], failed rehash_in_progress)
      else let count = pos_part shard_count in
        (
          record c {
            shards = replicate count (sh.fresh (per_shard_max c.max_size count));
            mask = count - 1;
            rehasher = rh.start c.rehasher c.shards c.mask;
          },
          on_rehash_start (length c.shards) count ∷ [],
          ok tt,
        )

  -- the loops of `Len`
  abbrev pub total_len : List sh.State → ℕ
  total_len [] = 0
  total_len (s ∷ table) = sh.len s + total_len table

  unfoldable pub len : Cache → ℕ
  len c = if c.closed then 0 else total_len c.shards + total_len (rh.old_shards c.rehasher)

  unfoldable pub shard_count : Cache → ℕ
  shard_count c = if c.closed then 0 else length c.shards

  -- `Close`
  unfoldable pub close : Cache → Cache × Answer (Unit {0})
  close c =
      if c.closed
      then (c, failed cache_closed)
      else (record c { closed = true; shards = []; mask = 0; rehasher = rh.stop c.rehasher }, ok tt)
