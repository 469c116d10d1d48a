-- ===== src/Cache/Typed.antt =====
-- cache.go and cache_ext.go: the cache's operations on sets, hashes and lists. They reach the maps of
-- one shard, those of the key, in the table that is current, whether a rehash is under way or not.
pub mod Hashes
pub mod Lists
pub mod Sets
use mcache.Prelude.{ℕ, Bool, Option, none, some, List, [], ◌∷◌, Str, if◌then◌else◌, get_elem?, set}
use mcache.Prelude.Dict.{Dict}
use mcache.Prelude.Panics.{Panics, returns, panic, ◌>>=◌}
use mcache.Ds.Sets.{Elements}
use mcache.Ds.Hashes.{Fields}
use mcache.Rehash.Shards.{old_shard_index}
use mcache.Cache.{Answer, ok, failed, cache_closed, key_empty, key_not_found, is_empty}

-- the maps of a shard
pub record Maps : Type 0 where
  pub sets : Dict Str Elements
  pub hashes : Dict Str Fields
  pub lists : Dict Str (List Str)

-- the cache as far as these operations use it: the maps of the shards, the table's mask, and
-- whether it is closed
pub record TypedCache : Type 0 where
  pub table : List Maps
  pub mask : ℕ
  pub closed : Bool

module _ {A : Type 0} where
  -- the test for a closed cache, that for an empty key, and an operation on the shard of the key
  unfoldable pub at_key :
      TypedCache → Str → (Maps → Panics (Maps × Answer A)) → Panics (TypedCache × Answer A)
  at_key c key body =
      if c.closed
      then returns (c, failed cache_closed)
      else if is_empty key
      then returns (c, failed key_empty)
      else elim (get_elem? c.table (old_shard_index key c.mask)) [
        | none ↦ panic
        | some m ↦
            (body m >>= λ out.
            returns (record c { table = set c.table (old_shard_index key c.mask) out.0 }, out.1))
      ]

  -- an answer that leaves the maps alone
  abbrev pub reading : Maps → Answer A → Panics (Maps × Answer A)
  reading m answer = returns (m, answer)

  -- `ErrKeyNotFound` for what is missing
  abbrev pub found : Option A → Answer A
  found none = failed key_not_found
  found (some a) = ok a

  abbrev pub writing_hashes : Maps → Dict Str Fields × Answer A → Panics (Maps × Answer A)
  writing_hashes m out = returns (record m { hashes = out.0 }, out.1)

  abbrev pub writing_lists : Maps → Dict Str (List Str) × Answer A → Panics (Maps × Answer A)
  writing_lists m out = returns (record m { lists = out.0 }, out.1)

  abbrev pub writing_sets : Maps → Dict Str Elements × Answer A → Panics (Maps × Answer A)
  writing_sets m out = returns (record m { sets = out.0 }, out.1)
