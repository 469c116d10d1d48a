-- ===== src/Rehash/Shards.antt =====
-- rehash/rehasher.go: the shard as a rehasher sees it, and the tables of shards. What the cache needs
-- of a shard beyond that, `get` and new shards, stands in the interface too. The calls of a run see one
-- time, which the operations do not take. `Shard.Kv.Migration.Laws` has shard.go as such a shard.
pub mod Tables
use mcache.Prelude.{
  refl, ℕ, ◌+◌, ◌<◌, ◌≡◌, Option, none, some, List, [], ◌∷◌, Str, str_dec, ite, length, get_elem?,
  set,
}
use mcache.Prelude.Int.{ℤ}
use mcache.Prelude.Panics.{Panics, returns, panic, ◌>>=◌}
use mcache.Shard.Sub.{Item}
use mcache.Shard.Kv.{fnv_loop}
use Prim.Native.Nat.{bit_and}

pub record Shard : Type 1 where
  pub State : Type 0
  -- a new shard, with its largest number of entries or 0 for none
  pub fresh : ℕ → State
  -- a panic where `ExtractN` dereferences an empty slot
  pub extract_n : State → ℕ → Panics (State × List Item)
  pub set : State → Str → Str → ℤ → State × List Str
  pub del : State → Str → State
  pub get : State → Str → State × Option Str
  pub len : State → ℕ

abbrev pub or_else {ℓ} : {A : Type ℓ} → Option A → Option A → Option A
or_else none d = d
or_else (some a) d = some a

pub or_else-none {ℓ} : {A : Type ℓ} (a : Option A) → or_else a none ≡ a
or_else-none none = refl
or_else-none (some a) = refl

-- the value that the last item with a key has
unfoldable pub moved : Str → List Item → Option Str
moved k [] = none
moved k (it ∷ items) = or_else (moved k items) (ite (str_dec it.key k) (some it.value) none)

abbrev pub AreTtls : (ℤ → Type 0) → List Item → Type 0
AreTtls IsTtl [] = Unit
AreTtls IsTtl (it ∷ items) = IsTtl it.ttl × AreTtls IsTtl items

-- What `extract_n` of at most `n` entries leaves of a shard that held `before` and had `size` entries:
-- each entry is now in the shard or among the items, and there are no items only if the shard was
-- empty.
pub record Extracted (before after : Str → Option Str) (size left n : ℕ) (items : List Item)
    : Type 0 where
  pub splits : (q : Str) → before q ≡ or_else (moved q items) (after q)
  pub gone : (q v : Str) → moved q items ≡ some v → after q ≡ none
  pub amount : left + length items ≡ size
  pub nothing : (q : Str) → 0 < n → items ≡ [] → before q ≡ none

-- What a rehasher relies on. A shard holds values under keys, which its operations change as those of
-- a map, without evictions, for the bounds and the times to live that the laws speak of; `extract_n`
-- returns, and takes entries out.
pub record Laws (sh : Shard) : Type 1 where
  pub IsSound : sh.State → Type 0
  pub IsBound : ℕ → Type 0
  pub IsTtl : ℤ → Type 0
  pub holds : sh.State → Str → Option Str
  pub size : sh.State → ℕ
  pub fresh_sound : (max : ℕ) → IsBound max → IsSound (sh.fresh max)
  pub fresh_holds : (max : ℕ) (q : Str) → IsBound max → holds (sh.fresh max) q ≡ none
  pub set_sound :
      (s : sh.State) (k v : Str) (ttl : ℤ) → IsTtl ttl → IsSound s → IsSound (sh.set s k v ttl).0
  pub set_holds :
      (s : sh.State) (k v : Str) (ttl : ℤ) (q : Str)
      → IsTtl ttl
      → IsSound s
      → holds (sh.set s k v ttl).0 q ≡ ite (str_dec k q) (some v) (holds s q)
  pub del_sound : (s : sh.State) (k : Str) → IsSound s → IsSound (sh.del s k)
  pub del_holds :
      (s : sh.State) (k q : Str)
      → IsSound s
      → holds (sh.del s k) q ≡ ite (str_dec k q) none (holds s q)
  pub get_sound : (s : sh.State) (k : Str) → IsSound s → IsSound (sh.get s k).0
  pub get_holds : (s : sh.State) (k q : Str) → IsSound s → holds (sh.get s k).0 q ≡ holds s q
  pub get_finds : (s : sh.State) (k : Str) → IsSound s → (sh.get s k).1 ≡ holds s k
  pub extracts :
      (s : sh.State) (n : ℕ)
      → IsSound s
      → (out : sh.State × List Item) × (sh.extract_n s n ≡ returns out)
        × IsSound out.0
        × AreTtls IsTtl out.1
        × Extracted (holds s) (holds out.0) (size s) (size out.0) n out.1

-- `OldShardIndex`, and `shardIndexFor` of cache.go
unfoldable pub old_shard_index : Str → ℕ → ℕ
old_shard_index key mask = bit_and (fnv_loop 2166136261 key) mask

module _ (sh : Shard) where
  -- the loop of `Step` over the items that were extracted
  unfoldable pub move : (Str → ℕ) → List Item → List sh.State → Panics (List sh.State)
  move index [] table = returns table
  move index (it ∷ items) table = elim (get_elem? table (index it.key)) [
    | none ↦ panic
    | some s ↦ move index items (set table (index it.key) (sh.set s it.key it.value it.ttl).0)
  ]
