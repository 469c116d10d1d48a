-- ===== src/Rehash/Batch.antt =====
-- rehash/batch.go. A call runs from its first to its last line, so a step is a function; a nil table
-- is the empty list.
pub mod Equivalence
use mcache.Prelude.{
  ℕ, zero, suc, Bool, true, false, Option, none, some, List, [], ◌∷◌, Str, if◌then◌else◌,
}
use mcache.Prelude.Panics.{Panics, returns, ◌>>=◌}
use mcache.Shard.Sub.{Item}
use mcache.Rehash.Shards.{Shard, move, old_shard_index}
use mcache.Rehash.Incremental.{Progress}

pub record Batch (sh : Shard) : Type 0 where
  pub rehashing : Bool
  pub old_shards : List sh.State
  pub old_mask : ℕ

module _ (sh : Shard) where
  -- `NewBatchRehasher`
  abbrev pub new_batch : Batch sh
  new_batch = record { rehashing = false; old_shards = []; old_mask = 0 }

  unfoldable pub start : Batch sh → List sh.State → ℕ → Batch sh
  start r old_shards old_mask = record r {
    rehashing = true;
    old_shards = old_shards;
    old_mask = old_mask;
  }

  -- The two loops of `Step`, on fuel: a round takes items out of the first shard that is left, and
  -- goes on to the next when there are none; `none` is fuel run out.
  unfoldable pub drain :
      ℕ → (Str → ℕ) → List sh.State → List sh.State → Panics (Option (List sh.State))
  drain fuel index [] table = returns (some table)
  drain zero index (s ∷ old) table = returns none
  drain (suc fuel) index (s ∷ old) table = sh.extract_n s 1000 >>= λ taken. elim taken.1 [
    | [] ↦ drain fuel index old table
    | it ∷ its ↦
        move sh index (it ∷ its) table >>= λ table'. drain fuel index (taken.0 ∷ old) table'
  ]

  unfoldable pub step :
      ℕ
      → Batch sh
      → (Str → ℕ)
      → List sh.State
      → Panics (Option (Batch sh × List sh.State × Progress))
  step fuel r index table =
      if r.rehashing
      then (drain fuel index r.old_shards table >>= λ out. elim out [
        | none ↦ returns none
        | some table' ↦ returns (
            some (
              record r { rehashing = false; old_shards = [] },
              table',
              record { done = true; just_completed = true },
            ))
      ])
      else returns (some (r, table, record { done = true; just_completed = false }))

  -- the index that `OldShard` takes, none for a nil shard
  unfoldable pub old_shard : Batch sh → Str → Option ℕ
  old_shard r key =
      if r.rehashing
      then (elim r.old_shards [ [] ↦ none | s ∷ ss ↦ some (old_shard_index key r.old_mask) ])
      else none

  unfoldable pub stop : Batch sh → Batch sh
  stop r = record r { rehashing = false; old_shards = [] }
