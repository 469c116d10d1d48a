-- ===== src/Rehash/Incremental.antt =====
-- rehash/incremental.go. A call runs from its first to its last line, so a step is a function; a nil
-- table is the empty list.
pub mod Keeps
pub mod Steps
pub mod Edits
use mcache.Prelude.{
  ℕ, zero, suc, ◌+◌, Bool, true, false, Option, none, some, List, [], ◌∷◌, Str, leb, length,
  get_elem?, set, if◌then◌else◌,
}
use mcache.Prelude.Panics.{Panics, returns, panic, ◌>>=◌}
use mcache.Shard.Sub.{Item}
use mcache.Rehash.Shards.{Shard, move, old_shard_index}

pub record Incremental (sh : Shard) : Type 0 where
  pub rehashing : Bool
  pub old_shards : List sh.State
  pub old_mask : ℕ
  pub rehash_idx : ℕ
  pub batch_size : ℕ

-- what `Step` returns
pub record Progress : Type 0 where
  pub done : Bool
  pub just_completed : Bool

module _ (sh : Shard) where
  -- `NewIncrementalRehasher`
  abbrev pub new_incremental : Incremental sh
  new_incremental = record {
    rehashing = false;
    old_shards = [];
    old_mask = 0;
    rehash_idx = 0;
    batch_size = 16;
  }

  unfoldable pub start : Incremental sh → List sh.State → ℕ → Incremental sh
  start r old_shards old_mask = record r {
    rehashing = true;
    old_shards = old_shards;
    old_mask = old_mask;
    rehash_idx = 0;
  }

  -- the part of `Step` behind the second `Lock`
  abbrev pub advance : Incremental sh → List Item → Incremental sh × Progress
  advance r [] =
      if leb (length r.old_shards) (r.rehash_idx + 1)
      then (
        record r { rehashing = false; old_shards = []; rehash_idx = r.rehash_idx + 1 },
        record { done = true; just_completed = true },
      )
      else (
        record r { rehash_idx = r.rehash_idx + 1 },
        record { done = false; just_completed = false },
      )
  advance r (it ∷ items) = (r, record { done = false; just_completed = false })

  -- the lines of `Step` behind the two tests of the flag
  abbrev pub migrate :
      Incremental sh
      → (Str → ℕ)
      → List sh.State
      → Panics (Incremental sh × List sh.State × Progress)
  migrate r index new_shards = elim (get_elem? r.old_shards r.rehash_idx) [
    | none ↦ panic
    | some old ↦ sh.extract_n old r.batch_size >>= λ taken.
        move sh index taken.1 new_shards >>= λ new_shards'.
        let (r', out) =
          advance (record r { old_shards = set r.old_shards r.rehash_idx taken.0 }) taken.1 in
        returns (r', new_shards', out)
  ]

  unfoldable pub step :
      Incremental sh
      → (Str → ℕ)
      → List sh.State
      → Panics (Incremental sh × List sh.State × Progress)
  step r index new_shards =
      if r.rehashing
      then migrate r index new_shards
      else returns (r, new_shards, record { done = true; just_completed = false })

  -- the index that `OldShard` takes, none for a nil shard
  unfoldable pub old_shard : Incremental sh → Str → Option ℕ
  old_shard r key =
      if r.rehashing
      then (elim r.old_shards [ [] ↦ none | s ∷ ss ↦ some (old_shard_index key r.old_mask) ])
      else none

  unfoldable pub stop : Incremental sh → Incremental sh
  stop r = record r { rehashing = false; old_shards = []; rehash_idx = 0 }

  -- steps until the rehash is done, on fuel
  unfoldable pub run :
      ℕ → Incremental sh → (Str → ℕ) → List sh.State → Panics (Incremental sh × List sh.State)
  run zero r index table = returns (r, table)
  run (suc fuel) r index table =
      if r.rehashing
      then (step r index table >>= λ out. run fuel out.0 index out.1)
      else returns (r, table)
