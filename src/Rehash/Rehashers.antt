-- ===== src/Rehash/Rehashers.antt =====
-- rehash/rehasher.go: the interface of rehashers, and those that implement it. `OldShard` returns a
-- pointer into the old table: here the shard's index, and `put_old` writes through the pointer.
use mcache.Prelude.{ℕ, Bool, true, false, Option, none, List, [], Str, set}
use mcache.Prelude.Panics.{Panics, returns}
use mcache.Rehash.Shards.{Shard}
use mcache.Rehash.Incremental.{Progress, Incremental, new_incremental, start, step, old_shard, stop}

pub record Rehasher (sh : Shard) : Type 1 where
  pub State : Type 0
  -- what a `RehasherFactory` makes
  pub fresh : State
  pub start : State → List sh.State → ℕ → State
  pub step : State → (Str → ℕ) → List sh.State → Panics (State × List sh.State × Progress)
  pub is_rehashing : State → Bool
  pub old_shard : State → Str → Option ℕ
  pub old_shards : State → List sh.State
  pub put_old : State → ℕ → sh.State → State
  pub stop : State → State

abbrev pub incremental : (sh : Shard) → Rehasher sh
incremental sh = record {
  State = Incremental sh;
  fresh = new_incremental sh;
  start = start sh;
  step = step sh;
  is_rehashing = λ r. r.rehashing;
  old_shard = old_shard sh;
  old_shards = λ r. r.old_shards;
  put_old = λ r i s. record r { old_shards = set r.old_shards i s };
  stop = stop sh;
}

-- `noopRehasher`
abbrev pub noop : (sh : Shard) → Rehasher sh
noop sh = record {
  State = Unit {0};
  fresh = tt;
  start = λ r old_shards old_mask. r;
  step =
      λ r index new_shards. returns (r, new_shards, record { done = true; just_completed = false });
  is_rehashing = λ r. false;
  old_shard = λ r key. none;
  old_shards = λ r. [];
  put_old = λ r i s. r;
  stop = λ r. r;
}
