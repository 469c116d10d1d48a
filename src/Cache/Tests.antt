-- ===== src/Cache/Tests.antt =====
-- cache.go and rehash/ over shards of shard.go.
use mcache.Prelude.{
  ℕ, zero, suc, ◌≡◌, ◌≤◌, refl, sym, ◌∙◌, true, false, some, List, [], ◌∷◌, Str, get_elem?, arith,
  inl,
}
use mcache.Prelude.Int.{pos}
use mcache.Prelude.Panics.{returns}
use mathlib.Core.Path.{subst}
use mcache.Shard.Kv.Migration.Laws.{kv_laws}
use mcache.Shard.Kv.Migration.Example.{
  key_a, key_b, kv, laws, no_item, one_item, one_item-IsSound, size_one,
}
use mcache.Rehash.Shards.{old_shard_index}
use mcache.Rehash.Shards.Tables.{view, view-outside, total, some_injective}
use mcache.Rehash.Incremental.{Incremental, Progress, new_incremental, start, step, run}
use mcache.Rehash.Incremental.Keeps.{contents, remaining, remaining-on, IsSound}
use mcache.Rehash.Incremental.Steps.{Follows, step-Follows, run-Migrates}
use mcache.Rehash.Batch.{drain}
use mcache.Rehash.Batch.Equivalence.{at, runs, drain-runs, drain-Migrates}
use mcache.Cache.{Cache, per_shard_max}
use mcache.Cache.Contents.{Cached, IsOpen}
use mcache.Cache.Tables.{old_shard_index-lt, started-IsSound}
use mcache.Cache.Refinement.{Call, set_call, get_call, del_call, resize_call}

-- a cache of one shard, which has an entry

abbrev one_shard : Cached kv laws
one_shard = record {
  shards = one_item ∷ [];
  mask = 0;
  max_size = 0;
  default_ttl = pos 0;
  closed = false;
  rehasher = new_incremental kv;
}

only_shard : (i : ℕ) (s : kv.State) → get_elem? (one_item ∷ []) i ≡ some s → i ≡ 0
only_shard zero s e = refl
only_shard (suc i) s e = absurd (ground (arith, e))

one_shard-AreSound : (i : ℕ) (s : kv.State) → get_elem? (one_item ∷ []) i ≡ some s → laws.IsSound s
one_shard-AreSound zero s e = subst laws.IsSound (some_injective one_item s e) one_item-IsSound
one_shard-AreSound (suc i) s e = absurd (ground (arith, e))

no_bound : (n : ℕ) → per_shard_max 0 n ≡ 0
no_bound n = ground arith

one_shard-IsOpen : IsOpen kv laws one_shard
unfolding kv_laws
one_shard-IsOpen = record {
  not_closed = refl;
  bound = no_bound;
  ttl = inl refl;
  sound = record {
    in_range = λ k. old_shard_index-lt k 1 (omega arith);
    new_sound = one_shard-AreSound;
    old_sound = λ i s e. absurd (ground (arith, e));
    new_placed =
        λ i s k v e held. omega (arith, old_shard_index-lt k 1 (omega arith), only_shard i s e);
    placed = λ i s k v e. absurd (ground (arith, e));
    reach = λ e. absurd (ground (arith, e));
    apart = λ k v e. absurd (ground (arith, sym e ∙ view-outside kv laws [] _ k refl));
    passed = λ i s k h e. absurd (ground (arith, e));
    pointer = λ e. absurd (ground (arith, e));
    idle = λ e. refl;
    batch = omega arith;
  };
}

-- the rehasher that migrates it to a table of two
abbrev migrating : Incremental kv
migrating = record {
  rehashing = true;
  old_shards = one_item ∷ [];
  old_mask = 0;
  rehash_idx = 0;
  batch_size = 16;
}

abbrev index : Str → ℕ
index key = old_shard_index key 1

migrating-IsSound : IsSound kv laws migrating index (no_item ∷ no_item ∷ [])
unfolding start kv_laws
migrating-IsSound =
    started-IsSound kv laws 2 0 (omega arith) refl (new_incremental kv) (one_item ∷ []) 0
      one_shard-IsOpen.sound

step-Follows_example :
    (out : Incremental kv × List kv.State × Progress) × (step kv migrating index
        (no_item ∷ no_item ∷ [])
      ≡ returns out)
    × Follows kv laws migrating index (no_item ∷ no_item ∷ []) out
step-Follows_example =
    step-Follows kv laws migrating index (no_item ∷ no_item ∷ []) migrating-IsSound

total-two : total kv laws (one_item ∷ []) ≡ 1
total-two = omega (arith, size_one)

few : remaining kv laws migrating ≤ 2
few = omega (arith, remaining-on kv laws migrating refl, total-two)

run-Migrates_example :
    (out : Incremental kv × List kv.State) × (run kv 2 migrating index (no_item ∷ no_item ∷ [])
      ≡ returns out)
    × (out.0.rehashing ≡ false)
    × ((k : Str)
        → view kv laws out.1 (index k) k
          ≡ contents kv laws migrating index (no_item ∷ no_item ∷ []) k)
run-Migrates_example =
    run-Migrates kv laws 2 migrating index (no_item ∷ no_item ∷ []) migrating-IsSound few

abbrev calls : List Call
calls =
    get_call key_a
    ∷ set_call key_b key_a (some (pos 7))
    ∷ resize_call (pos 2)
    ∷ get_call key_b
    ∷ del_call key_a
    ∷ get_call key_a
    ∷ []

-- the same tables, with the batches of the batch rehasher
batch-IsSound : IsSound kv laws (at kv index 0 (one_item ∷ []) 0) index (no_item ∷ no_item ∷ [])
batch-IsSound =
    let m = migrating-IsSound in
    record {
      in_range = m.in_range;
      new_sound = m.new_sound;
      old_sound = m.old_sound;
      new_placed = m.new_placed;
      placed = m.placed;
      reach = m.reach;
      apart = m.apart;
      passed = m.passed;
      pointer = m.pointer;
      idle = m.idle;
      batch = omega arith;
    }

drain-runs_example :
    drain kv 2 index (one_item ∷ []) (no_item ∷ no_item ∷ [])
    ≡ runs kv index 0 2 (at kv index 0 (one_item ∷ []) 0) (no_item ∷ no_item ∷ [])
drain-runs_example =
    drain-runs kv index 0 2 (one_item ∷ []) 0 (no_item ∷ no_item ∷ []) (omega arith)

drain-Migrates_example :
    (table' : List kv.State) × (drain kv 2 index (one_item ∷ []) (no_item ∷ no_item ∷ [])
      ≡ returns (some table'))
    × ((k : Str)
        → view kv laws table' (index k) k
          ≡ contents kv laws (at kv index 0 (one_item ∷ []) 0) index (no_item ∷ no_item ∷ []) k)
drain-Migrates_example =
    drain-Migrates kv laws index 0 2 (one_item ∷ []) (no_item ∷ no_item ∷ []) batch-IsSound
      (omega (arith, total-two))
