-- ===== src/Shard/Sub/Steps.antt =====
-- shard.go: the steps of a sub-shard.
use mcache.Prelude.{ℕ, ◌≡◌, refl, Bool, Option, none, some, List, [], Str}
use mcache.Prelude.Int.{ℤ}
use mcache.Policy.{EvictionPolicy, Laws}
use mcache.Shard.Sub.{
  SubShard, purge, get, set, del, expire, persist, cleanup, extract_loop, swap_policy,
}
use mcache.Shard.Sub.Inv.{
  IsSound, purge-IsSound, get-IsSound, del-IsSound, expire-IsSound, persist-IsSound,
  cleanup-IsSound, extract_loop-IsSound, swap_policy-IsSound,
}
use mcache.Shard.Sub.Eviction.{set-IsSound}

-- A step with the times that its clock reads. `purging` is the writer's part of `get` by itself, as
-- it runs when another step has come between the two parts. `setting` has the bound, and `swapping`
-- replaces the policy by a new one of its kind.
pub data SubOp : Type 0 where
  getting : ℕ → ℕ → Str → SubOp
  purging : ℕ → Str → SubOp
  setting : ℕ → ℕ → Str → Str → ℤ → SubOp
  deleting : Str → SubOp
  expiring : ℕ → ℕ → Str → ℤ → SubOp
  persisting : ℕ → Str → SubOp
  cleaning : (Str → ℕ) → SubOp
  swapping : SubOp
  extracting : ℕ → ℕ → (Str → ℕ) → SubOp

abbrev stored : {p : EvictionPolicy} → Option (SubShard p × List Str) → Option (SubShard p)
stored none = none
stored (some out) = some out.0

module _ (p : EvictionPolicy) where
  -- `none` is fuel run out in the eviction loop of `Set`.
  pub step : SubShard p → SubOp → Option (SubShard p)
  step s (getting now now' key) = some (get p now now' s key).0
  step s (purging now key) = some (purge p now s key)
  step s (setting now max_size key value ttl) = stored (set p now max_size s key value ttl)
  step s (deleting key) = some (del p s key)
  step s (expiring now now' key ttl) = some (expire p now now' s key ttl).0
  step s (persisting now key) = some (persist p now s key).0
  step s (cleaning now) = some (cleanup p now s).0
  step s swapping = some (swap_policy p p s)
  step s (extracting n now now') = some (extract_loop p n now now' s [] s.entries).0

module _ (p : EvictionPolicy) (Fit : p.State → Type 0) (tracks : p.State → Str → Bool)
    (laws : Laws p Fit tracks) where
  -- With any policy that keeps the laws, every step of a sub-shard that is sound ends and leaves it
  -- sound: no key has two entries, and the policy tracks exactly the keys that have an entry. The
  -- steps are `Set` with any bound, both parts of `get`, `Del`, `expire`, `persist`, `cleanup`,
  -- `ExtractN` and `swapPolicy` to a policy of the same kind.
  pub step-IsSound :
      (s : SubShard p) (op : SubOp)
      → IsSound p Fit tracks s
      → (s' : SubShard p) × (step p s op ≡ some s') × IsSound p Fit tracks s'
  unfolding step
  step-IsSound s (getting now now' key) i =
      (_, refl, get-IsSound p Fit tracks laws now now' s key i)
  step-IsSound s (purging now key) i = (_, refl, purge-IsSound p Fit tracks laws now s key i)
  step-IsSound s (setting now max_size key value ttl) i =
      let (out, e, j) = set-IsSound p Fit tracks laws now max_size s key value ttl i in
      (out.0, rw e refl, j)
  step-IsSound s (deleting key) i = (_, refl, del-IsSound p Fit tracks laws s key i)
  step-IsSound s (expiring now now' key ttl) i =
      (_, refl, expire-IsSound p Fit tracks laws now now' s key ttl i)
  step-IsSound s (persisting now key) i = (_, refl, persist-IsSound p Fit tracks laws now s key i)
  step-IsSound s (cleaning now) i = (_, refl, cleanup-IsSound p Fit tracks laws now s i)
  step-IsSound s swapping i = (_, refl, swap_policy-IsSound p Fit tracks laws p s i.distinct)
  step-IsSound s (extracting n now now') i =
      (_, refl, extract_loop-IsSound p Fit tracks laws n now now' s [] s.entries i)
