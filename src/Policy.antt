-- ===== src/Policy.antt =====
-- policy.go: the interface of eviction policies, the no-op policy and the registry. A policy is
-- called under its shard's lock, so every method is one step on its state. `Laws` is what a client
-- may rely on; the `Laws` modules of the two real policies are about it.
pub mod Lru
pub mod Lfu
pub mod Interface
pub mod Outcome
pub use Interface.{EvictionPolicy, Laws, noop, Registry, built_in}
unfoldable pub use Interface.{register_policy, get_policy_factory}
