-- ===== src/Policy/Outcome.antt =====
-- policy.go: what a client of a policy with the laws sees of one eviction.
use mcache.Prelude.{
  ◌≡◌, Bool, true, false, none, some, Str, str_dec, ite, ◌⊎◌, inl, inr, Option-cases,
}
use mcache.Policy.Interface.{EvictionPolicy, Laws}

-- `Evict` either finds none, and no key is tracked; or it finds a tracked key, and tracks all but
-- that key afterwards, in a sound state.
pub Evicts :
    (p : EvictionPolicy) → (p.State → Type 0) → (p.State → Str → Bool) → p.State → Str → Type 0
Evicts p Fit tracks s q =
    ((p.evict s).1 ≡ none) × (tracks s q ≡ false)
    ⊎ ((k : Str) × ((p.evict s).1 ≡ some k)
        × (tracks s k ≡ true)
        × Fit (p.evict s).0
        × (tracks (p.evict s).0 q ≡ ite (str_dec k q) false (tracks s q)))

pub evict_lem :
    (p : EvictionPolicy) (Fit : p.State → Type 0) (tracks : p.State → Str → Bool)
    (laws : Laws p Fit tracks) (s : p.State) (q : Str)
    → Fit s
    → Evicts p Fit tracks s q
unfolding Evicts
evict_lem p Fit tracks laws s q fit = elim (Option-cases (p.evict s).1) [
  | inl e ↦ inl (e, laws.evict_none s q fit e)
  | inr (k, e) ↦
      inr (k, e, laws.evict_some s k fit e, laws.evict_sound s fit, laws.evict_tracks s k q fit e)
]
