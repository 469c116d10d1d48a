-- ===== src/Policy/Interface.antt =====
-- policy.go: `EvictionPolicy`, `noopPolicy`, `RegisterPolicy` and `getPolicyFactory`.
use mcache.Prelude.{
  ℕ, ◌≡◌, Bool, true, false, Option, none, some, [], ◌∷◌, ite, if◌then◌else◌, Str, str_dec, length,
  ◌==◌,
}
use mcache.Prelude.Dict.{Dict, lookup, insert}

pub record EvictionPolicy : Type 1 where
  pub State : Type 0
  -- what a `PolicyFactory` makes
  pub fresh : State
  pub on_access : State → Str → State
  pub on_add : State → Str → State
  pub on_remove : State → Str → State
  pub evict : State → State × Option Str
  pub len : State → ℕ
  pub clear : State → State

-- What the shard relies on: a policy tracks the keys that were added, until they are removed or
-- evicted, and `Evict` finds a tracked key whenever there is one.
pub record Laws (p : EvictionPolicy) (IsSound : p.State → Type 0) (tracks : p.State → Str → Bool)
    : Type 0 where
  pub fresh_sound : IsSound p.fresh
  pub fresh_tracks : (q : Str) → tracks p.fresh q ≡ false
  pub access_sound : (s : p.State) (k : Str) → IsSound s → IsSound (p.on_access s k)
  pub access_tracks :
      (s : p.State) (k q : Str) → IsSound s → tracks (p.on_access s k) q ≡ tracks s q
  pub add_sound : (s : p.State) (k : Str) → IsSound s → IsSound (p.on_add s k)
  pub add_tracks :
      (s : p.State) (k q : Str)
      → IsSound s
      → tracks (p.on_add s k) q ≡ ite (str_dec k q) true (tracks s q)
  pub remove_sound : (s : p.State) (k : Str) → IsSound s → IsSound (p.on_remove s k)
  pub remove_tracks :
      (s : p.State) (k q : Str)
      → IsSound s
      → tracks (p.on_remove s k) q ≡ ite (str_dec k q) false (tracks s q)
  pub evict_sound : (s : p.State) → IsSound s → IsSound (p.evict s).0
  pub evict_none : (s : p.State) (q : Str) → IsSound s → (p.evict s).1 ≡ none → tracks s q ≡ false
  pub evict_some : (s : p.State) (k : Str) → IsSound s → (p.evict s).1 ≡ some k → tracks s k ≡ true
  pub evict_tracks :
      (s : p.State) (k q : Str)
      → IsSound s
      → (p.evict s).1 ≡ some k
      → tracks (p.evict s).0 q ≡ ite (str_dec k q) false (tracks s q)

-- `noopPolicy`
abbrev pub noop : EvictionPolicy
noop = record {
  State = Unit {0};
  fresh = tt;
  on_access = λ s k. s;
  on_add = λ s k. s;
  on_remove = λ s k. s;
  evict = λ s. (s, none);
  len = λ s. 0;
  clear = λ s. s;
}

-- `policyRegistry`. A factory is a policy with its fresh state; `none` stands for a nil factory.
abbrev pub Registry : Type 1
Registry = Dict Str EvictionPolicy

abbrev pub built_in : EvictionPolicy → EvictionPolicy → Registry
built_in lru lfu =
    (b'n' ∷ b'o' ∷ b'o' ∷ b'p' ∷ [], noop)
    ∷ (b'l' ∷ b'r' ∷ b'u' ∷ [], lru)
    ∷ (b'l' ∷ b'f' ∷ b'u' ∷ [], lfu)
    ∷ []

-- The registry after `RegisterPolicy`, and whether it returned no error.
unfoldable pub register_policy : Registry → Str → Option EvictionPolicy → Registry × Bool
register_policy r name none = (r, false)
register_policy r name (some factory) =
    if length name == 0 then (r, false) else (insert str_dec name factory r, true)

-- `none` stands for `ErrUnknownPolicy`.
unfoldable pub get_policy_factory : Registry → Str → Option EvictionPolicy
get_policy_factory r name = lookup str_dec name r
