-- ===== src/Cache/Typed/Sets.antt =====
-- cache.go: the set operations. What they draw at random is an argument.
use mcache.Prelude.{
  ℕ, suc, Bool, Option, none, some, List, [], ◌∷◌, Str, str_dec, if◌then◌else◌, ite, get_elem?,
}
use mcache.Prelude.Int.{ℤ}
use mcache.Prelude.Panics.{Panics, ◌>>=◌}
use mcache.Ds.Sets as Sets
use mcache.Ds.Sets.{Elements}
use mcache.Shard.Typed.{or_new}
use mcache.Shard.Typed.Sets as Shards
use mcache.Cache.{Answer, ok, failed, cache_closed}
use mcache.Cache.Typed.{Maps, TypedCache, at_key, reading, found, writing_sets}

unfoldable pub s_add : TypedCache → Str → List Str → Panics (TypedCache × Answer ℕ)
s_add c key elems =
    at_key c key λ m. let out = Shards.s_add m.sets key elems in writing_sets m (out.0, ok out.1)

unfoldable pub s_rem : TypedCache → Str → List Str → Panics (TypedCache × Answer ℕ)
s_rem c key elems =
    at_key c key λ m. let out = Shards.s_rem m.sets key elems in writing_sets m (out.0, ok out.1)

unfoldable pub s_is_member : TypedCache → Str → Str → Panics (TypedCache × Answer Bool)
s_is_member c key elem = at_key c key λ m. reading m (ok (Shards.s_is_member m.sets key elem))

unfoldable pub s_members : TypedCache → Str → Panics (TypedCache × Answer (List Str))
s_members c key = at_key c key λ m. reading m (ok (Shards.s_members m.sets key))

unfoldable pub s_card : TypedCache → Str → Panics (TypedCache × Answer ℕ)
s_card c key = at_key c key λ m. reading m (ok (Shards.s_card m.sets key))

unfoldable pub s_pop : ℕ → TypedCache → Str → Panics (TypedCache × Answer Str)
s_pop n c key =
    at_key c key λ m. let out = Shards.s_pop n m.sets key in writing_sets m (out.0, found out.1)

unfoldable pub s_rand_member :
    List ℕ → TypedCache → Str → ℤ → Panics (TypedCache × Answer (List Str))
s_rand_member draws c key count =
    at_key c key λ m. Shards.s_rand_member draws m.sets key count >>= λ es. reading m (ok es)

-- the set of `key` in the first shard that has one
pub find_set : List Maps → Str → Option Elements
find_set [] key = none
find_set (m ∷ table) key =
    let rest = find_set table key in
    elim (Shards.get_set m.sets key) [ none ↦ rest | some s ↦ some s ]

-- the address of a key's set: the place of the key among the keys of the call
pub address : Str → List Str → ℕ
address key [] = 0
address key (k ∷ keys) = ite (str_dec k key) 0 (suc (address key keys))

-- the sets behind the addresses, a new one for a key without a set
unfoldable pub set_at : List Maps → List Str → ℕ → Elements
set_at table keys i = elim (get_elem? keys i) [ none ↦ [] | some key ↦ or_new (find_set table key) ]

-- the loop of `SUnion` over `rest`
pub union_sets : List Maps → List Str → List Str → List ℕ
union_sets table keys [] = []
union_sets table keys (key ∷ rest) =
    let sets = union_sets table keys rest in
    elim (find_set table key) [ none ↦ sets | some s ↦ address key keys ∷ sets ]

abbrev pub joined : List Maps → List Str → List ℕ → List Str
joined table keys [] = []
joined table keys (s ∷ sets) = Sets.members (Sets.union (set_at table keys) (s ∷ sets))

unfoldable pub s_union : TypedCache → List Str → Answer (List Str)
s_union c keys =
    if c.closed
    then failed cache_closed
    else ok (joined c.table keys (union_sets c.table keys keys))

-- the loop of `SInter`, which a key without a set ends
pub inter_sets : List Maps → List Str → List Str → Option (List ℕ)
inter_sets table keys [] = some []
inter_sets table keys (key ∷ rest) =
    let sets = inter_sets table keys rest in
    elim (find_set table key) [
      | none ↦ none
      | some s ↦ elim sets [ none ↦ none | some others ↦ some (address key keys ∷ others) ]
    ]

abbrev pub shared : List Maps → List Str → Option (List ℕ) → List Str
shared table keys none = []
shared table keys (some sets) = Sets.members (Sets.inter (set_at table keys) sets)

unfoldable pub s_inter : TypedCache → List Str → Answer (List Str)
s_inter c keys =
    if c.closed
    then failed cache_closed
    else ok (shared c.table keys (inter_sets c.table keys keys))

-- the loop of `SDiff`, with a new set for a key without one
pub diff_sets : List Str → List Str → List ℕ
diff_sets keys [] = []
diff_sets keys (key ∷ rest) = address key keys ∷ diff_sets keys rest

unfoldable pub s_diff : TypedCache → List Str → Answer (List Str)
s_diff c keys =
    if c.closed
    then failed cache_closed
    else ok (Sets.members (Sets.diff (set_at c.table keys) (diff_sets keys keys)))
