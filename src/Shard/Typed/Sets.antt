-- ===== src/Shard/Typed/Sets.antt =====
-- shard.go: the set operations of a shard, on the map of its sets.
use mcache.Prelude.{ℕ, Bool, false, Option, none, some, List, [], Str, str_dec}
use mcache.Prelude.Int.{ℤ}
use mcache.Prelude.Dict.{Dict, lookup}
use mcache.Prelude.Panics.{Panics, returns}
use mcache.Ds.Sets
use mcache.Ds.Sets.{Elements, new_set}
use mcache.Shard.Typed.{obtain, store, store_left}

unfoldable pub s_add : Dict Str Elements → Str → List Str → Dict Str Elements × ℕ
s_add m key elems = let out = Sets.add (obtain m key) elems in (store m key out.0, out.1)

unfoldable pub s_rem : Dict Str Elements → Str → List Str → Dict Str Elements × ℕ
s_rem m key elems = elim (lookup str_dec key m) [
  | none ↦ (m, 0)
  | some s ↦ let out = Sets.rem s elems in (store_left m key out.0, out.1)
]

unfoldable pub s_is_member : Dict Str Elements → Str → Str → Bool
s_is_member m key elem = elim (lookup str_dec key m) [
  | none ↦ false
  | some s ↦ Sets.is_member s elem
]

unfoldable pub s_members : Dict Str Elements → Str → List Str
s_members m key = elim (lookup str_dec key m) [ none ↦ [] | some s ↦ Sets.members s ]

unfoldable pub s_card : Dict Str Elements → Str → ℕ
s_card m key = elim (lookup str_dec key m) [ none ↦ 0 | some s ↦ Sets.card s ]

-- The map after a pop, of which `out` is the container and the element.
abbrev pub popped :
    {A : Type 0} → Dict Str (List A) → Str → List A × Option Str → Dict Str (List A) × Option Str
popped m key out = elim out.1 [ none ↦ (m, none) | some elem ↦ (store_left m key out.0, some elem) ]

-- `n` is the random index that `Pop` draws.
unfoldable pub s_pop : ℕ → Dict Str Elements → Str → Dict Str Elements × Option Str
s_pop n m key = elim (lookup str_dec key m) [
  | none ↦ (m, none)
  | some s ↦ popped m key (Sets.pop n s)
]

unfoldable pub s_rand_member : List ℕ → Dict Str Elements → Str → ℤ → Panics (List Str)
s_rand_member draws m key count = elim (lookup str_dec key m) [
  | none ↦ returns []
  | some s ↦ Sets.rand_member draws s count
]

unfoldable pub get_set : Dict Str Elements → Str → Option Elements
get_set m key = lookup str_dec key m
