-- ===== src/Shard/Typed/Lists.antt =====
-- shard.go: the list operations of a shard, on the map of its lists.
pub mod Full
use mcache.Prelude.{
  ℕ, zero, suc, ◌+◌, ◌≡◌, ◌≢◌, refl, Bool, true, false, Option, none, some, List, [], ◌∷◌, Str,
  str_dec, if◌then◌else◌, ◌==◌, arith, length, inl, inr, Bool-cases, Option-cases,
}
use mcache.Prelude.Int.{ℤ, pos, negsuc}
use mcache.Prelude.Dict.{Dict, lookup, insert, delete}
use mcache.Prelude.Panics.{Panics, returns, panic, ◌>>=◌}
use mcache.Ds.Lists
use mcache.Shard.Typed.{obtain, store, store_left}
use mcache.Shard.Typed.Sets.{popped}

pub l_push : Dict Str (List Str) → Str → List Str → Dict Str (List Str) × ℕ
l_push m key elems = let out = Lists.l_push (obtain m key) elems in (store m key out.0, out.1)

pub r_push : Dict Str (List Str) → Str → List Str → Dict Str (List Str) × ℕ
r_push m key elems = let out = Lists.r_push (obtain m key) elems in (store m key out.0, out.1)

unfoldable pub l_pop : Dict Str (List Str) → Str → Dict Str (List Str) × Option Str
l_pop m key = elim (lookup str_dec key m) [
  | none ↦ (m, none)
  | some l ↦ popped m key (Lists.l_pop l)
]

pub r_pop : Dict Str (List Str) → Str → Dict Str (List Str) × Option Str
r_pop m key = elim (lookup str_dec key m) [
  | none ↦ (m, none)
  | some l ↦ popped m key (Lists.r_pop l)
]

unfoldable pub l_len : Dict Str (List Str) → Str → ℕ
l_len m key = elim (lookup str_dec key m) [ none ↦ 0 | some l ↦ Lists.l_len l ]

unfoldable pub l_range : Dict Str (List Str) → Str → ℤ → ℤ → Panics (List Str)
l_range m key start stop = elim (lookup str_dec key m) [
  | none ↦ returns []
  | some l ↦ Lists.l_range l start stop
]

unfoldable pub l_index : Dict Str (List Str) → Str → ℤ → Panics (Option Str)
l_index m key index = elim (lookup str_dec key m) [
  | none ↦ returns none
  | some l ↦ Lists.l_index l index
]

pub l_set : Dict Str (List Str) → Str → ℤ → Str → Panics (Dict Str (List Str) × Bool)
l_set m key index value = elim (lookup str_dec key m) [
  | none ↦ returns (m, false)
  | some l ↦ Lists.l_set l index value >>= (λ out. returns (store m key out.0, out.1))
]

pub l_rem : Dict Str (List Str) → Str → ℤ → Str → Dict Str (List Str) × ℕ
l_rem m key count value = elim (lookup str_dec key m) [
  | none ↦ (m, 0)
  | some l ↦ let out = Lists.l_rem l count value in (store_left m key out.0, out.1)
]

pub l_trim : Dict Str (List Str) → Str → ℤ → ℤ → Panics (Dict Str (List Str))
l_trim m key start stop = elim (lookup str_dec key m) [
  | none ↦ returns m
  | some l ↦ Lists.l_trim l start stop >>= (λ l'. returns (store_left m key l'))
]

pub l_insert : Dict Str (List Str) → Str → Bool → Str → Str → Dict Str (List Str) × ℤ
l_insert m key before pivot value = elim (lookup str_dec key m) [
  | none ↦ (m, pos 0)
  | some l ↦ let out = Lists.l_insert l before pivot value in (store m key out.0, out.1)
]

unfoldable pub l_pos : Dict Str (List Str) → Str → Str → ℤ → ℤ → ℤ → List ℕ
l_pos m key value rank count max_len = elim (lookup str_dec key m) [
  | none ↦ []
  | some l ↦ Lists.l_pos l value rank count max_len
]

-- an operation that changes a list; the pushes have their first element apart
pub data ListOp : Type 0 where
  push_left push_right : Str → Str → List Str → ListOp
  pop_left pop_right : Str → ListOp
  set_at : Str → ℤ → Str → ListOp
  remove : Str → ℤ → Str → ListOp
  trim : Str → ℤ → ℤ → ListOp
  insert_by : Str → Bool → Str → Str → ListOp

-- the map that the operation leaves
pub apply : Dict Str (List Str) → ListOp → Panics (Dict Str (List Str))
apply m (push_left key x elems) = returns (l_push m key (x ∷ elems)).0
apply m (push_right key x elems) = returns (r_push m key (x ∷ elems)).0
apply m (pop_left key) = returns (l_pop m key).0
apply m (pop_right key) = returns (r_pop m key).0
apply m (set_at key index value) = l_set m key index value >>= (λ out. returns out.0)
apply m (remove key count value) = returns (l_rem m key count value).0
apply m (trim key start stop) = l_trim m key start stop
apply m (insert_by key before pivot value) = returns (l_insert m key before pivot value).0
