-- ===== src/Shard/Typed/Lists/Full.antt =====
-- shard.go: the list operations and keys with empty lists.
use mcache.Prelude.{
  ◌≡◌, ◌≢◌, refl, ap, ◌∙◌, Bool, false, Option, none, some, List, [], Str, str_dec, inl, inr,
  Option-cases,
}
use mcache.Prelude.Int.{ℤ}
use mcache.Prelude.Dict.{Dict, lookup}
use mcache.Prelude.Panics.{Panics, returns}
use mcache.Ds.Lists
use mcache.Ds.Lists.Range.{span, l_range-span, l_trim-l_range}
use mcache.Ds.Lists.Size.{l_push-ne, r_push-ne, l_insert-ne, l_set-ne}
use mcache.Shard.Typed.{obtain, store, store_left, IsFull, store-IsFull, store_left-IsFull}
use mcache.Shard.Typed.Sets.{popped}
use mcache.Shard.Typed.Lists.{
  l_push, r_push, l_pop, r_pop, l_set, l_rem, l_trim, l_insert, ListOp, push_left, push_right,
  pop_left, pop_right, set_at, remove, trim, insert_by, apply,
}

popped-IsFull :
    (m : Dict Str (List Str)) (key : Str) (out : List Str × Option Str)
    → IsFull m
    → IsFull (popped m key out).0
popped-IsFull m key (l, none) full = full
popped-IsFull m key (l, some x) full = store_left-IsFull m key l full

held :
    (m : Dict Str (List Str)) (key : Str) (l : List Str)
    → IsFull m
    → lookup str_dec key m ≡ some l
    → l ≢ []
unfolding IsFull
held m key l full e z = full key (e ∙ ap some z)

l_pop-IsFull : (m : Dict Str (List Str)) (key : Str) → IsFull m → IsFull (l_pop m key).0
unfolding l_pop
l_pop-IsFull m key full = elim (Option-cases (lookup str_dec key m)) [
  | inl e ↦ rw (e, l_pop) full
  | inr (l, e) ↦ rw (e, l_pop) (popped-IsFull m key (Lists.l_pop l) full)
]

r_pop-IsFull : (m : Dict Str (List Str)) (key : Str) → IsFull m → IsFull (r_pop m key).0
unfolding r_pop
r_pop-IsFull m key full = elim (Option-cases (lookup str_dec key m)) [
  | inl e ↦ rw (e, r_pop) full
  | inr (l, e) ↦ rw (e, r_pop) (popped-IsFull m key (Lists.r_pop l) full)
]

l_rem-IsFull :
    (m : Dict Str (List Str)) (key : Str) (count : ℤ) (value : Str)
    → IsFull m
    → IsFull (l_rem m key count value).0
unfolding l_rem
l_rem-IsFull m key count value full = elim (Option-cases (lookup str_dec key m)) [
  | inl e ↦ rw (e, l_rem) full
  | inr (l, e) ↦ rw (e, l_rem) (store_left-IsFull m key (Lists.l_rem l count value).0 full)
]

l_insert-IsFull :
    (m : Dict Str (List Str)) (key : Str) (before : Bool) (pivot value : Str)
    → IsFull m
    → IsFull (l_insert m key before pivot value).0
unfolding l_insert
l_insert-IsFull m key before pivot value full = elim (Option-cases (lookup str_dec key m)) [
  | inl e ↦ rw (e, l_insert) full
  | inr (l, e) ↦
      rw (e, l_insert)
        (store-IsFull m key _ (l_insert-ne l before pivot value (held m key l full e)) full)
]

l_set-IsFull :
    (m : Dict Str (List Str)) (key : Str) (index : ℤ) (value : Str)
    → IsFull m
    → (out : Dict Str (List Str) × Bool) × (l_set m key index value ≡ returns out) × IsFull out.0
unfolding l_set
l_set-IsFull m key index value full = elim (Option-cases (lookup str_dec key m)) [
  | inl e ↦ rw (e, l_set) ((m, false), refl, full)
  | inr (l, e) ↦
      let (out, returned, ne) = l_set-ne l index value (held m key l full e) in
      rw (e, l_set, returned) ((store m key out.0, out.1), refl, store-IsFull m key out.0 ne full)
]

l_trim-IsFull :
    (m : Dict Str (List Str)) (key : Str) (start stop : ℤ)
    → IsFull m
    → (m' : Dict Str (List Str)) × (l_trim m key start stop ≡ returns m') × IsFull m'
unfolding l_trim
l_trim-IsFull m key start stop full = elim (Option-cases (lookup str_dec key m)) [
  | inl e ↦ rw (e, l_trim) (m, refl, full)
  | inr (l, e) ↦
      rw (e, l_trim, l_trim-l_range l start stop, l_range-span l start stop)
        (
          store_left m key (span l start stop),
          refl,
          store_left-IsFull m key (span l start stop) full,
        )
]

-- The operation returns, and the map that it leaves has no empty list.
pub IsKept : Panics (Dict Str (List Str)) → Type 0
IsKept out = (m : Dict Str (List Str)) × (out ≡ returns m) × IsFull m

-- On a map without empty lists, every operation that changes a list returns without a panic, and
-- the map that it leaves has no empty list either; a push has at least one element.
pub apply-IsFull : (m : Dict Str (List Str)) (op : ListOp) → IsFull m → IsKept (apply m op)
unfolding apply IsKept l_push r_push
apply-IsFull m (push_left key x elems) full =
    (_, refl, store-IsFull m key _ (l_push-ne x elems (obtain m key)) full)
apply-IsFull m (push_right key x elems) full =
    (_, refl, store-IsFull m key _ (r_push-ne x elems (obtain m key)) full)
apply-IsFull m (pop_left key) full = (_, refl, l_pop-IsFull m key full)
apply-IsFull m (pop_right key) full = (_, refl, r_pop-IsFull m key full)
apply-IsFull m (set_at key index value) full =
    let (out, e, kept) = l_set-IsFull m key index value full in rw e (out.0, refl, kept)
apply-IsFull m (remove key count value) full = (_, refl, l_rem-IsFull m key count value full)
apply-IsFull m (trim key start stop) full = l_trim-IsFull m key start stop full
apply-IsFull m (insert_by key before pivot value) full =
    (_, refl, l_insert-IsFull m key before pivot value full)
