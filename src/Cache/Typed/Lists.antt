-- ===== src/Cache/Typed/Lists.antt =====
-- cache_ext.go: the list operations.
use mcache.Prelude.{ℕ, Bool, true, false, List, [], ◌∷◌, Str}
use mcache.Prelude.Int.{ℤ}
use mcache.Prelude.Panics.{Panics, ◌>>=◌}
use mcache.Shard.Typed.Lists as Shards
use mcache.Cache.{Answer, ok, failed, key_not_found}
use mcache.Cache.Typed.{TypedCache, at_key, reading, found, writing_lists}

unfoldable pub l_push : TypedCache → Str → List Str → Panics (TypedCache × Answer ℕ)
l_push c key elems =
    at_key c key λ m. let out = Shards.l_push m.lists key elems in writing_lists m (out.0, ok out.1)

unfoldable pub r_push : TypedCache → Str → List Str → Panics (TypedCache × Answer ℕ)
r_push c key elems =
    at_key c key λ m. let out = Shards.r_push m.lists key elems in writing_lists m (out.0, ok out.1)

unfoldable pub l_pop : TypedCache → Str → Panics (TypedCache × Answer Str)
l_pop c key =
    at_key c key λ m. let out = Shards.l_pop m.lists key in writing_lists m (out.0, found out.1)

unfoldable pub r_pop : TypedCache → Str → Panics (TypedCache × Answer Str)
r_pop c key =
    at_key c key λ m. let out = Shards.r_pop m.lists key in writing_lists m (out.0, found out.1)

unfoldable pub l_len : TypedCache → Str → Panics (TypedCache × Answer ℕ)
l_len c key = at_key c key λ m. reading m (ok (Shards.l_len m.lists key))

-- a range without elements is nil, as is that of a missing list
abbrev found_range : List Str → Answer (List Str)
found_range [] = failed key_not_found
found_range (e ∷ es) = ok (e ∷ es)

unfoldable pub l_range : TypedCache → Str → ℤ → ℤ → Panics (TypedCache × Answer (List Str))
l_range c key start stop =
    at_key c key λ m. Shards.l_range m.lists key start stop >>= λ es. reading m (found_range es)

unfoldable pub l_index : TypedCache → Str → ℤ → Panics (TypedCache × Answer Str)
l_index c key index =
    at_key c key λ m. Shards.l_index m.lists key index >>= λ e. reading m (found e)

-- the error of `LSet`, on the shard's answer
abbrev was_set : Bool → Answer (Unit {0})
was_set true = ok tt
was_set false = failed key_not_found

unfoldable pub l_set : TypedCache → Str → ℤ → Str → Panics (TypedCache × Answer (Unit {0}))
l_set c key index value =
    at_key c key
      λ m. Shards.l_set m.lists key index value >>= λ out. writing_lists m (out.0, was_set out.1)

unfoldable pub l_rem : TypedCache → Str → ℤ → Str → Panics (TypedCache × Answer ℕ)
l_rem c key count value =
    at_key c key
      λ m. let out = Shards.l_rem m.lists key count value in writing_lists m (out.0, ok out.1)

unfoldable pub l_trim : TypedCache → Str → ℤ → ℤ → Panics (TypedCache × Answer (Unit {0}))
l_trim c key start stop =
    at_key c key
      λ m. Shards.l_trim m.lists key start stop >>= λ lists. writing_lists m (lists, ok tt)

unfoldable pub l_insert : TypedCache → Str → Bool → Str → Str → Panics (TypedCache × Answer ℤ)
l_insert c key before pivot value = at_key c key λ m.
    let out = Shards.l_insert m.lists key before pivot value in writing_lists m (out.0, ok out.1)

unfoldable pub l_pos : TypedCache → Str → Str → ℤ → ℤ → ℤ → Panics (TypedCache × Answer (List ℕ))
l_pos c key value rank count max_len =
    at_key c key λ m. reading m (ok (Shards.l_pos m.lists key value rank count max_len))
