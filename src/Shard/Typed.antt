-- ===== src/Shard/Typed.antt =====
-- shard.go: the typed operations. A shard keeps its sets, hashes and lists in three maps, each
-- under a lock of its own; an operation takes its map and gives it back with its result. The
-- containers are those of `ds/`; the pointer in a map is followed and the container put back.
pub mod Sets
pub mod Hashes
pub mod Lists
mod Tests
use mcache.Prelude.{
  ℕ, zero, suc, ◌+◌, ◌≡◌, ◌≢◌, refl, Bool, true, false, Option, none, some, List, [], ◌∷◌, Str,
  str_dec, if◌then◌else◌, ◌==◌, arith, length, inl, inr, Bool-cases,
}
use mcache.Prelude.Dict.{Dict, lookup, insert, delete, lookup-insert, lookup-delete}

-- a map of containers, each a list of its elements or fields
abbrev pub Containers : Type 0 → Type 0
Containers A = Dict Str (List A)

module _ {A : Type 0} where
  abbrev pub or_new : Option (List A) → List A
  or_new none = []
  or_new (some c) = c

  -- the container of `key`, or a new one, which the map then holds
  abbrev pub obtain : Containers A → Str → List A
  obtain m key = or_new (lookup str_dec key m)

  abbrev pub store : Containers A → Str → List A → Containers A
  store m key c = insert str_dec key c m

  -- the container after a removal: with no element left, its key is deleted
  unfoldable pub store_left : Containers A → Str → List A → Containers A
  store_left m key c = if length c == 0 then delete str_dec key m else insert str_dec key c m

  -- no key holds an empty container
  unfoldable pub IsFull : Containers A → Type 0
  IsFull m = (q : Str) → lookup str_dec q m ≢ some []

  pub store-IsFull :
      (m : Containers A) (key : Str) (c : List A) → c ≢ [] → IsFull m → IsFull (store m key c)
  unfolding IsFull
  store-IsFull m key c h full q =
      let e = lookup-insert str_dec key q c m in let f = full q in ground (arith, e, f, h)

  pub store_left-IsFull :
      (m : Containers A) (key : Str) (c : List A) → IsFull m → IsFull (store_left m key c)
  unfolding store_left IsFull
  store_left-IsFull m key [] full q =
      let e = lookup-delete str_dec key q m in let f = full q in ground (arith, e, f)
  store_left-IsFull m key (x ∷ c) full q =
      let e = lookup-insert str_dec key q (x ∷ c) m in let f = full q in ground (arith, e, f)
