-- ===== src/Policy/Lru.antt =====
-- lru.go. `container/list` keeps the keys from the most to the least recently used. A pointer to a
-- list element is modelled by the key that the element holds: the code never changes an element's
-- value, and `Laws` shows that no key is held twice.
pub mod Laws
pub mod Recency
mod Tests
use mcache.Prelude.{ℕ, ◌≡◌, Option, none, some, List, [], ◌∷◌, Str, str_dec, length}
use mcache.Prelude.Dict.{Dict, lookup, insert, delete}
use mcache.Prelude.Keys.{remove_key}
use mcache.Policy.Interface.{EvictionPolicy}

pub record LruPolicy : Type 0 where
  pub order : List Str
  pub nodes : Dict Str Str

-- `NewLRU`
abbrev pub new_lru : LruPolicy
new_lru = record { order = []; nodes = [] }

-- `order.MoveToFront(e)`
abbrev move_to_front : Str → List Str → List Str
move_to_front e order = e ∷ remove_key e order

pub on_access : LruPolicy → Str → LruPolicy
on_access p key = elim (lookup str_dec key p.nodes) [
  | none ↦ p
  | some e ↦ record p { order = move_to_front e p.order }
]

pub on_add : LruPolicy → Str → LruPolicy
on_add p key = elim (lookup str_dec key p.nodes) [
  | none ↦ record { order = key ∷ p.order; nodes = insert str_dec key key p.nodes }
  | some e ↦ record p { order = move_to_front e p.order }
]

pub on_remove : LruPolicy → Str → LruPolicy
on_remove p key = elim (lookup str_dec key p.nodes) [
  | none ↦ p
  | some e ↦ record { order = remove_key e p.order; nodes = delete str_dec key p.nodes }
]

-- `order.Back()`
pub back : List Str → Option Str
back [] = none
back (e ∷ []) = some e
back (e ∷ e' ∷ l) = back (e' ∷ l)

pub evict : LruPolicy → LruPolicy × Option Str
evict p = elim (back p.order) [
  | none ↦ (p, none)
  | some key ↦
      (record { order = remove_key key p.order; nodes = delete str_dec key p.nodes }, some key)
]

pub len : LruPolicy → ℕ
len p = length p.order

pub clear : LruPolicy → LruPolicy
clear p = new_lru

abbrev pub lru : EvictionPolicy
lru = record {
  State = LruPolicy;
  fresh = new_lru;
  on_access = on_access;
  on_add = on_add;
  on_remove = on_remove;
  evict = evict;
  len = len;
  clear = clear;
}
