-- ===== src/Policy/Lru/Tests.antt =====
-- lru.go at a concrete state.
use mcache.Prelude.{some, false, ◌≡◌, refl, [], ◌∷◌, ◌++◌, Str, str_dec, length}
use mcache.Prelude.Dict.{lookup, insert}
use mcache.Prelude.Keys.{remove_key}
use mcache.Policy.{register_policy, get_policy_factory, built_in, noop}
use mcache.Policy.Lru.{LruPolicy, new_lru, on_add, on_access, clear, len, lru}
use mcache.Policy.Lru.Laws.{IsSound, lru-Laws}
use mcache.Policy.Lru.Recency.{drain, drain-on_access}

abbrev a : Str
a = b'a' ∷ []

abbrev b : Str
b = b'b' ∷ []

abbrev lru_ab : LruPolicy
lru_ab = on_add (on_add new_lru a) b

lru_ab-IsSound : IsSound lru_ab
lru_ab-IsSound =
    lru-Laws.add_sound (on_add new_lru a) b (lru-Laws.add_sound new_lru a lru-Laws.fresh_sound)

drain-on_access_example :
    drain (length lru_ab.order) (on_access lru_ab a)
    ≡ remove_key a (drain (length lru_ab.order) lru_ab) ++ a ∷ []
unfolding on_add lookup insert str_dec
drain-on_access_example = drain-on_access lru_ab a lru_ab-IsSound refl

clear_test : len (clear lru_ab) ≡ 0
unfolding len clear
clear_test = refl

registered_test : (register_policy (built_in lru noop) [] (some lru)).1 ≡ false
unfolding register_policy get_policy_factory
registered_test = refl
