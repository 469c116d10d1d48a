-- ===== src/Shard/Sub/Tests.antt =====
-- shard.go: a sub-shard with the LRU policy.
use mcache.Prelude.{◌≡◌, refl, some, List, [], ◌∷◌, Str, str_dec, arith}
use mcache.Prelude.Int.{pos}
use mcache.Prelude.Dict.{lookup}
use mcache.Prelude.Decimal.{add_int64}
use mcache.Policy.Lru
use mcache.Policy.Lru.{LruPolicy, new_lru, lru}
use mcache.Policy.Lru.Laws.{tracks, lru-Laws}
use mcache.Shard.Entry.{new_entry, is_expired}
use mcache.Shard.Sub.{read, SubShard, set, len, len_loop, ttl_in, swap_policy, add_keys, item_ttl}
use mcache.Shard.Sub.Inv.{IsSound}
use mcache.Shard.Sub.Eviction.{Stored, set-Stored}
use mcache.Shard.Sub.Steps.{step, step-IsSound, setting}

abbrev a : Str
a = b'a' ∷ []

abbrev b : Str
b = b'b' ∷ []

abbrev one : SubShard lru
one = record { entries = (a, new_entry 5 b (pos 10)) ∷ []; policy = Lru.on_add new_lru a }

one-IsSound : IsSound lru Lru.Laws.IsSound tracks one
unfolding lookup
one-IsSound = record {
  distinct = (refl, tt);
  fit = lru-Laws.add_sound new_lru a lru-Laws.fresh_sound;
  tracked = λ q.
      ground (arith, lru-Laws.add_tracks new_lru a q lru-Laws.fresh_sound, lru-Laws.fresh_tracks q);
}

set-Stored_example :
    (s' : SubShard lru) × (out : List Str) × (set lru 6 1 one b a (pos 0) ≡ some (s', out))
    × Stored lru Lru.Laws.IsSound tracks lru-Laws 1 one b (new_entry 6 a (pos 0)) s' out
set-Stored_example =
    set-Stored lru Lru.Laws.IsSound tracks lru-Laws 6 1 one b a (pos 0) one-IsSound (omega arith)

step-IsSound_example :
    (s' : SubShard lru) × (step lru one (setting 6 1 b a (pos 0)) ≡ some s')
    × IsSound lru Lru.Laws.IsSound tracks s'
step-IsSound_example =
    step-IsSound lru Lru.Laws.IsSound tracks lru-Laws one (setting 6 1 b a (pos 0)) one-IsSound

len_test : len lru (λ k. 6) one ≡ 1
unfolding len len_loop is_expired new_entry add_int64
len_test = refl

ttl_test : ttl_in lru 1 6 one a ≡ pos 9
unfolding ttl_in read lookup str_dec new_entry add_int64
ttl_test = refl

swap_test : (swap_policy lru lru one).entries ≡ one.entries
unfolding swap_policy add_keys
swap_test = refl

item_test : item_ttl 6 7 (new_entry 5 b (pos 10)) ≡ some (pos 8)
unfolding item_ttl new_entry add_int64
item_test = refl
