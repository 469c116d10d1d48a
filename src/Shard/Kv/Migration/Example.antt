-- ===== src/Shard/Kv/Migration/Example.antt =====
-- shard.go: a shard with one entry, for the tests of rehash/ and cache.go.
use mcache.Prelude.{◌≡◌, refl, [], ◌∷◌, Str, inl}
use mcache.Prelude.Int.{pos}
use mcache.Prelude.Dict.{insert, lookup}
use mcache.Policy.{noop}
use mcache.Shard.Entry.{new_entry}
use mcache.Shard.Sub as Sub
use mcache.Shard.Kv as Kv
use mcache.Shard.Kv.{new_shard, effective_sub_shards, sub_max, sub_index}
use mcache.Shard.Kv.Migration.Laws.{kv_shard, kv_laws}
use mcache.Rehash.Shards.{Shard, Laws}

abbrev pub key_a : Str
key_a = b'a' ∷ []

abbrev pub key_b : Str
key_b = b'b' ∷ []

-- shards without a policy, at the time 5
abbrev pub kv : Shard
kv = kv_shard noop 5

abbrev pub laws : Laws kv
laws = kv_laws noop 5

abbrev pub no_item : kv.State
no_item = kv.fresh 0

abbrev pub one_item : kv.State
one_item = (kv.set no_item key_a key_b (pos 0)).0

pub no_item-IsSound : laws.IsSound no_item
unfolding kv_laws
no_item-IsSound = laws.fresh_sound 0 refl

pub one_item-IsSound : laws.IsSound one_item
unfolding kv_laws
one_item-IsSound = laws.set_sound no_item key_a key_b (pos 0) (inl refl) no_item-IsSound

pub size_one : laws.size one_item ≡ 1
unfolding kv_laws new_shard effective_sub_shards sub_max Kv.set_key Kv.sub_at sub_index Kv.fnv_loop
    Sub.set Sub.evict_loop new_entry insert lookup
size_one = refl
