-- ===== src/Shard/Kv/Tests.antt =====
-- shard.go: shards with the no-op policy.
use mcache.Prelude.{none, List, ◌≡◌, ◌<◌, ◌*◌, refl, true, [], ◌∷◌, Str}
use mcache.Prelude.Int.{pos}
use mcache.Prelude.Panics.{panic, returns}
use mcache.Policy.{noop}
use mcache.Shard.Sub
use mcache.Shard.Sub.{Item}
use mcache.Shard.Kv as Kv
use mcache.Shard.Kv.Places.{holds}
use mcache.Shard.Kv.Migration.Items.{Takes, extract_n-Takes}
use mcache.Shard.Kv.Migration.Laws.{kv_laws}
use mcache.Shard.Kv.Migration.Example.{one_item, one_item-IsSound}
use mcache.Shard.Kv.{
  effective_sub_shards, sub_max, fnv_loop, sub_index, new_shard, sub_at, get, set_key, del,
  len_from, cleanup_from, cleanup, extract_from, extract_n, key_type, key_exists, expire, persist,
  ttl_seconds, ttl_millis, matched_in, matched_subs, match_keys,
}

-- A bound of 5 entries gives two sub-shards of 2.
sub_max_test : effective_sub_shards (pos 5) * sub_max (pos 5) ≡ 4
unfolding effective_sub_shards sub_max
sub_max_test = refl

abbrev k : Str
k = b'k' ∷ []

-- FNV-1a of "a" is 0xe40c292c.
fnv_test : fnv_loop 2166136261 (b'a' ∷ []) ≡ 0xe40c292c
unfolding fnv_loop
fnv_test = refl

-- With fewer than eight sub-shards `ExtractN` reaches an empty slot and panics.
extract_test : extract_n noop 4 0 (λ q. 0) (new_shard noop (pos 5)) ≡ panic
unfolding extract_n extract_from new_shard effective_sub_shards sub_at Sub.extract_loop
extract_test = refl

extract_n-Takes_example :
    (s' : Kv.Shard noop) × (taken : List Item) × (extract_n noop 4 5 (λ q. 5) one_item
      ≡ returns (s', taken))
    × Takes noop 5 one_item s' taken
    × ((q : Str) → 0 < 4 → taken ≡ [] → holds noop 5 one_item q ≡ none)
unfolding kv_laws
extract_n-Takes_example = extract_n-Takes noop 5 4 one_item one_item-IsSound

empty_test : match_keys noop (λ q. 0) (λ q. true) (new_shard noop (pos 5)) ≡ []
unfolding match_keys matched_subs matched_in new_shard effective_sub_shards
empty_test = refl

cleanup_test : (cleanup noop (λ q. 0) (new_shard noop (pos 2))).1 ≡ 0
unfolding cleanup cleanup_from new_shard effective_sub_shards len_from sub_index get set_key del
    key_type key_exists expire persist ttl_seconds ttl_millis Sub.cleanup Sub.cleanup_loop
cleanup_test = refl
