-- ===== src/Shard/Typed/Tests.antt =====
-- shard.go: the typed operations at concrete maps.
use mcache.Prelude.{◌≡◌, refl, [], ◌∷◌, List, Str, str_dec, arith}
use mcache.Prelude.Int.{pos, negsuc}
use mcache.Prelude.Dict.{keys, Dict, lookup, insert}
use mcache.Ds.Sets.{Elements}
use mcache.Ds.Hashes.{Fields}
use mcache.Shard.Typed.{IsFull}
use mcache.Shard.Typed.Sets.{
  s_add, s_rem, s_is_member, s_members, s_card, s_pop, s_rand_member, get_set,
}
use mcache.Shard.Typed.Hashes.{
  h_set, h_set_nx, h_get, h_del, h_exists, h_get_all, h_keys, h_vals, h_len, h_str_len, h_incr_by,
  h_incr_by_float, hm_get, hm_set,
}
use mcache.Shard.Typed.Lists.{trim, apply, l_range, l_index, l_len, l_pos}
use mcache.Shard.Typed.Lists.Full.{IsKept, apply-IsFull}

abbrev k : Str
k = b'k' ∷ []

abbrev v : Str
v = b'v' ∷ []

abbrev no_sets : Dict Str Elements
no_sets = []

abbrev no_hashes : Dict Str Fields
no_hashes = []

abbrev one_list : Dict Str (List Str)
one_list = (k, v ∷ []) ∷ []

one_list-IsFull : IsFull one_list
unfolding IsFull lookup
one_list-IsFull q z = ground (arith, z)

apply-IsFull_example : IsKept (apply one_list (trim k (pos 1) (negsuc 0)))
apply-IsFull_example = apply-IsFull one_list (trim k (pos 1) (negsuc 0)) one_list-IsFull

absent_sets_test : (s_rem no_sets k (v ∷ [])).1 ≡ 0
unfolding s_rem lookup
absent_sets_test = refl

absent_members_test : s_members no_sets k ≡ []
unfolding s_members s_is_member s_card s_pop s_rand_member get_set lookup
absent_members_test = refl

stored_set_test : keys (s_add no_sets k []).0 ≡ k ∷ []
unfolding s_add insert lookup
stored_set_test = refl

absent_hash_test : h_len no_hashes k ≡ 0
unfolding h_len h_get h_del h_exists h_get_all h_keys h_vals h_str_len hm_get h_incr_by_float lookup
absent_hash_test = refl

stored_hash_test : keys (hm_set no_hashes k []) ≡ k ∷ []
unfolding hm_set h_set h_set_nx h_incr_by insert lookup
stored_hash_test = refl

list_length_test : l_len [] k ≡ 0
unfolding l_len l_range l_index l_pos lookup str_dec
list_length_test = refl
