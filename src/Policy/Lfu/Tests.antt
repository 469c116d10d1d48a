-- ===== src/Policy/Lfu/Tests.antt =====
-- lfu.go at concrete states.
use mcache.Prelude.{
  ℕ, ◌≡◌, ◌≢◌, ◌<◌, ◌+◌, refl, none, some, [], ◌∷◌, Str, str_dec, arith, ℕ_discrete,
}
use mcache.Prelude.Dict.{lookup, insert, delete}
use mcache.Prelude.Keys.{remove_key}
use mcache.Policy.Lfu.{
  LfuPolicy, new_lfu, on_add, on_access, evict, bump, push_back, remove_from_bucket, bucket_of,
  scan_min_freq, scan_loop, clear, len,
}
use mcache.Policy.Lfu.Laws.{IsSound, lfu-Laws}
use mcache.Policy.Lfu.Frequency.{IsLow, on_add-IsLow, evict-not_least}

abbrev a : Str
a = b'a' ∷ []

abbrev b : Str
b = b'b' ∷ []

abbrev lfu_b : LfuPolicy
lfu_b = on_access (on_access (on_add new_lfu b) b) b

abbrev lfu_ab : LfuPolicy
lfu_ab = on_add lfu_b a

lfu_b-IsSound : IsSound lfu_b
lfu_b-IsSound =
    lfu-Laws.access_sound (on_access (on_add new_lfu b) b) b (
      lfu-Laws.access_sound (on_add new_lfu b) b
        (lfu-Laws.add_sound new_lfu b lfu-Laws.fresh_sound))

lfu_ab-IsSound : IsSound lfu_ab
lfu_ab-IsSound = lfu-Laws.add_sound lfu_b a lfu_b-IsSound

clear_test : len (clear lfu_ab) ≡ 0
unfolding len clear
clear_test = refl

fresh_b-IsLow : lookup str_dec a lfu_b.items ≡ none
unfolding on_add on_access bump push_back remove_from_bucket lookup insert str_dec remove_key
    bucket_of delete
fresh_b-IsLow = refl

on_add-IsLow_example : IsLow (on_add lfu_b a)
on_add-IsLow_example = on_add-IsLow lfu_b a lfu_b-IsSound fresh_b-IsLow

apart : a ≢ b
apart = ground arith

above : (r : Str) (h : ℕ) → lookup str_dec r lfu_ab.items ≡ some h → a ≢ r → 2 < h
unfolding on_add on_access bump push_back remove_from_bucket lookup insert delete bucket_of
    scan_min_freq scan_loop remove_key ℕ_discrete
above r h e ne = ground (arith, e, ne)

evict-not_least_example :
    (v : Str) × (h : ℕ) × ((evict (on_access lfu_ab a)).1 ≡ some v)
    × (lookup str_dec v (on_access lfu_ab a).items ≡ some h)
    × (lookup str_dec a (on_access lfu_ab a).items ≡ some (1 + 1))
    × (1 + 1 < h)
unfolding on_add on_access bump push_back remove_from_bucket lookup insert delete str_dec bucket_of
    scan_min_freq scan_loop remove_key ℕ_discrete
evict-not_least_example = evict-not_least lfu_ab a b 1 3 lfu_ab-IsSound refl refl refl apart above
