-- ===== src/Cache/Map.antt =====
-- cache.go: the operations on keys as those of a map.
use mcache.Prelude.{
  ◌≡◌, refl, ap, ◌∙◌, Bool, true, false, Option, none, some, List, map, [], ◌∷◌, Str, str_dec, ite,
  if_pos, if_neg, if◌then◌else◌, get_elem?-some, arith,
}
use mcache.Prelude.Int.{ℤ}
use mcache.Prelude.Panics.{returns, ◌>>=◌}
use mcache.Rehash.Shards.{Shard, Laws}
use mcache.Rehash.Rehashers.{incremental}
use mcache.Cache.{
  Event, ok, on_set, on_del, on_evict, shard_index, ttl_of, store, set_value, remove, del_key,
  is_empty,
}
use mcache.Cache.Contents.{Cached, holding, IsOpen, settle-holding}

-- the code behind two guards that do not hold
pub guards {ℓ} :
    {A : Type ℓ} (a b : Bool) (x y z : A)
    → a ≡ false
    → b ≡ false
    → (if a then x else if b then y else z) ≡ z
guards false false x y z p q = refl
guards false true x y z p q = absurd (ground (arith, q))
guards true b x y z p q = absurd (ground (arith, p))

module _ (sh : Shard) (w : Laws sh) where
  -- In an open cache, whose shards keep their laws, `Set` of a value that is not nil, under a key
  -- that is not empty, with a time to live that the laws speak of, succeeds at any point of a rehash: the cache stays open and holds the
  -- value under the key, and under the others what it held.
  pub set_value-holding :
      (c : Cached sh w) (key v : Str) (ttl : Option ℤ)
      → IsOpen sh w c
      → w.IsTtl (ttl_of sh (incremental sh) c ttl)
      → is_empty key ≡ false
      → (c' : Cached sh w) × (events : List Event) × (set_value sh
            (incremental sh)
            c
            key
            (some v)
            ttl
          ≡ returns (c', events, ok tt))
        × IsOpen sh w c'
        × ((q : Str) → holding sh w c' q ≡ ite (str_dec key q) (some v) (holding sh w c q))
  unfolding set_value
  set_value-holding c key v ttl i l n =
      let (s, here) =
        get_elem?-some c.shards (shard_index sh (incremental sh) c key) (i.sound.in_range key) in
      let sound = i.sound.new_sound _ s here in
      let d = ttl_of sh (incremental sh) c ttl in
      let out = sh.set s key v d in
      let (c', events, e, i', same) =
        settle-holding sh w c key (on_set key ∷ map on_evict out.1) s out.0 i here
          (w.set_sound s key v d l sound)
          (λ q ne.
            w.set_holds s key v d q l sound ∙ if_neg (str_dec key q) ne (some v) (w.holds s q)) in
      (
        c',
        events,
        guards _ _ _ _ _ i.not_closed n
            ∙ rw (store, here) (ap (λ d. d >>= λ out. returns (out.0, out.1, ok tt)) e),
        i',
        λ q.
            same q
            ∙ ap (λ o. ite (str_dec key q) o (holding sh w c q))
                (w.set_holds s key v d key l sound
                  ∙ if_pos (str_dec key key) refl (some v) (w.holds s key)),
      )

  -- In an open cache, whose shards keep their laws, `Del` of a key that is not empty succeeds at
  -- any point of a rehash: the cache stays open and holds nothing under the key, and under the
  -- others what it held.
  pub del_key-holding :
      (c : Cached sh w) (key : Str)
      → IsOpen sh w c
      → is_empty key ≡ false
      → (c' : Cached sh w) × (events : List Event) × (del_key sh (incremental sh) c key
          ≡ returns (c', events, ok tt))
        × IsOpen sh w c'
        × ((q : Str) → holding sh w c' q ≡ ite (str_dec key q) none (holding sh w c q))
  unfolding del_key
  del_key-holding c key i n =
      let (s, here) =
        get_elem?-some c.shards (shard_index sh (incremental sh) c key) (i.sound.in_range key) in
      let sound = i.sound.new_sound _ s here in
      let (c', events, e, i', same) =
        settle-holding sh w c key (on_del key ∷ []) s (sh.del s key) i here
          (w.del_sound s key sound)
          (λ q ne. w.del_holds s key q sound ∙ if_neg (str_dec key q) ne none (w.holds s q)) in
      (
        c',
        events,
        guards _ _ _ _ _ i.not_closed n
            ∙ rw (remove, here) (ap (λ d. d >>= λ out. returns (out.0, out.1, ok tt)) e),
        i',
        λ q.
            same q
            ∙ ap (λ o. ite (str_dec key q) o (holding sh w c q))
                (w.del_holds s key key sound ∙ if_pos (str_dec key key) refl none (w.holds s key)),
      )
