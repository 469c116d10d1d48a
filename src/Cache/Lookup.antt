-- ===== src/Cache/Lookup.antt =====
-- cache.go: `Get` in the new table and in the old one.
use mcache.Prelude.{
  ◌≡◌, refl, sym, ap, ◌∙◌, Bool, true, false, Option, none, some, List, [], ◌∷◌, Str, str_dec, ite,
  if_pos, if_neg, set, if◌then◌else◌, inl, inr, Bool-cases, get_elem?-some,
}
use mcache.Prelude.Panics.{Panics, returns, ◌>>=◌}
use mcache.Rehash.Shards.{Shard, Laws, or_else, old_shard_index}
use mcache.Rehash.Shards.Tables.{view-set_self, view, view-at, view-outside}
use mcache.Rehash.Incremental.Keeps.{first_none}
use mcache.Rehash.Incremental.Edits.{new-put, contents-new, edited, old-put, contents-old}
use mcache.Rehash.Rehashers.{incremental}
use mcache.Cache.{
  rehash_step, Event, Answer, ok, failed, key_not_found, on_hit, on_miss, shard_index, found,
  missed, get_old, answer_old, fetch_old, answer_new, fetch, get_value, is_empty,
}
use mcache.Cache.Contents.{Cached, holding, IsOpen, rehash_step-holding, old_shard-on}
use mcache.Cache.Map.{guards}

ite_same {ℓ} :
    {A : Type ℓ} (key q : Str) (x : A) (f : Str → A) → x ≡ f key → ite (str_dec key q) x (f q) ≡ f q
ite_same key q x f e = elim (str_dec key q) [
  | yes p ↦ if_pos (str_dec key q) p x (f q) ∙ e ∙ ap f p
  | no n ↦ if_neg (str_dec key q) n x (f q)
]

-- what `Get` answers
abbrev pub answer_of : Option Str → Answer Str
answer_of none = failed key_not_found
answer_of (some v) = ok v

module _ (sh : Shard) (w : Laws sh) where
  -- what a part of `Get` leaves: an answer, and the cache with what it held
  abbrev Replies :
      Panics (Cached sh w × List Event × Answer Str) → Cached sh w → Answer Str → Type 0
  Replies out c answer =
      (c' : Cached sh w) × (events : List Event) × (out ≡ returns (c', events, answer))
      × IsOpen sh w c'
      × ((q : Str) → holding sh w c' q ≡ holding sh w c q)

  replies :
      (c : Cached sh w) (events : List Event) (answer : Answer Str)
      → IsOpen sh w c
      → Replies
          (rehash_step sh (incremental sh) c events >>= λ out. returns (out.0, out.1, answer))
          c
          answer
  replies c events answer i =
      let (c', events', e, i', same) = rehash_step-holding sh w c events i in
      (c', events', ap (λ d. d >>= λ out. returns (out.0, out.1, answer)) e, i', same)

  answer_old-Replies :
      (c : Cached sh w) (key : Str) (value : Option Str)
      → IsOpen sh w c
      → Replies (answer_old sh (incremental sh) c key value) c (answer_of value)
  answer_old-Replies c key none i = replies c (on_miss key ∷ []) (failed key_not_found) i
  answer_old-Replies c key (some v) i = replies c (on_hit key ∷ []) (ok v) i

  onwards :
      (out out' : Panics (Cached sh w × List Event × Answer Str)) (c c' : Cached sh w)
      (a a' : Answer Str)
      → out ≡ out'
      → a' ≡ a
      → ((q : Str) → holding sh w c' q ≡ holding sh w c q)
      → Replies out' c' a'
      → Replies out c a
  onwards out out' c c' a a' e f same (d, events, g, i, same') =
      (d, events, e ∙ g ∙ ap (λ x. returns (d, events, x)) f, i, λ q. same' q ∙ same q)

  -- in the old table, whose shard a lookup may change too
  fetch_old-Replies :
      (c : Cached sh w) (key : Str)
      → IsOpen sh w c
      → c.rehasher.rehashing ≡ true
      → Replies (fetch_old sh (incremental sh) c key) c (
          answer_of (view sh w c.rehasher.old_shards (old_shard_index key c.rehasher.old_mask) key))
  fetch_old-Replies c key i on =
      let r = c.rehasher in
      let index = shard_index sh (incremental sh) c in
      let j = old_shard_index key r.old_mask in
      let (t, there) = get_elem?-some r.old_shards j (i.sound.reach on key) in
      let sound = i.sound.old_sound j t there in
      let t' = (sh.get t key).0 in
      let others : (q : Str) → ¬ (key ≡ q) → w.holds t' q ≡ w.holds t q =
        λ q ne. w.get_holds t key q sound in
      let fewer : (v : Str) → w.holds t' key ≡ some v → w.holds t key ≡ some v =
        λ v e. sym (w.get_holds t key key sound) ∙ e in
      let r2 =
        edited sh w r index c.shards i.sound key t t' (w.get_sound t key sound) others there
          fewer in
      let c2 : Cached sh w = record c { rehasher = r2 } in
      let i2 : IsOpen sh w c2 = record {
        not_closed = i.not_closed;
        bound = i.bound;
        ttl = i.ttl;
        sound =
            old-put sh w r index c.shards i.sound key t t' (w.get_sound t key sound) others there
              fewer;
      } in
      let old : get_old sh (incremental sh) c key ≡ returns (c2, (sh.get t key).1) =
        rw (get_old, old_shard-on sh w r key on (i.sound.reach on key), there) refl in
      let shown = view-at sh w r.old_shards j t key there in
      onwards _ (answer_old sh (incremental sh) c2 key (sh.get t key).1) c c2 _
        (answer_of (sh.get t key).1)
        (ap (λ d. d >>= λ o. answer_old sh (incremental sh) o.0 key o.1) old)
        (ap answer_of (w.get_finds t key sound ∙ sym shown))
        (λ q.
          contents-old sh w r index c.shards i.sound key t t' (w.get_sound t key sound) others there
            fewer q
          ∙ ite_same key q _ (holding sh w c) (
              ap (or_else (view sh w c.shards (index key) key))
                (w.get_holds t key key sound ∙ sym shown)))
        (answer_old-Replies c2 key (sh.get t key).1 i2)

  -- what the new table's shard had, and then the old table's
  answer_new-Replies :
      (c : Cached sh w) (key : Str) (value : Option Str)
      → IsOpen sh w c
      → view sh w c.shards (shard_index sh (incremental sh) c key) key ≡ value
      → Replies (answer_new sh (incremental sh) c key value) c (answer_of (holding sh w c key))
  answer_new-Replies c key (some v) i e =
      onwards _ (found sh (incremental sh) c key v) c c _ (ok v) refl
        (ap
          (λ o. answer_of (
            or_else o
              (view sh w c.rehasher.old_shards (old_shard_index key c.rehasher.old_mask) key)))
          (sym e))
        (λ q. refl) (replies c (on_hit key ∷ []) (ok v) i)
  answer_new-Replies c key none i e =
      let r = c.rehasher in
      let j = old_shard_index key r.old_mask in
      let held : holding sh w c key ≡ view sh w r.old_shards j key =
        first_none _ (view sh w r.old_shards j key) e in
      let both : Bool → Panics (Cached sh w × List Event × Answer Str) =
        λ b. if b then fetch_old sh (incremental sh) c key else missed sh (incremental sh) c key in
      elim (Bool-cases r.rehashing) [
        | inr off ↦
            let gone : holding sh w c key ≡ none =
              held
              ∙ ap (λ t. view sh w t j key) (i.sound.idle off)
              ∙ view-outside sh w [] j key refl in
            onwards _ (missed sh (incremental sh) c key) c c _ (failed key_not_found) (ap both off)
              (ap answer_of (sym gone)) (λ q. refl)
              (replies c (on_miss key ∷ []) (failed key_not_found) i)
        | inl on ↦
            onwards _ (fetch_old sh (incremental sh) c key) c c _ _ (ap both on)
              (ap answer_of (sym held)) (λ q. refl) (fetch_old-Replies c key i on)
      ]

  -- `Get` of a key that is not empty answers, at any point of a rehash, with the value that the cache
  -- holds under the key, or that there is none, and the cache holds the same afterwards.
  pub get_value-holding :
      (c : Cached sh w) (key : Str)
      → IsOpen sh w c
      → is_empty key ≡ false
      → (c' : Cached sh w) × (events : List Event) × (get_value sh (incremental sh) c key
          ≡ returns (c', events, answer_of (holding sh w c key)))
        × IsOpen sh w c'
        × ((q : Str) → holding sh w c' q ≡ holding sh w c q)
  unfolding get_value
  get_value-holding c key i n =
      let r = c.rehasher in
      let index = shard_index sh (incremental sh) c in
      let (s, here) = get_elem?-some c.shards (index key) (i.sound.in_range key) in
      let sound = i.sound.new_sound _ s here in
      let s' = (sh.get s key).0 in
      let c1 : Cached sh w = record c { shards = set c.shards (index key) s' } in
      let others : (q : Str) → ¬ (key ≡ q) → w.holds s' q ≡ w.holds s q =
        λ q ne. w.get_holds s key q sound in
      let apart : (v : Str)
          → view sh w r.old_shards (old_shard_index key r.old_mask) key ≡ some v
          → w.holds s' key ≡ none =
        λ v e.
          w.get_holds s key key sound
          ∙ sym (view-at sh w c.shards (index key) s key here)
          ∙ i.sound.apart key v e in
      let i1 : IsOpen sh w c1 = record {
        not_closed = i.not_closed;
        bound = i.bound;
        ttl = i.ttl;
        sound =
            new-put sh w r index c.shards i.sound key s s' (w.get_sound s key sound) others here
              apart;
      } in
      let same : (q : Str) → holding sh w c1 q ≡ holding sh w c q = λ q.
        contents-new sh w r index c.shards i.sound key s s' (w.get_sound s key sound) others here
          apart q
        ∙ ite_same key q _ (holding sh w c) (
            ap (λ o. or_else o (view sh w r.old_shards (old_shard_index key r.old_mask) key))
              (w.get_holds s key key sound ∙ sym (view-at sh w c.shards (index key) s key here))) in
      let value : view sh w c1.shards (index key) key ≡ (sh.get s key).1 =
        view-set_self sh w c.shards (index key) s' key (i.sound.in_range key)
        ∙ w.get_holds s key key sound
        ∙ sym (w.get_finds s key sound) in
      onwards _ (answer_new sh (incremental sh) c1 key (sh.get s key).1) c c1 _ _
        (guards _ _ _ _ _ i.not_closed n ∙ rw (fetch, here) refl) (ap answer_of (same key)) same
        (answer_new-Replies c1 key (sh.get s key).1 i1 value)
