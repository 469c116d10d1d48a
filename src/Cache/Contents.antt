-- ===== src/Cache/Contents.antt =====
-- cache.go: what a cache holds, in the shards of its two tables, under the operations on keys.
use mcache.Prelude.{
  ℕ, ◌<◌, ◌≡◌, refl, sym, ap, ◌∙◌, true, false, Option, none, some, List, [], ◌∷◌, ◌++◌, Str,
  str_dec, ite, if_pos, if_neg, length, get_elem?, set, if◌then◌else◌, inl, inr, Bool-cases,
  get_elem?-some, arith,
}
use mcache.Prelude.Panics.{returns, ◌>>=◌}
use mcache.Rehash.Shards.{or_else-none, Shard, Laws, or_else, old_shard_index}
use mcache.Rehash.Shards.Tables.{view, view-outside}
use mcache.Rehash.Incremental.{Incremental, old_shard}
use mcache.Rehash.Incremental.Keeps.{contents, IsSound}
use mcache.Rehash.Incremental.Steps.{step-Follows}
use mcache.Rehash.Incremental.Edits.{new-put, contents-new, edited, old-view, old-put, contents-old}
use mcache.Rehash.Rehashers.{incremental}
use mcache.Cache.{
  per_shard_max, Cache, Event, on_rehash_done, shard_index, migrate_step, rehash_step, del_old,
  settle,
}

not_empty {ℓ κ} :
    {A : Type ℓ} {B : Type κ} (l : List A) (b : B)
    → 0 < length l
    → (elim l as (λ x. Option B) [ [] ↦ none | x ∷ xs ↦ some b ]) ≡ some b
not_empty [] b h = absurd (omega arith)
not_empty (x ∷ l) b h = refl

ite_twice {ℓ κ} :
    {P : Type ℓ} {A : Type κ} (d : Dec P) (x y z : A) → ite d x (ite d y z) ≡ ite d x z
ite_twice (yes p) x y z = refl
ite_twice (no n) x y z = refl

module _ (sh : Shard) (w : Laws sh) where
  abbrev pub Cached : Type 0
  Cached = Cache sh (incremental sh)

  -- what a lookup in the new table and then in the old one finds
  abbrev pub holding : Cached → Str → Option Str
  holding c q = contents sh w c.rehasher (shard_index sh (incremental sh) c) c.shards q

  -- The cache is open, and its tables are those of a sound rehasher. The laws speak of the bounds that
  -- its shards have after any `Resize`, and of its default time to live.
  pub record IsOpen (c : Cached) : Type 0 where
    pub not_closed : c.closed ≡ false
    pub bound : (n : ℕ) → w.IsBound (per_shard_max c.max_size n)
    pub ttl : w.IsTtl c.default_ttl
    pub sound : IsSound sh w c.rehasher (shard_index sh (incremental sh) c) c.shards

  pub rehash_step-holding :
      (c : Cached) (events : List Event)
      → IsOpen c
      → (c' : Cached) × (events' : List Event) × (rehash_step sh (incremental sh) c events
          ≡ returns (c', events'))
        × IsOpen c'
        × ((q : Str) → holding c' q ≡ holding c q)
  rehash_step-holding c events i = elim (Bool-cases c.rehasher.rehashing) [
    | inr off ↦ (
      c,
      events,
      ap (λ b. if b then migrate_step sh (incremental sh) c events else returns (c, events)) off,
      i,
      λ q. refl,
    )
    | inl on ↦
        let (out, e, f) =
          step-Follows sh w c.rehasher (shard_index sh (incremental sh) c) c.shards i.sound in
        (
          record c { shards = out.1; rehasher = out.0 },
          if out.2.just_completed then events ++ (on_rehash_done ∷ []) else events,
          ap (λ b. if b then migrate_step sh (incremental sh) c events else returns (c, events)) on
              ∙ ap
                  (λ d. d >>= λ out. returns (
                    record c { shards = out.1; rehasher = out.0 },
                    if out.2.just_completed then events ++ (on_rehash_done ∷ []) else events,
                  ))
                  e,
          record { not_closed = i.not_closed; bound = i.bound; ttl = i.ttl; sound = f.sound },
          f.same,
        )
  ]

  pub old_shard-on :
      (r : Incremental sh) (key : Str)
      → r.rehashing ≡ true
      → old_shard_index key r.old_mask < length r.old_shards
      → old_shard sh r key ≡ some (old_shard_index key r.old_mask)
  unfolding old_shard
  old_shard-on r key on h =
      ap
        (λ b.
          if b
          then (elim r.old_shards as (λ x. Option ℕ) [
            | [] ↦ none
            | s ∷ ss ↦ some (old_shard_index key r.old_mask)
          ])
          else none)
        on
      ∙ not_empty r.old_shards (old_shard_index key r.old_mask) (omega (arith, h))

  dels_others :
      (t : sh.State) (key : Str)
      → w.IsSound t
      → (q : Str) → ¬ (key ≡ q)
      → w.holds (sh.del t key) q ≡ w.holds t q
  dels_others t key h q n = w.del_holds t key q h ∙ if_neg (str_dec key q) n none (w.holds t q)

  dels_key : (t : sh.State) (key : Str) → w.IsSound t → w.holds (sh.del t key) key ≡ none
  dels_key t key h = w.del_holds t key key h ∙ if_pos (str_dec key key) refl none (w.holds t key)

  module _ (c : Cached) (key : Str) (events : List Event) (s s' : sh.State) (i : IsOpen c)
      (here : get_elem? c.shards (shard_index sh (incremental sh) c key) ≡ some s)
      (sound : w.IsSound s') (others : (q : Str) → ¬ (key ≡ q) → w.holds s' q ≡ w.holds s q) where
    abbrev r : Incremental sh
    r = c.rehasher

    abbrev index : Str → ℕ
    index = shard_index sh (incremental sh) c

    abbrev c1 : Cached
    c1 = record c { shards = set c.shards (index key) s' }

    -- the calls return, and leave the cache open and changed at the key only
    abbrev Settles : Type 0
    Settles =
        (c' : Cached) × (events' : List Event) × (settle sh (incremental sh) c1 key events
          ≡ returns (c', events'))
        × IsOpen c'
        × ((q : Str) → holding c' q ≡ ite (str_dec key q) (w.holds s' key) (holding c q))

    settle-off : r.rehashing ≡ false → Settles
    settle-off off =
        let none_old : view sh w r.old_shards (old_shard_index key r.old_mask) key ≡ none =
          ap (λ t. view sh w t (old_shard_index key r.old_mask) key) (i.sound.idle off)
          ∙ view-outside sh w [] _ key refl in
        (
          c1,
          events,
          ap
              (λ b.
                if b
                then (del_old sh (incremental sh) c1 key >>= λ c'.
                    rehash_step sh (incremental sh) c' events)
                else returns (c1, events))
              off,
          record {
            not_closed = i.not_closed;
            bound = i.bound;
            ttl = i.ttl;
            sound =
                new-put sh w r index c.shards i.sound key s s' sound others here
                  (λ v e. absurd (ground (arith, sym e ∙ none_old)));
          },
          λ q.
              contents-new sh w r index c.shards i.sound key s s' sound others here
                (λ v e. absurd (ground (arith, sym e ∙ none_old))) q
              ∙ ap (λ o. ite (str_dec key q) o (holding c q))
                  (ap (or_else (w.holds s' key)) none_old ∙ or_else-none (w.holds s' key)),
        )

    settle-on : r.rehashing ≡ true → Settles
    settle-on on =
        let j = old_shard_index key r.old_mask in
        let (t, there) = get_elem?-some r.old_shards j (i.sound.reach on key) in
        let t' = sh.del t key in
        let t_sound = i.sound.old_sound j t there in
        let t_others = dels_others t key t_sound in
        let gone = dels_key t key t_sound in
        let fewer : (v : Str) → w.holds t' key ≡ some v → w.holds t key ≡ some v =
          λ v e. absurd (ground (arith, sym e ∙ gone)) in
        let r2 =
          edited sh w r index c.shards i.sound key t t' (w.del_sound t key t_sound) t_others there
            fewer in
        let i2 =
          old-put sh w r index c.shards i.sound key t t' (w.del_sound t key t_sound) t_others there
            fewer in
        let old_none : view sh w r2.old_shards j key ≡ none =
          old-view sh w r index c.shards i.sound key t t' (w.del_sound t key t_sound) t_others there
            fewer key
          ∙ if_pos (str_dec key key) refl _ _
          ∙ gone in
        let apart : (v : Str) → view sh w r2.old_shards j key ≡ some v → w.holds s' key ≡ none =
          λ v e. absurd (ground (arith, sym e ∙ old_none)) in
        let c2 : Cached = record c1 { rehasher = r2 } in
        let (c', events', e, i', same) = rehash_step-holding c2 events (record {
          not_closed = i.not_closed;
          bound = i.bound;
          ttl = i.ttl;
          sound = new-put sh w r2 index c.shards i2 key s s' sound others here apart;
        }) in
        let del : del_old sh (incremental sh) c1 key ≡ returns c2 =
          rw (del_old, old_shard-on r key on (i.sound.reach on key), there) refl in
        (
          c',
          events',
          ap
                (λ b.
                  if b
                  then (del_old sh (incremental sh) c1 key >>= λ c'.
                      rehash_step sh (incremental sh) c' events)
                  else returns (c1, events))
                on
              ∙ ap (λ d. d >>= λ c'. rehash_step sh (incremental sh) c' events) del
              ∙ e,
          i',
          λ q.
              same q
              ∙ contents-new sh w r2 index c.shards i2 key s s' sound others here apart q
              ∙ ap (λ o. ite (str_dec key q) o (contents sh w r2 index c.shards q))
                  (ap (or_else (w.holds s' key)) old_none ∙ or_else-none (w.holds s' key))
              ∙ ap (ite (str_dec key q) (w.holds s' key)) (
                  contents-old sh w r index c.shards i.sound key t t' (w.del_sound t key t_sound)
                    t_others there fewer q)
              ∙ ite_twice (str_dec key q) (w.holds s' key) _ (holding c q),
        )

    -- `Set` and `Del`, behind the new table's shard: both tables are changed at the key.
    pub settle-holding :
        (c' : Cached) × (events' : List Event) × (settle sh
            (incremental sh)
            (record c { shards = set c.shards (shard_index sh (incremental sh) c key) s' })
            key
            events
          ≡ returns (c', events'))
        × IsOpen c'
        × ((q : Str) → holding c' q ≡ ite (str_dec key q) (w.holds s' key) (holding c q))
    settle-holding = elim (Bool-cases r.rehashing) [
      | inr off ↦ settle-off off
      | inl on ↦ settle-on on
    ]
