-- ===== src/Shard/Sub/Inv.antt =====
-- shard.go: the invariant between a sub-shard's entries and its policy.
use mcache.Prelude.{
  refl, ◌||◌, ℕ, ◌+◌, ◌≡◌, Bool, some, List, [], ◌∷◌, ◌++◌, Str, str_dec, leb, length, is_some,
  arith, Option-cases, Bool-cases, inl, inr,
}
use mcache.Prelude.Int.{ℤ}
use mcache.Prelude.Dict.{
  Dict, lookup, insert, IsDistinct, lookup-insert, lookup-delete, insert-IsDistinct,
  delete-IsDistinct,
}
use mcache.Policy.{EvictionPolicy, Laws}
use mcache.Shard.Entry.{CacheEntry, is_expired}
use mcache.Shard.Sub.{
  SubShard, drop_entry, purge, get, del, live, expire, persist, cleanup_loop, cleanup, extract_loop,
  item_ttl, item_of, Item, read, add_keys, swap_policy,
}

-- No key has two entries, the policy is sound, and it tracks exactly the keys of the entries.
pub record IsSound (p : EvictionPolicy) (Fit : p.State → Type 0) (tracks : p.State → Str → Bool)
    (s : SubShard p) : Type 0 where
  pub distinct : IsDistinct str_dec s.entries
  pub fit : Fit s.policy
  pub tracked : (q : Str) → tracks s.policy q ≡ is_some (lookup str_dec q s.entries)

module _ (p : EvictionPolicy) (Fit : p.State → Type 0) (tracks : p.State → Str → Bool)
    (laws : Laws p Fit tracks) where
  pub drop_entry-IsSound :
      (s : SubShard p) (k : Str) → IsSound p Fit tracks s → IsSound p Fit tracks (drop_entry p s k)
  drop_entry-IsSound s k i = record {
    distinct = delete-IsDistinct str_dec k s.entries i.distinct;
    fit = laws.remove_sound s.policy k i.fit;
    tracked = λ q. ground (
      arith,
      laws.remove_tracks s.policy k q i.fit,
      i.tracked q,
      lookup-delete str_dec k q s.entries,
    );
  }

  pub purge-IsSound :
      (now : ℕ) (s : SubShard p) (k : Str)
      → IsSound p Fit tracks s
      → IsSound p Fit tracks (purge p now s k)
  unfolding purge
  purge-IsSound now s k i = elim (Option-cases (lookup str_dec k s.entries)) [
    | inl gone ↦ rw (gone, purge) i
    | inr (e, there) ↦ elim (Bool-cases (is_expired now e)) [
      | inl dead ↦ rw (there, purge) (rw dead (drop_entry-IsSound s k i))
      | inr alive ↦ rw (there, purge) (rw alive i)
    ]
  ]

  pub get-IsSound :
      (now now' : ℕ) (s : SubShard p) (k : Str)
      → IsSound p Fit tracks s
      → IsSound p Fit tracks (get p now now' s k).0
  unfolding get
  get-IsSound now now' s k i = elim (Option-cases (read p s k)) [
    | inl gone ↦ rw (gone, get) i
    | inr (e, there) ↦ elim (Bool-cases (is_expired now e)) [
      | inl dead ↦ rw (there, get) (rw dead (purge-IsSound now' s k i))
      | inr alive ↦ rw (there, get) (rw alive i)
    ]
  ]

  pub del-IsSound :
      (s : SubShard p) (k : Str) → IsSound p Fit tracks s → IsSound p Fit tracks (del p s k)
  unfolding del
  del-IsSound s k i = elim (Bool-cases (is_some (lookup str_dec k s.entries))) [
    | inl there ↦ rw there (drop_entry-IsSound s k i)
    | inr gone ↦ rw gone i
  ]

  -- a new value for a key that is there
  replaced-IsSound :
      (s : SubShard p) (k : Str) (e e' : CacheEntry)
      → lookup str_dec k s.entries ≡ some e
      → IsSound p Fit tracks s
      → IsSound p Fit tracks (record s { entries = insert str_dec k e' s.entries })
  replaced-IsSound s k e e' there i = record {
    distinct = insert-IsDistinct str_dec k e' s.entries i.distinct;
    fit = i.fit;
    tracked = λ q. ground (arith, i.tracked q, lookup-insert str_dec k q e' s.entries);
  }

  live-lookup :
      (now : ℕ) (s : SubShard p) (k : Str) (e : CacheEntry)
      → live p now s k ≡ some e
      → lookup str_dec k s.entries ≡ some e
  unfolding live
  live-lookup now s k e h = ground arith

  pub expire-IsSound :
      (now now' : ℕ) (s : SubShard p) (k : Str) (ttl : ℤ)
      → IsSound p Fit tracks s
      → IsSound p Fit tracks (expire p now now' s k ttl).0
  unfolding expire
  expire-IsSound now now' s k ttl i = elim (Option-cases (live p now s k)) [
    | inl gone ↦ rw (gone, expire) i
    | inr (e, there) ↦ rw (there, expire) (replaced-IsSound s k e _ (live-lookup now s k e there) i)
  ]

  pub persist-IsSound :
      (now : ℕ) (s : SubShard p) (k : Str)
      → IsSound p Fit tracks s
      → IsSound p Fit tracks (persist p now s k).0
  unfolding persist
  persist-IsSound now s k i = elim (Option-cases (live p now s k)) [
    | inl gone ↦ rw (gone, persist) i
    | inr (e, there) ↦
        rw (there, persist) (replaced-IsSound s k e _ (live-lookup now s k e there) i)
  ]

  cleanup_loop-IsSound :
      (now : Str → ℕ) (s : SubShard p) (n : ℕ) (visited : Dict Str CacheEntry)
      → IsSound p Fit tracks s
      → IsSound p Fit tracks (cleanup_loop p now s n visited).0
  unfolding cleanup_loop
  cleanup_loop-IsSound now s n [] i = i
  cleanup_loop-IsSound now s n (e ∷ visited) i = elim (Bool-cases (is_expired (now e.0) e.1)) [
    | inl dead ↦
        rw dead (
          cleanup_loop-IsSound now (drop_entry p s e.0) (n + 1) visited
            (drop_entry-IsSound s e.0 i))
    | inr alive ↦ rw alive (cleanup_loop-IsSound now s n visited i)
  ]

  pub cleanup-IsSound :
      (now : Str → ℕ) (s : SubShard p)
      → IsSound p Fit tracks s
      → IsSound p Fit tracks (cleanup p now s).0
  unfolding cleanup
  cleanup-IsSound now s i = cleanup_loop-IsSound now s 0 s.entries i

  pub extract_loop-IsSound :
      (n now : ℕ) (now' : Str → ℕ) (s : SubShard p) (items : List Item)
      (visited : Dict Str CacheEntry)
      → IsSound p Fit tracks s
      → IsSound p Fit tracks (extract_loop p n now now' s items visited).0
  unfolding extract_loop
  extract_loop-IsSound n now now' s items [] i = i
  extract_loop-IsSound n now now' s items (e ∷ visited) i =
      elim (Option-cases (item_ttl now (now' e.0) e.1)) [
        | inl dead ↦
            rw (dead, extract_loop)
              (extract_loop-IsSound n now now' (drop_entry p s e.0) items visited
                (drop_entry-IsSound s e.0 i))
        | inr (ttl, live) ↦ elim (Bool-cases (leb n (length (items ++ item_of e ttl ∷ [])))) [
          | inl full ↦ rw (live, extract_loop) (rw full (drop_entry-IsSound s e.0 i))
          | inr more ↦
              rw (live, extract_loop)
                (rw more (
                  extract_loop-IsSound n now now' (drop_entry p s e.0) (items ++ item_of e ttl ∷ [])
                    visited (drop_entry-IsSound s e.0 i)))
        ]
      ]

module _ (q : EvictionPolicy) (Fit : q.State → Type 0) (tracks : q.State → Str → Bool)
    (laws : Laws q Fit tracks) where
  add_keys-Fit : (st : q.State) (m : Dict Str CacheEntry) → Fit st → Fit (add_keys q st m)
  unfolding add_keys
  add_keys-Fit st [] f = f
  add_keys-Fit st (e ∷ m) f = add_keys-Fit (q.on_add st e.0) m (laws.add_sound st e.0 f)

  add_keys-tracks :
      (st : q.State) (m : Dict Str CacheEntry) (k : Str)
      → Fit st
      → tracks (add_keys q st m) k ≡ (is_some (lookup str_dec k m) || tracks st k)
  unfolding add_keys lookup
  add_keys-tracks st [] k f = refl
  add_keys-tracks st (e ∷ m) k f = ground (
    arith,
    add_keys-tracks (q.on_add st e.0) m k (laws.add_sound st e.0 f),
    laws.add_tracks st e.0 k f,
  )

  -- The new policy tracks the keys of the entries, of whatever kind the old one is.
  pub swap_policy-IsSound :
      (p : EvictionPolicy) (s : SubShard p)
      → IsDistinct str_dec s.entries
      → IsSound q Fit tracks (swap_policy p q s)
  unfolding swap_policy
  swap_policy-IsSound p s d = record {
    distinct = d;
    fit = add_keys-Fit q.fresh s.entries laws.fresh_sound;
    tracked = λ k.
        ground (arith, add_keys-tracks q.fresh s.entries k laws.fresh_sound, laws.fresh_tracks k);
  }
