-- ===== src/Shard/Sub/Eviction.antt =====
-- shard.go: `Set` with its eviction loop, for a policy with the laws.
use mcache.Prelude.{
  ℕ, zero, suc, ◌+◌, ◌-◌, ◌≡◌, ◌≤◌, ◌<◌, ◌≢◌, refl, ap, ◌∙◌, Bool, true, none, some, List, [], ◌∷◌,
  ◌++◌, Str, str_dec, if◌then◌else◌, ltb, length, is_some, arith, Option-cases, Bool-cases, inl,
  inr, ite, ◌&&◌, min,
}
use mathlib.Core.List.{append_assoc, append-nil}
use mcache.Prelude.Int.{ℤ}
use mcache.Prelude.Keys.{listed}
use mcache.Prelude.Dict.{
  Dict, lookup, insert, delete, lookup-insert, lookup-delete, insert-IsDistinct, delete-IsDistinct,
  length-delete, length-insert,
}
use mcache.Policy.{EvictionPolicy, Laws}
use mcache.Shard.Entry.{CacheEntry, new_entry}
use mcache.Shard.Sub.{SubShard, evict_loop, set}
use mcache.Shard.Sub.Inv.{IsSound}

some-head :
    (e : Str × CacheEntry) (m : Dict Str CacheEntry) → is_some (lookup str_dec e.0 (e ∷ m)) ≡ true
unfolding lookup
some-head e m = ground arith

module _ (p : EvictionPolicy) (Fit : p.State → Type 0) (tracks : p.State → Str → Bool)
    (laws : Laws p Fit tracks) where
  -- A sub-shard with entries has a key to evict.
  evict_finds :
      (s : SubShard p) → IsSound p Fit tracks s → 0 < length s.entries → (p.evict s.policy).1 ≢ none
  evict_finds s i h e = go s.entries refl h
    where
      go : (m : Dict Str CacheEntry) → s.entries ≡ m → 0 < length m → ⊥
      go [] f l = absurd (omega arith)
      go (x ∷ m) f l =
          ground (arith, some-head x m, i.tracked x.0, laws.evict_none s.policy x.0 i.fit e)

  -- the sub-shard after one eviction
  after : SubShard p → Str → SubShard p
  after s k = record { entries = delete str_dec k s.entries; policy = (p.evict s.policy).0 }

  after-IsSound :
      (s : SubShard p) (k : Str)
      → IsSound p Fit tracks s
      → (p.evict s.policy).1 ≡ some k
      → IsSound p Fit tracks (after s k)
  unfolding after
  after-IsSound s k i e = record {
    distinct = delete-IsDistinct str_dec k s.entries i.distinct;
    fit = laws.evict_sound s.policy i.fit;
    tracked = λ q. ground (
      arith,
      laws.evict_tracks s.policy k q i.fit e,
      i.tracked q,
      lookup-delete str_dec k q s.entries,
    );
  }

  length-after :
      (s : SubShard p) (k : Str)
      → IsSound p Fit tracks s
      → (p.evict s.policy).1 ≡ some k
      → length (after s k).entries + 1 ≡ length s.entries
  unfolding after
  length-after s k i e = ground (
    arith,
    laws.evict_some s.policy k i.fit e,
    i.tracked k,
    length-delete str_dec k s.entries i.distinct,
  )

  -- What the loop leaves, of the entries `m` that it found: `out` are the evicted keys.
  pub record Fitted (max_size : ℕ) (m : Dict Str CacheEntry) (s' : SubShard p) (out : List Str)
      : Type 0 where
    pub sound : IsSound p Fit tracks s'
    pub size : length s'.entries ≡ (if ltb 0 max_size then min max_size (length m) else length m)
    pub number : length out + length s'.entries ≡ length m
    pub kept :
        (q : Str)
        → lookup str_dec q s'.entries ≡ (if listed q out then none else lookup str_dec q m)

  evict_step :
      (fuel max_size : ℕ) (s : SubShard p) (before : List Str) (k : Str)
      → (ltb 0 max_size && ltb max_size (length s.entries)) ≡ true
      → (p.evict s.policy).1 ≡ some k
      → evict_loop p (suc fuel) max_size s before
        ≡ evict_loop p fuel max_size (after s k) (before ++ k ∷ [])
  unfolding evict_loop after
  evict_step fuel max_size s before k over e = rw over (rw (e, evict_loop))

  Fitted-cons :
      (max_size : ℕ) (s s' : SubShard p) (k : Str) (out : List Str)
      → (ltb 0 max_size && ltb max_size (length s.entries)) ≡ true
      → length (after s k).entries + 1 ≡ length s.entries
      → Fitted max_size (after s k).entries s' out
      → Fitted max_size s.entries s' (k ∷ out)
  unfolding after listed
  Fitted-cons max_size s s' k out over shorter f = record {
    sound = f.sound;
    size = ground (arith, f.size);
    number = omega (arith, f.number);
    kept = λ q. ground (arith, f.kept q, lookup-delete str_dec k q s.entries);
  }

  evict_loop-Fitted :
      (fuel max_size : ℕ) (s : SubShard p) (before : List Str)
      → IsSound p Fit tracks s
      → length s.entries < fuel
      → (s' : SubShard p) × (out : List Str) × (evict_loop p fuel max_size s before
          ≡ some (s', before ++ out))
        × Fitted max_size s.entries s' out
  unfolding evict_loop
  evict_loop-Fitted zero max_size s before i h = absurd (omega arith)
  evict_loop-Fitted (suc fuel) max_size s before i h =
      elim (Bool-cases (ltb 0 max_size && ltb max_size (length s.entries))) [
        | inr fits ↦ (
          s,
          [],
          rw fits (rw append-nil),
          record {
            sound = i;
            size = ground arith;
            number = omega arith;
            kept = λ q. unfold listed in refl;
          },
        )
        | inl over ↦ elim (Option-cases ((p.evict s.policy).1)) [
          | inl gone ↦ absurd (evict_finds s i (ground arith) gone)
          | inr (k, e) ↦
              let shorter : length (after s k).entries + 1 ≡ length s.entries =
                length-after s k i e in
              let (s', out, run, f) =
                evict_loop-Fitted fuel max_size (after s k) (before ++ k ∷ [])
                  (after-IsSound s k i e) (omega arith) in
              (
                s',
                k ∷ out,
                evict_step fuel max_size s before k over e
                    ∙ run
                    ∙ ap (λ x. some (s', x)) (append_assoc before (k ∷ []) out),
                Fitted-cons max_size s s' k out over shorter f,
              )
        ]
      ]

  accessed-IsSound :
      (s : SubShard p) (k : Str) (e : CacheEntry)
      → is_some (lookup str_dec k s.entries) ≡ true
      → IsSound p Fit tracks s
      → IsSound p Fit tracks
          (record { entries = insert str_dec k e s.entries; policy = p.on_access s.policy k })
  accessed-IsSound s k e there i = record {
    distinct = insert-IsDistinct str_dec k e s.entries i.distinct;
    fit = laws.access_sound s.policy k i.fit;
    tracked = λ q. ground (
      arith,
      laws.access_tracks s.policy k q i.fit,
      i.tracked q,
      lookup-insert str_dec k q e s.entries,
    );
  }

  added-IsSound :
      (s : SubShard p) (k : Str) (e : CacheEntry)
      → IsSound p Fit tracks s
      → IsSound p Fit tracks
          (record { entries = insert str_dec k e s.entries; policy = p.on_add s.policy k })
  added-IsSound s k e i = record {
    distinct = insert-IsDistinct str_dec k e s.entries i.distinct;
    fit = laws.add_sound s.policy k i.fit;
    tracked = λ q. ground (
      arith,
      laws.add_tracks s.policy k q i.fit,
      i.tracked q,
      lookup-insert str_dec k q e s.entries,
    );
  }

  -- A bound of 0 is none.
  abbrev pub IsWithin : ℕ → SubShard p → Type 0
  IsWithin max_size s = length s.entries ≤ (if ltb 0 max_size then max_size else length s.entries)

  -- What `Set` of `k` leaves of the sub-shard `s`: the evicted keys are `out`.
  pub record Stored (max_size : ℕ) (s : SubShard p) (k : Str) (e : CacheEntry) (s' : SubShard p)
      (out : List Str) : Type 0 where
    pub sound : IsSound p Fit tracks s'
    pub within : IsWithin max_size s'
    pub number : length out ≡ (
        if is_some (lookup str_dec k s.entries)
        then 0
        else if ltb 0 max_size
        then length s.entries + 1 - max_size
        else 0)
    pub stored :
        (q : Str)
        → lookup str_dec q s'.entries
          ≡ (if listed q out then none else ite (str_dec k q) (some e) (lookup str_dec q s.entries))

  -- `Set` on a sound sub-shard within its bound, with a policy that keeps the laws, always ends. It evicts one key if the key is new and the
  -- sub-shard is full, and none otherwise. A key that was not evicted reads as the new entry if it is
  -- the one set, and as before if it is not; an evicted key is gone. The sub-shard is sound and
  -- within its bound again.
  pub set-Stored :
      (now max_size : ℕ) (s : SubShard p) (k v : Str) (ttl : ℤ)
      → IsSound p Fit tracks s
      → IsWithin max_size s
      → (s' : SubShard p) × (out : List Str) × (set p now max_size s k v ttl ≡ some (s', out))
        × Stored max_size s k (new_entry now v ttl) s' out
  unfolding set
  set-Stored now max_size s k v ttl i small =
      let e = new_entry now v ttl in
      elim (Bool-cases (is_some (lookup str_dec k s.entries))) [
        | inl there ↦ (
          record { entries = insert str_dec k e s.entries; policy = p.on_access s.policy k },
          [],
          rw there,
          record {
            sound = accessed-IsSound s k e there i;
            within = ground (arith, length-insert str_dec k e s.entries);
            number = rw there;
            stored = λ q. unfold listed in lookup-insert str_dec k q e s.entries;
          },
        )
        | inr new ↦
            let t : SubShard p = record {
              entries = insert str_dec k e s.entries;
              policy = p.on_add s.policy k;
            } in
            let (s', out, run, f) =
              evict_loop-Fitted (suc (length t.entries)) max_size t [] (added-IsSound s k e i)
                (omega arith) in
            let longer : length t.entries ≡ suc (length s.entries) =
              ground (arith, length-insert str_dec k e s.entries) in
            (
              s',
              out,
              rw new run,
              record {
                sound = f.sound;
                within = ground (arith, f.size);
                number = ground (arith, f.size, f.number);
                stored = λ q. ground (arith, f.kept q, lookup-insert str_dec k q e s.entries);
              },
            )
      ]

  -- `Set` ends and leaves a sound sub-shard, also one that is over its bound.
  pub set-IsSound :
      (now max_size : ℕ) (s : SubShard p) (k v : Str) (ttl : ℤ)
      → IsSound p Fit tracks s
      → (out : SubShard p × List Str) × (set p now max_size s k v ttl ≡ some out)
        × IsSound p Fit tracks out.0
  unfolding set
  set-IsSound now max_size s k v ttl i =
      let e = new_entry now v ttl in
      elim (Bool-cases (is_some (lookup str_dec k s.entries))) [
        | inl there ↦ (
          (record { entries = insert str_dec k e s.entries; policy = p.on_access s.policy k }, []),
          rw there refl,
          accessed-IsSound s k e there i,
        )
        | inr new ↦
            let t : SubShard p = record {
              entries = insert str_dec k e s.entries;
              policy = p.on_add s.policy k;
            } in
            let (s', out, run, f) =
              evict_loop-Fitted (suc (length t.entries)) max_size t [] (added-IsSound s k e i)
                (omega arith) in
            ((s', out), rw new run, f.sound)
      ]
