-- ===== src/Shard/Sub.antt =====
-- shard.go: `subShard`, and the parts of the shard's methods that run under its lock. Each part is
-- one step. The policy is a parameter, with its laws where a theorem needs them.
pub mod Inv
pub mod Eviction
pub mod Steps
pub mod Extract
mod Tests
use mcache.Prelude.{
  ℕ, zero, suc, ◌+◌, ◌-◌, ◌*◌, ◌/◌, ◌^◌, ◌≡◌, ◌<◌, refl, Bool, true, false, Option, none, some,
  List, [], ◌∷◌, ◌++◌, Str, str_dec, if◌then◌else◌, ltb, leb, length, is_some, arith, ◌&&◌, ◌||◌,
  not,
}
use mcache.Prelude.Int.{ℤ, pos, negsuc, ltb_ℤ, ◌-ℤ◌, pos_part}
use mcache.Prelude.Decimal.{add_int64}
use mcache.Prelude.Dict.{Dict, lookup, insert, delete}
use mcache.Policy.{EvictionPolicy}
use mcache.Shard.Entry.{CacheEntry, new_entry, is_expired}

-- `rehash.Item`
pub record Item : Type 0 where
  pub key : Str
  pub value : Str
  pub ttl : ℤ

-- `ttl` of an item: what is left of the entry's time, 0 for no expiry; none if it has expired
pub item_ttl : ℕ → ℕ → CacheEntry → Option ℤ
item_ttl now now' e =
    if ltb_ℤ (pos 0) e.expires_at
    then (if ltb now (pos_part e.expires_at)
        then (if ltb now' (pos_part e.expires_at)
            then some (pos (pos_part e.expires_at - now'))
            else none)
        else none)
    else some (pos 0)

abbrev pub item_of : Str × CacheEntry → ℤ → Item
item_of e ttl = record { key = e.0; value = e.1.value; ttl = ttl }

-- the loop of `Len`; it reads the clock for each entry, `now` at its key
pub len_loop : (Str → ℕ) → Dict Str CacheEntry → ℕ
len_loop now [] = 0
len_loop now (e ∷ entries) =
    let rest = len_loop now entries in if is_expired (now e.0) e.1 then rest else rest + 1

module _ (p : EvictionPolicy) where
  pub record SubShard : Type 0 where
    pub entries : Dict Str CacheEntry
    pub policy : p.State

  -- `delete(sub.entries, key); sub.policy.OnRemove(key)`
  abbrev pub drop_entry : SubShard → Str → SubShard
  drop_entry s key = record {
    entries = delete str_dec key s.entries;
    policy = p.on_remove s.policy key;
  }

  -- the reader's part of `get`
  unfoldable pub read : SubShard → Str → Option CacheEntry
  read s key = lookup str_dec key s.entries

  -- the writer's part of `get`, which looks again
  pub purge : ℕ → SubShard → Str → SubShard
  purge now s key = elim (lookup str_dec key s.entries) [
    | none ↦ s
    | some e ↦ if is_expired now e then drop_entry s key else s
  ]

  -- `get` without another step between its two parts; the clock is read twice.
  unfoldable pub get : ℕ → ℕ → SubShard → Str → SubShard × Option Str
  get now now' s key = elim (read s key) [
    | none ↦ (s, none)
    | some e ↦ if is_expired now e then (purge now' s key, none) else (s, some e.value)
  ]

  -- the eviction loop of `Set`; `none` stands for fuel that has run out
  unfoldable pub evict_loop : ℕ → ℕ → SubShard → List Str → Option (SubShard × List Str)
  evict_loop zero max_size s evicted = none
  evict_loop (suc fuel) max_size s evicted =
      let out = p.evict s.policy in
      let stopped = some (record { entries = s.entries; policy = out.0 }, evicted) in
      if ltb 0 max_size && ltb max_size (length s.entries)
      then elim out.1 [
        | none ↦ stopped
        | some k ↦
            evict_loop fuel max_size
              (record { entries = delete str_dec k s.entries; policy = out.0 }) (evicted ++ k ∷ [])
      ]
      else some (s, evicted)

  -- `Set` under the lock, with one more round of fuel than there are entries
  unfoldable pub set : ℕ → ℕ → SubShard → Str → Str → ℤ → Option (SubShard × List Str)
  set now max_size s key value ttl =
      let entries = insert str_dec key (new_entry now value ttl) s.entries in
      if is_some (lookup str_dec key s.entries)
      then some (record { entries = entries; policy = p.on_access s.policy key }, [])
      else evict_loop (suc (length entries)) max_size
          (record { entries = entries; policy = p.on_add s.policy key }) []

  -- the locked part of `Del`
  unfoldable pub del : SubShard → Str → SubShard
  del s key = if is_some (lookup str_dec key s.entries) then drop_entry s key else s

  pub len : (Str → ℕ) → SubShard → ℕ
  len now s = len_loop now s.entries

  -- the loop of `cleanup` over the entries that `range` visits, with a reading for each
  unfoldable pub cleanup_loop : (Str → ℕ) → SubShard → ℕ → Dict Str CacheEntry → SubShard × ℕ
  cleanup_loop now s removed [] = (s, removed)
  cleanup_loop now s removed (e ∷ visited) =
      let dead = cleanup_loop now (drop_entry s e.0) (removed + 1) visited in
      let live = cleanup_loop now s removed visited in
      if is_expired (now e.0) e.1 then dead else live

  unfoldable pub cleanup : (Str → ℕ) → SubShard → SubShard × ℕ
  cleanup now s = cleanup_loop now s 0 s.entries

  -- `e.isExpired()` and a missing key, as `expire`, `persist` and `keyExists` test them
  pub live : ℕ → SubShard → Str → Option CacheEntry
  live now s key = elim (lookup str_dec key s.entries) [
    | none ↦ none
    | some e ↦ if is_expired now e then none else some e
  ]

  abbrev with_expiry : SubShard → Str → Option CacheEntry → ℤ → SubShard × Bool
  with_expiry s key none t = (s, false)
  with_expiry s key (some e) t =
      (record s { entries = insert str_dec key (record e { expires_at = t }) s.entries }, true)

  -- `time.Now().Add(ttl).UnixNano()`
  pub expire : ℕ → ℕ → SubShard → Str → ℤ → SubShard × Bool
  expire now now' s key ttl = with_expiry s key (live now s key) (add_int64 (pos now') ttl)

  pub persist : ℕ → SubShard → Str → SubShard × Bool
  persist now s key = with_expiry s key (live now s key) (pos 0)

  -- `ttlSeconds` and `ttlMillis`, with the nanoseconds of their unit
  pub ttl_in : ℕ → ℕ → SubShard → Str → ℤ
  ttl_in unit now s key = elim (lookup str_dec key s.entries) [
    | none ↦ negsuc 1
    | some e ↦
        if ltb_ℤ (pos 0) e.expires_at
        then (if ltb_ℤ (pos now) e.expires_at
            then pos ((pos_part e.expires_at - now) / unit)
            else negsuc 1)
        else negsuc 0
  ]

  -- the loop of `swapPolicy` over the keys
  pub add_keys : p.State → Dict Str CacheEntry → p.State
  add_keys st [] = st
  add_keys st (e ∷ entries) = add_keys (p.on_add st e.0) entries

  -- the loop of `ExtractN` over one sub-shard, with the items so far; true for an early return.
  -- The clock is read once, `now`, and again for each entry that expires.
  unfoldable pub extract_loop :
      ℕ → ℕ → (Str → ℕ) → SubShard → List Item → Dict Str CacheEntry → SubShard × List Item × Bool
  extract_loop n now now' s items [] = (s, items, false)
  extract_loop n now now' s items (e ∷ visited) =
      let s' = drop_entry s e.0 in
      let skip = extract_loop n now now' s' items visited in
      elim (item_ttl now (now' e.0) e.1) [
        | none ↦ skip
        | some ttl ↦
            let items' = items ++ item_of e ttl ∷ [] in
            let more = extract_loop n now now' s' items' visited in
            if leb n (length items') then (s', items', true) else more
      ]

-- The new policy may be of another kind than the old one.
pub swap_policy : (p q : EvictionPolicy) → SubShard p → SubShard q
swap_policy p q s = record { entries = s.entries; policy = add_keys q q.fresh s.entries }
