-- ===== src/Shard/Kv.antt =====
-- shard.go: the shard and its operations on keys. The slots of the array `subs` that are not nil
-- are a list, and to use a slot past its end is a panic. Each operation is one step.
pub mod Places
pub mod Migration
mod Tests
use mcache.Prelude.{
  bit_xor, ℕ, zero, suc, ◌+◌, ◌-◌, ◌*◌, ◌/◌, ◌%◌, ◌^◌, ◌≡◌, Bool, true, false, Option, none, some,
  List, [], ◌∷◌, ◌++◌, Str, str_dec, if◌then◌else◌, ltb, leb, ◌==◌, length, get_elem?, set,
  replicate, is_some, ◌||◌,
}
use mcache.Prelude.Int.{ℤ, pos, negsuc, ltb_ℤ, pos_part}
use mcache.Prelude.Dict.{Dict, lookup, insert, delete}
use mcache.Prelude.Panics.{Panics, returns, panic, ◌>>=◌}
use mcache.Policy.{EvictionPolicy}
use mcache.Ds.Sets.{Elements}
use mcache.Ds.Hashes.{Fields}
use mcache.Shard.Entry.{CacheEntry, is_expired}
use mcache.Shard.Sub
use mcache.Shard.Sub.{SubShard, Item}

-- `effectiveSubShards`
pub effective_sub_shards : ℤ → ℕ
effective_sub_shards max_size =
    let n = pos_part max_size / 2 in
    let n' = if ltb n 1 then 1 else n in
    if ltb_ℤ (pos 0) max_size then (if ltb 8 n' then 8 else n') else 8

-- `maxSubSize` of a new shard: a bound of 0 or less is no bound, here 0.
pub sub_max : ℤ → ℕ
sub_max max_size =
    let m = pos_part max_size / effective_sub_shards max_size in
    if ltb m 1 then (if ltb_ℤ (pos 0) max_size then 1 else m) else m

-- the loop of `subIndex`: FNV-1a on 32 bits
unfoldable pub fnv_loop : ℕ → Str → ℕ
fnv_loop h [] = h
fnv_loop h (c ∷ key) = fnv_loop (bit_xor h c * 16777619 % 2 ^ 32) key

-- `subIndex`, with the number of sub-shards
pub sub_index : ℕ → Str → ℕ
sub_index num_subs key = fnv_loop 2166136261 key % num_subs

module _ (p : EvictionPolicy) where
  pub record Shard : Type 0 where
    pub subs : List (SubShard p)
    pub num_subs : ℕ
    pub max_sub_size : ℕ
    pub sets : Dict Str Elements
    pub hashes : Dict Str Fields
    pub lists : Dict Str (List Str)

  pub new_shard : ℤ → Shard
  new_shard max_size = record {
    subs = replicate (effective_sub_shards max_size) (record { entries = []; policy = p.fresh });
    num_subs = effective_sub_shards max_size;
    max_sub_size = sub_max max_size;
    sets = [];
    hashes = [];
    lists = [];
  }

  -- `sub := s.subs[i]`, which a lock then dereferences
  pub sub_at : Shard → ℕ → Panics (SubShard p)
  sub_at s i = elim (get_elem? s.subs i) [ none ↦ panic | some sub ↦ returns sub ]

  abbrev pub place : Shard → Str → ℕ
  place s key = sub_index s.num_subs key

  abbrev pub put : Shard → ℕ → SubShard p → Shard
  put s i sub = record s { subs = set s.subs i sub }

  pub get : ℕ → ℕ → Shard → Str → Panics (Shard × Option Str)
  get now now' s key = sub_at s (place s key) >>= λ sub.
      let out = Sub.get p now now' sub key in returns (put s (place s key) out.0, out.1)

  -- `none` is fuel run out in the eviction loop.
  pub set_key : ℕ → Shard → Str → Str → ℤ → Panics (Option (Shard × List Str))
  set_key now s key value ttl = sub_at s (place s key) >>= λ sub.
      elim (Sub.set p now s.max_sub_size sub key value ttl) [
        | none ↦ returns none
        | some out ↦ returns (some (put s (place s key) out.0, out.1))
      ]

  pub del : Shard → Str → Panics Shard
  del s key = sub_at s (place s key) >>= λ sub.
      returns (record (put s (place s key) (Sub.del p sub key)) {
        sets = delete str_dec key s.sets;
        hashes = delete str_dec key s.hashes;
        lists = delete str_dec key s.lists;
      })

  -- The loops of `Len` and `cleanup` take the `numSubs` sub-shards that a shard has.
  pub len_from : (Str → ℕ) → List (SubShard p) → ℕ
  len_from now [] = 0
  len_from now (sub ∷ subs) = Sub.len p now sub + len_from now subs

  pub cleanup_from : (Str → ℕ) → List (SubShard p) → List (SubShard p) × ℕ
  cleanup_from now [] = ([], 0)
  cleanup_from now (sub ∷ subs) =
      let (sub', n) = Sub.cleanup p now sub in
      let (subs', m) = cleanup_from now subs in (sub' ∷ subs', n + m)

  pub cleanup : (Str → ℕ) → Shard → Shard × ℕ
  cleanup now s = let out = cleanup_from now s.subs in (record s { subs = out.0 }, out.1)

  -- The loop of `ExtractN` over the eight slots, from slot `i` on.
  pub extract_from : ℕ → ℕ → ℕ → ℕ → (Str → ℕ) → Shard → List Item → Panics (Shard × List Item)
  extract_from zero i n now now' s items = returns (s, items)
  extract_from (suc rounds) i n now now' s items =
      if ltb (length items) n
      then (sub_at s i >>= λ sub.
          let (sub', items', done) = Sub.extract_loop p n now now' sub items sub.entries in
          if done
          then returns (put s i sub', items')
          else extract_from rounds (i + 1) n now now' (put s i sub') items')
      else returns (s, items)

  pub extract_n : ℕ → ℕ → (Str → ℕ) → Shard → Panics (Shard × List Item)
  extract_n n now now' s = extract_from 8 0 n now now' s []

  abbrev typed : Shard → Str → ℕ
  typed s key =
      if is_some (lookup str_dec key s.sets)
      then 2
      else if is_some (lookup str_dec key s.hashes)
      then 3
      else if is_some (lookup str_dec key s.lists)
      then 4
      else 0

  -- 1 for a string, 2 for a set, 3 for a hash, 4 for a list, 0 for none
  pub key_type : ℕ → Shard → Str → Panics ℕ
  key_type now s key = sub_at s (place s key) >>= λ sub.
      returns (if is_some (Sub.live p now sub key) then 1 else typed s key)

  pub key_exists : ℕ → Shard → Str → Panics Bool
  key_exists now s key = sub_at s (place s key) >>= λ sub. returns (
      is_some (Sub.live p now sub key)
      || is_some (lookup str_dec key s.sets)
      || is_some (lookup str_dec key s.hashes)
      || is_some (lookup str_dec key s.lists))

  pub expire : ℕ → ℕ → Shard → Str → ℤ → Panics (Shard × Bool)
  expire now now' s key ttl = sub_at s (place s key) >>= λ sub.
      let out = Sub.expire p now now' sub key ttl in returns (put s (place s key) out.0, out.1)

  pub persist : ℕ → Shard → Str → Panics (Shard × Bool)
  persist now s key = sub_at s (place s key) >>= λ sub.
      let out = Sub.persist p now sub key in returns (put s (place s key) out.0, out.1)

  pub ttl_seconds : ℕ → Shard → Str → Panics ℤ
  ttl_seconds now s key =
      sub_at s (place s key) >>= λ sub. returns (Sub.ttl_in p 1000000000 now sub key)

  pub ttl_millis : ℕ → Shard → Str → Panics ℤ
  ttl_millis now s key =
      sub_at s (place s key) >>= λ sub. returns (Sub.ttl_in p 1000000 now sub key)

  -- `matches` is `filepath.Match` for the pattern, without its error.
  pub matched_in : (Str → Bool) → {A : Type 0} → (Str × A → Bool) → Dict Str A → List Str
  matched_in matches ok [] = []
  matched_in matches ok (e ∷ m) =
      let rest = matched_in matches ok m in
      if ok e then (if matches e.0 then e.0 ∷ rest else rest) else rest

  pub matched_subs : (Str → ℕ) → (Str → Bool) → List (SubShard p) → List Str
  matched_subs now matches [] = []
  matched_subs now matches (sub ∷ subs) =
      matched_in matches (λ e. if is_expired (now e.0) e.1 then false else true) sub.entries
      ++ matched_subs now matches subs

  pub match_keys : (Str → ℕ) → (Str → Bool) → Shard → List Str
  match_keys now matches s =
      matched_subs now matches s.subs
      ++ matched_in matches (λ v. true) s.sets
      ++ matched_in matches (λ v. true) s.hashes
      ++ matched_in matches (λ v. true) s.lists
