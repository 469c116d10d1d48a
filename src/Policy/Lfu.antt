-- ===== src/Policy/Lfu.antt =====
-- lfu.go. A pointer to a list element, and to the `lfuItem` that it holds, is modelled by the key of
-- the item: `items` maps a key to the frequency that its item holds, and a bucket is the list of
-- the keys of its items, the oldest first. Frequencies are natural numbers (the source's `int`
-- would need 2^63 accesses of one key to wrap).
pub mod Buckets
pub mod Laws
pub mod Frequency
pub mod Outcome
mod Tests
use mcache.Prelude.{
  ℕ, ◌+◌, ◌≡◌, Option, none, some, List, [], ◌∷◌, ◌++◌, Str, str_dec, ℕ_discrete, length, ltb, ◌==◌,
  if◌then◌else◌, Bool, true, false,
}
use mcache.Prelude.Dict.{Dict, lookup, insert, delete}
use mcache.Prelude.Keys.{remove_key}
use mcache.Policy.Interface.{EvictionPolicy}

pub record LfuPolicy : Type 0 where
  pub items : Dict Str ℕ
  pub freq_lists : Dict ℕ (List Str)
  pub min_freq : ℕ

-- `NewLFU`
abbrev pub new_lfu : LfuPolicy
new_lfu = record { items = []; freq_lists = []; min_freq = 0 }

abbrev pub or_empty : Option (List Str) → List Str
or_empty none = []
or_empty (some l) = l

-- `p.freqLists[freq]`, with a new list where there is none
pub bucket_of : Dict ℕ (List Str) → ℕ → List Str
bucket_of lists freq = or_empty (lookup ℕ_discrete freq lists)

-- the loop of `scanMinFreq`; `none` stands for -1
pub scan_loop : Option ℕ → Dict ℕ (List Str) → Option ℕ
scan_loop m [] = m
scan_loop none (e ∷ lists) = scan_loop (some e.0) lists
scan_loop (some m) (e ∷ lists) = scan_loop (some (if ltb e.0 m then e.0 else m)) lists

pub scan_min_freq : Dict ℕ (List Str) → ℕ
scan_min_freq lists = elim (scan_loop none lists) [ none ↦ 0 | some m ↦ m ]

-- `removeFromBucket`. A bucket that is missing would be a nil pointer; `Laws` rules it out.
pub remove_from_bucket : LfuPolicy → Str → ℕ → LfuPolicy
remove_from_bucket p key freq =
    let bucket = remove_key key (bucket_of p.freq_lists freq) in
    let others = delete ℕ_discrete freq p.freq_lists in
    if length bucket == 0
    then record p {
      freq_lists = others;
      min_freq = if p.min_freq == freq then scan_min_freq others else p.min_freq;
    }
    else record p { freq_lists = insert ℕ_discrete freq bucket p.freq_lists }

-- `p.items[key] = bucket.PushBack(item)`, for an item of frequency `freq`
pub push_back : LfuPolicy → Str → ℕ → LfuPolicy
push_back p key freq = record p {
  items = insert str_dec key freq p.items;
  freq_lists = insert ℕ_discrete freq (bucket_of p.freq_lists freq ++ key ∷ []) p.freq_lists;
}

pub bump : LfuPolicy → Str → LfuPolicy
bump p key = elim (lookup str_dec key p.items) [
  | none ↦ p
  | some freq ↦ push_back (remove_from_bucket p key freq) key (freq + 1)
]

pub on_access : LfuPolicy → Str → LfuPolicy
on_access p key = bump p key

pub on_add : LfuPolicy → Str → LfuPolicy
on_add p key = elim (lookup str_dec key p.items) [
  | none ↦ record (push_back p key 1) { min_freq = 1 }
  | some freq ↦ bump p key
]

pub on_remove : LfuPolicy → Str → LfuPolicy
on_remove p key = elim (lookup str_dec key p.items) [
  | none ↦ p
  | some freq ↦
      let p' = remove_from_bucket p key freq in record p' { items = delete str_dec key p'.items }
]

-- the removal at the end of `Evict`, of the bucket's first element; the item's frequency is read
-- through the element. There is a first element, by `Laws`.
pub evict_front : LfuPolicy → List Str → LfuPolicy × Option Str
evict_front p [] = (p, none)
evict_front p (key ∷ bucket) = elim (lookup str_dec key p.items) [
  | none ↦ (p, none)
  | some freq ↦
      let p' = remove_from_bucket p key freq in
      (record p' { items = delete str_dec key p'.items }, some key)
]

pub evict : LfuPolicy → LfuPolicy × Option Str
evict p =
    let bucket = bucket_of p.freq_lists p.min_freq in
    let p' = record p { min_freq = scan_min_freq p.freq_lists } in
    if length p.items == 0
    then (p, none)
    else if length bucket == 0
    then (if p'.min_freq == 0
        then (p', none)
        else evict_front p' (bucket_of p'.freq_lists p'.min_freq))
    else evict_front p bucket

pub len : LfuPolicy → ℕ
len p = length p.items

pub clear : LfuPolicy → LfuPolicy
clear p = new_lfu

abbrev pub lfu : EvictionPolicy
lfu = record {
  State = LfuPolicy;
  fresh = new_lfu;
  on_access = on_access;
  on_add = on_add;
  on_remove = on_remove;
  evict = evict;
  len = len;
  clear = clear;
}
