-- ===== src/Cache/Refinement.antt =====
-- cache.go: a history of calls answered by a cache, and by a map.
pub mod Kv
use mcache.Prelude.{◌≡◌, false, Option, none, some, List, [], ◌∷◌, Str, str_dec, ite}
use mcache.Prelude.Int.{ℤ, pos, pos_part}
use mcache.Prelude.Panics.{Panics, returns, ◌>>=◌}
use mcache.Rehash.Shards.{Shard, Laws}
use mcache.Rehash.Rehashers.{incremental}
use mcache.Cache.{Cache, Answer, ok, is_empty, set_value, get_value, del_key, resize}
use mcache.Cache.Lookup.{answer_of}

pub data Call : Type 0 where
  set_call : Str → Str → Option ℤ → Call
  get_call : Str → Call
  del_call : Str → Call
  resize_call : ℤ → Call

pub data Reply : Type 0 where
  done : Answer (Unit {0}) → Reply
  value : Answer Str → Reply

-- what a map answers, where `Resize` has no answer
abbrev pub answered : (Str → Option Str) → List Call → List Reply
answered m [] = []
answered m (set_call key v ttl ∷ calls) =
    done (ok tt) ∷ answered (λ q. ite (str_dec key q) (some v) (m q)) calls
answered m (get_call key ∷ calls) = value (answer_of (m key)) ∷ answered m calls
answered m (del_call key ∷ calls) =
    done (ok tt) ∷ answered (λ q. ite (str_dec key q) none (m q)) calls
answered m (resize_call count ∷ calls) = answered m calls

module _ (sh : Shard) where
  -- what the cache answers, call by call; the answer of `Resize` is left out
  unfoldable pub serve : Cache sh (incremental sh) → List Call → Panics (List Reply)
  serve c [] = returns []
  serve c (set_call key v ttl ∷ calls) = set_value sh (incremental sh) c key (some v) ttl >>= λ out.
      serve out.0 calls >>= λ replies. returns (done out.2 ∷ replies)
  serve c (get_call key ∷ calls) = get_value sh (incremental sh) c key >>= λ out.
      serve out.0 calls >>= λ replies. returns (value out.2 ∷ replies)
  serve c (del_call key ∷ calls) = del_key sh (incremental sh) c key >>= λ out.
      serve out.0 calls >>= λ replies. returns (done out.2 ∷ replies)
  serve c (resize_call count ∷ calls) = serve (resize sh (incremental sh) c count).0 calls

module _ (sh : Shard) (w : Laws sh) where
  -- No call has the empty key, and each time to live is one that the laws speak of, as it is stored.
  abbrev pub HaveKeys : List Call → Type 0
  HaveKeys [] = Unit
  HaveKeys (set_call key v none ∷ calls) = (is_empty key ≡ false) × HaveKeys calls
  HaveKeys (set_call key v (some ttl) ∷ calls) =
      (is_empty key ≡ false) × w.IsTtl (pos (pos_part ttl)) × HaveKeys calls
  HaveKeys (get_call key ∷ calls) = (is_empty key ≡ false) × HaveKeys calls
  HaveKeys (del_call key ∷ calls) = (is_empty key ≡ false) × HaveKeys calls
  HaveKeys (resize_call count ∷ calls) = HaveKeys calls
