-- ===== src/Cache/Typed/Hashes.antt =====
-- cache_ext.go: the hash operations.
use mcache.Prelude.{ℕ, Bool, Option, none, some, List, [], Str, str_dec}
use mcache.Prelude.Int.{ℤ}
use mcache.Prelude.Dict.{Dict, lookup}
use mcache.Prelude.Panics.{Panics}
use mcache.Ds.Hashes.{Fields, Floats}
use mcache.Shard.Typed.Hashes as Shards
use mcache.Cache.{Answer, ok, failed, no_number}
use mcache.Cache.Typed.{TypedCache, at_key, reading, found, writing_hashes}

unfoldable pub h_set : TypedCache → Str → Str → Str → Panics (TypedCache × Answer ℕ)
h_set c key field value =
    at_key c key
      λ m. let out = Shards.h_set m.hashes key field value in writing_hashes m (out.0, ok out.1)

unfoldable pub h_set_nx : TypedCache → Str → Str → Str → Panics (TypedCache × Answer Bool)
h_set_nx c key field value =
    at_key c key
      λ m. let out = Shards.h_set_nx m.hashes key field value in writing_hashes m (out.0, ok out.1)

unfoldable pub h_get : TypedCache → Str → Str → Panics (TypedCache × Answer Str)
h_get c key field = at_key c key λ m. reading m (found (Shards.h_get m.hashes key field))

unfoldable pub h_del : TypedCache → Str → List Str → Panics (TypedCache × Answer ℕ)
h_del c key fields =
    at_key c key
      λ m. let out = Shards.h_del m.hashes key fields in writing_hashes m (out.0, ok out.1)

unfoldable pub h_exists : TypedCache → Str → Str → Panics (TypedCache × Answer Bool)
h_exists c key field = at_key c key λ m. reading m (ok (Shards.h_exists m.hashes key field))

-- what is read of a hash, with the shard's nil for a missing one
abbrev of_hash : {A : Type 0} → Dict Str Fields → Str → A → Option A
of_hash hashes key a = elim (lookup str_dec key hashes) [ none ↦ none | some h ↦ some a ]

unfoldable pub h_get_all : TypedCache → Str → Panics (TypedCache × Answer Fields)
h_get_all c key =
    at_key c key λ m. reading m (found (of_hash m.hashes key (Shards.h_get_all m.hashes key)))

unfoldable pub h_keys : TypedCache → Str → Panics (TypedCache × Answer (List Str))
h_keys c key =
    at_key c key λ m. reading m (found (of_hash m.hashes key (Shards.h_keys m.hashes key)))

unfoldable pub h_vals : TypedCache → Str → Panics (TypedCache × Answer (List Str))
h_vals c key =
    at_key c key λ m. reading m (found (of_hash m.hashes key (Shards.h_vals m.hashes key)))

unfoldable pub h_len : TypedCache → Str → Panics (TypedCache × Answer ℕ)
h_len c key = at_key c key λ m. reading m (ok (Shards.h_len m.hashes key))

unfoldable pub h_str_len : TypedCache → Str → Str → Panics (TypedCache × Answer ℕ)
h_str_len c key field = at_key c key λ m. reading m (ok (Shards.h_str_len m.hashes key field))

-- the text that an increment could not read as a number
abbrev text_of : Dict Str Fields → Str → Str → Str
text_of hashes key field = elim (Shards.h_get hashes key field) [ none ↦ [] | some v ↦ v ]

-- an increment's sum, or the error of `strconv`
abbrev summed : {A : Type 0} → Str → Option A → Answer A
summed text none = failed (no_number text)
summed text (some n) = ok n

unfoldable pub h_incr_by : TypedCache → Str → Str → ℤ → Panics (TypedCache × Answer ℤ)
h_incr_by c key field delta = at_key c key λ m.
    let out = Shards.h_incr_by m.hashes key field delta in
    writing_hashes m (out.0, summed (text_of m.hashes key field) out.1)

unfoldable pub h_incr_by_float :
    (fl : Floats) → TypedCache → Str → Str → fl.Float → Panics (TypedCache × Answer fl.Float)
h_incr_by_float fl c key field delta = at_key c key λ m.
    let out = Shards.h_incr_by_float fl m.hashes key field delta in
    writing_hashes m (out.0, summed (text_of m.hashes key field) out.1)

unfoldable pub hm_get :
    TypedCache → Str → List Str → Panics (TypedCache × Answer (List (Option Str)))
hm_get c key fields = at_key c key λ m. reading m (ok (Shards.hm_get m.hashes key fields))

unfoldable pub hm_set : TypedCache → Str → List Str → Panics (TypedCache × Answer (Unit {0}))
hm_set c key fv_pairs =
    at_key c key λ m. writing_hashes m (Shards.hm_set m.hashes key fv_pairs, ok tt)
