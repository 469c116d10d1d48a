-- ===== src/Shard/Typed/Hashes.antt =====
-- shard.go: the hash operations of a shard, on the map of its hashes.
use mcache.Prelude.{ℕ, Bool, false, Option, none, some, List, [], ◌∷◌, Str, str_dec}
use mcache.Prelude.Int.{ℤ}
use mcache.Prelude.Dict.{Dict, lookup}
use mcache.Ds.Hashes
use mcache.Ds.Hashes.{Fields, Floats}
use mcache.Shard.Typed.{obtain, store, store_left}

unfoldable pub h_set : Dict Str Fields → Str → Str → Str → Dict Str Fields × ℕ
h_set m key field value =
    let out = Hashes.h_set (obtain m key) field value in (store m key out.0, out.1)

unfoldable pub h_set_nx : Dict Str Fields → Str → Str → Str → Dict Str Fields × Bool
h_set_nx m key field value =
    let out = Hashes.h_set_nx (obtain m key) field value in (store m key out.0, out.1)

unfoldable pub h_get : Dict Str Fields → Str → Str → Option Str
h_get m key field = elim (lookup str_dec key m) [ none ↦ none | some h ↦ Hashes.h_get h field ]

unfoldable pub h_del : Dict Str Fields → Str → List Str → Dict Str Fields × ℕ
h_del m key fields = elim (lookup str_dec key m) [
  | none ↦ (m, 0)
  | some h ↦ let out = Hashes.h_del h fields in (store_left m key out.0, out.1)
]

unfoldable pub h_exists : Dict Str Fields → Str → Str → Bool
h_exists m key field = elim (lookup str_dec key m) [
  | none ↦ false
  | some h ↦ Hashes.h_exists h field
]

unfoldable pub h_get_all : Dict Str Fields → Str → Fields
h_get_all m key = elim (lookup str_dec key m) [ none ↦ [] | some h ↦ Hashes.h_get_all h ]

unfoldable pub h_keys : Dict Str Fields → Str → List Str
h_keys m key = elim (lookup str_dec key m) [ none ↦ [] | some h ↦ Hashes.h_keys h ]

unfoldable pub h_vals : Dict Str Fields → Str → List Str
h_vals m key = elim (lookup str_dec key m) [ none ↦ [] | some h ↦ Hashes.h_vals h ]

unfoldable pub h_len : Dict Str Fields → Str → ℕ
h_len m key = elim (lookup str_dec key m) [ none ↦ 0 | some h ↦ Hashes.h_len h ]

unfoldable pub h_str_len : Dict Str Fields → Str → Str → ℕ
h_str_len m key field = elim (lookup str_dec key m) [ none ↦ 0 | some h ↦ Hashes.h_str_len h field ]

-- An error of the sum leaves a new hash in the map.
unfoldable pub h_incr_by : Dict Str Fields → Str → Str → ℤ → Dict Str Fields × Option ℤ
h_incr_by m key field delta =
    let out = Hashes.h_incr_by (obtain m key) field delta in (store m key out.0, out.1)

unfoldable pub h_incr_by_float :
    (fl : Floats) → Dict Str Fields → Str → Str → fl.Float → Dict Str Fields × Option fl.Float
h_incr_by_float fl m key field delta =
    let out = Hashes.h_incr_by_float fl (obtain m key) field delta in (store m key out.0, out.1)

-- an answer of `none`s, one for each field
abbrev no_values : List Str → List (Option Str)
no_values [] = []
no_values (f ∷ fields) = none ∷ no_values fields

unfoldable pub hm_get : Dict Str Fields → Str → List Str → List (Option Str)
hm_get m key fields = elim (lookup str_dec key m) [
  | none ↦ no_values fields
  | some h ↦ Hashes.hm_get h fields
]

unfoldable pub hm_set : Dict Str Fields → Str → List Str → Dict Str Fields
hm_set m key fv_pairs = store m key (Hashes.hm_set (obtain m key) fv_pairs)
