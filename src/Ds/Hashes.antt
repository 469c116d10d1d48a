-- ===== src/Ds/Hashes.antt =====
-- ds/hash/hash.go. Every method holds the mutex from its first to its last line, so a method is
-- one step: a function from the fields to the fields after the call and its results.
pub mod Fields
pub mod Counters
mod Tests
use mcache.Prelude.{
  ℕ, zero, suc, ◌+◌, ◌≡◌, Bool, true, false, Option, none, some, List, [], ◌∷◌, map, length,
  if◌then◌else◌, Str, str_dec, is_some,
}
use mcache.Prelude.Int.{ℤ}
use mcache.Prelude.Decimal.{format_int, parse_int, add_int64}
use mcache.Prelude.Dict.{Dict, lookup, insert, delete, keys}

-- `Hash`
abbrev pub Fields : Type 0
Fields = Dict Str Str

-- `New`
abbrev pub new_hash : Fields
new_hash = []

unfoldable pub h_set : Fields → Str → Str → Fields × ℕ
h_set h field value =
    if is_some (lookup str_dec field h)
    then (insert str_dec field value h, 0)
    else (insert str_dec field value h, 1)

pub h_set_nx : Fields → Str → Str → Fields × Bool
h_set_nx h field value =
    if is_some (lookup str_dec field h) then (h, false) else (insert str_dec field value h, true)

unfoldable pub h_get : Fields → Str → Option Str
h_get h field = lookup str_dec field h

-- the loop of `HDel`, with the count so far
pub del_loop : Fields → ℕ → List Str → Fields × ℕ
del_loop h removed [] = (h, removed)
del_loop h removed (f ∷ fields) =
    let gone = del_loop (delete str_dec f h) (removed + 1) fields in
    let absent = del_loop h removed fields in if is_some (lookup str_dec f h) then gone else absent

pub h_del : Fields → List Str → Fields × ℕ
h_del h fields = del_loop h 0 fields

pub h_exists : Fields → Str → Bool
h_exists h field = is_some (lookup str_dec field h)

-- `maps.Copy` into a new map
unfoldable pub copy_into : Fields → Fields → Fields
copy_into out [] = out
copy_into out (e ∷ h) = copy_into (insert str_dec e.0 e.1 out) h

pub h_get_all : Fields → Fields
h_get_all h = copy_into [] h

pub h_keys : Fields → List Str
h_keys h = keys h

pub h_vals : Fields → List Str
h_vals h = map (λ e. e.1) h

pub h_len : Fields → ℕ
h_len h = length h

pub h_str_len : Fields → Str → ℕ
h_str_len h field = elim (lookup str_dec field h) [ none ↦ 0 | some v ↦ length v ]

-- the part of `HIncrBy` behind `ParseInt`; the result `none` is its error
abbrev store_sum : Fields → Str → ℤ → Option ℤ → Fields × Option ℤ
store_sum h field delta none = (h, none)
store_sum h field delta (some n) =
    (insert str_dec field (format_int (add_int64 n delta)) h, some (add_int64 n delta))

pub h_incr_by : Fields → Str → ℤ → Fields × Option ℤ
h_incr_by h field delta = elim (lookup str_dec field h) [
  | none ↦ (insert str_dec field (format_int delta) h, some delta)
  | some v ↦ store_sum h field delta (parse_int v)
]

-- 64-bit floats with the `strconv` functions that the code calls on them.
pub record Floats : Type 1 where
  pub Float : Type 0
  pub plus : Float → Float → Float
  pub format_float : Float → Str
  pub parse_float : Str → Option Float

module _ (fl : Floats) where
  open fl use {Float, plus, format_float, parse_float}

  abbrev pub store_float_sum : Fields → Str → Float → Option Float → Fields × Option Float
  store_float_sum h field delta none = (h, none)
  store_float_sum h field delta (some n) =
      (insert str_dec field (format_float (plus n delta)) h, some (plus n delta))

  pub h_incr_by_float : Fields → Str → Float → Fields × Option Float
  h_incr_by_float h field delta = elim (lookup str_dec field h) [
    | none ↦ (insert str_dec field (format_float delta) h, some delta)
    | some v ↦ store_float_sum h field delta (parse_float v)
  ]

-- `nil` for a field that is missing
pub hm_get : Fields → List Str → List (Option Str)
hm_get h fields = map (λ f. lookup str_dec f h) fields

-- An odd last argument is left out.
unfoldable pub hm_set : Fields → List Str → Fields
hm_set h (f ∷ v ∷ pairs) = hm_set (insert str_dec f v h) pairs
hm_set h _ = h

pub for_each {ℓ} : {S : Type ℓ} → (Str → Str → S → S × Bool) → Fields → S → S
for_each fn [] s = s
for_each fn (e ∷ h) s =
    let (s', go_on) = fn e.0 e.1 s in let rest = for_each fn h s' in if go_on then rest else s'

-- `Fields`
pub fields : Fields → ℕ
fields h = length h
