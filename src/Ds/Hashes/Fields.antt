-- ===== src/Ds/Hashes/Fields.antt =====
-- ds/hash/hash.go as a map: what each operation returns, and what is read after it.
use mcache.Prelude.{
  ℕ, ◌+◌, ◌≡◌, refl, sym, ◌∙◌, true, ◌++◌, Option, none, some, List, [], ◌∷◌, ite, not,
  if◌then◌else◌, Str, str_dec, is_some, arith, Option-cases, inl, inr,
}
use mathlib.Core.List.{append_assoc, append-nil}
use mcache.Prelude.Dict.{
  lookup, insert, delete, IsDistinct, lookup-insert, lookup-delete, insert-IsDistinct,
  delete-IsDistinct, length-insert, length-delete,
}
use mcache.Prelude.Keys.{listed}
use mcache.Ds.Hashes.{
  Fields, h_set, h_set_nx, h_get, h_del, del_loop, h_exists, h_get_all, copy_into, h_len,
}

-- Each field stands once, which every operation keeps.
abbrev pub IsSound : Fields → Type 0
IsSound h = IsDistinct str_dec h

-- On a hash without double fields, `HSet` returns 1 exactly for a new field, and the number of fields grows by that; afterwards the
-- field reads as the value, and all others as before.
pub h_set_lem :
    (h : Fields) (f q v : Str)
    → IsSound h
    → let (h', n) = h_set h f v in
      (h_get h' q ≡ ite (str_dec f q) (some v) (h_get h q))
      × (n ≡ (if h_exists h f then 0 else 1))
      × (h_len h' ≡ h_len h + n)
      × IsSound h'
unfolding h_set h_get h_exists h_len
h_set_lem h f q v d = ground (
  arith,
  lookup-insert str_dec f q v h,
  length-insert str_dec f v h,
  insert-IsDistinct str_dec f v h d,
)

-- `HSetNX` never changes a field that is there, and says whether it stored the value.
pub h_set_nx_lem :
    (h : Fields) (f q v : Str)
    → let (h', stored) = h_set_nx h f v in
      (stored ≡ not (h_exists h f))
      × (h_get h' q ≡ (if stored then ite (str_dec f q) (some v) (h_get h q) else h_get h q))
unfolding h_set_nx h_get h_exists
h_set_nx_lem h f q v = ground (arith, lookup-insert str_dec f q v h)

record Deleted (h : Fields) (n : ℕ) (fs : List Str) (out : Fields × ℕ) (q : Str) : Type 0 where
  read : h_get out.0 q ≡ (if listed q fs then none else h_get h q)
  counted : out.1 + h_len out.0 ≡ n + h_len h
  sound : IsSound out.0

del_loop-Deleted :
    (fs : List Str) (h : Fields) (n : ℕ) (q : Str) → IsSound h → Deleted h n fs (del_loop h n fs) q
unfolding del_loop listed h_get h_len
del_loop-Deleted [] h n q d = record { read = refl; counted = refl; sound = d }
del_loop-Deleted (f ∷ fs) h n q d = elim (Option-cases (lookup str_dec f h)) [
  | inl absent ↦
      let a = del_loop-Deleted fs h n q d in
      rw absent (record { read = ground (arith, a.read); counted = a.counted; sound = a.sound })
  | inr (v, there) ↦
      let a =
        del_loop-Deleted fs (delete str_dec f h) (n + 1) q (delete-IsDistinct str_dec f h d) in
      rw there (record {
        read = ground (arith, a.read, lookup-delete str_dec f q h);
        counted = ground (arith, a.counted, length-delete str_dec f h d);
        sound = a.sound;
      })
]

-- On a hash without double fields, `HDel` removes the named fields and no other, and returns how many there were.
h_del_lem :
    (h : Fields) (fs : List Str) (q : Str)
    → IsSound h
    → let (h', n) = h_del h fs in
      (h_get h' q ≡ (if listed q fs then none else h_get h q))
      × (h_len h' + n ≡ h_len h)
      × IsSound h'
unfolding h_del
h_del_lem h fs q d =
    let a = del_loop-Deleted fs h 0 q d in (a.read, omega (arith, a.counted), a.sound)

copy_into-lookup :
    (h out : Fields) (q : Str)
    → IsSound h
    → lookup str_dec q (copy_into out h)
      ≡ (if is_some (lookup str_dec q h) then lookup str_dec q h else lookup str_dec q out)
unfolding copy_into lookup
copy_into-lookup [] out q d = refl
copy_into-lookup (e ∷ h) out q d = ground (
  arith,
  copy_into-lookup h (insert str_dec e.0 e.1 out) q d.1,
  lookup-insert str_dec e.0 q e.1 out,
)

copied : (o : Option Str) → (if is_some o then o else none) ≡ o
copied none = refl
copied (some v) = refl

-- On a hash without double fields, `HGetAll` returns a map of the same fields with the same values.
pub h_get-h_get_all : (h : Fields) (q : Str) → IsSound h → h_get (h_get_all h) q ≡ h_get h q
unfolding h_get h_get_all lookup
h_get-h_get_all h q d = copy_into-lookup h [] q d ∙ copied (lookup str_dec q h)

insert_new :
    (k : Str) (v : Str) (m : Fields)
    → lookup str_dec k m ≡ none
    → insert str_dec k v m ≡ m ++ (k, v) ∷ []
unfolding lookup insert
insert_new k v [] h = refl
insert_new k v (e ∷ m) h = ground (arith, insert_new k v m)

-- Entries whose keys are new are put behind those that are there.
copy_into_new :
    (h out : Fields)
    → IsSound h
    → ((k : Str) → is_some (lookup str_dec k h) ≡ true → lookup str_dec k out ≡ none)
    → copy_into out h ≡ out ++ h
unfolding copy_into lookup
copy_into_new [] out d fresh = sym (append-nil out)
copy_into_new (e ∷ h) out d fresh =
    let first = fresh e.0 in
    let here : insert str_dec e.0 e.1 out ≡ out ++ e ∷ [] =
      insert_new e.0 e.1 out (ground (arith, first)) in
    copy_into_new h (insert str_dec e.0 e.1 out) d.1
      (λ k s. let old = fresh k in ground (arith, s, d.0, old, lookup-insert str_dec e.0 k e.1 out))
    ∙ (rw here (append_assoc out (e ∷ []) h))

-- A copy of a map, entry by entry into a new one, is the map.
pub copy_into_lem : (h : Fields) → IsSound h → copy_into [] h ≡ h
unfolding lookup
copy_into_lem h d = copy_into_new h [] d (λ k e. refl)
