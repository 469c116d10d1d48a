-- ===== src/Ds/Hashes/Tests.antt =====
-- ds/hash/hash.go at a concrete hash.
use mcache.Prelude.{◌≡◌, refl, none, [], ◌∷◌, Str, str_dec}
use mcache.Prelude.Int.{pos}
use mcache.Prelude.Dict.{lookup}
use mcache.Prelude.Decimal.{parse_digits, value_from, parse_int}
use mcache.Ds.Hashes.{fields, Fields, h_get, h_keys, h_vals, h_incr_by}
use mcache.Ds.Hashes.Fields.{IsSound}

abbrev f : Str
f = b'f' ∷ []

abbrev g : Str
g = b'g' ∷ []

abbrev h : Fields
h = (f, b'4' ∷ b'1' ∷ []) ∷ (g, b'x' ∷ []) ∷ []

h-IsSound : IsSound h
unfolding lookup str_dec
h-IsSound = (refl, (refl, tt))

-- A field whose text is no number is not counted up.
text_test : h_incr_by h g (pos 1) ≡ (h, none)
unfolding h_incr_by h_get lookup str_dec parse_int parse_digits value_from
text_test = refl

keys_test : h_keys h ≡ f ∷ g ∷ []
unfolding h_keys
keys_test = refl

vals_test : h_vals h ≡ (b'4' ∷ b'1' ∷ []) ∷ (b'x' ∷ []) ∷ []
unfolding h_vals
vals_test = refl

fields_test : fields h ≡ 2
unfolding fields
fields_test = refl
