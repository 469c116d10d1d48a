-- ===== src/Prelude/Bytes.antt =====
-- A Go string is the list of its bytes; the code only compares strings and reads their bytes.
use Prim.Native.Nat.{ℕ}
use mathlib.Core.Path.{refl, ap₂}
use mathlib.Core.Logic.{◌≢◌}
use mathlib.Core.List.{List, [], ◌∷◌}
use native.Mathlib.Decide.{ℕ_discrete}

abbrev pub Str : Type 0
Str = List ℕ

nil-ne-cons : (y : ℕ) (ys : Str) → [] ≢ y ∷ ys
nil-ne-cons y ys e = cc

cons-ne-nil : (y : ℕ) (ys : Str) → y ∷ ys ≢ []
cons-ne-nil y ys e = cc

cons-ne_of_head : {x y : ℕ} (xs ys : Str) → x ≢ y → x ∷ xs ≢ y ∷ ys
cons-ne_of_head xs ys h e = h (cc)

cons-ne_of_tail : (x y : ℕ) {xs ys : Str} → xs ≢ ys → x ∷ xs ≢ y ∷ ys
cons-ne_of_tail x y h e = h (cc)

-- `==` on strings
unfoldable pub str_dec : Discrete Str
unfolding ℕ_discrete nil-ne-cons cons-ne-nil cons-ne_of_head cons-ne_of_tail
str_dec [] [] = yes refl
str_dec [] (y ∷ ys) = no (nil-ne-cons y ys)
str_dec (x ∷ xs) [] = no (cons-ne-nil x xs)
str_dec (x ∷ xs) (y ∷ ys) = elim (str_dec xs ys) [
  | yes q ↦ elim (ℕ_discrete x y) [
    | yes p ↦ yes (ap₂ ◌∷◌ p q)
    | no p ↦ no (cons-ne_of_head xs ys p)
  ]
  | no q ↦ no (cons-ne_of_tail x y q)
]
