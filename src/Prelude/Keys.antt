-- ===== src/Prelude/Keys.antt =====
-- Lists of strings as collections of keys: membership, occurrences, and removal of one occurrence.
use mcache.Prelude.{
  ℕ, suc, ◌≤◌, ◌+◌, ◌-◌, ◌<◌, ◌≡◌, refl, Bool, true, false, List, [], ◌∷◌, ◌++◌, ite, Str, str_dec,
  arith, length, if◌then◌else◌, ltb,
}

-- Is a string in a list of strings?
unfoldable pub listed : Str → List Str → Bool
listed q [] = false
listed q (e ∷ es) = ite (str_dec e q) true (listed q es)

-- How often does a value occur?
unfoldable pub count : Str → List Str → ℕ
count v [] = 0
count v (e ∷ l) = ite (str_dec e v) (suc (count v l)) (count v l)

pub count-append : (v : Str) (xs ys : List Str) → count v (xs ++ ys) ≡ count v xs + count v ys
unfolding count
count-append v [] ys = omega arith
count-append v (x ∷ xs) ys = ground (arith, count-append v xs ys)

-- `list.Remove` of the element that holds a key; the list is unchanged if there is none.
unfoldable pub remove_key : Str → List Str → List Str
remove_key k [] = []
remove_key k (e ∷ l) = ite (str_dec e k) l (e ∷ remove_key k l)

pub count-remove_key :
    (q k : Str) (l : List Str)
    → count q (remove_key k l) ≡ ite (str_dec k q) (count q l - 1) (count q l)
unfolding count remove_key
count-remove_key q k [] = ground arith
count-remove_key q k (e ∷ l) = ground (arith, count-remove_key q k l)

pub listed-count :
    (q : Str) (l : List Str) → listed q l ≡ (if ltb 0 (count q l) then true else false)
unfolding listed count
listed-count q [] = refl
listed-count q (e ∷ l) = ground (arith, listed-count q l)

pub length-remove_key :
    (k : Str) (l : List Str) → 0 < count k l → length (remove_key k l) + 1 ≡ length l
unfolding count remove_key
length-remove_key k [] h = absurd (omega arith)
length-remove_key k (e ∷ l) h = ground (arith, length-remove_key k l)

pub count-le-length : (v : Str) (l : List Str) → count v l ≤ length l
unfolding count
count-le-length v [] = omega arith
count-le-length v (x ∷ l) = ground (arith, count-le-length v l)

pub count-head : (x : Str) (l : List Str) → 0 < count x (x ∷ l)
unfolding count
count-head x l = ground arith
