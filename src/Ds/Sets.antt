-- ===== src/Ds/Sets.antt =====
-- ds/set/set.go and ds/set/ops.go. A set is a map with empty values. Every method holds the mutex
-- from its first to its last line, so a method is one step. The order of the entries is the one in
-- which `range` visits them; what `math/rand` draws is an argument.
pub mod Members
pub mod Ops
mod Tests
use mcache.Prelude.{
  ℕ, zero, suc, ◌+◌, ◌-◌, ◌≡◌, Bool, true, false, Option, none, some, List, [], ◌∷◌, ◌++◌, ite,
  length, ltb, leb, ◌==◌, if◌then◌else◌, ◌&&◌, ◌||◌, Str, str_dec, is_some, ℕ_discrete, get_elem?,
  min,
}
use mcache.Prelude.Panics.{Panics, returns, panic, ◌>>=◌}
use mcache.Prelude.Int.{ℤ, pos, negsuc, ltb_ℤ, pos_part, neg_int}
use mcache.Prelude.Dict.{Dict, lookup, insert, delete, keys}

-- `Set`
abbrev pub Elements : Type 0
Elements = Dict Str (Unit {0})

-- `New`
abbrev pub new_set : Elements
new_set = []

-- the loop of `NewFrom`
pub put_all : Elements → List Str → Elements
put_all s [] = s
put_all s (e ∷ es) = put_all (insert str_dec e tt s) es

pub new_from : List Str → Elements
new_from elems = put_all new_set elems

pub is_member : Elements → Str → Bool
is_member s elem = is_some (lookup str_dec elem s)

-- the loop of `Add`, with the count so far
pub add_loop : Elements → ℕ → List Str → Elements × ℕ
add_loop s added [] = (s, added)
add_loop s added (e ∷ es) =
    let old = add_loop s added es in
    let new = add_loop (insert str_dec e tt s) (added + 1) es in
    if is_some (lookup str_dec e s) then old else new

pub add : Elements → List Str → Elements × ℕ
add s elems = add_loop s 0 elems

-- the loop of `Rem`
pub rem_loop : Elements → ℕ → List Str → Elements × ℕ
rem_loop s removed [] = (s, removed)
rem_loop s removed (e ∷ es) =
    let gone = rem_loop (delete str_dec e s) (removed + 1) es in
    let absent = rem_loop s removed es in if is_some (lookup str_dec e s) then gone else absent

pub rem : Elements → List Str → Elements × ℕ
rem s elems = rem_loop s 0 elems

pub members : Elements → List Str
members s = keys s

pub card : Elements → ℕ
card s = length s

-- the loop of `Pop`: the key at index `n`, where the entry at hand has index `i`
pub nth_key : ℕ → ℕ → Elements → Option Str
nth_key i n [] = none
nth_key i n (e ∷ s) = let later = nth_key (i + 1) n s in if i == n then some e.0 else later

abbrev remove_drawn : Elements → Option Str → Elements × Option Str
remove_drawn s none = (s, none)
remove_drawn s (some e) = (delete str_dec e s, some e)

-- `n` is the value of `rand.Intn(len(s.elements))`
pub pop : ℕ → Elements → Elements × Option Str
pop n s = if length s == 0 then (s, none) else remove_drawn s (nth_key 0 n s)

-- `Clear`
pub clear : Elements → Elements
clear s = new_set

pub for_each {ℓ} : {S : Type ℓ} → (Str → S → S × Bool) → Elements → S → S
for_each fn [] s = s
for_each fn (e ∷ es) s =
    let (s', go_on) = fn e.0 s in let rest = for_each fn es s' in if go_on then rest else s'

-- `abs` on a 64-bit `int`
pub abs : ℤ → ℤ
abs n = if ltb_ℤ n (pos 0) then neg_int n else n

-- `elems[i]` for each drawn index, appended in order; an index out of range is a panic.
pub take_drawn : List Str → List ℕ → Panics (List Str)
take_drawn elems [] = returns []
take_drawn elems (i ∷ is) = elim (get_elem? elems i) [
  | none ↦ panic
  | some e ↦ (take_drawn elems is >>= λ out. returns (e ∷ out))
]

-- the first `count` of the drawn indices; `perm[i]` out of range is a panic
pub first_drawn : ℕ → List ℕ → Panics (List ℕ)
first_drawn zero drawn = returns []
first_drawn (suc n) [] = panic
first_drawn (suc n) (i ∷ drawn) = first_drawn n drawn >>= λ is. returns (i ∷ is)

-- `drawn` holds what the random source gives: the slice of `rand.Perm(len(elems))`, or for a
-- negative count the results of the calls of `rand.Intn(len(elems))` in order. `make` panics on a
-- negative capacity.
pub rand_member : List ℕ → Elements → ℤ → Panics (List Str)
rand_member drawn s count =
    let elems = keys s in
    let rounds =
      if ltb_ℤ count (pos 0)
      then pos_part (neg_int count)
      else min (pos_part count) (length elems) in
    if length s == 0
    then returns []
    else if ltb_ℤ (abs count) (pos 0)
    then panic
    else (first_drawn rounds drawn >>= λ is. take_drawn elems is)

-- ds/set/ops.go gets pointers to sets: addresses of a heap.
module _ (heap : ℕ → Elements) where
  -- the outer loop of `Union`; the inner one puts the elements of one set
  pub union_loop : Elements → List ℕ → Elements
  union_loop result [] = result
  union_loop result (s ∷ sets) = union_loop (put_all result (keys (heap s))) sets

  pub union : List ℕ → Elements
  union sets = union_loop new_set sets

  -- the set of fewest elements, the first of these
  pub find_smallest : ℕ → List ℕ → ℕ
  find_smallest smallest [] = smallest
  find_smallest smallest (s ∷ sets) =
      find_smallest (if ltb (card (heap s)) (card (heap smallest)) then s else smallest) sets

  -- the loop in `Inter`'s callback: is the element in every set other than the smallest?
  pub in_others : ℕ → Str → List ℕ → Bool
  in_others smallest elem [] = true
  in_others smallest elem (s ∷ sets) =
      let rest = in_others smallest elem sets in
      if s == smallest then rest else if is_member (heap s) elem then rest else false

  pub inter_step : ℕ → List ℕ → Str → Elements → Elements × Bool
  inter_step smallest sets elem result =
      (if in_others smallest elem sets then insert str_dec elem tt result else result, true)

  pub inter : List ℕ → Elements
  inter [] = new_set
  inter (s ∷ sets) =
      let smallest = find_smallest s sets in
      for_each (inter_step smallest (s ∷ sets)) (heap smallest) new_set

  -- the loop in `Diff`'s callback: is the element in none of the others?
  pub in_none : Str → List ℕ → Bool
  in_none elem [] = true
  in_none elem (s ∷ others) =
      let rest = in_none elem others in if is_member (heap s) elem then false else rest

  pub diff_step : List ℕ → Str → Elements → Elements × Bool
  diff_step others elem result =
      (if in_none elem others then insert str_dec elem tt result else result, true)

  pub diff : List ℕ → Elements
  diff [] = new_set
  diff (s ∷ []) = union (s ∷ [])
  diff (s ∷ s' ∷ others) = for_each (diff_step (s' ∷ others)) (heap s) new_set
