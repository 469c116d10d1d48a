-- ===== src/Ds/Lists.antt =====
-- ds/list/list.go. `container/list` is a doubly linked list; its elements from `Front` to `Back`
-- are the model's list. Every method holds the mutex from its first to its last line, so a method
-- is one step: a function from the elements to the elements after the call and its results.
-- `none` stands for `("", false)`; `panic` for a call of `Next` or `Value` on a nil element.
pub mod Range
pub mod Remove
pub mod Index
pub mod Insert
pub mod Positions
pub mod Size
mod Tests
use mcache.Prelude.{
  ℕ, zero, suc, ◌+◌, ◌-◌, ◌^◌, ◌≡◌, Bool, true, false, Option, none, some, List, [], ◌∷◌, ◌++◌, ite,
  reverse, length, ltb, leb, ◌==◌, if◌then◌else◌, ◌&&◌, ◌||◌, Str, str_dec,
}
use mcache.Prelude.Panics.{Panics, returns, panic, ◌>>=◌}
use mcache.Prelude.Int.{neg_int, ℤ, pos, negsuc, ltb_ℤ, pos_part, ◌+ℤ◌}

-- `New`
abbrev pub new_list : List Str
new_list = []

-- the loop of `LPush`
pub push_front_all : List Str → List Str → List Str
push_front_all l [] = l
push_front_all l (e ∷ es) = push_front_all (e ∷ l) es

pub l_push : List Str → List Str → List Str × ℕ
l_push l elems = let l' = push_front_all l elems in (l', length l')

-- the loop of `RPush`
pub push_back_all : List Str → List Str → List Str
push_back_all l [] = l
push_back_all l (e ∷ es) = push_back_all (l ++ e ∷ []) es

pub r_push : List Str → List Str → List Str × ℕ
r_push l elems = let l' = push_back_all l elems in (l', length l')

unfoldable pub l_pop : List Str → List Str × Option Str
l_pop [] = ([], none)
l_pop (e ∷ l) = (l, some e)

-- `Remove(Back())` on a list that is not empty: the others, and the last
pub remove_back : Str → List Str → List Str × Str
remove_back e [] = ([], e)
remove_back e (e' ∷ l) = let (rest, last) = remove_back e' l in (e ∷ rest, last)

pub r_pop : List Str → List Str × Option Str
r_pop [] = ([], none)
r_pop (e ∷ l) = let (rest, last) = remove_back e l in (rest, some last)

pub l_len : List Str → ℕ
l_len l = length l

-- `for i := 0; i < n; i++ { e = e.Next() }` from the element at the head of the list: the list
-- from the element reached on. An empty list is a nil element.
pub advance : ℕ → List Str → Panics (List Str)
advance zero l = returns l
advance (suc n) [] = panic
advance (suc n) (e ∷ l) = advance n l

-- `e.Value`
pub value_of : List Str → Panics Str
value_of [] = panic
value_of (e ∷ l) = returns e

-- `normalizeRange`
pub normalize_range : ℤ → ℤ → ℕ → ℤ × ℤ
unfolding ◌+ℤ◌
normalize_range start stop n =
    let start' = if ltb_ℤ start (pos 0) then pos n +ℤ start else start in
    let stop' = if ltb_ℤ stop (pos 0) then pos n +ℤ stop else stop in
    let start'' = if ltb_ℤ start' (pos 0) then pos 0 else start' in
    let stop'' = if ltb_ℤ stop' (pos n) then stop' else pos n +ℤ negsuc 0 in (start'', stop'')

-- `for i := start; i <= stop && e != nil; i++`, which collects the values
pub collect : ℕ → ℤ → List Str → List Str
collect i stop [] = []
collect i stop (e ∷ l) =
    let rest = collect (i + 1) stop l in if ltb_ℤ stop (pos i) then [] else e ∷ rest

-- After the test `start > stop` the start is at least 0, so the loops count from a natural number.
pub l_range : List Str → ℤ → ℤ → Panics (List Str)
l_range l start stop =
    let n = length l in
    let (start', stop') = normalize_range start stop n in
    if n == 0
    then returns []
    else if ltb_ℤ stop' start'
    then returns []
    else (advance (pos_part start') l >>= λ e. returns (collect (pos_part start') stop' e))

-- the index that `LIndex` and `LSet` use
pub shift_index : ℕ → ℤ → ℤ
unfolding ◌+ℤ◌
shift_index n index = if ltb_ℤ index (pos 0) then pos n +ℤ index else index

-- `index < 0 || index >= n`
pub out_of_range : ℕ → ℤ → Bool
out_of_range n index =
    if ltb_ℤ index (pos 0) then true else if ltb_ℤ index (pos n) then false else true

pub l_index : List Str → ℤ → Panics (Option Str)
l_index l index =
    let n = length l in
    let index' = shift_index n index in
    if n == 0
    then returns none
    else if out_of_range n index'
    then returns none
    else (advance (pos_part index') l >>= λ e. value_of e >>= λ v. returns (some v))

-- `e.Value = value` at the element that `n` steps reach
pub assign_at : ℕ → Str → List Str → Panics (List Str)
assign_at n value [] = panic
assign_at zero value (e ∷ l) = returns (value ∷ l)
assign_at (suc n) value (e ∷ l) = assign_at n value l >>= λ l'. returns (e ∷ l')

pub l_set : List Str → ℤ → Str → Panics (List Str × Bool)
l_set l index value =
    let n = length l in
    let index' = shift_index n index in
    if out_of_range n index'
    then returns (l, false)
    else (assign_at (pos_part index') value l >>= λ l'. returns (l', true))

-- `for i := 0; i < n; i++ { Remove(Front()) }`; to remove a nil element is a panic.
pub remove_fronts : ℕ → List Str → Panics (List Str)
remove_fronts zero l = returns l
remove_fronts (suc n) [] = panic
remove_fronts (suc n) (e ∷ l) = remove_fronts n l

-- The same with `Remove(Back())`.
pub remove_backs : ℕ → List Str → Panics (List Str)
remove_backs zero l = returns l
remove_backs (suc n) [] = panic
remove_backs (suc n) (e ∷ l) = remove_backs n (remove_back e l).0

-- The second loop counts from `stop + 1` to `n`, with `stop` at least 0 after the test.
pub l_trim : List Str → ℤ → ℤ → Panics (List Str)
l_trim l start stop =
    let n = length l in
    let (start', stop') = normalize_range start stop n in
    if n == 0
    then returns l
    else if ltb_ℤ stop' start'
    then returns []
    else (remove_fronts (pos_part start') l >>= λ l'. remove_backs (n - suc (pos_part stop')) l')

-- The loop of `LRem`: the elements in the order in which the loop meets them, with the bound
-- `maxRemove` and the count so far. It gives the elements that stay, and the final count.
pub rem_loop : Str → ℤ → ℕ → List Str → List Str × ℕ
rem_loop value max_remove removed [] = ([], removed)
rem_loop value max_remove removed (e ∷ l) =
    let hit = rem_loop value max_remove (removed + 1) l in
    let miss = rem_loop value max_remove removed l in
    if ltb_ℤ (pos removed) max_remove
    then ite (str_dec e value) hit (e ∷ miss.0, miss.1)
    else (e ∷ l, removed)

-- `maxRemove` of the branch `count >= 0`
pub max_from_head : ℤ → ℕ → ℤ
max_from_head (pos zero) n = pos n
max_from_head count n = count

-- The walk from `Back` meets the elements in reverse.
pub l_rem : List Str → ℤ → Str → List Str × ℕ
l_rem l count value =
    let (kept, removed) = rem_loop value (neg_int count) 0 (reverse l) in
    if length l == 0
    then (l, 0)
    else if ltb_ℤ count (pos 0)
    then (reverse kept, removed)
    else rem_loop value (max_from_head count (length l)) 0 l

abbrev map_cons : Str → Option (List Str) → Option (List Str)
map_cons e none = none
map_cons e (some l) = some (e ∷ l)

-- The loop of `LInsert`: the elements after the call, if the pivot is found.
pub insert_at : Bool → Str → Str → List Str → Option (List Str)
insert_at before pivot value [] = none
insert_at before pivot value (e ∷ l) =
    let later = map_cons e (insert_at before pivot value l) in
    ite (str_dec e pivot) (some (if before then value ∷ e ∷ l else e ∷ value ∷ l)) later

pub l_insert : List Str → Bool → Str → Str → List Str × ℤ
l_insert l before pivot value = elim (insert_at before pivot value l) [
  | none ↦ (l, negsuc 0)
  | some l' ↦ (l', pos (length l'))
]

-- The loop of `LPos`, at the element of index `i`.
pub pos_loop : Str → ℤ → ℤ → Bool → ℤ → ℕ → ℕ → List ℕ → List Str → List ℕ
pos_loop value rank count all_matches max_len i found positions [] = positions
pos_loop value rank count all_matches max_len i found positions (e ∷ l) =
    let found' = ite (str_dec e value) (found + 1) found in
    let positions' =
      ite (str_dec e value) (if ltb_ℤ (pos found') rank then positions else positions ++ i ∷ [])
        positions in
    let rest = pos_loop value rank count all_matches max_len (i + 1) found' positions' l in
    if ltb_ℤ (pos i) max_len
    then (if all_matches || ltb_ℤ (pos (length positions)) count then rest else positions)
    else positions

-- `maxLen == 0 || maxLen > n`
pub scan_length : ℤ → ℕ → ℤ
scan_length (pos zero) n = pos n
scan_length max_len n = if ltb_ℤ (pos n) max_len then pos n else max_len

pub is_zero : ℤ → Bool
is_zero (pos n) = n == 0
is_zero (negsuc n) = false

pub l_pos : List Str → Str → ℤ → ℤ → ℤ → List ℕ
l_pos l value rank count max_len =
    let count' = if ltb_ℤ count (pos 0) then pos 1 else count in
    pos_loop value rank count' (is_zero count') (scan_length max_len (length l)) 0 0 [] l

-- `fn` sees its own state, and says whether to go on.
pub for_each {ℓ} : {S : Type ℓ} → (Str → S → S × Bool) → List Str → S → S
for_each fn [] s = s
for_each fn (e ∷ l) s =
    let (s', go_on) = fn e s in let rest = for_each fn l s' in if go_on then rest else s'
