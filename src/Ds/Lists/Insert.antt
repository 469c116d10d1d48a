-- ===== src/Ds/Lists/Insert.antt =====
-- `LInsert`, the pushes and the pops of ds/list/list.go.
use mathlib.Core.List.{reverse-append, reverse-reverse, append-nil, append_assoc}
use mcache.Prelude.{
  ℕ, zero, suc, ◌+◌, ◌<◌, ◌≡◌, refl, sym, ap, ◌∙◌, ◌≢◌, Bool, List, [], ◌∷◌, ◌++◌, length-append,
  length-reverse, Option, none, some, reverse, length, if◌then◌else◌, Str, str_dec, arith,
}
use mcache.Prelude.Int.{ℤ, pos, negsuc}
use mcache.Ds.Lists.{
  insert_at, l_insert, push_front_all, push_back_all, l_push, r_push, l_pop, r_pop, remove_back,
}
use mcache.Prelude.Keys.{count}

push_front_all-reverse : (es l : List Str) → push_front_all l es ≡ reverse es ++ l
unfolding push_front_all
push_front_all-reverse [] l = refl
push_front_all-reverse (e ∷ es) l =
    rw (push_front_all-reverse es (e ∷ l), reverse-append (e ∷ []) es, append_assoc)

push_back_all-append : (es l : List Str) → push_back_all l es ≡ l ++ es
unfolding push_back_all
push_back_all-append [] l = sym (append-nil l)
push_back_all-append (e ∷ es) l = rw (push_back_all-append es (l ++ e ∷ []), append_assoc)

-- Pops as long as elements are asked for: the elements popped, in order, and those that stay.
pub pop_many : (List Str → List Str × Option Str) → ℕ → List Str → List Str × List Str
pop_many pop zero l = ([], l)
pop_many pop (suc n) l = elim ((pop l).1) [
  | none ↦ ([], (pop l).0)
  | some x ↦ let (xs, l') = pop_many pop n (pop l).0 in (x ∷ xs, l')
]

remove_back-append : (e x : Str) (l : List Str) → remove_back e (l ++ x ∷ []) ≡ (e ∷ l, x)
unfolding remove_back
remove_back-append e x [] = refl
remove_back-append e x (y ∷ l) = rw (remove_back-append y x l)

r_pop-append : (x : Str) (l : List Str) → r_pop (l ++ x ∷ []) ≡ (l, some x)
unfolding r_pop remove_back
r_pop-append x [] = refl
r_pop-append x (y ∷ l) = rw (remove_back-append y x l)

pop_many-append : (es l : List Str) → pop_many l_pop (length es) (es ++ l) ≡ (es, l)
unfolding pop_many l_pop
pop_many-append [] l = refl
pop_many-append (e ∷ es) l = rw (pop_many-append es l)

-- A queue: what `RPush` puts at the tail, `LPop` takes off in the same order after all that was
-- there before; `RPush` returns the number of elements to take.
l_pop-r_push : (l es : List Str) → let (l', n) = r_push l es in pop_many l_pop n l' ≡ (l ++ es, [])
unfolding r_push
l_pop-r_push l es = rw (push_back_all-append es l) (
    ap (pop_many l_pop (length (l ++ es))) (sym (append-nil (l ++ es)))
    ∙ pop_many-append (l ++ es) [])

-- A stack: what `LPush` puts at the head, `LPop` takes off in the reverse order, and then the list
-- is as before; `LPush` returns the length of the whole.
pub l_pop-l_push :
    (l es : List Str)
    → let (l', n) = l_push l es in
      (pop_many l_pop (length es) l' ≡ (reverse es, l)) × (n ≡ length l + length es)
unfolding l_push
l_pop-l_push l es =
    rw (push_front_all-reverse es l, ← length-reverse es)
      (pop_many-append (reverse es) l, omega (arith, length-append (reverse es) l))

mirror-pop : (l : List Str) → r_pop (reverse l) ≡ (reverse (l_pop l).0, (l_pop l).1)
unfolding l_pop r_pop
mirror-pop [] = refl
mirror-pop (x ∷ l) = rw (reverse-append (x ∷ []) l) (r_pop-append x (reverse l))

mirror-push : (l es : List Str) → push_back_all (reverse l) es ≡ reverse (push_front_all l es)
mirror-push l es = rw (
  push_back_all-append es (reverse l),
  push_front_all-reverse es l,
  reverse-append (reverse es) l,
  reverse-reverse es,
)

-- Each operation at the tail is the one at the head on the mirrored list.
pub mirror :
    (l es : List Str)
    → (r_pop (reverse l) ≡ (reverse (l_pop l).0, (l_pop l).1))
      × (r_push (reverse l) es ≡ (reverse (l_push l es).0, (l_push l es).1))
unfolding l_push r_push
mirror l es = (mirror-pop l, rw (mirror-push l es, length-reverse))

-- What a call of `LInsert` does when the pivot is there: the value stands beside the first pivot.
pub record Beside (before : Bool) (pivot value : Str) (l : List Str) (out : List Str × ℤ)
    : Type 0 where
  pub front : List Str
  pub back : List Str
  pub parts : l ≡ front ++ pivot ∷ back
  pub first : count pivot front ≡ 0
  pub placed : out.0 ≡ front ++ (if before then value ∷ pivot ∷ back else pivot ∷ value ∷ back)
  pub size : out.1 ≡ pos (length out.0)

insert_at-cons :
    (before : Bool) (pivot value e : Str) (l l' : List Str)
    → e ≢ pivot
    → insert_at before pivot value l ≡ some l'
    → insert_at before pivot value (e ∷ l) ≡ some (e ∷ l')
unfolding insert_at
insert_at-cons before pivot value e l l' h k = ground arith

insert_at-none :
    (before : Bool) (pivot value : Str) (l : List Str)
    → count pivot l ≡ 0
    → insert_at before pivot value l ≡ none
unfolding insert_at count
insert_at-none before pivot value [] h = refl
insert_at-none before pivot value (e ∷ l) h = ground (arith, insert_at-none before pivot value l)

-- the split at the first pivot
record Split (pivot : Str) (l : List Str) : Type 0 where
  front : List Str
  back : List Str
  parts : l ≡ front ++ pivot ∷ back
  first : count pivot front ≡ 0

Split-at : (pivot : Str) (l : List Str) → 0 < count pivot l → Split pivot l
unfolding count
Split-at pivot [] h = absurd (omega arith)
Split-at pivot (e ∷ l) h = elim (str_dec e pivot) [
  | yes p ↦ record { front = []; back = l; parts = ap (λ x. x ∷ l) p; first = refl }
  | no p ↦
      let s = Split-at pivot l (ground arith) in
      record {
        front = e ∷ s.front;
        back = s.back;
        parts = ap (◌∷◌ e) s.parts;
        first = ground arith;
      }
]

insert_at-split :
    (before : Bool) (pivot value : Str) (front back : List Str)
    → count pivot front ≡ 0
    → insert_at before pivot value (front ++ pivot ∷ back)
      ≡ some (front ++ (if before then value ∷ pivot ∷ back else pivot ∷ value ∷ back))
unfolding insert_at count
insert_at-split before pivot value [] back h = ground arith
insert_at-split before pivot value (e ∷ front) back h =
    ground (arith, insert_at-split before pivot value front back)

-- `LInsert` puts the value directly before or after the first occurrence of the pivot and returns
-- the new length, if the pivot is in the list.
l_insert-Beside :
    (before : Bool) (pivot value : Str) (l : List Str)
    → 0 < count pivot l
    → Beside before pivot value l (l_insert l before pivot value)
unfolding l_insert
l_insert-Beside before pivot value l h =
    let s = Split-at pivot l h in
    let e : insert_at before pivot value l
        ≡ some (s.front ++ (if before then value ∷ pivot ∷ s.back else pivot ∷ value ∷ s.back)) =
      rw s.parts (insert_at-split before pivot value s.front s.back s.first) in
    rw (e, l_insert)
      (record {
        front = s.front;
        back = s.back;
        parts = s.parts;
        first = s.first;
        placed = refl;
        size = refl;
      })

-- `LInsert` returns -1 and leaves the list as it is, if the pivot is not in the list.
pub l_insert_absent :
    (before : Bool) (pivot value : Str) (l : List Str)
    → count pivot l ≡ 0
    → l_insert l before pivot value ≡ (l, negsuc 0)
unfolding l_insert
l_insert_absent before pivot value l h = rw (insert_at-none before pivot value l h, l_insert)
