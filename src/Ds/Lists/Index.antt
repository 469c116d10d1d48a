-- ===== src/Ds/Lists/Index.antt =====
-- `LIndex` and `LSet` of ds/list/list.go: which element an index names, and reads after a write.
use mathlib.Core.List.{reverse-append}
use mcache.Prelude.{
  ℕ, zero, suc, ◌+◌, ◌-◌, ◌<◌, ◌≡◌, refl, ap, ◌∙◌, Bool, true, false, List, [], ◌∷◌, length-reverse,
  Option, none, some, get_elem?, set, length-set, get_elem?-set_self, get_elem?-set_ne,
  get_elem?-none, get_elem?-some, get_elem?-append_left, get_elem?-append_right, drop, reverse,
  length, ltb, ◌==◌, if◌then◌else◌, Str, arith, Bool-cases, Option-cases, is_some, inl, inr,
}
use mcache.Prelude.Panics.{returns, ◌>>=◌}
use mcache.Prelude.Int.{ℤ, pos, negsuc}
use mcache.Ds.Lists.{advance, value_of, l_index, l_set, assign_at, shift_index, out_of_range}
use mcache.Ds.Lists.Range.{advance-drop}

-- The place that an index names in a list of `n` elements, if any.
abbrev pub place : ℕ → ℤ → Option ℕ
place n (pos k) = if ltb k n then some k else none
place n (negsuc k) = if ltb k n then some (n - suc k) else none

abbrev pub at_place : List Str → Option ℕ → Option Str
at_place l none = none
at_place l (some k) = get_elem? l k

value-drop :
    (k : ℕ) (l : List Str)
    → k < length l
    → (value_of (drop k l) >>= λ v. returns (some v)) ≡ returns (get_elem? l k)
unfolding value_of
value-drop k [] h = absurd (omega arith)
value-drop zero (x ∷ l) h = refl
value-drop (suc k) (x ∷ l) h = value-drop k l (omega arith)

read_at :
    (l : List Str) (k : ℕ)
    → k < length l
    → (advance k l >>= λ e. value_of e >>= λ v. returns (some v)) ≡ returns (get_elem? l k)
read_at l k h = rw (advance-drop k l (omega arith)) (value-drop k l h)

l_index-place : (l : List Str) (i : ℤ) → l_index l i ≡ returns (at_place l (place (length l) i))
unfolding l_index shift_index out_of_range
l_index-place [] (pos k) = ground arith
l_index-place [] (negsuc k) = ground arith
l_index-place (x ∷ l) (pos k) = ground (arith, read_at (x ∷ l) k)
l_index-place (x ∷ l) (negsuc k) = ground (arith, read_at (x ∷ l) (length l - k))

write_at : (l : List Str) (k : ℕ) (v : Str) → k < length l → assign_at k v l ≡ returns (set l k v)
unfolding assign_at
write_at [] k v h = absurd (omega arith)
write_at (x ∷ l) zero v h = refl
write_at (x ∷ l) (suc k) v h = rw (write_at l k v (omega arith))

abbrev write_place : List Str → Str → Option ℕ → List Str × Bool
write_place l v none = (l, false)
write_place l v (some k) = (set l k v, true)

l_set-place :
    (l : List Str) (i : ℤ) (v : Str) → l_set l i v ≡ returns (write_place l v (place (length l) i))
unfolding l_set shift_index out_of_range
l_set-place [] (pos k) v = ground arith
l_set-place [] (negsuc k) v = ground arith
l_set-place (x ∷ l) (pos k) v = ground (arith, write_at (x ∷ l) k v)
l_set-place (x ∷ l) (negsuc k) v = ground (arith, write_at (x ∷ l) (length l - k) v)

get_elem?-reverse :
    (l : List Str) (k j : ℕ) → k + suc j ≡ length l → get_elem? (reverse l) k ≡ get_elem? l j
get_elem?-reverse [] k j h = absurd (omega arith)
get_elem?-reverse (x ∷ l) k zero h =
    let e : k ≡ length (reverse l) + 0 = omega (arith, length-reverse l) in
    rw (reverse-append (x ∷ []) l, e) (get_elem?-append_right (reverse l) (x ∷ []) 0)
get_elem?-reverse (x ∷ l) k (suc j) h = rw (reverse-append (x ∷ []) l) (
    get_elem?-append_left (reverse l) (x ∷ []) k (omega (arith, length-reverse l))
    ∙ get_elem?-reverse l k j (omega arith))

-- The element that an index names: counted from the head, or for a negative index from the tail.
abbrev pub nth : List Str → ℤ → Option Str
nth l (pos k) = get_elem? l k
nth l (negsuc k) = get_elem? (reverse l) k

at_place-nth : (l : List Str) (i : ℤ) → at_place l (place (length l) i) ≡ nth l i
at_place-nth l (pos k) = ground (arith, get_elem?-none l k)
at_place-nth l (negsuc k) = ground (
  arith,
  get_elem?-none (reverse l) k,
  length-reverse l,
  get_elem?-reverse l k (length l - suc k),
)

-- `LIndex` never panics, and returns the element at the index, counted from the head, or from the
-- tail for a negative index; it reports none exactly when there is none there.
pub l_index-nth : (l : List Str) (i : ℤ) → l_index l i ≡ returns (nth l i)
l_index-nth l i = rw (l_index-place l i, at_place-nth l i)

place-lt : (n : ℕ) (i : ℤ) (k : ℕ) → place n i ≡ some k → k < n
place-lt n (pos j) k h = ground arith
place-lt n (negsuc j) k h = ground arith

-- Two places are the same, and are in the list.
abbrev pub same_place : Option ℕ → Option ℕ → Bool
same_place (some a) (some b) = a == b
same_place a b = false

is_some-at_place :
    (l : List Str) (p : Option ℕ) (n : ℕ)
    → p ≡ some n
    → n < length l
    → is_some (at_place l p) ≡ true
is_some-at_place l p n e h = let (x, f) = get_elem?-some l n h in rw (e, f)

done-write_place :
    (l : List Str) (i : ℤ) (v : Str) → (write_place l v (place (length l) i)).1 ≡ is_some (nth l i)
done-write_place l i v = rw (← at_place-nth l i) (elim (Option-cases (place (length l) i)) [
  | inl gone ↦ rw gone
  | inr (k, there) ↦
      rw (is_some-at_place l (place (length l) i) k there (place-lt (length l) i k there), there)
])

at_place-write_place :
    (l : List Str) (v : Str) (p q : Option ℕ)
    → ((k : ℕ) → p ≡ some k → k < length l)
    → at_place (write_place l v p).0 q ≡ (if same_place p q then some v else at_place l q)
at_place-write_place l v none none h = refl
at_place-write_place l v none (some b) h = refl
at_place-write_place l v (some a) none h = refl
at_place-write_place l v (some a) (some b) h = elim (Bool-cases (a == b)) [
  | inl e ↦ rw e (let f : a ≡ b = ground arith in rw (← f) (get_elem?-set_self l a v (h a refl)))
  | inr e ↦ rw e (get_elem?-set_ne l v (λ f. ground arith))
]

length-write_place :
    (l : List Str) (v : Str) (p : Option ℕ) → length (write_place l v p).0 ≡ length l
length-write_place l v none = refl
length-write_place l v (some k) = length-set l k v

-- `LSet` never panics and keeps the length. It returns true exactly when the index names an
-- element; then `LIndex` reads the new value by every index that names the same element, and what
-- it read before by all others.
pub l_index-l_set :
    (l : List Str) (i j : ℤ) (v : Str)
    → (l' : List Str) × (l_set l i v ≡ returns (l', is_some (nth l i)))
      × (length l' ≡ length l)
      × (l_index l' j
          ≡ returns
              (if same_place (place (length l) i) (place (length l) j) then some v else nth l j))
l_index-l_set l i j v = (
  l',
  l_set-place l i v ∙ ap (λ b. returns (l', b)) (done-write_place l i v),
  kept,
  l_index-place l' j
      ∙ ap returns (
          rw (
            kept,
            at_place-write_place l v (place (length l) i) (place (length l) j)
                (place-lt (length l) i),
            at_place-nth l j,
          )),
)
  where
    l' : List Str
    l' = (write_place l v (place (length l) i)).0

    kept : length l' ≡ length l
    kept = length-write_place l v (place (length l) i)
