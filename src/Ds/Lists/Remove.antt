-- ===== src/Ds/Lists/Remove.antt =====
-- `LRem` of ds/list/list.go: what it removes, from which end, and how many.
use mathlib.Core.List.{reverse-append, reverse-reverse, append-nil}
use mcache.Prelude.{
  ℕ, zero, suc, ◌+◌, ◌-◌, ◌≤◌, ◌<◌, ◌≡◌, refl, sym, ap, ◌∙◌, List, [], ◌∷◌, ◌++◌, ite, min, reverse,
  length, ltb, Str, str_dec, arith, Bool-cases, inl, inr, ◌^◌,
}
use mcache.Prelude.Int.{neg_int, pos, negsuc}
use mcache.Prelude.Keys.{count, count-append, count-le-length}
use mcache.Ds.Lists.{rem_loop, max_from_head, l_rem}

-- the elements other than a value
unfoldable pub without : Str → List Str → List Str
without v [] = []
without v (e ∷ l) = ite (str_dec e v) (without v l) (e ∷ without v l)

-- The loop removes every `v` of a front part and leaves the rest; it ends by its bound or by the
-- list.
record Removed (v : Str) (m r : ℕ) (l : List Str) (out : List Str × ℕ) : Type 0 where
  front : List Str
  rest : List Str
  parts : l ≡ front ++ rest
  kept : out.0 ≡ without v front ++ rest
  counted : out.1 ≡ r + count v front
  full : out.1 ≡ min m (r + count v l)

rem_loop-Removed :
    (v : Str) (m r : ℕ) (l : List Str) → r ≤ m → Removed v m r l (rem_loop v (pos m) r l)
unfolding rem_loop count without
rem_loop-Removed v m r [] h = record {
  front = [];
  rest = [];
  parts = refl;
  kept = refl;
  counted = omega arith;
  full = omega arith;
}
rem_loop-Removed v m r (e ∷ l) h = elim (Bool-cases (ltb r m)) [
  | inr stop ↦ record {
    front = [];
    rest = e ∷ l;
    parts = refl;
    kept = ground arith;
    counted = ground arith;
    full = ground arith;
  }
  | inl go ↦ elim (str_dec e v) [
    | yes p ↦
        let d = rem_loop-Removed v m (r + 1) l (ground arith) in
        record {
          front = e ∷ d.front;
          rest = d.rest;
          parts = ap (◌∷◌ e) d.parts;
          kept = ground arith;
          counted = ground arith;
          full = ground arith;
        }
    | no p ↦
        let d = rem_loop-Removed v m r l h in
        record {
          front = e ∷ d.front;
          rest = d.rest;
          parts = ap (◌∷◌ e) d.parts;
          kept = ground arith;
          counted = ground arith;
          full = ground arith;
        }
  ]
]

without-append : (v : Str) (xs ys : List Str) → without v (xs ++ ys) ≡ without v xs ++ without v ys
unfolding without
without-append v [] ys = refl
without-append v (x ∷ xs) ys = ground (arith, without-append v xs ys)

reverse-cons : (x : Str) (xs : List Str) → reverse (x ∷ xs) ≡ reverse xs ++ x ∷ []
reverse-cons x xs = reverse-append (x ∷ []) xs

count-reverse : (v : Str) (l : List Str) → count v (reverse l) ≡ count v l
unfolding count
count-reverse v [] = refl
count-reverse v (x ∷ l) =
    rw (reverse-cons x l, count-append v (reverse l) (x ∷ [])) (ground (arith, count-reverse v l))

without-reverse : (v : Str) (l : List Str) → without v (reverse l) ≡ reverse (without v l)
unfolding without
without-reverse v [] = refl
without-reverse v (x ∷ l) =
    rw (reverse-cons x l, without-append v (reverse l) (x ∷ []))
      (ground (
        arith,
        without-reverse v l,
        reverse-cons x (without v l),
        append-nil (reverse (without v l)),
      ))

-- How many of `m` occurrences a bound of `c` removes, where 0 stands for no bound.
abbrev pub bounded : ℕ → ℕ → ℕ
bounded zero m = m
bounded (suc c) m = min (suc c) m

-- What a call of `LRem` does to `l`: it removes `n` occurrences of `v`, which are all of a part of
-- the list at its head or at its tail, and leaves the other part as it is.
pub record FromHead (v : Str) (n : ℕ) (l : List Str) (out : List Str × ℕ) : Type 0 where
  pub front : List Str
  pub rest : List Str
  pub parts : l ≡ front ++ rest
  pub kept : out.0 ≡ without v front ++ rest
  pub removed : out.1 ≡ count v front
  pub number : out.1 ≡ n

pub record FromTail (v : Str) (n : ℕ) (l : List Str) (out : List Str × ℕ) : Type 0 where
  pub front : List Str
  pub rest : List Str
  pub parts : l ≡ front ++ rest
  pub kept : out.0 ≡ front ++ without v rest
  pub removed : out.1 ≡ count v rest
  pub number : out.1 ≡ n

-- the bound of the branch `count >= 0`
abbrev head_bound : ℕ → List Str → ℕ
head_bound zero l = length l
head_bound (suc c) l = suc c

l_rem-head :
    (v : Str) (c : ℕ) (l : List Str) → l_rem l (pos c) v ≡ rem_loop v (pos (head_bound c l)) 0 l
unfolding l_rem rem_loop max_from_head
l_rem-head v zero [] = refl
l_rem-head v (suc c) [] = refl
l_rem-head v zero (x ∷ l) = ground arith
l_rem-head v (suc c) (x ∷ l) = ground arith

l_rem-tail :
    (v : Str) (c : ℕ) (l : List Str)
    → c < 2 ^ 63 - 1
    → (r : List Str × ℕ) × (l_rem l (negsuc c) v ≡ (reverse r.0, r.1))
      × (r ≡ rem_loop v (pos (suc c)) 0 (reverse l))
unfolding l_rem neg_int
l_rem-tail v c [] h = ((([], 0)), refl, unfold rem_loop in refl)
l_rem-tail v c (x ∷ l) h = (rem_loop v (pos (suc c)) 0 (reverse (x ∷ l)), ground arith, refl)

-- With a count of at least 0, `LRem` removes from the head as many occurrences of the value as the
-- count, or all of them if there are fewer or the count is 0; it keeps all else, in order, and
-- returns the number removed.
pub l_rem-FromHead :
    (v : Str) (c : ℕ) (l : List Str) → FromHead v (bounded c (count v l)) l (l_rem l (pos c) v)
l_rem-FromHead v c l =
    let d = rem_loop-Removed v (head_bound c l) 0 l (omega arith) in
    rw (l_rem-head v c l) (record {
      front = d.front;
      rest = d.rest;
      parts = d.parts;
      kept = d.kept;
      removed = omega (arith, d.counted);
      number = ground (arith, d.full, count-le-length v l);
    })

-- With a negative count other than the least integer, `LRem` removes from the tail as many
-- occurrences of the value as the count says, or all of them if there are fewer; it keeps all
-- else, in order, and returns the number removed.
pub l_rem-FromTail :
    (v : Str) (c : ℕ) (l : List Str)
    → c < 2 ^ 63 - 1
    → FromTail v (min (suc c) (count v l)) l (l_rem l (negsuc c) v)
l_rem-FromTail v c l h =
    let (r, e, f) = l_rem-tail v c l h in
    let d = rem_loop-Removed v (suc c) 0 (reverse l) (omega arith) in
    rw (e, f)
      (record {
        front = reverse d.rest;
        rest = reverse d.front;
        parts = sym (reverse-reverse l) ∙ ap reverse d.parts ∙ reverse-append d.front d.rest;
        kept =
            ap reverse d.kept
            ∙ reverse-append (without v d.front) d.rest
            ∙ ap (λ x. reverse d.rest ++ x) (sym (without-reverse v d.front));
        removed = omega (arith, d.counted, count-reverse v d.front);
        number = omega (arith, d.full, count-reverse v l);
      })
