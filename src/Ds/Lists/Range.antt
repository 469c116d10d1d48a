-- ===== src/Ds/Lists/Range.antt =====
-- Index ranges of ds/list/list.go: `LRange` and `LTrim` against slices of the list.
use mcache.Prelude.{
  ℕ, zero, suc, ◌+◌, ◌-◌, ◌≤◌, ◌<◌, ◌≡◌, refl, ap, false, List, [], ◌∷◌, min, length, ltb, leb, Str,
  arith, take, drop, length-take, length-drop, take-nil, take-drop, take_all, drop_all, sym,
  Bool-cases, inl, inr,
}
use mcache.Prelude.Panics.{returns, ◌>>=◌}
use mcache.Prelude.Int.{ℤ, pos, negsuc, ltb_ℤ}
use mcache.Ds.Lists.{
  remove_fronts, remove_backs, remove_back, l_trim, l_range, normalize_range, advance, collect,
}

-- The first index of a range, and the index past its end, in a list of `n` elements: an index from
-- the end counts back from `n` and stops at 0.
abbrev pub first : ℕ → ℤ → ℕ
first n (pos k) = k
first n (negsuc k) = n - suc k

abbrev pub past : ℕ → ℤ → ℕ
past n (pos k) = suc k
past n (negsuc k) = n - k

abbrev pub span : List Str → ℤ → ℤ → List Str
span l start stop = drop (first (length l) start) (take (past (length l) stop) l)

pub advance-drop : (n : ℕ) (l : List Str) → n ≤ length l → advance n l ≡ returns (drop n l)
unfolding advance
advance-drop zero l h = refl
advance-drop (suc n) [] h = absurd (omega arith)
advance-drop (suc n) (e ∷ l) h = advance-drop n l (omega arith)

collect-take : (l : List Str) (i s : ℕ) → collect i (pos s) l ≡ take (suc s - i) l
unfolding collect
collect-take [] i s = sym (take-nil (suc s - i))
collect-take (e ∷ l) i s = elim (Bool-cases (ltb s i)) [
  | inl over ↦ let z : suc s - i ≡ 0 = ground arith in rw z (ground arith)
  | inr within ↦
      let z : suc s - i ≡ suc (suc s - (i + 1)) = ground arith in
      rw z (ground (arith, collect-take l (i + 1) s))
]

-- What `normalizeRange` gives: the first index, and the last one as an integer below it exactly
-- when the range is empty.
record Normal (n : ℕ) (start stop : ℤ) (r : ℤ × ℤ) : Type 0 where
  start_is : r.0 ≡ pos (first n start)
  stop_is : (ltb_ℤ r.1 r.0 ≡ false) → r.1 ≡ pos (min (past n stop) n - 1)
  empty_iff : ltb_ℤ r.1 r.0 ≡ leb (min (past n stop) n) (first n start)

normalize_range-Normal :
    (n : ℕ) (start stop : ℤ) → 0 < n → Normal n start stop (normalize_range start stop n)
unfolding normalize_range
normalize_range-Normal n (pos a) (pos b) h = ground arith
normalize_range-Normal n (pos a) (negsuc b) h = ground arith
normalize_range-Normal n (negsuc a) (pos b) h = ground arith
normalize_range-Normal n (negsuc a) (negsuc b) h = ground arith

span-nil : (a b : ℕ) → drop a (take {A = Str} b []) ≡ []
span-nil a b = rw take-nil (drop_all a [] (omega arith))

-- A range that starts at or past its end holds nothing.
span_empty : (l : List Str) (a b : ℕ) → min b (length l) ≤ a → drop a (take b l) ≡ []
span_empty l a b h = drop_all a (take b l) (omega (arith, length-take b l))

take-min : (l : List Str) (b : ℕ) → take (min b (length l)) l ≡ take b l
take-min [] b = ground (arith, take-nil {A = Str} b, take-nil {A = Str} (min b 0))
take-min (x ∷ l) zero = ap (λ k. take k (x ∷ l)) {y = 0} (omega arith)
take-min (x ∷ l) (suc b) =
    let e : min (suc b) (suc (length l)) ≡ suc (min b (length l)) = omega arith in
    rw e (ap (◌∷◌ x) (take-min l b))

-- the loops of `LRange` between two indices of the list
walk :
    (l : List Str) (a m : ℕ)
    → a < m
    → m ≤ length l
    → (advance a l >>= λ e. returns (collect a (pos (m - 1)) e)) ≡ returns (drop a (take m l))
walk l a m h k = rw (
  advance-drop a l (omega arith),
  collect-take (drop a l) a (m - 1),
  take-drop a (suc (m - 1) - a) m l (omega arith),
)

-- `LRange` never panics, whatever the indices, and returns the elements from the first index to
-- the last, where a negative index counts from the end and what lies outside the list is left out.
pub l_range-span :
    (l : List Str) (start stop : ℤ) → l_range l start stop ≡ returns (span l start stop)
unfolding l_range
l_range-span [] start stop = ap returns (sym (span-nil (first 0 start) (past 0 stop)))
l_range-span (x ∷ l) start stop = ground (
  arith,
  N,
  N.stop_is,
  walk (x ∷ l) (first n start) (min (past n stop) n),
  take-min (x ∷ l) (past n stop),
  span_empty (x ∷ l) (first n start) (past n stop),
)
  where
    n : ℕ
    n = length (x ∷ l)

    N : Normal n start stop (normalize_range start stop n)
    N = normalize_range-Normal n start stop (omega arith)

remove_fronts-drop : (n : ℕ) (l : List Str) → n ≤ length l → remove_fronts n l ≡ returns (drop n l)
unfolding remove_fronts
remove_fronts-drop zero l h = refl
remove_fronts-drop (suc n) [] h = absurd (omega arith)
remove_fronts-drop (suc n) (e ∷ l) h = remove_fronts-drop n l (omega arith)

pub remove_back-take : (e : Str) (l : List Str) → (remove_back e l).0 ≡ take (length l) (e ∷ l)
unfolding remove_back
remove_back-take e [] = refl
remove_back-take e (x ∷ l) = ap (◌∷◌ e) (remove_back-take x l)

take-take : (a b : ℕ) (l : List Str) → a ≤ b → take a (take b l) ≡ take a l
take-take zero b l h = refl
take-take (suc a) zero l h = absurd (omega arith)
take-take (suc a) (suc b) [] h = refl
take-take (suc a) (suc b) (x ∷ l) h = ap (◌∷◌ x) (take-take a b l (omega arith))

remove_backs-take :
    (k m : ℕ) (l : List Str) → m + k ≡ length l → remove_backs k l ≡ returns (take m l)
unfolding remove_backs
remove_backs-take zero m l h = ap returns (sym (take_all m l (omega arith)))
remove_backs-take (suc k) m [] h = absurd (omega arith)
remove_backs-take (suc k) m (e ∷ l) h = rw (
  remove_back-take e l,
  remove_backs-take k m (take (length l) (e ∷ l)) (omega (arith, length-take (length l) (e ∷ l))),
  take-take m (length l) (e ∷ l) (omega arith),
)

drop_fewer :
    (l : List Str) (a m : ℕ)
    → a < m
    → m ≤ length l
    → (remove_fronts a l >>= λ l'. remove_backs (length l - suc (m - 1)) l')
      ≡ returns (drop a (take m l))
drop_fewer l a m h k = rw (
  remove_fronts-drop a l (omega arith),
  remove_backs-take (length l - suc (m - 1)) (m - a) (drop a l) (omega (arith, length-drop a l)),
  take-drop a (m - a) m l (omega arith),
)

-- `LTrim` never panics, whatever the indices, and leaves the elements that `LRange` returns for
-- the same indices.
pub l_trim-l_range : (l : List Str) (start stop : ℤ) → l_trim l start stop ≡ l_range l start stop
unfolding l_trim
l_trim-l_range [] start stop = rw (l_range-span, span-nil (first 0 start) (past 0 stop))
l_trim-l_range (x ∷ l) start stop = rw (l_range-span) (
    ground (
      arith,
      N,
      N.stop_is,
      drop_fewer (x ∷ l) (first n start) (min (past n stop) n),
      take-min (x ∷ l) (past n stop),
      span_empty (x ∷ l) (first n start) (past n stop),
    ))
  where
    n : ℕ
    n = length (x ∷ l)

    N : Normal n start stop (normalize_range start stop n)
    N = normalize_range-Normal n start stop (omega arith)
