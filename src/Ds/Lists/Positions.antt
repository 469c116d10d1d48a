-- ===== src/Ds/Lists/Positions.antt =====
-- `LPos` of ds/list/list.go against the list of all positions of the value.
use mathlib.Core.List.{append-nil, append_assoc}
use mcache.Prelude.{
  ℕ, zero, suc, ◌+◌, ◌-◌, ◌≤◌, ◌<◌, ◌≡◌, refl, sym, ◌∙◌, ◌≢◌, true, false, List, [], ◌∷◌, ◌++◌, ite,
  min, length-append, take, drop, take-nil, drop_all, take_all, take-append_exact, length, ltb, Str,
  str_dec, arith, if_pos, if_neg,
}
use mcache.Prelude.Int.{ℤ, pos, negsuc, ltb_ℤ, pos_part}
use mcache.Ds.Lists.{pos_loop, l_pos, is_zero, scan_length}

-- The positions of a value, where the list's first element has position `i`.
unfoldable pub positions_from : ℕ → Str → List Str → List ℕ
positions_from i v [] = []
positions_from i v (e ∷ l) =
    ite (str_dec e v) (i ∷ positions_from (i + 1) v l) (positions_from (i + 1) v l)

ltb-pos : (i : ℕ) (z : ℤ) → ltb_ℤ (pos i) z ≡ ltb i (pos_part z)
ltb-pos i (pos k) = ground arith
ltb-pos i (negsuc k) = ground arith

drop_nil : (k : ℕ) → drop {A = ℕ} k [] ≡ []
drop_nil k = drop_all k [] (omega arith)

-- What is still to come at position `i`, with `f` matches found: the matches from the rank on, in
-- the part of the list before position `m`.
module _ (v : Str) (r m : ℕ) where
  coming : ℕ → ℕ → List Str → List ℕ
  coming i f l = drop (r - 1 - f) (positions_from i v (take (m - i) l))

  coming-nil : (i f : ℕ) → coming i f [] ≡ []
  unfolding coming positions_from
  coming-nil i f = rw take-nil (drop_nil (r - 1 - f))

  coming_over : (i f : ℕ) (l : List Str) → m ≤ i → coming i f l ≡ []
  unfolding coming positions_from
  coming_over i f l h = let e : m - i ≡ 0 = omega arith in rw e (drop_nil (r - 1 - f))

  coming_miss :
      (i f : ℕ) (e : Str) (l : List Str) → i < m → e ≢ v → coming i f (e ∷ l) ≡ coming (i + 1) f l
  unfolding coming positions_from
  coming_miss i f e l h n =
      let p : m - i ≡ suc (m - (i + 1)) = omega arith in rw p (rw (if_neg (str_dec e v) n))

  coming_skip :
      (i f : ℕ) (e : Str) (l : List Str)
      → i < m
      → e ≡ v
      → f + 1 < r
      → coming i f (e ∷ l) ≡ coming (i + 1) (f + 1) l
  unfolding coming positions_from
  coming_skip i f e l h y k =
      let p : m - i ≡ suc (m - (i + 1)) = omega arith in
      let q : r - 1 - f ≡ suc (r - 1 - (f + 1)) = omega arith in
      rw (p, q) (rw (if_pos (str_dec e v) y))

  coming_hit :
      (i f : ℕ) (e : Str) (l : List Str)
      → i < m
      → e ≡ v
      → r ≤ f + 1
      → coming i f (e ∷ l) ≡ i ∷ coming (i + 1) (f + 1) l
  unfolding coming positions_from
  coming_hit i f e l h y k =
      let p : m - i ≡ suc (m - (i + 1)) = omega arith in
      let q : r - 1 - f ≡ 0 = omega arith in
      let q' : r - 1 - (f + 1) ≡ 0 = omega arith in rw (p, q, q') (rw (if_pos (str_dec e v) y))

coming_start :
    (v : Str) (r m : ℕ) (l : List Str)
    → coming v r m 0 0 l ≡ drop (r - 1) (positions_from 0 v (take m l))
unfolding coming
coming_start v r m l =
    let p : m - 0 ≡ m = omega arith in let q : r - 1 - 0 ≡ r - 1 = omega arith in rw (p, q)

module _ (v : Str) (rank max_len cnt : ℤ) where
  abbrev rest : ℕ → ℕ → List Str → List ℕ
  rest = coming v (pos_part rank) (pos_part max_len)

  pos_loop_all :
      (l : List Str) (i f : ℕ) (ps : List ℕ)
      → pos_loop v rank cnt true max_len i f ps l ≡ ps ++ rest i f l
  unfolding pos_loop
  pos_loop_all [] i f ps = rw coming-nil (sym (append-nil ps))
  pos_loop_all (e ∷ l) i f ps = ground (
    arith,
    ltb-pos i max_len,
    ltb-pos (f + 1) rank,
    append-nil ps,
    append_assoc ps (i ∷ []) (rest (i + 1) (f + 1) l),
    pos_loop_all l (i + 1) f ps,
    pos_loop_all l (i + 1) (f + 1) ps,
    pos_loop_all l (i + 1) (f + 1) (ps ++ i ∷ []),
    coming_over v (pos_part rank) (pos_part max_len) i f (e ∷ l),
    coming_miss v (pos_part rank) (pos_part max_len) i f e l,
    coming_skip v (pos_part rank) (pos_part max_len) i f e l,
    coming_hit v (pos_part rank) (pos_part max_len) i f e l,
  )

  pos_loop_some :
      (l : List Str) (i f : ℕ) (ps : List ℕ)
      → length ps ≤ pos_part cnt
      → pos_loop v rank cnt false max_len i f ps l ≡ take (pos_part cnt) (ps ++ rest i f l)
  unfolding pos_loop
  pos_loop_some [] i f ps h = rw (coming-nil, append-nil ps) (sym (take_all (pos_part cnt) ps h))
  pos_loop_some (e ∷ l) i f ps h = ground (
    arith,
    ltb-pos i max_len,
    ltb-pos (f + 1) rank,
    ltb-pos (length ps) cnt,
    append-nil ps,
    length-append ps (i ∷ []),
    take_all (pos_part cnt) ps,
    take-append_exact (pos_part cnt) ps (rest i f (e ∷ l)),
    append_assoc ps (i ∷ []) (rest (i + 1) (f + 1) l),
    pos_loop_some l (i + 1) f ps,
    pos_loop_some l (i + 1) (f + 1) ps,
    pos_loop_some l (i + 1) (f + 1) (ps ++ i ∷ []),
    coming_over v (pos_part rank) (pos_part max_len) i f (e ∷ l),
    coming_miss v (pos_part rank) (pos_part max_len) i f e l,
    coming_skip v (pos_part rank) (pos_part max_len) i f e l,
    coming_hit v (pos_part rank) (pos_part max_len) i f e l,
  )

-- How many elements a bound lets the scan see; 0 stands for all, and no bound reaches further.
abbrev pub window : ℤ → ℕ → ℕ
window (pos zero) n = n
window (pos (suc k)) n = min (suc k) n
window (negsuc k) n = 0

-- A count of 0 asks for all positions, a negative one for one.
abbrev pub at_most : ℤ → List ℕ → List ℕ
at_most (pos zero) ps = ps
at_most (pos (suc c)) ps = take (suc c) ps
at_most (negsuc c) ps = take 1 ps

scan_length-window : (m : ℤ) (n : ℕ) → pos_part (scan_length m n) ≡ window m n
unfolding scan_length
scan_length-window (pos zero) n = refl
scan_length-window (pos (suc k)) n = ground arith
scan_length-window (negsuc k) n = ground arith

-- `LPos` returns the positions of the value in the part of the list that the scan length allows,
-- from the one that the rank names on (1 or less names the first), and as many as the count allows.
pub l_pos-positions_from :
    (l : List Str) (v : Str) (rank count max_len : ℤ)
    → l_pos l v rank count max_len
      ≡ at_most count
          (drop (pos_part rank - 1) (positions_from 0 v (take (window max_len (length l)) l)))
unfolding l_pos is_zero
l_pos-positions_from l v rank (pos zero) max_len =
    pos_loop_all v rank (scan_length max_len (length l)) (pos 0) l 0 0 []
    ∙ rw (coming_start, scan_length-window max_len (length l))
l_pos-positions_from l v rank (pos (suc c)) max_len = ground (
  arith,
  pos_loop_some v rank (scan_length max_len (length l)) (pos (suc c)) l 0 0 [],
  coming_start v (pos_part rank) (pos_part (scan_length max_len (length l))) l,
  scan_length-window max_len (length l),
)
l_pos-positions_from l v rank (negsuc c) max_len = ground (
  arith,
  pos_loop_some v rank (scan_length max_len (length l)) (pos 1) l 0 0 [],
  coming_start v (pos_part rank) (pos_part (scan_length max_len (length l))) l,
  scan_length-window max_len (length l),
)
