-- ===== src/Ds/Sets/Ops.antt =====
-- ds/set/ops.go: the members of a union, an intersection and a difference.
use mcache.Prelude.{
  ℕ, ◌≡◌, refl, ap, ◌∙◌, Bool, true, false, List, [], ◌∷◌, ite, if◌then◌else◌, ◌&&◌, ◌||◌, not, Str,
  str_dec, arith,
}
use mcache.Prelude.Keys.{listed}
use mcache.Prelude.Dict.{lookup, insert, keys}
use mcache.Ds.Sets.{
  Elements, new_set, put_all, is_member, for_each, union_loop, union, find_smallest, in_others,
  inter_step, inter, in_none, diff_step, diff,
}
use mcache.Ds.Sets.Members.{is_member-insert, is_member-put_all}

listed-keys : (q : Str) (s : Elements) → listed q (keys s) ≡ is_member s q
unfolding listed is_member lookup
listed-keys q [] = refl
listed-keys q (e ∷ s) = ground (arith, listed-keys q s)

is_member-cons :
    (e : Str × Unit {0}) (s : Elements) (q : Str)
    → is_member (e ∷ s) q ≡ ite (str_dec e.0 q) true (is_member s q)
unfolding is_member lookup
is_member-cons e s q = ground arith

is_member-nil : (q : Str) → is_member [] q ≡ false
unfolding is_member lookup
is_member-nil q = refl

-- A callback that puts the elements that pass a test, and goes on, keeps just those.
module _ (test : Str → Bool) (step : Str → Elements → Elements × Bool)
    (steps : (e : Str) (r : Elements)
      → step e r ≡ (if test e then insert str_dec e tt r else r, true)) where
  for_each-filter :
      (s r : Elements) (q : Str)
      → is_member (for_each step s r) q ≡ ((is_member s q && test q) || is_member r q)
  unfolding for_each
  for_each-filter [] r q = rw is_member-nil
  for_each-filter (e ∷ s) r q = ground (
    arith,
    steps e.0 r,
    is_member-cons e s q,
    is_member-insert q e.0 r,
    for_each-filter s r q,
    for_each-filter s (insert str_dec e.0 tt r) q,
    ap test {x = e.0} {y = q},
  )

module _ (heap : ℕ → Elements) where
  -- Is the string in one of the sets, in all of them?
  unfoldable pub in_any : Str → List ℕ → Bool
  in_any q [] = false
  in_any q (s ∷ sets) = is_member (heap s) q || in_any q sets

  unfoldable pub in_all : Str → List ℕ → Bool
  in_all q [] = true
  in_all q (s ∷ sets) = is_member (heap s) q && in_all q sets

  is_member-union_loop :
      (sets : List ℕ) (r : Elements) (q : Str)
      → is_member (union_loop heap r sets) q ≡ (is_member r q || in_any q sets)
  unfolding union_loop in_any
  is_member-union_loop [] r q = ground arith
  is_member-union_loop (s ∷ sets) r q = ground (
    arith,
    is_member-union_loop sets (put_all r (keys (heap s))) q,
    is_member-put_all q (keys (heap s)) r,
    listed-keys q (heap s),
  )

  -- The members of `Union` are the strings in one of the sets.
  pub is_member-union : (sets : List ℕ) (q : Str) → is_member (union heap sets) q ≡ in_any q sets
  unfolding union
  is_member-union sets q = is_member-union_loop sets new_set q ∙ rw is_member-nil

  in_others-in_all :
      (smallest : ℕ) (q : Str) (sets : List ℕ)
      → (is_member (heap smallest) q && in_others heap smallest q sets)
        ≡ (is_member (heap smallest) q && in_all q sets)
  unfolding in_others in_all
  in_others-in_all smallest q [] = refl
  in_others-in_all smallest q (s ∷ sets) = ground (arith, in_others-in_all smallest q sets)

  -- The smallest set is one of the sets.
  find_smallest_in :
      (sets : List ℕ) (a : ℕ) (q : Str)
      → (is_member (heap a) q && in_all q sets) ≡ (
          (is_member (heap a) q && in_all q sets) && is_member (heap (find_smallest heap a sets)) q)
  unfolding find_smallest in_all
  find_smallest_in [] a q = ground arith
  find_smallest_in (s ∷ sets) a q =
      ground (arith, find_smallest_in sets s q, find_smallest_in sets a q)

  -- The members of `Inter` are the strings in all of the sets, also where one set is given twice.
  pub is_member-inter :
      (s : ℕ) (sets : List ℕ) (q : Str) → is_member (inter heap (s ∷ sets)) q ≡ in_all q (s ∷ sets)
  unfolding inter inter_step in_all
  is_member-inter s sets q =
      let m = find_smallest heap s sets in
      ground (
        arith,
        for_each-filter (λ e. in_others heap m e (s ∷ sets)) (inter_step heap m (s ∷ sets))
            (λ e r. refl) (heap m) new_set q,
        is_member-nil q,
        in_others-in_all m q (s ∷ sets),
        find_smallest_in sets s q,
      )

  in_none-in_any : (q : Str) (others : List ℕ) → in_none heap q others ≡ not (in_any q others)
  unfolding in_none in_any
  in_none-in_any q [] = refl
  in_none-in_any q (s ∷ others) = ground (arith, in_none-in_any q others)

  -- The members of `Diff` are the strings in the first set and in none of the others.
  pub is_member-diff :
      (s : ℕ) (others : List ℕ) (q : Str)
      → is_member (diff heap (s ∷ others)) q ≡ (is_member (heap s) q && not (in_any q others))
  unfolding diff diff_step
  is_member-diff s [] q = is_member-union (s ∷ []) q ∙ unfold in_any in ground arith
  is_member-diff s (s' ∷ others) q = ground (
    arith,
    for_each-filter (λ e. in_none heap e (s' ∷ others)) (diff_step heap (s' ∷ others)) (λ e r. refl)
        (heap s) new_set q,
    is_member-nil q,
    in_none-in_any q (s' ∷ others),
  )
