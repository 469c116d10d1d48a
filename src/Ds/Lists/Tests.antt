-- ===== src/Ds/Lists/Tests.antt =====
-- ds/list/list.go at concrete lists.
use mcache.Prelude.{
  ◌≡◌, refl, some, List, [], ◌∷◌, Str, arith, length, min, is_some, if◌then◌else◌, drop, take, ◌+◌,
}
use mcache.Prelude.Int.{pos, negsuc}
use mcache.Prelude.Keys.{count}
use mcache.Prelude.Panics.{returns}
use mcache.Ds.Lists.{for_each, is_zero, l_len, l_range, l_index, l_set, l_rem, l_pos}
use mcache.Ds.Lists.Range.{span, l_range-span}
use mcache.Ds.Lists.Index.{nth, place, same_place, l_index-l_set}
use mcache.Ds.Lists.Remove.{FromHead, FromTail, bounded, l_rem-FromHead, l_rem-FromTail}
use mcache.Ds.Lists.Positions.{at_most, positions_from, window, l_pos-positions_from}

abbrev a : Str
a = b'a' ∷ []

abbrev b : Str
b = b'b' ∷ []

abbrev c : Str
c = b'c' ∷ []

abbrev abab : List Str
abab = a ∷ b ∷ a ∷ b ∷ []

l_range-span_example : l_range abab (negsuc 2) (pos 9) ≡ returns (span abab (negsuc 2) (pos 9))
l_range-span_example = l_range-span abab (negsuc 2) (pos 9)

l_index-l_set_example :
    (l' : List Str) × (l_set abab (pos 1) c ≡ returns (l', is_some (nth abab (pos 1))))
    × (length l' ≡ length abab)
    × (l_index l' (negsuc 2)
        ≡ returns (
            if same_place (place (length abab) (pos 1)) (place (length abab) (negsuc 2))
            then some c
            else nth abab (negsuc 2)))
l_index-l_set_example = l_index-l_set abab (pos 1) (negsuc 2) c

l_rem-FromHead_example : FromHead b (bounded 1 (count b abab)) abab (l_rem abab (pos 1) b)
l_rem-FromHead_example = l_rem-FromHead b 1 abab

l_rem-FromTail_example : FromTail b (min 1 (count b abab)) abab (l_rem abab (negsuc 0) b)
l_rem-FromTail_example = l_rem-FromTail b 0 abab (omega arith)

l_pos-positions_from_example :
    l_pos abab b (pos 2) (pos 0) (pos 0)
    ≡ at_most (pos 0) (drop 1 (positions_from 0 b (take (window (pos 0) 4) abab)))
l_pos-positions_from_example = l_pos-positions_from abab b (pos 2) (pos 0) (pos 0)

l_len_test : l_len abab ≡ 4
unfolding l_len
l_len_test = refl

visit_test : for_each (λ e n. (n + 1, is_zero (pos n))) abab 0 ≡ 2
unfolding for_each is_zero
visit_test = refl
