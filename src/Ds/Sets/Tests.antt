-- ===== src/Ds/Sets/Tests.antt =====
-- ds/set: the operations at concrete sets.
use mcache.Prelude.{ℕ, ◌≡◌, refl, [], ◌∷◌, Str, str_dec, ◌&&◌, not}
use mcache.Prelude.Int.{neg_int, negsuc}
use mcache.Prelude.Panics.{returns}
use mcache.Prelude.Dict.{insert, lookup}
use mcache.Ds.Sets.{
  new_from, put_all, rand_member, take_drawn, first_drawn, abs, Elements, is_member, members, clear,
  inter, diff,
}
use mcache.Ds.Sets.Members.{IsSound}
use mcache.Ds.Sets.Ops.{in_any, in_all, is_member-inter, is_member-diff}

abbrev a : Str
a = b'a' ∷ []

abbrev b : Str
b = b'b' ∷ []

abbrev c : Str
c = b'c' ∷ []

abbrev ab : Elements
ab = (a, tt) ∷ (b, tt) ∷ []

ab-IsSound : IsSound ab
unfolding lookup str_dec
ab-IsSound = (refl, (refl, tt))

-- two sets at the addresses 0 and 1
abbrev heap : ℕ → Elements
heap ℕ.zero = ab
heap n = (b, tt) ∷ (c, tt) ∷ []

is_member-inter_example : is_member (inter heap (0 ∷ 1 ∷ [])) b ≡ in_all heap b (0 ∷ 1 ∷ [])
is_member-inter_example = is_member-inter heap 0 (1 ∷ []) b

is_member-diff_example :
    is_member (diff heap (0 ∷ 1 ∷ [])) a ≡ (is_member (heap 0) a && not (in_any heap a (1 ∷ [])))
is_member-diff_example = is_member-diff heap 0 (1 ∷ []) a

members_test : members (clear ab) ≡ []
unfolding members clear
members_test = refl

dedup_test : new_from (a ∷ b ∷ a ∷ []) ≡ ab
unfolding new_from put_all insert str_dec
dedup_test = refl

repeated_draws_test : rand_member (1 ∷ 1 ∷ []) ab (negsuc 1) ≡ returns (b ∷ b ∷ [])
unfolding rand_member take_drawn first_drawn abs members neg_int
repeated_draws_test = refl
