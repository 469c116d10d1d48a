-- ===== src/Ds/Lists/Size.antt =====
-- ds/list/list.go: the operations after which a list has an element.
use mcache.Prelude.{
  ◌≡◌, ◌≢◌, refl, sym, ap, ◌∙◌, Bool, some, List, [], ◌∷◌, ◌++◌, Str, arith, length,
}
use mcache.Prelude.Int.{ℤ}
use mcache.Prelude.Panics.{returns}
use mcache.Ds.Lists.{push_front_all, push_back_all, l_push, r_push, insert_at, l_insert, l_set}
use mcache.Ds.Lists.Index.{l_index-l_set}

push_front_all-ne : (es l : List Str) → l ≢ [] → push_front_all l es ≢ []
unfolding push_front_all
push_front_all-ne [] l h = h
push_front_all-ne (e ∷ es) l h = push_front_all-ne es (e ∷ l) (λ z. ground (arith, z))

snoc-ne : (l : List Str) (e : Str) → l ++ e ∷ [] ≢ []
snoc-ne [] e z = ground (arith, z)
snoc-ne (d ∷ l) e z = ground (arith, z)

push_back_all-ne : (es l : List Str) → l ≢ [] → push_back_all l es ≢ []
unfolding push_back_all
push_back_all-ne [] l h = h
push_back_all-ne (e ∷ es) l h = push_back_all-ne es (l ++ e ∷ []) (snoc-ne l e)

pub l_push-ne : (x : Str) (es l : List Str) → (l_push l (x ∷ es)).0 ≢ []
unfolding l_push push_front_all
l_push-ne x es l = push_front_all-ne es (x ∷ l) (λ z. ground (arith, z))

pub r_push-ne : (x : Str) (es l : List Str) → (r_push l (x ∷ es)).0 ≢ []
unfolding r_push push_back_all
r_push-ne x es l = push_back_all-ne es (l ++ x ∷ []) (snoc-ne l x)

insert_at-ne :
    (before : Bool) (pivot value : Str) (l : List Str) → insert_at before pivot value l ≢ some []
unfolding insert_at
insert_at-ne before pivot value [] = λ z. ground (arith, z)
insert_at-ne before pivot value (e ∷ l) =
    let rest = insert_at-ne before pivot value l in λ z. ground (arith, z)

pub l_insert-ne :
    (l : List Str) (before : Bool) (pivot value : Str)
    → l ≢ []
    → (l_insert l before pivot value).0 ≢ []
unfolding l_insert
l_insert-ne l before pivot value h =
    let k = insert_at-ne before pivot value l in λ z. ground (arith, z)

no_length : (l : List Str) → length l ≡ 0 → l ≡ []
no_length [] e = refl
no_length (x ∷ l) e = absurd (omega (arith, e))

pub l_set-ne :
    (l : List Str) (i : ℤ) (v : Str)
    → l ≢ []
    → (out : List Str × Bool) × (l_set l i v ≡ returns out) × (out.0 ≢ [])
l_set-ne l i v h =
    let (l', e, same, read) = l_index-l_set l i i v in
    ((l', _), e, λ z. h (no_length l (sym same ∙ ap length z)))
