-- ===== src/Policy/Lru/Recency.antt =====
-- lru.go: evictions in the order of use.
use mathlib.Core.Path.{subst}
use mathlib.Core.List.{reverse-cons, reverse-reverse}
use mcache.Prelude.{
  if_pos, if_neg, ℕ, zero, suc, ◌≡◌, ◌≢◌, ◌≤◌, refl, sym, ap, ◌∙◌, true, none, some, Option, List,
  [], ◌∷◌, ◌++◌, Str, str_dec, ite, reverse, length, length-reverse, arith,
}
use mcache.Prelude.Dict.{delete}
use mcache.Prelude.Keys.{remove_key, count, length-remove_key}
use mcache.Policy.Outcome.{Evicts, evict_lem}
use mcache.Policy.Lru.{LruPolicy, on_access, back, evict, lru}
use mcache.Policy.Lru.Laws.{IsSound, tracks, lru-Laws}

-- In a sound LRU policy, `Evict` finds a key exactly when one is tracked; it then drops that key
-- and no other, and the policy stays sound.
pub lru-Evicts : (p : LruPolicy) (q : Str) → IsSound p → Evicts lru IsSound tracks p q
lru-Evicts p q s = evict_lem lru IsSound tracks lru-Laws p q s

-- the keys that repeated evictions take, in order, on fuel
pub drain : ℕ → LruPolicy → List Str
drain zero p = []
drain (suc fuel) p =
    let out = evict p in let rest = drain fuel out.0 in elim out.1 [ none ↦ [] | some k ↦ k ∷ rest ]

back-append : (l : List Str) (e : Str) → back (l ++ e ∷ []) ≡ some e
unfolding back
back-append [] e = refl
back-append (d ∷ []) e = refl
back-append (d ∷ d' ∷ l) e = back-append (d' ∷ l) e

count-append_one :
    (q : Str) (l : List Str) (e : Str)
    → count q (l ++ e ∷ []) ≡ ite (str_dec e q) (suc (count q l)) (count q l)
unfolding count
count-append_one q [] e = refl
count-append_one q (d ∷ l) e = ground (arith, count-append_one q l e)

remove_key-append_self : (l : List Str) (e : Str) → count e l ≡ 0 → remove_key e (l ++ e ∷ []) ≡ l
unfolding count remove_key
remove_key-append_self [] e h = ground arith
remove_key-append_self (d ∷ l) e h = ground (arith, remove_key-append_self l e)

remove_key-append_other :
    (l : List Str) (k e : Str) → k ≢ e → remove_key k (l ++ e ∷ []) ≡ remove_key k l ++ e ∷ []
unfolding remove_key
remove_key-append_other [] k e h = ground arith
remove_key-append_other (d ∷ l) k e h = elim (str_dec d k) [
  | yes q ↦
      rw
        (
          if_pos (str_dec d k) q (l ++ e ∷ []) (d ∷ remove_key k (l ++ e ∷ [])),
          if_pos (str_dec d k) q l (d ∷ remove_key k l),
        )
        refl
  | no q ↦
      rw
        (
          if_neg (str_dec d k) q (l ++ e ∷ []) (d ∷ remove_key k (l ++ e ∷ [])),
          if_neg (str_dec d k) q l (d ∷ remove_key k l),
        )
        (ap (◌∷◌ d) (remove_key-append_other l k e h))
]

count-reverse : (q : Str) (l : List Str) → count q (reverse l) ≡ count q l
unfolding count
count-reverse q [] = refl
count-reverse q (d ∷ l) =
    rw (reverse-cons d l, count-append_one q (reverse l) d, count-reverse q l) refl

reverse-remove_key :
    (k : Str) (l : List Str) → count k l ≤ 1 → reverse (remove_key k l) ≡ remove_key k (reverse l)
unfolding count remove_key
reverse-remove_key k [] h = refl
reverse-remove_key k (d ∷ l) h = elim (str_dec d k) [
  | yes q ↦
      let gone : count d (reverse l) ≡ 0 = ground (arith, count-reverse k l) in
      rw (if_pos (str_dec d k) q l (d ∷ remove_key k l), reverse-cons d l)
        (sym (remove_key-append_self (reverse l) d gone)
          ∙ ap (λ z. remove_key z (reverse l ++ d ∷ [])) q)
  | no q ↦
      rw
        (
          if_neg (str_dec d k) q l (d ∷ remove_key k l),
          reverse-cons d (remove_key k l),
          reverse-cons d l,
          remove_key-append_other (reverse l) k d (λ e. q (sym e)),
          reverse-remove_key k l (ground arith),
        )
        refl
]

evict-back :
    (p : LruPolicy) (k : Str)
    → back p.order ≡ some k
    → evict p ≡ (record { order = remove_key k p.order; nodes = delete str_dec k p.nodes }, some k)
unfolding evict
evict-back p k e = rw (e, evict) refl

once_last : (l : List Str) (k : Str) → count k (l ++ k ∷ []) ≤ 1 → count k l ≡ 0
once_last l k h = ground (arith, h, count-append_one k l k)

drain-evict :
    (fuel : ℕ) (p next : LruPolicy) (k : Str)
    → evict p ≡ (next, some k)
    → drain (suc fuel) p ≡ k ∷ drain fuel next
unfolding drain
drain-evict fuel p next k e =
    ap (λ (out : LruPolicy × Option Str). elim out.1 [ none ↦ [] | some q ↦ q ∷ drain fuel out.0 ])
      e

-- Repeated evictions take the keys in the reverse of the order.
drain-order :
    (r : List Str) (p : LruPolicy) → IsSound p → reverse p.order ≡ r → drain (length r) p ≡ r
unfolding drain
drain-order [] p s e = refl
drain-order (k ∷ r) p s e =
    let ends : p.order ≡ reverse r ++ k ∷ [] =
      sym (reverse-reverse p.order) ∙ ap reverse e ∙ reverse-cons k r in
    let next : LruPolicy = record {
      order = remove_key k p.order;
      nodes = delete str_dec k p.nodes;
    } in
    let evicts : evict p ≡ (next, some k) =
      evict-back p k (ap back ends ∙ back-append (reverse r) k) in
    let gone : count k (reverse r) ≡ 0 =
      once_last (reverse r) k (subst (λ o. count k o ≤ 1) ends (s.once k)) in
    let left : reverse next.order ≡ r =
      ap reverse (ap (remove_key k) ends ∙ remove_key-append_self (reverse r) k gone)
      ∙ reverse-reverse r in
    let sound : IsSound next = subst (λ o. IsSound o.0) evicts (lru-Laws.evict_sound p s) in
    drain-evict (length r) p next k evicts ∙ ap (◌∷◌ k) (drain-order r next sound left)

drain-all : (p : LruPolicy) → IsSound p → drain (length p.order) p ≡ reverse p.order
drain-all p s =
    ap (λ n. drain n p) (sym (length-reverse p.order)) ∙ drain-order (reverse p.order) p s refl

module _ (p : LruPolicy) (k : Str) (s : IsSound p) (t : tracks p k ≡ true) where
  access-order : (on_access p k).order ≡ k ∷ remove_key k p.order
  unfolding on_access
  access-order = ground (arith, s.linked k, t)

  access-length : length (on_access p k).order ≡ length p.order
  access-length =
      ap length access-order
      ∙ omega (arith, length-remove_key k p.order (ground (arith, s.linked k, t)))

-- In a sound policy, an access of a tracked key makes it the last one to be evicted, and leaves
-- the order in which repeated evictions take the other keys as it was.
pub drain-on_access :
    (p : LruPolicy) (k : Str)
    → IsSound p
    → tracks p k ≡ true
    → drain (length p.order) (on_access p k) ≡ remove_key k (drain (length p.order) p) ++ k ∷ []
drain-on_access p k s t =
    let after = drain-all (on_access p k) (lru-Laws.access_sound p k s) in
    let moved : reverse (on_access p k).order ≡ remove_key k (reverse p.order) ++ k ∷ [] =
      ap reverse (access-order p k s t)
      ∙ reverse-cons k (remove_key k p.order)
      ∙ ap (λ l. l ++ k ∷ []) (reverse-remove_key k p.order (s.once k)) in
    ap (λ n. drain n (on_access p k)) (sym (access-length p k s t))
    ∙ after
    ∙ moved
    ∙ ap (λ l. remove_key k l ++ k ∷ []) (sym (drain-all p s))
