-- ===== src/Shard/Kv/Migration/Items.antt =====
-- shard.go: what `ExtractN` takes out of a shard without a bound, at a time at which no entry has
-- expired: it visits all eight sub-shards, which are there.
use mcache.Prelude.{
  ℕ, zero, suc, ◌+◌, ◌≡◌, ◌≤◌, ◌<◌, refl, sym, ap, ◌∙◌, Bool, Option, none, some, List, [], ◌∷◌,
  ◌++◌, Str, str_dec, ite, length, get_elem?, arith, inl, inr, Option-cases, Bool-cases, ℕ_discrete,
  get_elem?-some, get_elem?-set_ne, ltb, if◌then◌else◌,
}
use mathlib.Core.List.{append_assoc, append-nil}
use mcache.Prelude.Panics.{Panics, returns, ◌>>=◌}
use mcache.Prelude.Dict.{lookup}
use mcache.Policy.{EvictionPolicy}
use mcache.Shard.Sub as Sub
use mcache.Shard.Sub.{SubShard, Item}
use mcache.Shard.Sub.Extract.{value_of, value_in, IsTtl, Took, extract_loop-Took}
use mcache.Shard.Kv.{Shard, sub_index, sub_at, put, extract_from, extract_n}
use mcache.Shard.Kv.Migration.{sub_index-lt}
use mcache.Shard.Kv.Places.{
  IsPlace, IsSound, holds, size, put-IsSound, holds_self, holds_other, holds_before, size-put,
  value_at-some,
}
use mcache.Rehash.Shards.Tables.{some_injective, or_else_assoc}
use mcache.Rehash.Shards.{or_else, or_else-none, moved, AreTtls}

moved-append :
    (q : Str) (xs ys : List Item) → moved q (xs ++ ys) ≡ or_else (moved q ys) (moved q xs)
unfolding moved
moved-append q [] ys = sym (or_else-none (moved q ys))
moved-append q (x ∷ xs) ys =
    ap (λ o. or_else o (ite (str_dec x.key q) (some x.value) none)) (moved-append q xs ys)
    ∙ sym (or_else_assoc (moved q ys) (moved q xs) (ite (str_dec x.key q) (some x.value) none))

AreTtls-append :
    (t : ℕ) (xs ys : List Item)
    → AreTtls (IsTtl t) xs
    → AreTtls (IsTtl t) ys
    → AreTtls (IsTtl t) (xs ++ ys)
AreTtls-append t [] ys h k = k
AreTtls-append t (x ∷ xs) ys (hx, h) k = (hx, AreTtls-append t xs ys h k)

nil_parts : (xs ys : List Item) → xs ++ ys ≡ [] → (xs ≡ []) × (ys ≡ [])
nil_parts [] ys e = (refl, e)
nil_parts (x ∷ xs) ys e = absurd (ground (arith, ap length e))

length-append : (xs ys : List Item) → length (xs ++ ys) ≡ length xs + length ys
length-append [] ys = omega arith
length-append (x ∷ xs) ys = omega (arith, length-append xs ys)

module _ (p : EvictionPolicy) (t : ℕ) where
  -- Some entries of a sound shard `s` were taken out as items, and `s'` is left.
  pub record Takes (s s' : Shard p) (taken : List Item) : Type 0 where
    pub sound : IsSound p t s'
    pub ttls : AreTtls (IsTtl t) taken
    pub splits : (q : Str) → holds p t s q ≡ or_else (moved q taken) (holds p t s' q)
    pub gone : (q v : Str) → moved q taken ≡ some v → holds p t s' q ≡ none
    pub amount : size p t s' + length taken ≡ size p t s

  Takes-none : (s : Shard p) → IsSound p t s → Takes s s []
  unfolding moved
  Takes-none s w = record {
    sound = w;
    ttls = tt;
    splits = λ q. refl;
    gone = λ q v h. absurd (ground (arith, h));
    amount = omega arith;
  }

  both :
      (a b h h1 h2 : Option Str)
      → h ≡ or_else a h1
      → h1 ≡ or_else b h2
      → ((v : Str) → a ≡ some v → h1 ≡ none)
      → h ≡ or_else (or_else b a) h2
  both none b h h1 h2 e f g = e ∙ f ∙ ap (λ o. or_else o h2) (sym (or_else-none b))
  both (some v) none h h1 h2 e f g = e
  both (some v) (some u) h h1 h2 e f g = absurd (ground (arith, sym (g v refl) ∙ f))

  gone_both :
      (a b h1 h2 : Option Str) (v : Str)
      → h1 ≡ or_else b h2
      → ((u : Str) → a ≡ some u → h1 ≡ none)
      → ((u : Str) → b ≡ some u → h2 ≡ none)
      → or_else b a ≡ some v
      → h2 ≡ none
  gone_both a (some u) h1 h2 v f g k e = k u refl
  gone_both a none h1 h2 v f g k e = sym f ∙ g v e

  Takes-append :
      (s s1 s2 : Shard p) (xs ys : List Item)
      → Takes s s1 xs
      → Takes s1 s2 ys
      → Takes s s2 (xs ++ ys)
  Takes-append s s1 s2 xs ys a b = record {
    sound = b.sound;
    ttls = AreTtls-append t xs ys a.ttls b.ttls;
    splits = λ q.
        both (moved q xs) (moved q ys) (holds p t s q) (holds p t s1 q) (holds p t s2 q)
          (a.splits q) (b.splits q) (a.gone q)
        ∙ ap (λ o. or_else o (holds p t s2 q)) (sym (moved-append q xs ys));
    gone = λ q v e.
        gone_both (moved q xs) (moved q ys) (holds p t s1 q) (holds p t s2 q) v (b.splits q)
          (a.gone q) (b.gone q) (sym (moved-append q xs ys) ∙ e);
    amount = omega (arith, a.amount, b.amount, length-append xs ys);
  }

  -- what is taken out of one sub-shard
  Takes-sub :
      (s : Shard p) (i : ℕ) (sub rest : SubShard p) (taken : List Item) (full : Bool)
      → IsSound p t s
      → get_elem? s.subs i ≡ some sub
      → Took t sub.entries rest.entries taken full
      → Takes s (put p s i rest) taken
  Takes-sub s i sub rest taken full w here k = record {
    sound = put-IsSound p t s i sub rest w here left;
    ttls = k.ttls;
    splits = λ q. elim (ℕ_discrete i (sub_index 8 q)) [
      | yes e ↦
          holds_before p t s i sub rest w here left q e
          ∙ k.splits q
          ∙ ap (or_else (moved q taken)) (sym (holds_self p t s i sub rest w here left q e))
      | no n ↦
          sym (holds_other p t s i sub rest w here left q n)
          ∙ ap (λ o. or_else o (holds p t (put p s i rest) q)) (sym (elsewhere q n))
    ];
    gone = λ q v e. holds_self p t s i sub rest w here left q (at q v e) ∙ k.gone q v e;
    amount = omega (arith, k.amount, size-put p t s i sub rest w here left);
  }
    where
      left : IsPlace p t i rest
      left = record {
        distinct = k.distinct;
        live = k.live;
        placed = λ q e h. (w.places i sub here).placed q e (k.part q e h);
      }

      at : (q v : Str) → moved q taken ≡ some v → i ≡ sub_index 8 q
      at q v e = elim (Option-cases (lookup str_dec q sub.entries)) [
        | inl none_there ↦ absurd (
            ground (
              arith,
              sym (ap value_of none_there)
                  ∙ k.splits q
                  ∙ ap (λ o. or_else o (value_in q rest.entries)) e,
            ))
        | inr (x, found) ↦ sym ((w.places i sub here).placed q x found)
      ]

      elsewhere : (q : Str) → ¬ (i ≡ sub_index 8 q) → moved q taken ≡ none
      elsewhere q n = elim (Option-cases (moved q taken)) [
        | inl e ↦ e
        | inr (v, e) ↦ absurd (n (at q v e))
      ]

  -- The sub-shards from `i` on are empty.
  abbrev AreEmpty : Shard p → ℕ → Type 0
  AreEmpty s i =
      (j : ℕ) (sub : SubShard p) → i ≤ j → get_elem? s.subs j ≡ some sub → sub.entries ≡ []

  no_elem : (l : List (SubShard p)) (j : ℕ) → length l ≤ j → get_elem? l j ≡ none
  no_elem [] j h = refl
  no_elem (x ∷ l) zero h = absurd (omega (arith, h))
  no_elem (x ∷ l) (suc j) h = no_elem l j (omega (arith, h))

  -- The loop of `ExtractN`, with the items so far; it takes nothing out only if it has enough items or
  -- there is nothing left.
  extract_from-Takes :
      (rounds i n : ℕ) (s : Shard p) (items : List Item)
      → IsSound p t s
      → i + rounds ≡ 8
      → (s' : Shard p) × (taken : List Item) × (extract_from p rounds i n t (λ k. t) s items
          ≡ returns (s', items ++ taken))
        × Takes s s' taken
        × (taken ≡ [] → length items < n → AreEmpty s i)
  unfolding extract_from
  extract_from-Takes zero i n s items w h = (
    s,
    [],
    ap (λ x. returns (s, x)) (sym (append-nil items)),
    Takes-none s w,
    λ e lt j sub le here.
        absurd (ground (arith, sym here ∙ no_elem s.subs j (omega (arith, h, le, w.eight)))),
  )
  extract_from-Takes (suc rounds) i n s items w h = elim (Bool-cases (ltb (length items) n)) [
    | inr enough ↦ (
      s,
      [],
      rw enough (ap (λ x. returns (s, x)) (sym (append-nil items))),
      Takes-none s w,
      λ e lt. absurd (ground (arith, enough, lt)),
    )
    | inl wants ↦
        let (sub, here) = get_elem?-some s.subs i (omega (arith, h, w.eight)) in
        let place = w.places i sub here in
        let (rest, taken, full, run, k, some_taken) =
          extract_loop-Took p t n sub items sub.entries refl place.distinct place.live in
        let a = Takes-sub s i sub rest taken full w here k in
        let found : sub_at p s i ≡ returns sub = unfold sub_at in rw (here, sub_at) refl in
        let start : extract_from p (suc rounds) i n t (λ k. t) s items ≡ (
            if full
            then returns (put p s i rest, items ++ taken)
            else extract_from p rounds (i + 1) n t (λ k. t) (put p s i rest) (items ++ taken)) =
          ap (λ b. if b then (sub_at p s i >>= visiting rounds i n s items) else returns (s, items))
            wants
          ∙ ap (λ d. d >>= visiting rounds i n s items) found
          ∙ ap
              (λ o.
                if o.2
                then returns (put p s i o.0, o.1)
                else extract_from p rounds (i + 1) n t (λ k. t) (put p s i o.0) o.1)
              run in
        elim (Bool-cases full) [
          | inl stop ↦ (
            put p s i rest,
            taken,
            start ∙ rw stop refl,
            a,
            λ e lt. absurd (ground (arith, sym stop ∙ (some_taken (ap length e)).1)),
          )
          | inr more ↦
              let (s', taken', run', b, empty) =
                extract_from-Takes rounds (i + 1) n (put p s i rest) (items ++ taken) a.sound
                  (omega (arith, h)) in
              (
                s',
                taken ++ taken',
                start
                    ∙ rw more (run' ∙ ap (λ x. returns (s', x)) (append_assoc items taken taken')),
                Takes-append s (put p s i rest) s' taken taken' a b,
                λ e lt j x le there.
                    let (e1, e2) = nil_parts taken taken' e in
                    elim (ℕ_discrete i j) [
                      | yes same ↦
                          ap (λ (y : SubShard p). y.entries)
                            (some_injective x sub
                              (sym there ∙ ap (get_elem? s.subs) (sym same) ∙ here))
                          ∙ (some_taken (ap length e1)).0
                      | no ne ↦
                          empty e2 (omega (arith, lt, length-append items taken, ap length e1)) j x
                            (omega (arith, le, ne))
                            (get_elem?-set_ne s.subs {i = i} {j = j} rest ne ∙ there)
                    ],
              )
        ]
  ]
    where
      visiting : ℕ → ℕ → ℕ → Shard p → List Item → SubShard p → Panics (Shard p × List Item)
      visiting rounds i n s items sub =
          let o = Sub.extract_loop p n t (λ k. t) sub items sub.entries in
          if o.2
          then returns (put p s i o.0, o.1)
          else extract_from p rounds (i + 1) n t (λ k. t) (put p s i o.0) o.1

  -- `ExtractN` on a sound shard, which has no bound and no entry that expired by the time `t` of the
  -- call, does not panic. The values of a key are then in the shard or among the items, the items have
  -- times to live that end before the clock does, and the shard has as many entries less as there are
  -- items. If some are asked for and none came out, the shard had nothing.
  pub extract_n-Takes :
      (n : ℕ) (s : Shard p)
      → IsSound p t s
      → (s' : Shard p) × (taken : List Item) × (extract_n p n t (λ k. t) s ≡ returns (s', taken))
        × Takes s s' taken
        × ((q : Str) → 0 < n → taken ≡ [] → holds p t s q ≡ none)
  unfolding extract_n
  extract_n-Takes n s w =
      let (s', taken, run, k, empty) = extract_from-Takes 8 0 n s [] w refl in
      (
        s',
        taken,
        run,
        k,
        λ q positive e.
            let i = sub_index 8 q in
            let (sub, here) = get_elem?-some s.subs i (omega (arith, w.eight, sub_index-lt q)) in
            value_at-some p t s.subs i sub q here
            ∙ ap (value_in q) (empty e positive i sub (omega arith) here)
            ∙ nothing_in q,
      )
    where
      nothing_in : (q : Str) → value_in q [] ≡ none
      nothing_in q = unfold lookup in refl
