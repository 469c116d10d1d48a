-- ===== src/Rehash/Shards/Tables.antt =====
-- rehash/: what a table of shards holds, and how that changes with one of its shards.
use mcache.Prelude.{
  replicate, ℕ_discrete, if_pos, inl, inr, ◌⊎◌, if_neg, ℕ, zero, suc, ◌+◌, ◌<◌, ◌≡◌, refl, sym, ap,
  ◌∙◌, Option, none, some, List, [], ◌∷◌, Str, str_dec, ite, length, get_elem?, set, arith,
  length-set, get_elem?-set_self, get_elem?-set_ne, get_elem?-some,
}
use mcache.Prelude.Panics.{returns}
use mcache.Shard.Sub.{Item}
use mathlib.Core.Path.{subst}
use mcache.Rehash.Shards.{Shard, Laws, AreTtls, or_else, moved, move}

pub some_injective {ℓ} : {A : Type ℓ} (a b : A) → some a ≡ some b → a ≡ b
some_injective a b e = ap (λ o. elim o [ none ↦ a | some x ↦ x ]) e

pub bound {ℓ} : {A : Type ℓ} (l : List A) (i : ℕ) (a : A) → get_elem? l i ≡ some a → i < length l
bound [] i a e = ground (arith, e)
bound (x ∷ l) zero a e = omega arith
bound (x ∷ l) (suc i) a e = omega (arith, bound l i a e)

or_else-ite {ℓ κ} :
    {P : Type ℓ} {A : Type κ} (d : Dec P) (v : A) (x : Option A)
    → ite d (some v) x ≡ or_else (ite d (some v) none) x
or_else-ite (yes p) v x = refl
or_else-ite (no n) v x = refl

pub or_else_assoc {ℓ} :
    {A : Type ℓ} (a b c : Option A) → or_else a (or_else b c) ≡ or_else (or_else a b) c
or_else_assoc none b c = refl
or_else_assoc (some a) b c = refl

pub get_elem?-replicate {ℓ} :
    {A : Type ℓ} (n : ℕ) (a : A) (i : ℕ) (x : A) → get_elem? (replicate n a) i ≡ some x → x ≡ a
get_elem?-replicate zero a i x e = absurd (ground (arith, e))
get_elem?-replicate (suc n) a zero x e = some_injective x a (sym e)
get_elem?-replicate (suc n) a (suc i) x e = get_elem?-replicate n a i x e

module _ (sh : Shard) (w : Laws sh) where
  -- what a table holds under a key, looked up at an index
  pub view : List sh.State → ℕ → Str → Option Str
  view table i k = elim (get_elem? table i) [ none ↦ none | some s ↦ w.holds s k ]

  abbrev pub AreSound : List sh.State → Type 0
  AreSound table = (i : ℕ) (s : sh.State) → get_elem? table i ≡ some s → w.IsSound s

  -- Every key that a shard holds belongs to it.
  abbrev pub IsPlaced : (Str → ℕ) → List sh.State → Type 0
  IsPlaced index table =
      (i : ℕ) (s : sh.State) (k v : Str)
      → get_elem? table i ≡ some s
      → w.holds s k ≡ some v
      → index k ≡ i

  abbrev pub total : List sh.State → ℕ
  total [] = 0
  total (s ∷ table) = w.size s + total table

  pub view-at :
      (table : List sh.State) (i : ℕ) (s : sh.State) (k : Str)
      → get_elem? table i ≡ some s
      → view table i k ≡ w.holds s k
  unfolding view
  view-at table i s k e = rw (e, view) refl

  pub view-outside :
      (table : List sh.State) (i : ℕ) (k : Str) → get_elem? table i ≡ none → view table i k ≡ none
  unfolding view
  view-outside table i k e = rw (e, view) refl

  pub view-set_self :
      (table : List sh.State) (i : ℕ) (s : sh.State) (k : Str)
      → i < length table
      → view (set table i s) i k ≡ w.holds s k
  view-set_self table i s k h = view-at (set table i s) i s k (get_elem?-set_self table i s h)

  pub view-set_ne :
      (table : List sh.State) (i j : ℕ) (s : sh.State) (k : Str)
      → ¬ (i ≡ j)
      → view (set table i s) j k ≡ view table j k
  unfolding view
  view-set_ne table i j s k h = rw (get_elem?-set_ne table {i = i} {j = j} s h, view) refl

  pub AreSound-set :
      (table : List sh.State) (i : ℕ) (s : sh.State)
      → AreSound table
      → w.IsSound s
      → AreSound (set table i s)
  AreSound-set table i s h hs j t e = elim (ℕ_discrete i j) [
    | no ne ↦ h j t (sym (get_elem?-set_ne table {i = i} {j = j} s ne) ∙ e)
    | yes p ↦
        subst w.IsSound
          (some_injective s t (
            sym (
              get_elem?-set_self table i s (
                subst (λ n. n < length table) (sym p)
                  (omega (arith, bound (set table i s) j t e, length-set table i s))))
            ∙ ap (get_elem? (set table i s)) p
            ∙ e))
          hs
  ]

  pub total-set :
      (table : List sh.State) (i : ℕ) (s t : sh.State)
      → get_elem? table i ≡ some s
      → total (set table i t) + w.size s ≡ total table + w.size t
  total-set [] i s t e = ground (arith, e)
  total-set (x ∷ table) zero s t e = omega (arith, ap w.size (some_injective x s e))
  total-set (x ∷ table) (suc i) s t e = omega (arith, total-set table i s t e)

  -- what stands in a table after one shard is replaced
  pub in_set :
      (table : List sh.State) (i : ℕ) (s : sh.State) (j : ℕ) (t : sh.State)
      → i < length table
      → get_elem? (set table i s) j ≡ some t
      → ((i ≡ j) × (t ≡ s)) ⊎ (¬ (i ≡ j) × (get_elem? table j ≡ some t))
  in_set table i s j t h e = elim (ℕ_discrete i j) [
    | yes p ↦ inl (
      p,
      some_injective t s
          (sym e ∙ ap (get_elem? (set table i s)) (sym p) ∙ get_elem?-set_self table i s h),
    )
    | no n ↦ inr (n, sym (get_elem?-set_ne table {i = i} {j = j} s n) ∙ e)
  ]

  module _ (index : Str → ℕ) (table : List sh.State) (key : Str) (s s' : sh.State)
      (here : get_elem? table (index key) ≡ some s)
      (others : (q : Str) → ¬ (key ≡ q) → w.holds s' q ≡ w.holds s q) where
    -- The shard of a key is replaced by one that differs at this key only.
    pub view-put :
        (q : Str)
        → view (set table (index key) s') (index q) q
          ≡ ite (str_dec key q) (w.holds s' key) (view table (index q) q)
    view-put q = elim (str_dec key q) [
      | yes p ↦
          ap (λ k. view (set table (index key) s') (index k) k) (sym p)
          ∙ view-set_self table (index key) s' key (bound table (index key) s here)
          ∙ sym (if_pos (str_dec key q) p (w.holds s' key) (view table (index q) q))
      | no n ↦ elim (ℕ_discrete (index key) (index q)) [
        | yes e ↦
            view-at _ (index q) s' q (
              ap (get_elem? _) (sym e)
              ∙ get_elem?-set_self table (index key) s' (bound table (index key) s here))
            ∙ others q n
            ∙ sym (view-at table (index q) s q (ap (get_elem? table) (sym e) ∙ here))
            ∙ sym (if_neg (str_dec key q) n (w.holds s' key) (view table (index q) q))
        | no e ↦
            view-set_ne table (index key) (index q) s' q e
            ∙ sym (if_neg (str_dec key q) n (w.holds s' key) (view table (index q) q))
      ]
    ]

    pub IsPlaced-put : IsPlaced index table → IsPlaced index (set table (index key) s')
    IsPlaced-put h j t k v e held =
        elim (in_set table (index key) s' j t (bound table (index key) s here) e) [
          | inr (n, f) ↦ h j t k v f held
          | inl (p, q) ↦ elim (str_dec key k) [
            | yes r ↦ ap index (sym r) ∙ p
            | no r ↦
                h (index key) s k v here (sym (others k r) ∙ ap (λ x. w.holds x k) (sym q) ∙ held)
                ∙ p
          ]
        ]

  set_others :
      (s : sh.State) (it : Item) (q : Str)
      → w.IsTtl it.ttl
      → w.IsSound s
      → ¬ (it.key ≡ q)
      → w.holds (sh.set s it.key it.value it.ttl).0 q ≡ w.holds s q
  set_others s it q l h n =
      w.set_holds s it.key it.value it.ttl q l h
      ∙ if_neg (str_dec it.key q) n (some it.value) (w.holds s q)

  -- one item moved: what the table shows under any key
  view-move_one :
      (index : Str → ℕ) (table : List sh.State) (it : Item) (s : sh.State) (k : Str)
      → w.IsTtl it.ttl
      → AreSound table
      → get_elem? table (index it.key) ≡ some s
      → view (set table (index it.key) (sh.set s it.key it.value it.ttl).0) (index k) k
        ≡ or_else (ite (str_dec it.key k) (some it.value) none) (view table (index k) k)
  view-move_one index table it s k l h e =
      let sound = h (index it.key) s e in
      let s' = (sh.set s it.key it.value it.ttl).0 in
      view-put index table it.key s s' e (λ q. set_others s it q l sound) k
      ∙ ap (λ o. ite (str_dec it.key k) o (view table (index k) k))
          (w.set_holds s it.key it.value it.ttl it.key l sound
            ∙ if_pos (str_dec it.key it.key) refl (some it.value) (w.holds s it.key))
      ∙ or_else-ite (str_dec it.key k) it.value (view table (index k) k)

  -- `move` returns if the indices are in range, and the table then shows the last item with a key,
  -- or what it showed before.
  pub move-view :
      (index : Str → ℕ) (items : List Item) (table : List sh.State)
      → AreTtls w.IsTtl items
      → AreSound table
      → IsPlaced index table
      → ((k : Str) → index k < length table)
      → (table' : List sh.State) × (move sh index items table ≡ returns table')
        × AreSound table'
        × IsPlaced index table'
        × (length table' ≡ length table)
        × ((k : Str) → view table' (index k) k ≡ or_else (moved k items) (view table (index k) k))
  unfolding move moved
  move-view index [] table l h p b = (table, refl, h, p, refl, λ k. refl)
  move-view index (it ∷ items) table (l, ls) h p b =
      let (s, e) = get_elem?-some table (index it.key) (b it.key) in
      let t = set table (index it.key) (sh.set s it.key it.value it.ttl).0 in
      let same : length t ≡ length table = length-set table (index it.key) _ in
      let sound = h (index it.key) s e in
      let (table', m, h', p', long, v) =
        move-view index items t ls
          (AreSound-set table (index it.key) _ h (w.set_sound s it.key it.value it.ttl l sound))
          (IsPlaced-put index table it.key s _ e (λ q. set_others s it q l sound) p)
          (λ k. omega (arith, b k, same)) in
      (
        table',
        rw (e, move) m,
        h',
        p',
        long ∙ same,
        λ k.
            v k
            ∙ ap (or_else (moved k items)) (view-move_one index table it s k l h e)
            ∙ or_else_assoc (moved k items) (ite (str_dec it.key k) (some it.value) none)
                (view table (index k) k),
      )
