-- ===== src/Policy/Lru/Laws.antt =====
-- lru.go and the laws of eviction policies.
use mcache.Prelude.{
  suc, ◌≡◌, ◌≤◌, ◌<◌, refl, Bool, none, some, List, [], ◌∷◌, Str, str_dec, ltb, if◌then◌else◌,
  is_some, ite, arith, true, false, Option-cases, inl, inr,
}
use mcache.Prelude.Dict.{lookup, delete, lookup-insert, lookup-delete}
use mcache.Prelude.Keys.{remove_key, count, count-remove_key}
use mcache.Policy.Interface.{Laws}
use mcache.Policy.Lru.{LruPolicy, new_lru, on_access, on_add, on_remove, back, evict, lru}

abbrev pub tracks : LruPolicy → Str → Bool
tracks p q = is_some (lookup str_dec q p.nodes)

-- Each key stands once in the order, and the map leads to it exactly when it stands there.
pub record IsSound (p : LruPolicy) : Type 0 where
  pub once : (q : Str) → count q p.order ≤ 1
  pub linked :
      (q : Str) → lookup str_dec q p.nodes ≡ (if ltb 0 (count q p.order) then some q else none)

count-cons :
    (q k : Str) (l : List Str) → count q (k ∷ l) ≡ ite (str_dec k q) (suc (count q l)) (count q l)
unfolding count
count-cons q k l = ground arith

new_lru-IsSound : IsSound new_lru
unfolding count lookup
new_lru-IsSound = record { once = λ q. omega arith; linked = λ q. refl }

module _ (p : LruPolicy) (k : Str) (s : IsSound p) where
  on_access-tracks : (q : Str) → tracks (on_access p k) q ≡ tracks p q
  unfolding on_access
  on_access-tracks q = ground arith

  on_access-IsSound : IsSound (on_access p k)
  unfolding on_access
  on_access-IsSound = record {
    once = λ q. ground (
      arith,
      s.once q,
      s.once k,
      s.linked q,
      s.linked k,
      count-cons q k (remove_key k p.order),
      count-remove_key q k p.order,
    );
    linked = λ q. ground (
      arith,
      s.once q,
      s.once k,
      s.linked q,
      s.linked k,
      count-cons q k (remove_key k p.order),
      count-remove_key q k p.order,
    );
  }

  on_add-tracks : (q : Str) → tracks (on_add p k) q ≡ ite (str_dec k q) true (tracks p q)
  unfolding on_add
  on_add-tracks q = ground (arith, lookup-insert str_dec k q k p.nodes)

  on_add-IsSound : IsSound (on_add p k)
  unfolding on_add
  on_add-IsSound = record {
    once = λ q. ground (
      arith,
      s.once q,
      s.linked q,
      s.linked k,
      count-cons q k p.order,
      count-cons q k (remove_key k p.order),
      count-remove_key q k p.order,
    );
    linked = λ q. ground (
      arith,
      s.once q,
      s.linked q,
      s.linked k,
      count-cons q k p.order,
      count-cons q k (remove_key k p.order),
      count-remove_key q k p.order,
      lookup-insert str_dec k q k p.nodes,
    );
  }

  -- `Remove` of a key's element and of its entry
  dropped : LruPolicy
  dropped = record { order = remove_key k p.order; nodes = delete str_dec k p.nodes }

  dropped-IsSound : IsSound dropped
  unfolding dropped
  dropped-IsSound = record {
    once = λ q. ground (arith, s.once q, count-remove_key q k p.order);
    linked = λ q. ground (
      arith,
      s.once q,
      s.linked q,
      count-remove_key q k p.order,
      lookup-delete str_dec k q p.nodes,
    );
  }

  on_remove-tracks : (q : Str) → tracks (on_remove p k) q ≡ ite (str_dec k q) false (tracks p q)
  unfolding on_remove
  on_remove-tracks q = ground (arith, lookup-delete str_dec k q p.nodes)

  on_remove-IsSound : IsSound (on_remove p k)
  unfolding on_remove dropped
  on_remove-IsSound = record {
    once = λ q. ground (arith, s.once q, s.linked k, dropped-IsSound.once q);
    linked = λ q. ground (arith, s.linked q, s.linked k, dropped-IsSound.linked q);
  }

pub back-count : (l : List Str) (k : Str) → back l ≡ some k → 0 < count k l
unfolding back count
back-count [] k h = cc
back-count (e ∷ []) k h = ground arith
back-count (e ∷ e' ∷ l) k h = ground (arith, back-count (e' ∷ l) k)

count-back : (l : List Str) (q : Str) → back l ≡ none → count q l ≡ 0
unfolding back count
count-back [] q h = refl
count-back (e ∷ []) q h = cc
count-back (e ∷ e' ∷ l) q h = absurd (some_back e' l h)
  where
    some_back : (e' : Str) (l : List Str) → back (e' ∷ l) ≡ none → ⊥
    some_back e [] h = cc
    some_back e (e' ∷ l) h = some_back e' l h

module _ (p : LruPolicy) (s : IsSound p) where
  evict-IsSound : IsSound (evict p).0
  unfolding evict dropped
  evict-IsSound = elim (Option-cases (back p.order)) [
    | inl empty ↦ rw (empty, evict) s
    | inr (k, last) ↦ rw (last, evict) (dropped-IsSound p k s)
  ]

  evict-none : (q : Str) → (evict p).1 ≡ none → tracks p q ≡ false
  unfolding evict
  evict-none q h = ground (arith, s.linked q, count-back p.order q)

  evict-some : (k : Str) → (evict p).1 ≡ some k → tracks p k ≡ true
  unfolding evict
  evict-some k h = ground (arith, s.linked k, back-count p.order k)

  evict-tracks :
      (k q : Str)
      → (evict p).1 ≡ some k
      → tracks (evict p).0 q ≡ ite (str_dec k q) false (tracks p q)
  unfolding evict
  evict-tracks k q h = ground (arith, lookup-delete str_dec k q p.nodes)

-- The LRU policy keeps all the laws of a policy.
pub lru-Laws : Laws lru IsSound tracks
unfolding lookup
lru-Laws = record {
  fresh_sound = new_lru-IsSound;
  fresh_tracks = λ q. refl;
  access_sound = on_access-IsSound;
  access_tracks = λ p k q s. on_access-tracks p k s q;
  add_sound = on_add-IsSound;
  add_tracks = λ p k q s. on_add-tracks p k s q;
  remove_sound = on_remove-IsSound;
  remove_tracks = λ p k q s. on_remove-tracks p k s q;
  evict_sound = evict-IsSound;
  evict_none = λ p q s. evict-none p s q;
  evict_some = λ p k s. evict-some p s k;
  evict_tracks = λ p k q s. evict-tracks p s k q;
}
