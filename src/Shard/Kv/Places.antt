-- ===== src/Shard/Kv/Places.antt =====
-- shard.go: a shard without a bound, whose entries stand in the sub-shards of their keys and have not
-- expired at a time `t`, with one of its sub-shards replaced.
use mcache.Prelude.{
  ℕ, zero, suc, ◌+◌, ◌≡◌, ◌<◌, refl, sym, ap, ◌∙◌, Option, none, some, List, [], ◌∷◌, Str, str_dec,
  ite, if_pos, if_neg, length, get_elem?, set, arith, ℕ_discrete, length-set, get_elem?-set_self,
  get_elem?-set_ne,
}
use mathlib.Core.Path.{subst}
use mcache.Prelude.Dict.{Dict, lookup, insert, delete, IsDistinct}
use mcache.Policy.{EvictionPolicy}
use mcache.Shard.Entry.{CacheEntry}
use mcache.Shard.Sub.{SubShard}
use mcache.Shard.Sub.Extract.{value_in, IsLive, AreLive}
use mcache.Shard.Kv.{Shard, sub_index, put}
use mcache.Rehash.Shards.Tables.{some_injective, bound}

pub AreLive-lookup :
    (t : ℕ) (m : Dict Str CacheEntry) (q : Str) (e : CacheEntry)
    → AreLive t m
    → lookup str_dec q m ≡ some e
    → IsLive t e.expires_at
unfolding lookup
AreLive-lookup t [] q e l h = absurd (ground (arith, h))
AreLive-lookup t (x ∷ m) q e (lx, l) h = elim (str_dec x.0 q) [
  | yes p ↦
      subst (λ y. IsLive t y.expires_at)
        (some_injective x.1 e (sym (if_pos (str_dec x.0 q) p (some x.1) (lookup str_dec q m)) ∙ h))
        lx
  | no n ↦
      AreLive-lookup t m q e l (sym (if_neg (str_dec x.0 q) n (some x.1) (lookup str_dec q m)) ∙ h)
]

pub AreLive-insert :
    (t : ℕ) (k : Str) (e : CacheEntry) (m : Dict Str CacheEntry)
    → IsLive t e.expires_at
    → AreLive t m
    → AreLive t (insert str_dec k e m)
unfolding insert
AreLive-insert t k e [] h l = (h, tt)
AreLive-insert t k e (x ∷ m) h (lx, l) = elim (str_dec x.0 k) [
  | yes p ↦
      subst (AreLive t) (sym (if_pos (str_dec x.0 k) p ((k, e) ∷ m) (x ∷ insert str_dec k e m)))
        (h, l)
  | no n ↦
      subst (AreLive t) (sym (if_neg (str_dec x.0 k) n ((k, e) ∷ m) (x ∷ insert str_dec k e m)))
        (lx, AreLive-insert t k e m h l)
]

pub AreLive-delete :
    (t : ℕ) (k : Str) (m : Dict Str CacheEntry) → AreLive t m → AreLive t (delete str_dec k m)
unfolding delete
AreLive-delete t k [] l = tt
AreLive-delete t k (x ∷ m) (lx, l) = elim (str_dec x.0 k) [
  | yes p ↦
      subst (AreLive t)
        (sym (if_pos (str_dec x.0 k) p (delete str_dec k m) (x ∷ delete str_dec k m)))
        (AreLive-delete t k m l)
  | no n ↦
      subst (AreLive t)
        (sym (if_neg (str_dec x.0 k) n (delete str_dec k m) (x ∷ delete str_dec k m)))
        (lx, AreLive-delete t k m l)
]

module _ (p : EvictionPolicy) (t : ℕ) where
  -- the entries of the sub-shard `i`
  pub record IsPlace (i : ℕ) (sub : SubShard p) : Type 0 where
    pub distinct : IsDistinct str_dec sub.entries
    pub live : AreLive t sub.entries
    pub placed :
        (q : Str) (e : CacheEntry) → lookup str_dec q sub.entries ≡ some e → sub_index 8 q ≡ i

  -- A shard without a bound, in whose eight sub-shards the keys are distinct and stand where they
  -- belong, and the entries have not expired.
  pub record IsSound (s : Shard p) : Type 0 where
    pub eight : length s.subs ≡ 8
    pub number : s.num_subs ≡ 8
    pub bound : s.max_sub_size ≡ 0
    pub places : (i : ℕ) (sub : SubShard p) → get_elem? s.subs i ≡ some sub → IsPlace i sub

  pub value_at : List (SubShard p) → ℕ → Str → Option Str
  value_at subs i q = elim (get_elem? subs i) [ none ↦ none | some sub ↦ value_in q sub.entries ]

  abbrev pub holds : Shard p → Str → Option Str
  holds s q = value_at s.subs (sub_index 8 q) q

  abbrev total : List (SubShard p) → ℕ
  total [] = 0
  total (sub ∷ subs) = length sub.entries + total subs

  abbrev pub size : Shard p → ℕ
  size s = total s.subs

  pub value_at-some :
      (subs : List (SubShard p)) (i : ℕ) (sub : SubShard p) (q : Str)
      → get_elem? subs i ≡ some sub
      → value_at subs i q ≡ value_in q sub.entries
  unfolding value_at
  value_at-some subs i sub q h = rw (h, value_at) refl

  total-set :
      (subs : List (SubShard p)) (i : ℕ) (sub sub' : SubShard p)
      → get_elem? subs i ≡ some sub
      → total (set subs i sub') + length sub.entries ≡ total subs + length sub'.entries
  total-set [] i sub sub' h = absurd (ground (arith, h))
  total-set (x ∷ subs) zero sub sub' h =
      omega (arith, ap (λ (y : SubShard p). length y.entries) (some_injective x sub h))
  total-set (x ∷ subs) (suc i) sub sub' h = omega (arith, total-set subs i sub sub' h)

  module _ (s : Shard p) (i : ℕ) (sub sub' : SubShard p) (w : IsSound s)
      (here : get_elem? s.subs i ≡ some sub) (w' : IsPlace i sub') where
    in_range : i < length s.subs
    in_range = bound s.subs i sub here

    pub put-IsSound : IsSound (put p s i sub')
    put-IsSound = record {
      eight = length-set s.subs i sub' ∙ w.eight;
      number = w.number;
      bound = w.bound;
      places = λ j x h. elim (ℕ_discrete i j) [
        | no n ↦ w.places j x (sym (get_elem?-set_ne s.subs {i = i} {j = j} sub' n) ∙ h)
        | yes e ↦
            let same : sub' ≡ x = some_injective sub' x (
              sym (get_elem?-set_self s.subs i sub' in_range)
              ∙ ap (get_elem? (set s.subs i sub')) e
              ∙ h) in
            subst (λ y. IsPlace j y) same (subst (λ k. IsPlace k sub') e w')
      ];
    }

    pub holds_self :
        (q : Str) → i ≡ sub_index 8 q → holds (put p s i sub') q ≡ value_in q sub'.entries
    holds_self q e =
        value_at-some (set s.subs i sub') (sub_index 8 q) sub' q
          (ap (get_elem? (set s.subs i sub')) (sym e) ∙ get_elem?-set_self s.subs i sub' in_range)

    pub holds_other : (q : Str) → ¬ (i ≡ sub_index 8 q) → holds (put p s i sub') q ≡ holds s q
    unfolding value_at
    holds_other q n = rw (get_elem?-set_ne s.subs {i = i} {j = sub_index 8 q} sub' n, value_at) refl

    pub holds_before : (q : Str) → i ≡ sub_index 8 q → holds s q ≡ value_in q sub.entries
    holds_before q e =
        value_at-some s.subs (sub_index 8 q) sub q (ap (get_elem? s.subs) (sym e) ∙ here)

    pub size-put : size (put p s i sub') + length sub.entries ≡ size s + length sub'.entries
    size-put = total-set s.subs i sub sub' here

    -- A sub-shard is changed at one of its keys.
    pub holds-put :
        (key : Str) (v : Option Str)
        → i ≡ sub_index 8 key
        → ((q : Str) → value_in q sub'.entries ≡ ite (str_dec key q) v (value_in q sub.entries))
        → (q : Str) → holds (put p s i sub') q ≡ ite (str_dec key q) v (holds s q)
    holds-put key v at h q = elim (ℕ_discrete i (sub_index 8 q)) [
      | yes e ↦ holds_self q e ∙ h q ∙ ap (ite (str_dec key q) v) (sym (holds_before q e))
      | no n ↦
          holds_other q n
          ∙ sym (if_neg (str_dec key q) (λ e. n (at ∙ ap (sub_index 8) e)) v (holds s q))
    ]
