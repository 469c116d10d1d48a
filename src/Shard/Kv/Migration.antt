-- ===== src/Shard/Kv/Migration.antt =====
-- shard.go as a shard of rehash/: its operations on string values at a time `t`, which keep the laws of
-- such a shard without a bound.
pub mod Items
pub mod Laws
pub mod Example
use mcache.Prelude.{
  ℕ, zero, suc, ◌+◌, ◌%◌, ◌≡◌, ◌<◌, refl, sym, ap, ◌∙◌, Bool, true, false, Option, none, some, List,
  [], ◌∷◌, Str, str_dec, ite, if_pos, if_neg, length, get_elem?, set, arith, inl, inr, Option-cases,
  Bool-cases, is_some, get_elem?-some, ltb, if◌then◌else◌, ◌&&◌, ◌⊎◌, ℕ_discrete,
}
use mathlib.Core.Path.{subst}
use mcache.Prelude.Int.{ℤ, pos}
use mcache.Prelude.Panics.{Panics, returns, panic, ◌>>=◌}
use mcache.Prelude.Dict.{
  Dict, lookup, insert, delete, delete_absent, lookup-insert, lookup-delete, insert-IsDistinct,
  delete-IsDistinct,
}
use mcache.Policy.{EvictionPolicy}
use mcache.Shard.Entry.{CacheEntry, new_entry, is_expired}
use mcache.Shard.Sub as Sub
use mcache.Shard.Sub.{SubShard}
use mcache.Shard.Sub.Extract.{value_of, value_in, IsTtl, new_entry-IsLive, not_expired}
use mcache.Shard.Kv.{Shard, sub_index, sub_at, put, get, set_key, del, new_shard, place}
use mcache.Shard.Kv.Places.{
  IsPlace, IsSound, value_at, holds, size, value_at-some, put-IsSound, holds-put, holds_self,
  holds_before, holds_other, AreLive-lookup, AreLive-insert, AreLive-delete,
}

value_of-ite :
    {P : Type 0} (d : Dec P) (a b : Option CacheEntry)
    → value_of (ite d a b) ≡ ite d (value_of a) (value_of b)
value_of-ite (yes h) a b = refl
value_of-ite (no n) a b = refl

pub sub_index-lt : (key : Str) → sub_index 8 key < 8
unfolding sub_index
sub_index-lt key = omega arith

module _ (p : EvictionPolicy) (t : ℕ) where
  inserted-IsPlace :
      (key : Str) (e : CacheEntry) (sub sub' : SubShard p)
      → IsPlace p t (sub_index 8 key) sub
      → Sub.Extract.IsLive t e.expires_at
      → sub'.entries ≡ insert str_dec key e sub.entries
      → IsPlace p t (sub_index 8 key) sub'
  inserted-IsPlace key e sub sub' w l h = record {
    distinct = rw h (insert-IsDistinct str_dec key e sub.entries w.distinct);
    live = rw h (AreLive-insert t key e sub.entries l w.live);
    placed = λ q x f. elim (str_dec key q) [
      | yes same ↦ ap (sub_index 8) (sym same)
      | no n ↦ w.placed q x (
          sym (if_neg (str_dec key q) n (some e) (lookup str_dec q sub.entries))
          ∙ sym (lookup-insert str_dec key q e sub.entries)
          ∙ ap (lookup str_dec q) (sym h)
          ∙ f)
    ];
  }

  deleted-IsPlace :
      (i : ℕ) (key : Str) (sub sub' : SubShard p)
      → IsPlace p t i sub
      → sub'.entries ≡ delete str_dec key sub.entries
      → IsPlace p t i sub'
  deleted-IsPlace i key sub sub' w h = record {
    distinct = rw h (delete-IsDistinct str_dec key sub.entries w.distinct);
    live = rw h (AreLive-delete t key sub.entries w.live);
    placed = λ q x f. elim (str_dec key q) [
      | yes same ↦ absurd (
          ground (
            arith,
            sym f
                ∙ ap (lookup str_dec q) h
                ∙ lookup-delete str_dec key q sub.entries
                ∙ if_pos (str_dec key q) same none (lookup str_dec q sub.entries),
          ))
      | no n ↦ w.placed q x (
          sym (if_neg (str_dec key q) n none (lookup str_dec q sub.entries))
          ∙ sym (lookup-delete str_dec key q sub.entries)
          ∙ ap (lookup str_dec q) (sym h)
          ∙ f)
    ];
  }

  module _ (s : Shard p) (w : IsSound p t s) (key : Str) where
    there : (sub : SubShard p) × (get_elem? s.subs (sub_index 8 key) ≡ some sub)
    there = get_elem?-some s.subs (sub_index 8 key) (omega (arith, w.eight, sub_index-lt key))

    sub_at-there : sub_at p s (place p s key) ≡ returns there.0
    unfolding sub_at
    sub_at-there =
        let e : get_elem? s.subs (place p s key) ≡ some there.0 =
          ap (λ n. get_elem? s.subs (sub_index n key)) w.number ∙ there.1 in
        rw (e, sub_at) refl

    own : IsPlace p t (sub_index 8 key) there.0
    own = w.places (sub_index 8 key) there.0 there.1

    -- an operation that returns the shard with another sub-shard
    abbrev changed : SubShard p → Shard p
    changed sub' = put p s (sub_index 8 key) sub'

    same_place : (sub' : SubShard p) → put p s (place p s key) sub' ≡ changed sub'
    same_place sub' = ap (λ n. put p s (sub_index n key) sub') w.number

    set_unbounded :
        (v : Str) (ttl : ℤ)
        → (sub' : SubShard p) × (Sub.set p t 0 there.0 key v ttl ≡ some (sub', []))
          × (sub'.entries ≡ insert str_dec key (new_entry t v ttl) there.0.entries)
    unfolding Sub.set Sub.evict_loop
    set_unbounded v ttl = elim (Bool-cases (is_some (lookup str_dec key there.0.entries))) [
      | inl old ↦ (
        record {
          entries = insert str_dec key (new_entry t v ttl) there.0.entries;
          policy = p.on_access there.0.policy key;
        },
        rw old refl,
        refl,
      )
      | inr new ↦ (
        record {
          entries = insert str_dec key (new_entry t v ttl) there.0.entries;
          policy = p.on_add there.0.policy key;
        },
        rw new refl,
        refl,
      )
    ]

    -- the part of `Set` behind the lookup of the sub-shard
    abbrev storing : Str → ℤ → SubShard p → Panics (Option (Shard p × List Str))
    storing v ttl sub = elim (Sub.set p t s.max_sub_size sub key v ttl) [
      | none ↦ returns none
      | some out ↦ returns (some (put p s (place p s key) out.0, out.1))
    ]

    -- `Set` on a sound shard without a bound returns, evicts nothing, and changes the key only.
    pub set_key-holds :
        (v : Str) (ttl : ℤ)
        → IsTtl t ttl
        → (s' : Shard p) × (set_key p t s key v ttl ≡ returns (some (s', [])))
          × IsSound p t s'
          × ((q : Str) → holds p t s' q ≡ ite (str_dec key q) (some v) (holds p t s q))
    unfolding set_key
    set_key-holds v ttl l =
        let (sub', e, h) = set_unbounded v ttl in
        let e' : Sub.set p t s.max_sub_size there.0 key v ttl ≡ some (sub', []) =
          ap (λ n. Sub.set p t n there.0 key v ttl) w.bound ∙ e in
        let w' =
          inserted-IsPlace key (new_entry t v ttl) there.0 sub' own (new_entry-IsLive t v ttl l)
            h in
        (
          changed sub',
          ap (λ d. d >>= storing v ttl) sub_at-there
              ∙ ap
                  (λ o. elim o as (λ x. Panics (Option (Shard p × List Str))) [
                    | none ↦ returns none
                    | some out ↦ returns (some (put p s (place p s key) out.0, out.1))
                  ])
                  e'
              ∙ ap (λ x. returns (some (x, []))) (same_place sub'),
          put-IsSound p t s (sub_index 8 key) there.0 sub' w there.1 w',
          holds-put p t s (sub_index 8 key) there.0 sub' w there.1 w' key (some v) refl (λ q.
              ap (value_in q) h
              ∙ ap value_of (lookup-insert str_dec key q (new_entry t v ttl) there.0.entries)
              ∙ value_of-ite (str_dec key q) (some (new_entry t v ttl))
                  (lookup str_dec q there.0.entries)
              ∙ ap (λ x. ite (str_dec key q) (some x) (value_in q there.0.entries))
                  (value-new v ttl)),
        )
      where
        value-new : (v : Str) (ttl : ℤ) → (new_entry t v ttl).value ≡ v
        value-new v ttl = unfold new_entry in refl

    -- `Del` on a sound shard returns, and changes the key only.
    pub del-holds :
        (s' : Shard p) × (del p s key ≡ returns s')
        × IsSound p t s'
        × ((q : Str) → holds p t s' q ≡ ite (str_dec key q) none (holds p t s q))
    unfolding del Sub.del
    del-holds =
        let (sub', e, h) = deleted in
        let w' = deleted-IsPlace (sub_index 8 key) key there.0 sub' own h in
        let kept = put-IsSound p t s (sub_index 8 key) there.0 sub' w there.1 w' in
        (
          record (changed sub') {
            sets = delete str_dec key s.sets;
            hashes = delete str_dec key s.hashes;
            lists = delete str_dec key s.lists;
          },
          ap (λ d. d >>= λ sub. returns (without (put p s (place p s key) (Sub.del p sub key))))
                sub_at-there
              ∙ ap (λ x. returns (without x)) (same_place (Sub.del p there.0 key) ∙ ap changed e),
          record {
            eight = kept.eight;
            number = kept.number;
            bound = kept.bound;
            places = kept.places;
          },
          holds-put p t s (sub_index 8 key) there.0 sub' w there.1 w' key none refl (λ q.
              ap (value_in q) h
              ∙ ap value_of (lookup-delete str_dec key q there.0.entries)
              ∙ value_of-ite (str_dec key q) none (lookup str_dec q there.0.entries)),
        )
      where
        without : Shard p → Shard p
        without x = record x {
          sets = delete str_dec key s.sets;
          hashes = delete str_dec key s.hashes;
          lists = delete str_dec key s.lists;
        }

        deleted :
            (sub' : SubShard p) × (Sub.del p there.0 key ≡ sub')
            × (sub'.entries ≡ delete str_dec key there.0.entries)
        deleted = elim (Bool-cases (is_some (lookup str_dec key there.0.entries))) [
          | inl old ↦ (Sub.drop_entry p there.0 key, rw old refl, refl)
          | inr new ↦ (
            there.0,
            rw new refl,
            sym (delete_absent str_dec key there.0.entries (ground (arith, new))),
          )
        ]

    -- `get` on a sound shard returns what the shard holds, and leaves it as it is.
    pub get-holds :
        (s' : Shard p) × (get p t t s key ≡ returns (s', holds p t s key))
        × IsSound p t s'
        × ((q : Str) → holds p t s' q ≡ holds p t s q)
    unfolding get Sub.get Sub.read
    get-holds =
        let kept = put-IsSound p t s (sub_index 8 key) there.0 there.0 w there.1 own in
        (
          changed there.0,
          ap
                (λ d. d >>= λ sub.
                  returns
                    (put p s (place p s key) (Sub.get p t t sub key).0, (Sub.get p t t sub key).1))
                sub_at-there
              ∙ ap (λ o. returns (put p s (place p s key) o.0, o.1)) read_only
              ∙ ap (λ x. returns (x, value_in key there.0.entries)) (same_place there.0)
              ∙ ap (λ x. returns (changed there.0, x))
                  (sym (value_at-some p t s.subs (sub_index 8 key) there.0 key there.1)),
          kept,
          λ q. unchanged q,
        )
      where
        read_only : Sub.get p t t there.0 key ≡ (there.0, value_in key there.0.entries)
        read_only = elim (Option-cases (lookup str_dec key there.0.entries)) [
          | inl none_there ↦ rw (none_there, Sub.get) refl
          | inr (e, found) ↦
              let alive = not_expired t e (AreLive-lookup t there.0.entries key e own.live found) in
              rw (found, Sub.get) (rw alive refl)
        ]

        unchanged : (q : Str) → holds p t (changed there.0) q ≡ holds p t s q
        unchanged q = elim (ℕ_discrete (sub_index 8 key) (sub_index 8 q)) [
          | yes e ↦
              holds_self p t s (sub_index 8 key) there.0 there.0 w there.1 own q e
              ∙ sym (holds_before p t s (sub_index 8 key) there.0 there.0 w there.1 own q e)
          | no n ↦ holds_other p t s (sub_index 8 key) there.0 there.0 w there.1 own q n
        ]
