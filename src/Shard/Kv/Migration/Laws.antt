-- ===== src/Shard/Kv/Migration/Laws.antt =====
-- shard.go as a shard of rehash/, at a time `t`, and the laws that it keeps as such. The operations are
-- those of shard.go; where one panics or its fuel ends the shard is left as it is, and a sound shard
-- never gets there.
use mcache.Prelude.{
  ℕ, ◌≡◌, refl, sym, ap, ◌∙◌, Option, none, some, List, [], Str, str_dec, get_elem?, replicate,
  length, arith, get_elem?-some,
}
use mathlib.Core.Path.{subst}
use mcache.Prelude.Int.{pos}
use mcache.Prelude.Panics.{Panics, returns, panic}
use mcache.Prelude.Dict.{lookup, IsDistinct}
use mcache.Policy.{EvictionPolicy}
use mcache.Shard.Entry.{CacheEntry}
use mcache.Shard.Sub.{SubShard}
use mcache.Shard.Sub.Extract as Extract
use mcache.Shard.Sub.Extract.{value_in}
use mcache.Shard.Kv as Kv
use mcache.Shard.Kv.{new_shard, effective_sub_shards, sub_max, sub_index}
use mcache.Shard.Kv.Places.{IsSound, holds, size, value_at-some}
use mcache.Shard.Kv.Migration.{sub_index-lt, set_key-holds, del-holds, get-holds}
use mcache.Shard.Kv.Migration.Items.{extract_n-Takes}
use mcache.Rehash.Shards as Shards
use mcache.Rehash.Shards.{Laws}
use mcache.Rehash.Shards.Tables.{get_elem?-replicate}

abbrev returned {ℓ} : {A : Type ℓ} → Panics A → A → A
returned (returns a) d = a
returned panic d = d

-- what `Set` returns
abbrev stored {ℓ} : {A : Type ℓ} → Panics (Option A) → A → A
stored (returns (some a)) d = a
stored (returns none) d = d
stored panic d = d

module _ (p : EvictionPolicy) (t : ℕ) where
  abbrev pub kv_shard : Shards.Shard
  kv_shard = record {
    State = Kv.Shard p;
    fresh = λ max. new_shard p (pos max);
    extract_n = λ s n. Kv.extract_n p n t (λ key. t) s;
    set = λ s key value ttl. stored (Kv.set_key p t s key value ttl) (s, []);
    del = λ s key. returned (Kv.del p s key) s;
    get = λ s key. returned (Kv.get p t t s key) (s, none);
    len = λ s. Kv.len_from p (λ key. t) s.subs;
  }

  new_subs : (new_shard p (pos 0)).subs ≡ replicate 8 (record { entries = []; policy = p.fresh })
  new_subs = unfold new_shard effective_sub_shards in refl

  empty_place :
      (i : ℕ) (sub : SubShard p)
      → get_elem? (new_shard p (pos 0)).subs i ≡ some sub
      → sub.entries ≡ []
  empty_place i sub e =
      ap (λ (x : SubShard p). x.entries)
        (get_elem?-replicate 8 _ i sub (ap (λ l. get_elem? l i) (sym new_subs) ∙ e))

  pub new_shard-IsSound : IsSound p t (new_shard p (pos 0))
  new_shard-IsSound = record {
    eight = ap length new_subs;
    number = unfold new_shard effective_sub_shards in refl;
    bound = unfold new_shard sub_max effective_sub_shards in refl;
    places = λ i sub e.
        let nothing = empty_place i sub e in
        record {
          distinct = subst (IsDistinct str_dec) (sym nothing) tt;
          live = subst (Extract.AreLive t) (sym nothing) tt;
          placed =
              λ q x f. absurd (ground (arith, sym f ∙ ap (lookup str_dec q) nothing ∙ no_entry q));
        };
  }
    where
      no_entry : (q : Str) → lookup {V = CacheEntry} str_dec q [] ≡ none
      no_entry q = unfold lookup in refl

  pub new_shard-holds : (q : Str) → holds p t (new_shard p (pos 0)) q ≡ none
  new_shard-holds q =
      let i = sub_index 8 q in
      let s = new_shard p (pos 0) in
      let (sub, here) =
        get_elem?-some s.subs i (omega (arith, new_shard-IsSound.eight, sub_index-lt q)) in
      value_at-some p t s.subs i sub q here ∙ ap (value_in q) (empty_place i sub here) ∙ no_value q
    where
      no_value : (q : Str) → value_in q [] ≡ none
      no_value q = unfold lookup in refl

  -- A shard of shard.go without a bound, at a time at which none of its entries has expired, keeps the
  -- laws: none of its operations panics, evicts or runs out of fuel.
  unfoldable pub kv_laws : Laws kv_shard
  kv_laws = record {
    IsSound = IsSound p t;
    IsBound = λ max. max ≡ 0;
    IsTtl = Extract.IsTtl t;
    holds = holds p t;
    size = size p t;
    fresh_sound = λ max h. subst (λ n. IsSound p t (new_shard p (pos n))) (sym h) new_shard-IsSound;
    fresh_holds = λ max q h. ap (λ n. holds p t (new_shard p (pos n)) q) h ∙ new_shard-holds q;
    set_sound = λ s k v ttl l w.
        let (s', e, w', h) = set_key-holds p t s w k v ttl l in
        subst (IsSound p t)
          (sym (ap (λ (o : Panics (Option (Kv.Shard p × List Str))). (stored o (s, [])).0) e)) w';
    set_holds = λ s k v ttl q l w.
        let (s', e, w', h) = set_key-holds p t s w k v ttl l in
        ap (λ (o : Panics (Option (Kv.Shard p × List Str))). holds p t (stored o (s, [])).0 q) e
        ∙ h q;
    del_sound = λ s k w.
        let (s', e, w', h) = del-holds p t s w k in
        subst (IsSound p t) (sym (ap (λ o. returned o s) e)) w';
    del_holds = λ s k q w.
        let (s', e, w', h) = del-holds p t s w k in ap (λ o. holds p t (returned o s) q) e ∙ h q;
    get_sound = λ s k w.
        let (s', e, w', h) = get-holds p t s w k in
        subst (IsSound p t)
          (sym (ap (λ (o : Panics (Kv.Shard p × Option Str)). (returned o (s, none)).0) e)) w';
    get_holds = λ s k q w.
        let (s', e, w', h) = get-holds p t s w k in
        ap (λ (o : Panics (Kv.Shard p × Option Str)). holds p t (returned o (s, none)).0 q) e ∙ h q;
    get_finds = λ s k w.
        let (s', e, w', h) = get-holds p t s w k in
        ap (λ (o : Panics (Kv.Shard p × Option Str)). (returned o (s, none)).1) e;
    extracts = λ s n w.
        let (s', taken, e, k, nothing) = extract_n-Takes p t n s w in
        (
          (s', taken),
          e,
          k.sound,
          k.ttls,
          record { splits = k.splits; gone = k.gone; amount = k.amount; nothing = nothing },
        );
  }
