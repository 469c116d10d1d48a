-- ===== src/Shard/Sub/Extract.antt =====
-- shard.go: what `ExtractN` takes out of one sub-shard, at a time `t` at which no entry has expired.
use mcache.Prelude.{
  ℕ, zero, suc, ◌+◌, ◌-◌, ◌^◌, ◌≡◌, ◌<◌, ◌⊎◌, inl, inr, refl, sym, ap, ◌∙◌, Bool, true, false,
  Option, none, some, List, [], ◌∷◌, ◌++◌, Str, str_dec, ltb, leb, length, arith, Bool-cases,
  if_pos, if_neg,
}
use mathlib.Core.List.{append_assoc, append-nil}
use mathlib.Core.Path.{subst}
use mcache.Prelude.Int.{ℤ, pos, negsuc}
use mcache.Prelude.Decimal.{add_int64}
use mcache.Prelude.Dict.{Dict, lookup, delete, IsDistinct, delete_absent}
use mcache.Policy.{EvictionPolicy}
use mcache.Shard.Entry.{CacheEntry, new_entry, is_expired}
use mcache.Shard.Sub.{SubShard, Item, item_ttl, item_of, extract_loop, drop_entry}
use mcache.Rehash.Shards.{or_else, or_else-none, moved, AreTtls}

abbrev pub value_of : Option CacheEntry → Option Str
value_of none = none
value_of (some e) = some e.value

abbrev pub value_in : Str → Dict Str CacheEntry → Option Str
value_in q m = value_of (lookup str_dec q m)

module _ (t : ℕ) where
  -- No expiry, or one that is still to come.
  abbrev pub IsLive : ℤ → Type 0
  IsLive (pos n) = (n ≡ 0) ⊎ ((t < n) × (n < 2 ^ 63))
  IsLive (negsuc n) = ⊥

  abbrev pub AreLive : Dict Str CacheEntry → Type 0
  AreLive [] = Unit
  AreLive (e ∷ m) = IsLive e.1.expires_at × AreLive m

  -- A time to live that ends before the clock does.
  abbrev pub IsTtl : ℤ → Type 0
  IsTtl (pos n) = (n ≡ 0) ⊎ (t + n < 2 ^ 63)
  IsTtl (negsuc n) = Unit

  pub new_entry-IsLive : (v : Str) (ttl : ℤ) → IsTtl ttl → IsLive (new_entry t v ttl).expires_at
  unfolding new_entry add_int64
  new_entry-IsLive v (pos n) (inl e) = rw e (inl refl)
  new_entry-IsLive v (pos zero) (inr h) = inl refl
  new_entry-IsLive v (pos (suc n)) (inr h) =
      let end : (new_entry t v (pos (suc n))).expires_at ≡ pos (t + suc n) = ground (arith, h) in
      subst IsLive (sym end) (inr (omega arith, h))
  new_entry-IsLive v (negsuc n) h =
      let end : (new_entry t v (negsuc n)).expires_at ≡ pos 0 = ground arith in
      subst IsLive (sym end) (inl refl)

  pub not_expired : (e : CacheEntry) → IsLive e.expires_at → is_expired t e ≡ false
  unfolding is_expired
  not_expired e h = go e.expires_at refl h
    where
      go : (x : ℤ) → e.expires_at ≡ x → IsLive x → is_expired t e ≡ false
      go (pos n) f (inl z) = rw (f, z) refl
      go (pos zero) f (inr (l, b)) = rw f refl
      go (pos (suc n)) f (inr (l, b)) =
          let later : ltb t (suc n) ≡ true = ground (arith, l) in rw f (ground (arith, later))
      go (negsuc n) f h = absurd h

  pub live-item_ttl :
      (e : CacheEntry) → IsLive e.expires_at → (ttl : ℤ) × (item_ttl t t e ≡ some ttl) × IsTtl ttl
  unfolding item_ttl
  live-item_ttl e h = go e.expires_at refl h
    where
      go :
          (x : ℤ)
          → e.expires_at ≡ x
          → IsLive x
          → (ttl : ℤ) × (item_ttl t t e ≡ some ttl) × IsTtl ttl
      go (pos n) f (inl z) = (pos 0, rw (f, z) refl, inl refl)
      go (pos n) f (inr (l, b)) =
          let later : ltb t n ≡ true = ground (arith, l) in
          let positive : ltb 0 n ≡ true = ground (arith, l) in
          (pos (n - t), rw f (ground (arith, later, positive)), inr (omega (arith, l, b)))
      go (negsuc n) f h = absurd h

-- What is taken out of the entries `m`, as items, when `rest` is left; `full` is an early return.
pub record Took (t : ℕ) (m rest : Dict Str CacheEntry) (taken : List Item) (full : Bool)
    : Type 0 where
  pub part :
      (q : Str) (e : CacheEntry) → lookup str_dec q rest ≡ some e → lookup str_dec q m ≡ some e
  pub distinct : IsDistinct str_dec rest
  pub live : AreLive t rest
  pub ttls : AreTtls (IsTtl t) taken
  pub splits : (q : Str) → value_in q m ≡ or_else (moved q taken) (value_in q rest)
  pub gone : (q v : Str) → moved q taken ≡ some v → value_in q rest ≡ none
  pub amount : length rest + length taken ≡ length m
  pub all : full ≡ false → rest ≡ []

module _ (t : ℕ) where
  Took-none : (m : Dict Str CacheEntry) → IsDistinct str_dec m → AreLive t m → Took t m m [] true
  unfolding moved
  Took-none m d l = record {
    part = λ q e h. h;
    distinct = d;
    live = l;
    ttls = tt;
    splits = λ q. refl;
    gone = λ q v h. absurd (ground (arith, h));
    amount = omega arith;
    all = λ h. absurd (ground (arith, h));
  }

  Took-end : Took t [] [] [] false
  unfolding moved
  Took-end = record {
    part = λ q e h. h;
    distinct = tt;
    live = tt;
    ttls = tt;
    splits = λ q. refl;
    gone = λ q v h. absurd (ground (arith, h));
    amount = refl;
    all = λ h. refl;
  }

  -- a key that is not among the entries is not among what is taken of them, nor left
  Took-absent :
      (m rest : Dict Str CacheEntry) (taken : List Item) (full : Bool) (q : Str)
      → Took t m rest taken full
      → lookup str_dec q m ≡ none
      → (moved q taken ≡ none) × (lookup str_dec q rest ≡ none)
  Took-absent m rest taken full q w h =
      let whole : or_else (moved q taken) (value_in q rest) ≡ none =
        sym (w.splits q) ∙ ap value_of h in
      (ground (arith, whole), ground (arith, whole))

  Took-cons :
      (e : Str × CacheEntry) (m rest : Dict Str CacheEntry) (taken : List Item) (full : Bool)
      (ttl : ℤ)
      → lookup str_dec e.0 m ≡ none
      → IsTtl t ttl
      → Took t m rest taken full
      → Took t (e ∷ m) rest (item_of e ttl ∷ taken) full
  unfolding lookup moved
  Took-cons e m rest taken full ttl new l w =
      let (a, b) = Took-absent m rest taken full e.0 w new in
      record {
        part = λ q x h. elim (str_dec e.0 q) [
          | yes p ↦ absurd (ground (arith, sym h ∙ ap (λ k. lookup str_dec k rest) (sym p) ∙ b))
          | no n ↦ if_neg (str_dec e.0 q) n (some e.1) (lookup str_dec q m) ∙ w.part q x h
        ];
        distinct = w.distinct;
        live = w.live;
        ttls = (l, w.ttls);
        splits = λ q. elim (str_dec e.0 q) [
          | yes p ↦
              let a' : moved q taken ≡ none = ap (λ k. moved k taken) (sym p) ∙ a in
              rw
                (
                  a',
                  if_pos (str_dec e.0 q) p (some e.1) (lookup str_dec q m),
                  if_pos (str_dec e.0 q) p (some e.1.value) none,
                )
                refl
          | no n ↦
              rw
                (
                  if_neg (str_dec e.0 q) n (some e.1) (lookup str_dec q m),
                  if_neg (str_dec e.0 q) n (some e.1.value) none,
                )
                (w.splits q
                  ∙ ap (λ o. or_else o (value_in q rest)) (sym (or_else-none (moved q taken))))
        ];
        gone = λ q v h. elim (str_dec e.0 q) [
          | yes p ↦ ap value_of (ap (λ k. lookup str_dec k rest) (sym p) ∙ b)
          | no n ↦ w.gone q v (
              sym (or_else-none (moved q taken))
              ∙ ap (or_else (moved q taken)) (sym (if_neg (str_dec e.0 q) n (some e.1.value) none))
              ∙ h)
        ];
        amount = omega (arith, w.amount);
        all = w.all;
      }

module _ (p : EvictionPolicy) (t n : ℕ) where
  drop-head :
      (s : SubShard p) (e : Str × CacheEntry) (m : Dict Str CacheEntry)
      → s.entries ≡ e ∷ m
      → lookup str_dec e.0 m ≡ none
      → (drop_entry p s e.0).entries ≡ m
  unfolding delete
  drop-head s e m h new =
      ap (delete str_dec e.0) h
      ∙ if_pos (str_dec e.0 e.0) refl (delete str_dec e.0 m) (e ∷ delete str_dec e.0 m)
      ∙ delete_absent str_dec e.0 m new

  -- The loop over all entries of a sub-shard, none of which has expired: it appends the items that it
  -- takes out, at least one if there is any.
  pub extract_loop-Took :
      (s : SubShard p) (items : List Item) (m : Dict Str CacheEntry)
      → s.entries ≡ m
      → IsDistinct str_dec m
      → AreLive t m
      → (rest : SubShard p) × (taken : List Item) × (full : Bool) × (extract_loop p n t
            (λ k. t)
            s
            items
            m
          ≡ (rest, items ++ taken, full))
        × Took t m rest.entries taken full
        × (length taken ≡ 0 → (m ≡ []) × (full ≡ false))
  unfolding extract_loop
  extract_loop-Took s items [] h d l = (
    s,
    [],
    false,
    ap (λ x. (s, x, false)) (sym (append-nil items)),
    subst (λ x. Took t [] x [] false) (sym h) (Took-end t),
    λ z. (refl, refl),
  )
  extract_loop-Took s items (e ∷ m) h (new, d) (le, l) =
      let (ttl, it, good) = live-item_ttl t e.1 le in
      let s' = drop_entry p s e.0 in
      let left = drop-head s e m h new in
      let none_yet : Took t m s'.entries [] true =
        subst (λ x. Took t m x [] true) (sym left) (Took-none t m d l) in
      elim (Bool-cases (leb n (length (items ++ item_of e ttl ∷ [])))) [
        | inl stop ↦ (
          s',
          item_of e ttl ∷ [],
          true,
          rw (it, extract_loop) (rw stop refl),
          Took-cons t e m s'.entries [] true ttl new good none_yet,
          λ z. absurd (omega (arith, z)),
        )
        | inr more ↦
            let (rest, taken, full, run, w, some_taken) =
              extract_loop-Took s' (items ++ item_of e ttl ∷ []) m left d l in
            (
              rest,
              item_of e ttl ∷ taken,
              full,
              rw (it, extract_loop)
                  (rw more (
                    run
                    ∙ ap (λ x. (rest, x, full)) (append_assoc items (item_of e ttl ∷ []) taken))),
              Took-cons t e m rest.entries taken full ttl new good w,
              λ z. absurd (omega (arith, z)),
            )
      ]
