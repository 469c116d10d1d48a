-- ===== src/Cache/Tables.antt =====
-- cache.go: the tables that `New` and `Resize` make.
use mcache.Prelude.{
  ◌⊎◌, ℕ, zero, suc, ◌-◌, ◌<◌, ◌≡◌, refl, sym, ap, ◌∙◌, Bool, true, false, none, List, [], ◌∷◌, Str,
  length, get_elem?, replicate, if◌then◌else◌, inl, inr, Bool-cases, Option-cases, length-replicate,
  arith,
}
use mcache.Prelude.Int.{ℤ, pos, negsuc, pos_part, ltb_ℤ}
use mcache.Prelude.Bits.{bit_and-le}
use mcache.Rehash.Shards.{Shard, Laws, old_shard_index}
use mcache.Rehash.Shards.Tables.{
  get_elem?-replicate, view, view-at, view-outside, AreSound, IsPlaced,
}
use mcache.Rehash.Incremental.{Incremental, start, new_incremental}
use mcache.Rehash.Incremental.Keeps.{IsSound, first_none}
use mcache.Rehash.Incremental.Steps.{settled}
use mcache.Rehash.Rehashers.{incremental}
use mcache.Cache.{
  Event, Answer, ok, on_rehash_start, shard_index, is_invalid_count, per_shard_max, new_cache,
  resize,
}
use mcache.Cache.Contents.{Cached, holding, IsOpen}
use mcache.Cache.Map.{guards}
use mathlib.Core.Path.{subst}

pub old_shard_index-lt : (key : Str) (n : ℕ) → 0 < n → old_shard_index key (n - 1) < n
unfolding old_shard_index
old_shard_index-lt key n h = omega (arith, bit_and-le _ (n - 1))

-- a valid count is positive
valid-pos : (n : ℕ) → is_invalid_count (pos n) ≡ false → 0 < n
unfolding is_invalid_count
valid-pos zero h = absurd (ground (arith, h))
valid-pos (suc n) h = omega arith

guards3 {ℓ} :
    {A : Type ℓ} (a b d : Bool) (x y z t : A)
    → a ≡ false
    → b ≡ false
    → d ≡ false
    → (if a then x else if b then y else if d then z else t) ≡ t
guards3 a b false x y z t p q r = guards a b x y t p q
guards3 a b true x y z t p q r = absurd (ground (arith, r))

second {ℓ} :
    {A : Type ℓ} (a b : Bool) (x y z : A)
    → a ≡ false
    → b ≡ true
    → (if a then x else if b then y else z) ≡ y
second false true x y z p q = refl
second false false x y z p q = absurd (ground (arith, q))
second true b x y z p q = absurd (ground (arith, p))

third {ℓ} :
    {A : Type ℓ} (a b d : Bool) (x y z t : A)
    → a ≡ false
    → b ≡ false
    → d ≡ true
    → (if a then x else if b then y else if d then z else t) ≡ z
third a b true x y z t p q r = guards a b x y z p q
third a b false x y z t p q r = absurd (ground (arith, r))

module _ (sh : Shard) (w : Laws sh) (n max : ℕ) (positive : 0 < n) (fits : w.IsBound max) where
  abbrev pub made : List sh.State
  made = replicate n (sh.fresh max)

  pub made-empty : (i : ℕ) (k : Str) → view sh w made i k ≡ none
  made-empty i k = elim (Option-cases (get_elem? made i)) [
    | inl e ↦ view-outside sh w made i k e
    | inr (s, e) ↦
        view-at sh w made i s k e
        ∙ ap (λ x. w.holds x k) (get_elem?-replicate n (sh.fresh max) i s e)
        ∙ w.fresh_holds max k fits
  ]

  made_sound : AreSound sh w made
  made_sound i s e =
      subst w.IsSound (sym (get_elem?-replicate n (sh.fresh max) i s e)) (w.fresh_sound max fits)

  made-IsPlaced : (index : Str → ℕ) → IsPlaced sh w index made
  made-IsPlaced index i s k v e held = absurd (
      ground (
        arith,
        sym held
            ∙ ap (λ x. w.holds x k) (get_elem?-replicate n (sh.fresh max) i s e)
            ∙ w.fresh_holds max k fits,
      ))

  pub in-made : (key : Str) → old_shard_index key (n - 1) < length made
  in-made key =
      subst (λ m. old_shard_index key (n - 1) < m) (sym (length-replicate n (sh.fresh max)))
        (old_shard_index-lt key n positive)

  -- a table of new shards, and nothing to migrate
  pub made-IsSound :
      (r : Incremental sh)
      → r.rehashing ≡ false
      → r.old_shards ≡ []
      → 0 < r.batch_size
      → IsSound sh w r (λ key. old_shard_index key (n - 1)) made
  made-IsSound r off idle batch = record {
    in_range = in-made;
    new_sound = made_sound;
    old_sound = λ j s e. absurd (ground (arith, sym (ap (λ t. get_elem? t j) idle) ∙ e));
    new_placed = made-IsPlaced (λ key. old_shard_index key (n - 1));
    placed = λ j s k v e. absurd (ground (arith, sym (ap (λ t. get_elem? t j) idle) ∙ e));
    reach = λ e. absurd (ground (arith, sym e ∙ off));
    apart = λ k v e. made-empty (old_shard_index k (n - 1)) k;
    passed = λ j s k h e. absurd (ground (arith, sym (ap (λ t. get_elem? t j) idle) ∙ e));
    pointer = λ e. absurd (ground (arith, sym e ∙ off));
    idle = λ e. idle;
    batch = batch;
  }

  -- a table of new shards, and the table before it to migrate
  pub started-IsSound :
      (r : Incremental sh) (table : List sh.State) (mask : ℕ)
      → IsSound sh w r (λ key. old_shard_index key mask) table
      → IsSound sh w (start sh r table mask) (λ key. old_shard_index key (n - 1)) made
  unfolding start
  started-IsSound r table mask i = record {
    in_range = in-made;
    new_sound = made_sound;
    old_sound = i.new_sound;
    new_placed = made-IsPlaced (λ key. old_shard_index key (n - 1));
    placed = i.new_placed;
    reach = λ e. i.in_range;
    apart = λ k v e. made-empty (old_shard_index k (n - 1)) k;
    passed = λ j s k h. absurd (omega arith);
    pointer = λ e. omega (arith, i.in_range []);
    idle = λ e. absurd (ground (arith, e));
    batch = i.batch;
  }

module _ (sh : Shard) (w : Laws sh) where
  -- `New` with a valid number of shards and no negative time to live makes an open cache that holds
  -- nothing.
  pub new_cache-holding :
      (n : ℕ) (max_size default_ttl : ℤ)
      → is_invalid_count (pos n) ≡ false
      → ltb_ℤ default_ttl (pos 0) ≡ false
      → ((m : ℕ) → w.IsBound (per_shard_max (pos_part max_size) m))
      → w.IsTtl default_ttl
      → (c : Cached sh w) × (new_cache sh (incremental sh) (pos n) max_size default_ttl ≡ ok c)
        × IsOpen sh w c
        × ((q : Str) → holding sh w c q ≡ none)
  unfolding new_cache
  new_cache-holding n max_size default_ttl valid ttl fits lives =
      let m = per_shard_max (pos_part max_size) n in
      (
        _,
        guards _ _ _ _ _ valid ttl,
        record {
          not_closed = refl;
          bound = fits;
          ttl = lives;
          sound =
              made-IsSound sh w n m (valid-pos n valid) (fits n) (new_incremental sh) refl refl
                (omega arith);
        },
        λ q.
            first_none _ _
              (made-empty sh w n m (valid-pos n valid) (fits n) (old_shard_index q (n - 1)) q)
            ∙ view-outside sh w [] _ q refl,
      )

  -- `Resize` of an open cache, whose shards keep their laws, to a valid number of shards, when no
  -- rehash is under way, succeeds; the cache stays open and holds the same as before.
  pub resize-holding :
      (c : Cached sh w) (n : ℕ)
      → IsOpen sh w c
      → is_invalid_count (pos n) ≡ false
      → c.rehasher.rehashing ≡ false
      → (c' : Cached sh w) × (resize sh (incremental sh) c (pos n)
          ≡ (c', on_rehash_start (length c.shards) n ∷ [], ok tt))
        × IsOpen sh w c'
        × ((q : Str) → holding sh w c' q ≡ holding sh w c q)
  unfolding resize start
  resize-holding c n i valid off =
      let m = per_shard_max c.max_size n in
      let positive = valid-pos n valid in
      (
        _,
        guards3 _ _ _ _ _ _ _ i.not_closed valid off,
        record {
          not_closed = i.not_closed;
          bound = i.bound;
          ttl = i.ttl;
          sound = started-IsSound sh w n m positive (i.bound n) c.rehasher c.shards c.mask i.sound;
        },
        λ q.
            first_none _ (view sh w c.shards (old_shard_index q c.mask) q)
              (made-empty sh w n m positive (i.bound n) (old_shard_index q (n - 1)) q)
            ∙ settled sh w c.rehasher (shard_index sh (incremental sh) c) c.shards i.sound off q,
      )

  stays_as :
      {c c' : Cached sh w}
      → IsOpen sh w c
      → c' ≡ c
      → IsOpen sh w c' × ((q : Str) → holding sh w c' q ≡ holding sh w c q)
  stays_as i e = (subst (IsOpen sh w) (sym e) i, λ q. ap (λ x. holding sh w x q) e)

  -- a `Resize` that is refused
  refused :
      (c : Cached sh w) (count : ℤ)
      → c.closed ≡ false
      → (is_invalid_count count ≡ true) ⊎ (c.rehasher.rehashing ≡ true)
      → (resize sh (incremental sh) c count).0 ≡ c
  unfolding resize
  refused c count not_closed h = elim (Bool-cases (is_invalid_count count)) [
    | inl bad ↦
        ap (λ (o : Cached sh w × List Event × Answer (Unit {0})). o.0)
          (second _ _ _ _ _ not_closed bad)
    | inr valid ↦ elim h [
      | inl bad ↦ absurd (ground (arith, sym bad ∙ valid))
      | inr on ↦
          ap (λ (o : Cached sh w × List Event × Answer (Unit {0})). o.0)
            (third _ _ _ _ _ _ _ not_closed valid on)
    ]
  ]

  -- Whatever `Resize` answers, an open cache stays open and holds what it held.
  pub resize-same :
      (c : Cached sh w) (count : ℤ)
      → IsOpen sh w c
      → IsOpen sh w (resize sh (incremental sh) c count).0
        × ((q : Str) → holding sh w (resize sh (incremental sh) c count).0 q ≡ holding sh w c q)
  unfolding is_invalid_count
  resize-same c (negsuc n) i = stays_as i (refused c (negsuc n) i.not_closed (inl refl))
  resize-same c (pos n) i = elim (Bool-cases (is_invalid_count (pos n))) [
    | inl bad ↦ stays_as i (refused c (pos n) i.not_closed (inl bad))
    | inr valid ↦ elim (Bool-cases c.rehasher.rehashing) [
      | inl on ↦ stays_as i (refused c (pos n) i.not_closed (inr on))
      | inr off ↦
          let (c', e, i', same) = resize-holding c n i valid off in
          (
            subst (IsOpen sh w) (sym (ap (λ x. x.0) e)) i',
            λ q. ap (λ x. holding sh w x.0 q) e ∙ same q,
          )
    ]
  ]
