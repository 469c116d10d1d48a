-- ===== src/Rehash/Incremental/Steps.antt =====
-- rehash/incremental.go: single steps, and runs of them.
use mcache.Prelude.{
  ℕ, zero, suc, ◌+◌, ◌<◌, ◌≤◌, ◌≡◌, refl, sym, ap, ◌∙◌, true, false, none, some, List, [], ◌∷◌, Str,
  leb, length, get_elem?, if◌then◌else◌, not, arith, inl, inr, Bool-cases, Option-cases, ℕ_discrete,
  length-set, get_elem?-some, get_elem?-set_self,
}
use mcache.Prelude.Panics.{returns, ◌>>=◌}
use mcache.Shard.Sub.{Item}
use mcache.Rehash.Shards.{or_else-none, Shard, Laws, or_else, moved, old_shard_index}
use mcache.Rehash.Shards.Tables.{
  view, view-outside, total-set, view-at, move-view, bound, AreSound, IsPlaced, some_injective,
}
use mcache.Rehash.Incremental.{Incremental, Progress, advance, migrate, step, run}
use mcache.Rehash.Incremental.Keeps.{
  contents, IsSound, remaining, remaining-on, remaining-off, taken, extraction, left, items,
  contents-taken, taken-IsSound, taken-empty,
}

module _ (sh : Shard) (w : Laws sh) where
  -- what a step leaves: a sound state with the same contents, of which less is left to migrate
  pub record Follows (r : Incremental sh) (index : Str → ℕ) (table : List sh.State)
      (out : Incremental sh × List sh.State × Progress) : Type 0 where
    pub sound : IsSound sh w out.0 index out.1
    pub same : (k : Str) → contents sh w out.0 index out.1 k ≡ contents sh w r index table k
    pub less : r.rehashing ≡ true → remaining sh w out.0 < remaining sh w r
    pub done : out.2.done ≡ not out.0.rehashing

  module _ (r : Incremental sh) (index : Str → ℕ) (table : List sh.State)
      (i : IsSound sh w r index table) (on : r.rehashing ≡ true)
      (empty : (s : sh.State) (k : Str)
        → get_elem? r.old_shards r.rehash_idx ≡ some s
        → w.holds s k ≡ none) where
    -- the shards up to the index are empty
    empty_upto :
        (j : ℕ) (s : sh.State) (k : Str)
        → j < r.rehash_idx + 1
        → get_elem? r.old_shards j ≡ some s
        → w.holds s k ≡ none
    empty_upto j s k h e = elim (ℕ_discrete j r.rehash_idx) [
      | yes p ↦ empty s k (ap (get_elem? r.old_shards) (sym p) ∙ e)
      | no n ↦ i.passed j s k (omega arith) e
    ]

    view-none :
        (j : ℕ) (k : Str)
        → length r.old_shards ≤ r.rehash_idx + 1
        → view sh w r.old_shards j k ≡ none
    view-none j k h = elim (Option-cases (get_elem? r.old_shards j)) [
      | inl e ↦ view-outside sh w r.old_shards j k e
      | inr (s, e) ↦
          view-at sh w r.old_shards j s k e
          ∙ empty_upto j s k (omega (arith, bound r.old_shards j s e)) e
    ]

    advance-Follows : Follows r index table ((advance sh r []).0, table, (advance sh r []).1)
    advance-Follows = elim (Bool-cases (leb (length r.old_shards) (r.rehash_idx + 1))) [
      | inl last ↦ rw last (record {
        sound = record {
          in_range = i.in_range;
          new_sound = i.new_sound;
          new_placed = i.new_placed;
          reach = λ e. ground (arith, e);
          old_sound = λ j s e. ground (arith, e);
          placed = λ j s k v e. ground (arith, e);
          apart = λ k v e. absurd (ground (arith, sym e ∙ view-outside sh w [] _ k refl));
          passed = λ j s k h e. ground (arith, e);
          pointer = λ e. ground (arith, e);
          idle = λ e. refl;
          batch = i.batch;
        };
        same = λ k. ap (or_else (view sh w table (index k) k)) (
            view-outside sh w [] _ k refl
            ∙ sym (view-none (old_shard_index k r.old_mask) k (ground (arith, last))));
        less = λ e. omega (arith, remaining-on sh w r on, remaining-off sh w _ refl, i.pointer on);
        done = refl;
      })
      | inr more ↦ rw more (record {
        sound = record {
          in_range = i.in_range;
          new_sound = i.new_sound;
          new_placed = i.new_placed;
          reach = i.reach;
          old_sound = i.old_sound;
          placed = i.placed;
          apart = i.apart;
          passed = empty_upto;
          pointer = λ e. ground (arith, more);
          idle = i.idle;
          batch = i.batch;
        };
        same = λ k. refl;
        less = λ e. omega (
          arith,
          remaining-on sh w r on,
          remaining-on sh w (record r { rehash_idx = r.rehash_idx + 1 }) on,
          i.pointer on,
        );
        done = ap not (sym on);
      })
    ]

  module _ (r : Incremental sh) (index : Str → ℕ) (table : List sh.State)
      (i : IsSound sh w r index table) (on : r.rehashing ≡ true) (old : sh.State)
      (here : get_elem? r.old_shards r.rehash_idx ≡ some old) where
    abbrev after : Incremental sh
    after = taken sh w r (left sh w r index table i on old here)

    remaining-after :
        remaining sh w after + length (items sh w r index table i on old here) ≡ remaining sh w r
    remaining-after =
        let rest = left sh w r index table i on old here in
        omega (
          arith,
          remaining-on sh w r on,
          remaining-on sh w after on,
          length-set r.old_shards r.rehash_idx rest,
          total-set sh w r.old_shards r.rehash_idx old rest here,
          (extraction sh w r index table i on old here).4.amount,
        )

    module _ (table' : List sh.State) (new_sound : AreSound sh w table')
        (new_placed : IsPlaced sh w index table') (same : length table' ≡ length table)
        (shows : (k : Str)
          → view sh w table' (index k) k
            ≡ or_else
                (moved k (items sh w r index table i on old here))
                (view sh w table (index k) k)) where
      finished :
          (its : List Item)
          → items sh w r index table i on old here ≡ its
          → Follows r index table ((advance sh after its).0, table', (advance sh after its).1)
      finished [] e =
          let rest = left sh w r index table i on old here in
          let q =
            taken-IsSound sh w r index table i on old here table' new_sound new_placed same shows in
          let c =
            contents-taken sh w r index table i on old here table' new_sound new_placed same
              shows in
          let none_left =
            taken-empty sh w r index table i on old here table' new_sound new_placed same shows e in
          let own : get_elem? after.old_shards r.rehash_idx ≡ some rest =
            get_elem?-set_self r.old_shards r.rehash_idx rest (i.pointer on) in
          let f =
            advance-Follows after index table' q on (λ s k h.
              ap (λ t. w.holds t k) (some_injective s rest (sym h ∙ own)) ∙ none_left k) in
          record {
            sound = f.sound;
            same = λ k. f.same k ∙ c k;
            less = λ h. omega (arith, f.less on, remaining-after);
            done = f.done;
          }
      finished (it ∷ its) e = record {
        sound =
            taken-IsSound sh w r index table i on old here table' new_sound new_placed same shows;
        same =
            contents-taken sh w r index table i on old here table' new_sound new_placed same shows;
        less = λ h. omega (arith, remaining-after, ap length e);
        done = ap not (sym on);
      }

  -- A step from a sound state returns, for shards that keep their laws, by which nothing expires or
  -- is evicted. It leaves a sound state,
  -- in which a lookup in the new table and then in the old one finds what it found before; while
  -- a rehash is under way, less is left to migrate; and it answers whether the rehash is done.
  pub step-Follows :
      (r : Incremental sh) (index : Str → ℕ) (table : List sh.State)
      → IsSound sh w r index table
      → (out : Incremental sh × List sh.State × Progress) × (step sh r index table ≡ returns out)
        × Follows r index table out
  unfolding step
  step-Follows r index table i = elim (Bool-cases r.rehashing) [
    | inr off ↦ (
      (r, table, record { done = true; just_completed = false }),
      rw off refl,
      record {
        sound = i;
        same = λ k. refl;
        less = λ e. absurd (ground (arith, sym e ∙ off));
        done = ap not (sym off);
      },
    )
    | inl on ↦
        let (old, here) = get_elem?-some r.old_shards r.rehash_idx (i.pointer on) in
        let its = items sh w r index table i on old here in
        let (table', m, sound, put, same, shows) =
          move-view sh w index its table (extraction sh w r index table i on old here).3 i.new_sound
            i.new_placed i.in_range in
        let q = taken sh w r (left sh w r index table i on old here) in
        let out = advance sh q its in
        (
          (out.0, table', out.1),
          ap
                (λ b.
                  if b
                  then migrate sh r index table
                  else returns (r, table, record { done = true; just_completed = false }))
                on
              ∙ rw (here, migrate) (rw ((extraction sh w r index table i on old here).1, m) refl),
          finished r index table i on old here table' sound put same shows its refl,
        )
  ]

  -- when no rehash is under way, the new table has everything
  pub settled :
      (r : Incremental sh) (index : Str → ℕ) (table : List sh.State)
      → IsSound sh w r index table
      → r.rehashing ≡ false
      → (k : Str) → view sh w table (index k) k ≡ contents sh w r index table k
  settled r index table i off k =
      sym (or_else-none (view sh w table (index k) k))
      ∙ ap (or_else (view sh w table (index k) k)) (
          sym (
            ap (λ t. view sh w t (old_shard_index k r.old_mask) k) (i.idle off)
            ∙ view-outside sh w [] _ k refl))

  left_over :
      (r : Incremental sh) (index : Str → ℕ) (table : List sh.State)
      → IsSound sh w r index table
      → remaining sh w r ≤ 0
      → r.rehashing ≡ false
  left_over r index table i h = elim (Bool-cases r.rehashing) [
    | inr off ↦ off
    | inl on ↦ absurd (omega (arith, h, remaining-on sh w r on, i.pointer on))
  ]

  -- From a sound state, for shards that keep their laws, by which nothing expires or is evicted, the
  -- steps of a run end the rehash: as many as there are entries and shards left to migrate are enough. What a lookup in the new
  -- table and then in the old one found before, the new table alone then has.
  pub run-Migrates :
      (fuel : ℕ) (r : Incremental sh) (index : Str → ℕ) (table : List sh.State)
      → IsSound sh w r index table
      → remaining sh w r ≤ fuel
      → (out : Incremental sh × List sh.State) × (run sh fuel r index table ≡ returns out)
        × (out.0.rehashing ≡ false)
        × ((k : Str) → view sh w out.1 (index k) k ≡ contents sh w r index table k)
  unfolding run
  run-Migrates zero r index table i h =
      let off = left_over r index table i h in ((r, table), refl, off, settled r index table i off)
  run-Migrates (suc fuel) r index table i h = elim (Bool-cases r.rehashing) [
    | inr off ↦ (
      (r, table),
      ap
          (λ b.
            if b
            then (step sh r index table >>= λ out. run sh fuel out.0 index out.1)
            else returns (r, table))
          off,
      off,
      settled r index table i off,
    )
    | inl on ↦
        let (out, e, f) = step-Follows r index table i in
        let (end, g, off, same) =
          run-Migrates fuel out.0 index out.1 f.sound (omega (arith, f.less on, h)) in
        (
          end,
          rw e (rw g (ap (λ b. if b then returns end else returns (r, table)) on)),
          off,
          λ k. same k ∙ f.same k,
        )
  ]
