-- ===== src/Rehash/Batch/Equivalence.antt =====
-- rehash/: a step of the batch rehasher and the steps of the incremental one.
use mcache.Prelude.{
  ◌⊎◌, get_elem?-set_self, ℕ, zero, suc, ◌+◌, ◌<◌, ◌≤◌, ◌≡◌, refl, sym, ap, ◌∙◌, true, false,
  Option, none, some, List, [], ◌∷◌, Str, leb, length, get_elem?, set, drop, if◌then◌else◌, inl,
  inr, Bool-cases, get_elem?-some, drop_all, length-set, arith,
}
use mcache.Prelude.Panics.{Panics, returns, panic, ◌>>=◌}
use mcache.Shard.Sub.{Item}
use mcache.Rehash.Shards.{Shard, move}
use mcache.Rehash.Incremental.{Incremental, Progress, new_incremental, advance, migrate, run}
use mcache.Rehash.Incremental
use mcache.Rehash.Batch.{drain}
use mcache.Rehash.Shards.{Laws}
use mcache.Rehash.Shards.Tables.{total, view}
use mcache.Rehash.Incremental.Keeps.{contents, remaining-on, IsSound}
use mcache.Rehash.Incremental.Steps.{run-Migrates}
use mcache.Rehash.Shards.Tables.{some_injective}

drop-split {ℓ} :
    {A : Type ℓ} (i : ℕ) (l : List A) (s : A)
    → get_elem? l i ≡ some s
    → drop i l ≡ s ∷ drop (suc i) l
drop-split i [] s e = absurd (ground (arith, e))
drop-split zero (x ∷ l) s e = ap (λ y. y ∷ l) (some_injective x s e)
drop-split (suc i) (x ∷ l) s e = drop-split i l s e

drop-set {ℓ} : {A : Type ℓ} (i : ℕ) (l : List A) (s : A) → drop (suc i) (set l i s) ≡ drop (suc i) l
drop-set i [] s = refl
drop-set zero (x ∷ l) s = refl
drop-set (suc i) (x ∷ l) s = drop-set i l s

next {ℓ} : {A : Type ℓ} (i : ℕ) (l : List A) → drop (suc i) l ≡ drop (i + 1) l
next i l = ap (λ n. drop n l) {x = suc i} (omega arith)

Panics-cases {ℓ} : {A : Type ℓ} (p : Panics A) → (p ≡ panic) ⊎ ((a : A) × (p ≡ returns a))
Panics-cases panic = inl refl
Panics-cases (returns a) = inr (a, refl)

module _ (sh : Shard) (index : Str → ℕ) (mask : ℕ) where
  -- an incremental rehasher under way, with batches of 1000
  abbrev pub at : List sh.State → ℕ → Incremental sh
  at old idx = record {
    rehashing = true;
    old_shards = old;
    old_mask = mask;
    rehash_idx = idx;
    batch_size = 1000;
  }

  -- the table at the end of a run that ended
  abbrev pub ended : Incremental sh × List sh.State → Panics (Option (List sh.State))
  ended out = returns (if out.0.rehashing then none else some out.1)

  abbrev pub runs : ℕ → Incremental sh → List sh.State → Panics (Option (List sh.State))
  runs fuel r table = run sh fuel r index table >>= ended

  abbrev finished : ℕ → Incremental sh
  finished idx = record {
    rehashing = false;
    old_shards = [];
    old_mask = mask;
    rehash_idx = idx;
    batch_size = 1000;
  }

  runs-finished :
      (fuel idx : ℕ) (table : List sh.State) → runs fuel (finished idx) table ≡ returns (some table)
  unfolding run
  runs-finished zero idx table = refl
  runs-finished (suc fuel) idx table = refl

  -- what a step does with the items that it took out
  abbrev stepped :
      List sh.State
      → ℕ
      → List Item
      → List sh.State
      → Panics (Incremental sh × List sh.State × Progress)
  stepped old idx items t =
      returns ((advance sh (at old idx) items).0, t, (advance sh (at old idx) items).1)

  abbrev round :
      ℕ → List sh.State → ℕ → List Item → Panics (List sh.State) → Panics (Option (List sh.State))
  round fuel old idx items d =
      ((d >>= stepped old idx items) >>= λ o. run sh fuel o.0 index o.1) >>= ended

  after_move :
      (fuel : ℕ) (d : Panics (List sh.State)) (old : List sh.State) (idx : ℕ) (s : sh.State)
      (it : Item) (items : List Item) (rest : List sh.State)
      → ((t : List sh.State) → drain sh fuel index (s ∷ rest) t ≡ runs fuel (at old idx) t)
      → (d >>= λ t. drain sh fuel index (s ∷ rest) t) ≡ round fuel old idx (it ∷ items) d
  after_move fuel (returns t) old idx s it items rest h = h t
  after_move fuel panic old idx s it items rest h = refl

  drain-nil :
      (fuel : ℕ) (table : List sh.State) → drain sh fuel index [] table ≡ returns (some table)
  unfolding drain
  drain-nil zero table = refl
  drain-nil (suc fuel) table = refl

  abbrev Agrees : ℕ → Type 0
  Agrees fuel =
      (old : List sh.State) (idx : ℕ) (table : List sh.State)
      → idx < length old
      → drain sh fuel index (drop idx old) table ≡ runs fuel (at old idx) table

  -- nothing was taken out of the shard at the index
  after_none :
      (fuel : ℕ) (old : List sh.State) (idx : ℕ) (table : List sh.State)
      → Agrees fuel
      → drain sh fuel index (drop (idx + 1) old) table ≡ round fuel old idx [] (returns table)
  after_none fuel old idx table h = elim (Bool-cases (leb (length old) (idx + 1))) [
    | inl last ↦
        ap (λ l. drain sh fuel index l table) (drop_all (idx + 1) old (ground (arith, last)))
        ∙ drain-nil fuel table
        ∙ rw last (sym (runs-finished fuel (idx + 1) table))
    | inr more ↦ rw more (h old (idx + 1) table (ground (arith, more)))
  ]

  -- one round, by the items that it took out of a shard, of which `s'` is left
  rounds :
      (fuel : ℕ) (old : List sh.State) (idx : ℕ) (table : List sh.State) (s' : sh.State)
      (items : List Item)
      → Agrees fuel
      → idx < length old
      → (elim items as (λ x. Panics (Option (List sh.State))) [
        | [] ↦ drain sh fuel index (drop (idx + 1) old) table
        | it ∷ its ↦
            move sh index (it ∷ its) table >>= λ t. drain sh fuel index (s' ∷ drop (idx + 1) old) t
      ])
        ≡ round fuel (set old idx s') idx items (move sh index items table)
  unfolding move
  rounds fuel old idx table s' [] h lt =
      ap (λ l. drain sh fuel index l table)
        (sym (next idx old) ∙ sym (drop-set idx old s') ∙ next idx (set old idx s'))
      ∙ after_none fuel (set old idx s') idx table h
  rounds fuel old idx table s' (it ∷ its) h lt =
      let split : s' ∷ drop (idx + 1) old ≡ drop idx (set old idx s') =
        ap (λ l. s' ∷ l) (sym (next idx old) ∙ sym (drop-set idx old s'))
        ∙ sym (drop-split idx (set old idx s') s' (get_elem?-set_self old idx s' lt)) in
      after_move fuel (move sh index (it ∷ its) table) (set old idx s') idx s' it its
        (drop (idx + 1) old)
        (λ t.
          ap (λ l. drain sh fuel index l t) split
          ∙ h (set old idx s') idx t (omega (arith, lt, length-set old idx s')))

  -- With the same fuel, the loops of the batch rehasher's step and the steps of an incremental
  -- rehasher with batches of 1000, from any shard of the old table on, both end, and with the same
  -- table, or both run out of fuel, or both panic.
  pub drain-runs :
      (fuel : ℕ) (old : List sh.State) (idx : ℕ) (table : List sh.State)
      → idx < length old
      → drain sh fuel index (drop idx old) table ≡ runs fuel (at old idx) table
  unfolding drain run Incremental.step
  drain-runs zero old idx table lt =
      let (s, here) = get_elem?-some old idx lt in rw (drop-split idx old s here) refl
  drain-runs (suc fuel) old idx table lt =
      let (s, here) = get_elem?-some old idx lt in
      ap (λ l. drain sh (suc fuel) index l table)
        (drop-split idx old s here ∙ ap (λ l. s ∷ l) (next idx old))
      ∙ elim (Panics-cases (sh.extract_n s 1000)) [
        | inl e ↦ rw (e, migrate, here, e) refl
        | inr (out, e) ↦
            rw (e, migrate, here, e) (rounds fuel old idx table out.0 out.1 (drain-runs fuel) lt)
      ]

module _ (sh : Shard) (w : Laws sh) (index : Str → ℕ) (mask : ℕ) where
  -- From tables that a rehash can start with, for shards that keep their laws, by which nothing
  -- expires or is evicted, the loops of the batch rehasher's step end: as many rounds as there are entries and shards are enough. What a lookup in
  -- the new table and then in the old one found before, the new table alone then has.
  pub drain-Migrates :
      (fuel : ℕ) (old table : List sh.State)
      → IsSound sh w (at sh index mask old 0) index table
      → total sh w old + length old ≤ fuel
      → (table' : List sh.State) × (drain sh fuel index old table ≡ returns (some table'))
        × ((k : Str)
            → view sh w table' (index k) k ≡ contents sh w (at sh index mask old 0) index table k)
  drain-Migrates fuel old table i enough =
      let r = at sh index mask old 0 in
      let (out, e, off, same) =
        run-Migrates sh w fuel r index table i (omega (arith, enough, remaining-on sh w r refl)) in
      (
        out.1,
        drain-runs sh index mask fuel old 0 table (i.pointer refl)
            ∙ ap (λ d. d >>= ended sh index mask) e
            ∙ ap (λ b. returns (if b then none else some out.1)) off,
        same,
      )
