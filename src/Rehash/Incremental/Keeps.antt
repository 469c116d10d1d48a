-- ===== src/Rehash/Incremental/Keeps.antt =====
-- rehash/incremental.go: what a step does to the values in the two tables.
use mcache.Prelude.{
  ℕ, ◌+◌, ◌-◌, ◌<◌, ◌≡◌, refl, sym, ap, ◌∙◌, true, false, Option, none, some, List, [], Str, length,
  get_elem?, set, if◌then◌else◌, arith, inl, inr, Option-cases, ℕ_discrete, length-set,
  get_elem?-set_self,
}
use mcache.Shard.Sub.{Item}
use mcache.Prelude.Panics.{returns}
use mcache.Rehash.Shards.{Shard, Laws, AreTtls, Extracted, or_else, moved, old_shard_index}
use mcache.Rehash.Shards.Tables.{
  view, AreSound, AreSound-set, IsPlaced, in_set, total, view-at, view-set_ne,
}
use mcache.Rehash.Incremental.{Incremental}
use mathlib.Core.Path.{subst}

moved-nil : (k : Str) → moved k [] ≡ none
unfolding moved
moved-nil k = refl

-- What is found in one table and then the other stays the same when an entry that is not moved ...
stays :
    (m n n' o o' : Option Str) → m ≡ none → n' ≡ or_else m n → o' ≡ o → or_else n' o' ≡ or_else n o
stays none n n' o o' e f g = rw (f, g) refl
stays (some v) n n' o o' e f g = absurd (ground (arith, e))

-- ... and when it may have been moved from the second to the first.
moves :
    (m n n' o l o' : Option Str)
    → o ≡ or_else m l
    → n' ≡ or_else m n
    → o' ≡ l
    → ((v : Str) → o ≡ some v → n ≡ none)
    → or_else n' o' ≡ or_else n o
moves none n n' o l o' e f g h = rw (f, g, e) refl
moves (some v) n n' o l o' e f g h = rw (f, h v e, e) refl

pub first_none : (a d : Option Str) → a ≡ none → or_else a d ≡ d
first_none none d e = refl
first_none (some v) d e = absurd (ground (arith, e))

module _ (sh : Shard) (w : Laws sh) where
  -- what a lookup in the new table and then in the old one finds
  abbrev pub contents : Incremental sh → (Str → ℕ) → List sh.State → Str → Option Str
  contents r index table k =
      or_else (view sh w table (index k) k)
        (view sh w r.old_shards (old_shard_index k r.old_mask) k)

  -- A rehash is under way, or there is none. Each entry of the old table stands in its shard, has no
  -- newer one in the new table, and is not in a shard that was passed.
  pub record IsSound (r : Incremental sh) (index : Str → ℕ) (table : List sh.State) : Type 0 where
    pub in_range : (k : Str) → index k < length table
    pub new_sound : AreSound sh w table
    pub old_sound : AreSound sh w r.old_shards
    pub new_placed : IsPlaced sh w index table
    pub placed : IsPlaced sh w (λ k. old_shard_index k r.old_mask) r.old_shards
    pub reach : r.rehashing ≡ true → (k : Str) → old_shard_index k r.old_mask < length r.old_shards
    pub apart :
        (k v : Str)
        → view sh w r.old_shards (old_shard_index k r.old_mask) k ≡ some v
        → view sh w table (index k) k ≡ none
    pub passed :
        (i : ℕ) (s : sh.State) (k : Str)
        → i < r.rehash_idx
        → get_elem? r.old_shards i ≡ some s
        → w.holds s k ≡ none
    pub pointer : r.rehashing ≡ true → r.rehash_idx < length r.old_shards
    pub idle : r.rehashing ≡ false → r.old_shards ≡ []
    pub batch : 0 < r.batch_size

  -- the entries and the shards that are left to migrate
  pub remaining : Incremental sh → ℕ
  remaining r =
      if r.rehashing then total sh w r.old_shards + (length r.old_shards - r.rehash_idx) else 0

  pub remaining-on :
      (r : Incremental sh)
      → r.rehashing ≡ true
      → remaining r ≡ total sh w r.old_shards + (length r.old_shards - r.rehash_idx)
  unfolding remaining
  remaining-on r on = rw (on, remaining) refl

  pub remaining-off : (r : Incremental sh) → r.rehashing ≡ false → remaining r ≡ 0
  unfolding remaining
  remaining-off r off = rw (off, remaining) refl

  -- the state with the shard at the index replaced by what is left of it
  abbrev pub taken : Incremental sh → sh.State → Incremental sh
  taken r old' = record r { old_shards = set r.old_shards r.rehash_idx old' }

  module _ (r : Incremental sh) (index : Str → ℕ) (table : List sh.State)
      (i : IsSound r index table) (on : r.rehashing ≡ true) (old : sh.State)
      (here : get_elem? r.old_shards r.rehash_idx ≡ some old) where
    sound : w.IsSound old
    sound = i.old_sound r.rehash_idx old here

    pub extraction :
        (out : sh.State × List Item) × (sh.extract_n old r.batch_size ≡ returns out)
        × w.IsSound out.0
        × AreTtls w.IsTtl out.1
        × Extracted (w.holds old) (w.holds out.0) (w.size old) (w.size out.0) r.batch_size out.1
    extraction = w.extracts old r.batch_size sound

    abbrev pub left : sh.State
    left = extraction.0.0

    abbrev pub items : List Item
    items = extraction.0.1

    splits : (k : Str) → w.holds old k ≡ or_else (moved k items) (w.holds left k)
    splits k = extraction.4.splits k

    -- an item that is moved was in its place
    moved_here : (k v : Str) → moved k items ≡ some v → old_shard_index k r.old_mask ≡ r.rehash_idx
    moved_here k v e =
        i.placed r.rehash_idx old k v here (splits k ∙ ap (λ o. or_else o (w.holds left k)) e)

    -- what was held and was not moved is left
    left_holds :
        (k v : Str) → w.holds left k ≡ some v → (moved k items ≡ none) × (w.holds old k ≡ some v)
    left_holds k v e = elim (Option-cases (moved k items)) [
      | inl n ↦ (n, splits k ∙ ap (λ o. or_else o (w.holds left k)) n ∙ e)
      | inr found ↦ absurd (ground (arith, sym e ∙ extraction.4.gone k found.0 found.1))
    ]

    old_here :
        (k : Str)
        → old_shard_index k r.old_mask ≡ r.rehash_idx
        → (view sh w r.old_shards (old_shard_index k r.old_mask) k ≡ w.holds old k)
          × (view sh w (taken r left).old_shards (old_shard_index k r.old_mask) k ≡ w.holds left k)
    old_here k e = (
      view-at sh w _ _ old k (ap (get_elem? r.old_shards) e ∙ here),
      view-at sh w _ _ left k
          (ap (get_elem? _) e ∙ get_elem?-set_self r.old_shards r.rehash_idx left (i.pointer on)),
    )

    old_there :
        (k : Str)
        → ¬ (r.rehash_idx ≡ old_shard_index k r.old_mask)
        → view sh w (taken r left).old_shards (old_shard_index k r.old_mask) k
          ≡ view sh w r.old_shards (old_shard_index k r.old_mask) k
    old_there k n =
        view-set_ne sh w r.old_shards r.rehash_idx (old_shard_index k r.old_mask) left k n

    not_moved : (k : Str) → ¬ (r.rehash_idx ≡ old_shard_index k r.old_mask) → moved k items ≡ none
    not_moved k n = elim (Option-cases (moved k items)) [
      | inl e ↦ e
      | inr found ↦ absurd (n (sym (moved_here k found.0 found.1)))
    ]

    module _ (table' : List sh.State) (new_sound : AreSound sh w table')
        (new_placed : IsPlaced sh w index table') (same : length table' ≡ length table)
        (shows : (k : Str)
          → view sh w table' (index k) k
            ≡ or_else (moved k items) (view sh w table (index k) k)) where
      pub contents-taken :
          (k : Str) → contents (taken r left) index table' k ≡ contents r index table k
      contents-taken k = elim (ℕ_discrete r.rehash_idx (old_shard_index k r.old_mask)) [
        | no n ↦
            stays (moved k items) (view sh w table (index k) k) (view sh w table' (index k) k)
              (view sh w r.old_shards (old_shard_index k r.old_mask) k)
              (view sh w (taken r left).old_shards (old_shard_index k r.old_mask) k) (not_moved k n)
              (shows k) (old_there k n)
        | yes p ↦
            let (a, b) = old_here k (sym p) in
            moves (moved k items) (view sh w table (index k) k) (view sh w table' (index k) k)
              (view sh w r.old_shards (old_shard_index k r.old_mask) k) (w.holds left k)
              (view sh w (taken r left).old_shards (old_shard_index k r.old_mask) k) (a ∙ splits k)
              (shows k) b (i.apart k)
      ]

      taken-placed :
          (j : ℕ) (s : sh.State) (k v : Str)
          → get_elem? (taken r left).old_shards j ≡ some s
          → w.holds s k ≡ some v
          → old_shard_index k r.old_mask ≡ j
      taken-placed j s k v e h =
          elim (in_set sh w r.old_shards r.rehash_idx left j s (i.pointer on) e) [
            | inl (p, q) ↦
                i.placed r.rehash_idx old k v here
                  (left_holds k v (ap (λ t. w.holds t k) (sym q) ∙ h)).1
                ∙ p
            | inr (n, q) ↦ i.placed j s k v q h
          ]

      taken-apart :
          (k v : Str)
          → view sh w (taken r left).old_shards (old_shard_index k r.old_mask) k ≡ some v
          → view sh w table' (index k) k ≡ none
      taken-apart k v e = elim (ℕ_discrete r.rehash_idx (old_shard_index k r.old_mask)) [
        | yes p ↦
            let (a, b) = old_here k (sym p) in
            let (gone, held) = left_holds k v (sym b ∙ e) in
            shows k ∙ first_none _ (view sh w table (index k) k) gone ∙ i.apart k v (a ∙ held)
        | no n ↦
            shows k
            ∙ first_none _ (view sh w table (index k) k) (not_moved k n)
            ∙ i.apart k v (sym (old_there k n) ∙ e)
      ]

      pub taken-IsSound : IsSound (taken r left) index table'
      taken-IsSound = record {
        in_range = λ k. subst (λ n. index k < n) (sym same) (i.in_range k);
        new_sound = new_sound;
        new_placed = new_placed;
        reach = λ e k.
            subst (λ n. old_shard_index k r.old_mask < n)
              (sym (length-set r.old_shards r.rehash_idx left)) (i.reach on k);
        old_sound = AreSound-set sh w r.old_shards r.rehash_idx left i.old_sound extraction.2;
        placed = taken-placed;
        apart = taken-apart;
        passed = λ j s k h e.
            elim (in_set sh w r.old_shards r.rehash_idx left j s (i.pointer on) e) [
              | inl (p, q) ↦ absurd (omega (arith, p, h))
              | inr (n, q) ↦ i.passed j s k h q
            ];
        pointer = λ e.
            subst (λ n. r.rehash_idx < n) (sym (length-set r.old_shards r.rehash_idx left))
              (i.pointer on);
        idle = λ e. absurd (ground (arith, sym on ∙ e));
        batch = i.batch;
      }

      -- The shard at the index is empty when nothing was taken out of it.
      pub taken-empty : items ≡ [] → (k : Str) → w.holds left k ≡ none
      taken-empty e k =
          let gone : moved k items ≡ none = ap (moved k) e ∙ moved-nil k in
          sym (splits k ∙ first_none _ (w.holds left k) gone) ∙ extraction.4.nothing k i.batch e
