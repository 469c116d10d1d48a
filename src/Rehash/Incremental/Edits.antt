-- ===== src/Rehash/Incremental/Edits.antt =====
-- rehash/: a shard of one of the two tables changed at one key, as the cache does between steps.
use mcache.Prelude.{
  Option-cases, ℕ, ◌<◌, ◌≡◌, sym, ap, ◌∙◌, Option, none, some, List, Str, str_dec, ite, if_pos,
  if_neg, length, get_elem?, set, inl, inr, length-set, arith,
}
use mcache.Rehash.Shards.{Shard, Laws, or_else, old_shard_index}
use mcache.Rehash.Shards.Tables.{view, AreSound-set, in_set, view-at, view-put, IsPlaced-put, bound}
use mcache.Rehash.Incremental.{Incremental}
use mcache.Rehash.Incremental.Keeps.{contents, IsSound}
use mathlib.Core.Path.{subst}

module _ (sh : Shard) (w : Laws sh) (r : Incremental sh) (index : Str → ℕ) (table : List sh.State)
    (i : IsSound sh w r index table) (key : Str) (s s' : sh.State) (sound : w.IsSound s')
    (others : (q : Str) → ¬ (key ≡ q) → w.holds s' q ≡ w.holds s q) where
  module _ (here : get_elem? table (index key) ≡ some s)
      (apart : (v : Str)
        → view sh w r.old_shards (old_shard_index key r.old_mask) key ≡ some v
        → w.holds s' key ≡ none) where
    pub new-put : IsSound sh w r index (set table (index key) s')
    new-put = record {
      in_range =
          λ k. subst (λ n. index k < n) (sym (length-set table (index key) s')) (i.in_range k);
      new_sound = AreSound-set sh w table (index key) s' i.new_sound sound;
      old_sound = i.old_sound;
      new_placed = IsPlaced-put sh w index table key s s' here others i.new_placed;
      placed = i.placed;
      reach = i.reach;
      apart = λ k v e. view-put sh w index table key s s' here others k ∙ elim (str_dec key k) [
        | yes p ↦
            if_pos (str_dec key k) p _ _
            ∙ apart v (ap (λ q. view sh w r.old_shards (old_shard_index q r.old_mask) q) p ∙ e)
        | no n ↦ if_neg (str_dec key k) n _ _ ∙ i.apart k v e
      ];
      passed = i.passed;
      pointer = i.pointer;
      idle = i.idle;
      batch = i.batch;
    }

    pub contents-new :
        (q : Str)
        → contents sh w r index (set table (index key) s') q
          ≡ ite
              (str_dec key q)
              (or_else
                (w.holds s' key)
                (view sh w r.old_shards (old_shard_index key r.old_mask) key))
              (contents sh w r index table q)
    contents-new q =
        let old : Str → Option Str = λ k. view sh w r.old_shards (old_shard_index k r.old_mask) k in
        ap (λ o. or_else o (old q)) (view-put sh w index table key s s' here others q)
        ∙ elim (str_dec key q) [
          | yes p ↦
              ap (λ o. or_else o (old q)) (if_pos (str_dec key q) p _ _)
              ∙ ap (λ k. or_else (w.holds s' key) (old k)) (sym p)
              ∙ sym (if_pos (str_dec key q) p _ _)
          | no n ↦
              ap (λ o. or_else o (old q)) (if_neg (str_dec key q) n _ _)
              ∙ sym (if_neg (str_dec key q) n _ _)
        ]

  module _ (here : get_elem? r.old_shards (old_shard_index key r.old_mask) ≡ some s)
      (fewer : (v : Str) → w.holds s' key ≡ some v → w.holds s key ≡ some v) where
    abbrev pub edited : Incremental sh
    edited = record r { old_shards = set r.old_shards (old_shard_index key r.old_mask) s' }

    fewer_at : (k v : Str) → w.holds s' k ≡ some v → w.holds s k ≡ some v
    fewer_at k v e = elim (str_dec key k) [
      | yes p ↦ subst (λ q. w.holds s' q ≡ some v → w.holds s q ≡ some v) p (fewer v) e
      | no n ↦ sym (others k n) ∙ e
    ]

    pub old-view :
        (q : Str)
        → view sh w edited.old_shards (old_shard_index q r.old_mask) q
          ≡ ite
              (str_dec key q)
              (w.holds s' key)
              (view sh w r.old_shards (old_shard_index q r.old_mask) q)
    old-view = view-put sh w (λ k. old_shard_index k r.old_mask) r.old_shards key s s' here others

    same_length : length edited.old_shards ≡ length r.old_shards
    same_length = length-set r.old_shards (old_shard_index key r.old_mask) s'

    pub old-put : IsSound sh w edited index table
    old-put = record {
      in_range = i.in_range;
      new_sound = i.new_sound;
      old_sound =
          AreSound-set sh w r.old_shards (old_shard_index key r.old_mask) s' i.old_sound sound;
      new_placed = i.new_placed;
      placed =
          IsPlaced-put sh w (λ k. old_shard_index k r.old_mask) r.old_shards key s s' here others
            i.placed;
      reach = λ e k. subst (λ n. old_shard_index k r.old_mask < n) (sym same_length) (i.reach e k);
      apart = λ k v e. elim (str_dec key k) [
        | yes p ↦ i.apart k v (
            let h : w.holds s' k ≡ some v =
              ap (w.holds s') (sym p) ∙ sym (if_pos (str_dec key k) p _ _) ∙ sym (old-view k) ∙ e in
            view-at sh w r.old_shards _ s k
              (ap (λ q. get_elem? r.old_shards (old_shard_index q r.old_mask)) (sym p) ∙ here)
            ∙ fewer_at k v h)
        | no n ↦ i.apart k v (sym (if_neg (str_dec key k) n _ _) ∙ sym (old-view k) ∙ e)
      ];
      passed = λ j t k h e.
          elim (in_set sh w r.old_shards (old_shard_index key r.old_mask) s' j t (bound _ _ s here)
            e) [
              | inr (n, f) ↦ i.passed j t k h f
              | inl (p, q) ↦ ap (λ x. w.holds x k) q ∙ elim (Option-cases (w.holds s' k)) [
                | inl gone ↦ gone
                | inr (v, held) ↦ absurd (
                    ground (
                      arith,
                      sym (i.passed j s k h (ap (get_elem? r.old_shards) (sym p) ∙ here))
                          ∙ fewer_at k v held,
                    ))
              ]
            ];
      pointer = λ e. subst (λ n. r.rehash_idx < n) (sym same_length) (i.pointer e);
      idle = λ e. ap (λ (l : List sh.State). set l (old_shard_index key r.old_mask) s') (i.idle e);
      batch = i.batch;
    }

    pub contents-old :
        (q : Str)
        → contents sh w edited index table q
          ≡ ite
              (str_dec key q)
              (or_else (view sh w table (index key) key) (w.holds s' key))
              (contents sh w r index table q)
    contents-old q =
        let new : Str → Option Str = λ k. view sh w table (index k) k in
        ap (or_else (new q)) (old-view q) ∙ elim (str_dec key q) [
          | yes p ↦
              ap (or_else (new q)) (if_pos (str_dec key q) p _ _)
              ∙ ap (λ k. or_else (new k) (w.holds s' key)) (sym p)
              ∙ sym (if_pos (str_dec key q) p _ _)
          | no n ↦
              ap (or_else (new q)) (if_neg (str_dec key q) n _ _)
              ∙ sym (if_neg (str_dec key q) n _ _)
        ]
