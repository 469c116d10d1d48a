-- ===== src/Policy/Lfu/Laws.antt =====
-- lfu.go and the laws of eviction policies.
use mcache.Prelude.{
  ℕ, ◌+◌, ◌≡◌, ◌<◌, refl, Bool, Option, none, some, List, [], ◌∷◌, ◌++◌, Str, str_dec, ℕ_discrete,
  length, ltb, ◌==◌, if◌then◌else◌, is_some, length-append, ite, arith, true, false, Option-cases,
  inl, inr, ◌⊎◌, Bool-cases, ap, ◌≢◌,
}
use mcache.Prelude.Dict.{Dict, lookup, insert, delete, lookup-insert, lookup-delete}
use mcache.Prelude.Keys.{
  remove_key, count, count-remove_key, count-append, count-le-length, count-head,
}
use mcache.Policy.Interface.{Laws}
use mcache.Policy.Lfu.{
  LfuPolicy, new_lfu, or_empty, bucket_of, scan_min_freq, remove_from_bucket, push_back, bump,
  on_access, on_add, on_remove, evict_front, evict, lfu,
}
use mcache.Policy.Lfu.Buckets.{
  bucket, bucket-remove_from_bucket, bucket-push_back, items-remove_from_bucket,
  scan_min_freq-known,
}

abbrev pub tracks : LfuPolicy → Str → Bool
tracks p q = is_some (lookup str_dec q p.items)

abbrev pub has_freq : Option ℕ → ℕ → Bool
has_freq none f = false
has_freq (some g) f = g == f

-- A key stands once in the bucket of its frequency and in no other; frequencies are positive; no
-- bucket is empty.
pub record IsSound (p : LfuPolicy) : Type 0 where
  pub counted :
      (q : Str) (f : ℕ)
      → count q (bucket p f) ≡ (if has_freq (lookup str_dec q p.items) f then 1 else 0)
  pub positive : (q : Str) → has_freq (lookup str_dec q p.items) 0 ≡ false
  pub filled : (f : ℕ) → is_some (lookup ℕ_discrete f p.freq_lists) ≡ ltb 0 (length (bucket p f))

new_lfu-IsSound : IsSound new_lfu
unfolding count lookup bucket_of
new_lfu-IsSound = record { counted = λ q f. refl; positive = λ q. refl; filled = λ f. refl }

count-one : (q k : Str) → count q (k ∷ []) ≡ ite (str_dec k q) 1 0
unfolding count
count-one q k = ground arith

filled-remove_from_bucket :
    (p : LfuPolicy) (k : Str) (f g : ℕ)
    → is_some (lookup ℕ_discrete g p.freq_lists) ≡ ltb 0 (length (bucket p g))
    → is_some (lookup ℕ_discrete g (remove_from_bucket p k f).freq_lists)
      ≡ ltb 0 (length (bucket (remove_from_bucket p k f) g))
unfolding remove_from_bucket bucket_of
filled-remove_from_bucket p k f g h = ground (
  arith,
  lookup-delete ℕ_discrete f g p.freq_lists,
  lookup-insert ℕ_discrete f g (remove_key k (or_empty (lookup ℕ_discrete f p.freq_lists)))
      p.freq_lists,
)

filled-push_back :
    (p : LfuPolicy) (k : Str) (f g : ℕ)
    → is_some (lookup ℕ_discrete g p.freq_lists) ≡ ltb 0 (length (bucket p g))
    → is_some (lookup ℕ_discrete g (push_back p k f).freq_lists)
      ≡ ltb 0 (length (bucket (push_back p k f) g))
unfolding push_back bucket_of
filled-push_back p k f g h = ground (
  arith,
  lookup-insert ℕ_discrete f g (or_empty (lookup ℕ_discrete f p.freq_lists) ++ k ∷ []) p.freq_lists,
  length-append (or_empty (lookup ℕ_discrete f p.freq_lists)) (k ∷ []),
)

-- the state behind `removeFromBucket` and `delete(p.items, key)`
pub dropped : LfuPolicy → Str → ℕ → LfuPolicy
dropped p k f = let p' = remove_from_bucket p k f in record p' { items = delete str_dec k p'.items }

module _ (p : LfuPolicy) (k : Str) (s : IsSound p) where
  dropped-IsSound : (f : ℕ) → lookup str_dec k p.items ≡ some f → IsSound (dropped p k f)
  unfolding dropped
  dropped-IsSound f e = record {
    counted = λ q g. ground (
      arith,
      s.counted q g,
      s.counted q f,
      items-remove_from_bucket p k f,
      bucket-remove_from_bucket p k f g,
      count-remove_key q k (bucket p f),
      lookup-delete str_dec k q p.items,
    );
    positive = λ q.
        ground
          (arith, s.positive q, items-remove_from_bucket p k f, lookup-delete str_dec k q p.items);
    filled = λ g. filled-remove_from_bucket p k f g (s.filled g);
  }

pub items-push_back :
    (p : LfuPolicy) (k : Str) (f : ℕ) → (push_back p k f).items ≡ insert str_dec k f p.items
unfolding push_back
items-push_back p k f = refl

min_freq-IsSound : (m : ℕ) (p : LfuPolicy) → IsSound p → IsSound (record p { min_freq = m })
min_freq-IsSound m p s = record { counted = s.counted; positive = s.positive; filled = s.filled }

-- A key that stands in no bucket may be pushed to one.
module _ (p : LfuPolicy) (k : Str) (f : ℕ) (h : 0 < f)
    (counted : (q : Str) (g : ℕ)
      → count q (bucket p g)
        ≡ ite (str_dec k q) 0 (if has_freq (lookup str_dec q p.items) g then 1 else 0))
    (positive : (q : Str) → has_freq (lookup str_dec q p.items) 0 ≡ false)
    (filled : (g : ℕ)
      → is_some (lookup ℕ_discrete g p.freq_lists) ≡ ltb 0 (length (bucket p g))) where
  push_back-IsSound : IsSound (push_back p k f)
  push_back-IsSound = record {
    counted = λ q g. ground (
      arith,
      counted q g,
      counted q f,
      items-push_back p k f,
      lookup-insert str_dec k q f p.items,
      bucket-push_back p k f g,
      count-append q (bucket p f) (k ∷ []),
      count-one q k,
    );
    positive =
        λ q. ground (arith, positive q, items-push_back p k f, lookup-insert str_dec k q f p.items);
    filled = λ g. filled-push_back p k f g (filled g);
  }

module _ (p : LfuPolicy) (k : Str) (s : IsSound p) where
  moved-IsSound :
      (f : ℕ)
      → lookup str_dec k p.items ≡ some f
      → IsSound (push_back (remove_from_bucket p k f) k (f + 1))
  moved-IsSound f e =
      push_back-IsSound (remove_from_bucket p k f) k (f + 1) (omega arith)
        (λ q g. ground (
          arith,
          s.counted q g,
          s.counted q f,
          items-remove_from_bucket p k f,
          bucket-remove_from_bucket p k f g,
          count-remove_key q k (bucket p f),
        ))
        (λ q. ground (arith, s.positive q, items-remove_from_bucket p k f))
        (λ g. filled-remove_from_bucket p k f g (s.filled g))

  pub bump-IsSound : IsSound (bump p k)
  unfolding bump
  bump-IsSound = elim (Option-cases (lookup str_dec k p.items)) [
    | inl new ↦ rw (new, bump) s
    | inr (f, old) ↦ rw (old, bump) (moved-IsSound f old)
  ]

  bump-tracks : (q : Str) → tracks (bump p k) q ≡ tracks p q
  unfolding bump
  bump-tracks q = elim (Option-cases (lookup str_dec k p.items)) [
    | inl new ↦ rw (new, bump)
    | inr (f, old) ↦
        rw (old, bump)
          (ground (
            arith,
            items-push_back (remove_from_bucket p k f) k (f + 1),
            items-remove_from_bucket p k f,
            lookup-insert str_dec k q (f + 1) p.items,
          ))
  ]

  on_add-IsSound : IsSound (on_add p k)
  unfolding on_add
  on_add-IsSound = elim (Option-cases (lookup str_dec k p.items)) [
    | inl new ↦
        rw (new, on_add)
          (min_freq-IsSound 1 (push_back p k 1) (
            push_back-IsSound p k 1 (omega arith) (λ q g. ground (arith, s.counted q g)) s.positive
              s.filled))
    | inr (f, old) ↦ rw (old, on_add) bump-IsSound
  ]

  on_add-tracks : (q : Str) → tracks (on_add p k) q ≡ ite (str_dec k q) true (tracks p q)
  unfolding on_add
  on_add-tracks q = elim (Option-cases (lookup str_dec k p.items)) [
    | inl new ↦
        rw (new, on_add)
          (ground (arith, items-push_back p k 1, lookup-insert str_dec k q 1 p.items))
    | inr (f, old) ↦ rw (old, on_add) (ground (arith, bump-tracks q))
  ]

  on_remove-IsSound : IsSound (on_remove p k)
  unfolding on_remove dropped
  on_remove-IsSound = elim (Option-cases (lookup str_dec k p.items)) [
    | inl new ↦ rw (new, on_remove) s
    | inr (f, old) ↦ rw (old, on_remove) (dropped-IsSound p k s f old)
  ]

  on_remove-tracks : (q : Str) → tracks (on_remove p k) q ≡ ite (str_dec k q) false (tracks p q)
  unfolding on_remove
  on_remove-tracks q = elim (Option-cases (lookup str_dec k p.items)) [
    | inl new ↦ rw (new, on_remove) (ground arith)
    | inr (f, old) ↦
        rw (old, on_remove)
          (ground (arith, items-remove_from_bucket p k f, lookup-delete str_dec k q p.items))
  ]

-- What `Evict` does: it finds nothing and nothing is tracked, or it drops the first key of a bucket.
pub data Evicted (p : LfuPolicy) (out : LfuPolicy × Option Str) : Type 0 where
  nothing :
      (m : ℕ)
      → out ≡ (record p { min_freq = m }, none)
      → ((q : Str) → tracks p q ≡ false)
      → Evicted p out
  first_of_bucket :
      (m f : ℕ) (k : Str) (rest : List Str)
      → bucket p f ≡ k ∷ rest
      → lookup str_dec k p.items ≡ some f
      → out ≡ (dropped (record p { min_freq = m }) k f, some k)
      → (f ≡ p.min_freq) ⊎ ((f ≡ scan_min_freq p.freq_lists) × (bucket p p.min_freq ≡ []))
      → Evicted p out

pub not_listed :
    (items : Dict Str ℕ) (q : Str) → length items ≡ 0 → is_some (lookup str_dec q items) ≡ false
unfolding lookup
not_listed [] q h = refl
not_listed (e ∷ items) q h = absurd (omega arith)

module _ (p : LfuPolicy) (s : IsSound p) where
  pub front-freq :
      (f : ℕ) (k : Str) (rest : List Str)
      → bucket p f ≡ k ∷ rest
      → lookup str_dec k p.items ≡ some f
  front-freq f k rest e =
      let c : 0 < count k (bucket p f) = rw e (count-head k rest) in ground (arith, s.counted k f)

  pub filled-nonempty :
      (q : Str) (f : ℕ)
      → lookup str_dec q p.items ≡ some f
      → is_some (lookup ℕ_discrete f p.freq_lists) ≡ true
  filled-nonempty q f e = ground (arith, s.filled f, s.counted q f, count-le-length q (bucket p f))

  scan-filled :
      (q : Str) (f : ℕ)
      → lookup str_dec q p.items ≡ some f
      → 0 < length (bucket p (scan_min_freq p.freq_lists))
  scan-filled q f e = ground (
    arith,
    s.filled (scan_min_freq p.freq_lists),
    scan_min_freq-known p.freq_lists f (filled-nonempty q f e),
  )

  scan-positive :
      (q : Str) (f : ℕ) → lookup str_dec q p.items ≡ some f → scan_min_freq p.freq_lists ≢ 0
  scan-positive q f e z = go (bucket p (scan_min_freq p.freq_lists)) refl (scan-filled q f e)
    where
      go : (b : List Str) → bucket p (scan_min_freq p.freq_lists) ≡ b → 0 < length b → ⊥
      go [] h l = absurd (omega arith)
      go (k ∷ b) h l =
          let g : lookup str_dec k p.items ≡ some (scan_min_freq p.freq_lists) =
            front-freq (scan_min_freq p.freq_lists) k b h in
          ground (arith, s.positive k)

  pub evict_front-dropped :
      (m f : ℕ) (k : Str) (rest : List Str)
      → bucket p f ≡ k ∷ rest
      → evict_front (record p { min_freq = m }) (bucket p f)
        ≡ (dropped (record p { min_freq = m }) k f, some k)
  unfolding evict_front dropped
  evict_front-dropped m f k rest e = rw e (rw (front-freq f k rest e, evict_front))

  untracked : scan_min_freq p.freq_lists ≡ 0 → (q : Str) → tracks p q ≡ false
  untracked z q = elim (Option-cases (lookup str_dec q p.items)) [
    | inl gone ↦ rw gone
    | inr (f, there) ↦ absurd (scan-positive q f there z)
  ]

  untracked_of_nil : bucket p (scan_min_freq p.freq_lists) ≡ [] → (q : Str) → tracks p q ≡ false
  untracked_of_nil h q = elim (Option-cases (lookup str_dec q p.items)) [
    | inl gone ↦ rw gone
    | inr (f, there) ↦ absurd (omega (arith, scan-filled q f there, ap length h))
  ]

  -- the branches of `Evict` on a policy that holds items
  evict-empty : (length p.items == 0) ≡ true → evict p ≡ (p, none)
  unfolding evict
  evict-empty e = rw e

  pub evict-bucket :
      (k : Str) (rest : List Str)
      → (length p.items == 0) ≡ false
      → bucket p p.min_freq ≡ k ∷ rest
      → evict p ≡ evict_front p (bucket p p.min_freq)
  unfolding evict
  evict-bucket k rest n e = ground arith

  evict-scan :
      (length p.items == 0) ≡ false
      → bucket p p.min_freq ≡ []
      → evict p ≡ (
          if scan_min_freq p.freq_lists == 0
          then (record p { min_freq = scan_min_freq p.freq_lists }, none)
          else evict_front
              (record p { min_freq = scan_min_freq p.freq_lists })
              (bucket p (scan_min_freq p.freq_lists)))
  unfolding evict
  evict-scan n e = ground arith

  scan-Evicted :
      (length p.items == 0) ≡ false
      → bucket p p.min_freq ≡ []
      → (b : List Str) → bucket p (scan_min_freq p.freq_lists) ≡ b
      → Evicted p (evict p)
  scan-Evicted n e [] h =
      nothing (scan_min_freq p.freq_lists)
        (rw (evict-scan n e, h) (unfold evict_front in ground arith)) (untracked_of_nil h)
  scan-Evicted n e (k ∷ b) h = elim (Bool-cases (scan_min_freq p.freq_lists == 0)) [
    | inl z ↦
        nothing (scan_min_freq p.freq_lists) (rw (evict-scan n e, z)) (untracked (ground arith))
    | inr nz ↦
        first_of_bucket (scan_min_freq p.freq_lists) (scan_min_freq p.freq_lists) k b h
          (front-freq (scan_min_freq p.freq_lists) k b h)
          (rw (evict-scan n e, nz)
            (evict_front-dropped (scan_min_freq p.freq_lists) (scan_min_freq p.freq_lists) k b h))
          (inr (refl, e))
  ]

  bucket-Evicted :
      (length p.items == 0) ≡ false → (b : List Str) → bucket p p.min_freq ≡ b → Evicted p (evict p)
  bucket-Evicted n [] h = scan-Evicted n h (bucket p (scan_min_freq p.freq_lists)) refl
  bucket-Evicted n (k ∷ b) h =
      first_of_bucket p.min_freq p.min_freq k b h (front-freq p.min_freq k b h)
        (rw (evict-bucket k b n h) (evict_front-dropped p.min_freq p.min_freq k b h)) (inl refl)

  pub evict-Evicted : Evicted p (evict p)
  evict-Evicted = elim (Bool-cases (length p.items == 0)) [
    | inl e ↦ nothing p.min_freq (evict-empty e) (λ q. not_listed p.items q (ground arith))
    | inr n ↦ bucket-Evicted n (bucket p p.min_freq) refl
  ]

dropped-tracks :
    (p : LfuPolicy) (k q : Str) (f : ℕ)
    → tracks (dropped p k f) q ≡ ite (str_dec k q) false (tracks p q)
unfolding dropped
dropped-tracks p k q f =
    ground (arith, items-remove_from_bucket p k f, lookup-delete str_dec k q p.items)

module _ {p : LfuPolicy} {out : LfuPolicy × Option Str} (s : IsSound p) where
  Evicted-IsSound : Evicted p out → IsSound out.0
  Evicted-IsSound (nothing m e t) = rw e (min_freq-IsSound m p s)
  Evicted-IsSound (first_of_bucket m f k rest h there e c) =
      rw e (dropped-IsSound (record p { min_freq = m }) k (min_freq-IsSound m p s) f there)

  Evicted-none : Evicted p out → (q : Str) → out.1 ≡ none → tracks p q ≡ false
  Evicted-none (nothing m e t) q h = t q
  Evicted-none (first_of_bucket m f k rest b there e c) q h = absurd (ground arith)

  Evicted-some : Evicted p out → (j : Str) → out.1 ≡ some j → tracks p j ≡ true
  Evicted-some (nothing m e t) j h = absurd (ground arith)
  Evicted-some (first_of_bucket m f k rest b there e c) j h = ground arith

  Evicted-tracks :
      Evicted p out
      → (j q : Str) → out.1 ≡ some j
      → tracks out.0 q ≡ ite (str_dec j q) false (tracks p q)
  Evicted-tracks (nothing m e t) j q h = absurd (ground arith)
  Evicted-tracks (first_of_bucket m f k rest b there e c) j q h =
      ground (arith, dropped-tracks (record p { min_freq = m }) k q f)

-- The LFU policy keeps all the laws of a policy.
pub lfu-Laws : Laws lfu IsSound tracks
unfolding lookup on_access
lfu-Laws = record {
  fresh_sound = new_lfu-IsSound;
  fresh_tracks = λ q. refl;
  access_sound = bump-IsSound;
  access_tracks = λ p k q s. bump-tracks p k s q;
  add_sound = on_add-IsSound;
  add_tracks = λ p k q s. on_add-tracks p k s q;
  remove_sound = on_remove-IsSound;
  remove_tracks = λ p k q s. on_remove-tracks p k s q;
  evict_sound = λ p s. Evicted-IsSound s (evict-Evicted p s);
  evict_none = λ p q s. Evicted-none s (evict-Evicted p s) q;
  evict_some = λ p k s. Evicted-some s (evict-Evicted p s) k;
  evict_tracks = λ p k q s. Evicted-tracks s (evict-Evicted p s) k q;
}
