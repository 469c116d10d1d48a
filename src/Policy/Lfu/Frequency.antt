-- ===== src/Policy/Lfu/Frequency.antt =====
-- lfu.go: the frequency of the key that `Evict` chooses.
use mcache.Prelude.{
  ℕ, ◌+◌, ◌≡◌, ◌≤◌, ◌<◌, refl, none, some, List, [], ◌∷◌, Str, str_dec, ℕ_discrete, length, ◌==◌,
  is_some, ite, arith, true, false, inl, inr, ◌∙◌, ◌≢◌,
}
use mcache.Prelude.Dict.{lookup, delete, lookup-insert, lookup-delete}
use mcache.Prelude.Keys.{remove_key}
use mcache.Policy.Lfu.{
  LfuPolicy, scan_min_freq, remove_from_bucket, push_back, bump, on_access, on_add, evict,
}
use mcache.Policy.Lfu.Buckets.{
  bucket, bucket-remove_from_bucket, bucket-push_back, items-remove_from_bucket,
  scan_min_freq-known, scan_min_freq-le,
}
use mcache.Policy.Lfu.Laws.{
  IsSound, Evicted, nothing, first_of_bucket, evict-Evicted, filled-nonempty, front-freq,
  bump-IsSound, evict-bucket, evict_front-dropped, items-push_back, dropped, not_listed,
}

-- `minFreq` is no more than any key's frequency.
abbrev pub IsLow : LfuPolicy → Type 0
IsLow p = (q : Str) (g : ℕ) → lookup str_dec q p.items ≡ some g → p.min_freq ≤ g

-- In a sound policy whose `minFreq` is not above the frequency of any key, `Evict` chooses a key
-- of the least frequency.
evict-least :
    (p : LfuPolicy) (k q : Str) (f g : ℕ)
    → IsSound p
    → IsLow p
    → (evict p).1 ≡ some k
    → lookup str_dec k p.items ≡ some f
    → lookup str_dec q p.items ≡ some g
    → f ≤ g
evict-least p k q f g s low e hf hg = go (evict-Evicted p s)
  where
    go : Evicted p (evict p) → f ≤ g
    go (nothing m d t) = absurd (ground (arith))
    go (first_of_bucket m h j rest b there d (inl c)) = ground (arith, low q g hg)
    go (first_of_bucket m h j rest b there d (inr c)) =
        ground (arith, scan_min_freq-le p.freq_lists g (filled-nonempty p s q g hg))

-- A new key has the least frequency there is, and `minFreq` is set to it.
pub on_add-IsLow :
    (p : LfuPolicy) (k : Str) → IsSound p → lookup str_dec k p.items ≡ none → IsLow (on_add p k)
unfolding on_add push_back
on_add-IsLow p k s new q g = ground (arith, s.positive q, lookup-insert str_dec k q 1 p.items)

emptied-min :
    (p : LfuPolicy) (k : Str) (f : ℕ)
    → p.min_freq ≡ f
    → remove_key k (bucket p f) ≡ []
    → (remove_from_bucket p k f).min_freq ≡ scan_min_freq (delete ℕ_discrete f p.freq_lists)
unfolding remove_from_bucket
emptied-min p k f m e = ground arith

remove_key_self : (k : Str) → remove_key k (k ∷ []) ≡ []
unfolding remove_key
remove_key_self k = ground arith

-- An access of a key of frequency `f`, which is `minFreq`, and alone in its bucket, while all other
-- keys have frequencies above `f + 1`.
module _ (p : LfuPolicy) (k q : Str) (f g : ℕ) (s : IsSound p) (alone : bucket p f ≡ k ∷ [])
    (least : p.min_freq ≡ f) (other : lookup str_dec q p.items ≡ some g) (differs : k ≢ q)
    (above : (r : Str) (h : ℕ) → lookup str_dec r p.items ≡ some h → k ≢ r → f + 1 < h) where
  after : LfuPolicy
  after = on_access p k

  old : lookup str_dec k p.items ≡ some f
  old = front-freq p s f k [] alone

  after-push : after ≡ push_back (remove_from_bucket p k f) k (f + 1)
  unfolding after on_access bump
  after-push = rw (old, bump)

  next_min : ℕ
  next_min = scan_min_freq (delete ℕ_discrete f p.freq_lists)

  after-min : after.min_freq ≡ next_min
  unfolding after-push next_min push_back
  after-min = rw after-push (emptied-min p k f least (rw alone (remove_key_self k)))

  next_min-known : is_some (lookup ℕ_discrete next_min (delete ℕ_discrete f p.freq_lists)) ≡ true
  unfolding next_min
  next_min-known = scan_min_freq-known (delete ℕ_discrete f p.freq_lists) g (
      ground (
        arith,
        lookup-delete ℕ_discrete f g p.freq_lists,
        filled-nonempty p s q g other,
        above q g other differs,
      ))

  after-bucket : (h : ℕ) → f + 1 < h → bucket after h ≡ bucket p h
  after-bucket h lt = rw after-push (
      ground (
        arith,
        bucket-push_back (remove_from_bucket p k f) k (f + 1) h,
        bucket-remove_from_bucket p k f h,
      ))

  after-items :
      (r : Str)
      → lookup str_dec r after.items ≡ ite (str_dec k r) (some (f + 1)) (lookup str_dec r p.items)
  after-items r = rw after-push (
      ground (
        arith,
        items-push_back (remove_from_bucket p k f) k (f + 1),
        items-remove_from_bucket p k f,
        lookup-insert str_dec k r (f + 1) p.items,
      ))

  -- the key that `Evict` takes next
  record Chosen : Type 0 where
    key : Str
    rest : List Str
    first : bucket p next_min ≡ key ∷ rest
    freq : lookup str_dec key p.items ≡ some next_min
    higher : f + 1 < next_min
    not_k : k ≢ key

  chosen : Chosen
  chosen = go (bucket p next_min) refl (
      ground (
        arith,
        s.filled next_min,
        next_min-known,
        lookup-delete ℕ_discrete f next_min p.freq_lists,
      ))
    where
      go : (b : List Str) → bucket p next_min ≡ b → 0 < length b → Chosen
      go [] h l = absurd (omega arith)
      go (v ∷ rest) h l =
          let e : lookup str_dec v p.items ≡ some next_min = front-freq p s next_min v rest h in
          let ne : k ≢ v = λ (x : k ≡ v).
            ground (arith, old, next_min-known, lookup-delete ℕ_discrete f next_min p.freq_lists) in
          record {
            key = v;
            rest = rest;
            first = h;
            freq = e;
            higher = above v next_min e ne;
            not_k = ne;
          }

  evict-chosen : (evict after).1 ≡ some chosen.key
  evict-chosen =
      let sound : IsSound after = unfold after on_access in bump-IsSound p k s in
      let b : bucket after after.min_freq ≡ chosen.key ∷ chosen.rest =
        rw after-min (after-bucket next_min chosen.higher ∙ chosen.first) in
      let held : (length after.items == 0) ≡ false =
        ground (arith, after-items k, not_listed after.items k) in
      let e : evict after ≡ (dropped after chosen.key after.min_freq, some chosen.key) =
        evict-bucket after sound chosen.key chosen.rest held b
        ∙ evict_front-dropped after sound after.min_freq after.min_freq chosen.key chosen.rest b in
      rw e

  -- Let a key be alone in the bucket of the least frequency, `minFreq`, and let all other keys, of
  -- which there is one at least, have frequencies that are higher by two or more. After an access
  -- of that key, `Evict` does not choose a key of the least frequency: it chooses one whose
  -- frequency is above that of the key just accessed.
  pub evict-not_least :
      (v : Str) × (h : ℕ) × ((evict (on_access p k)).1 ≡ some v)
      × (lookup str_dec v (on_access p k).items ≡ some h)
      × (lookup str_dec k (on_access p k).items ≡ some (f + 1))
      × (f + 1 < h)
  unfolding after
  evict-not_least = (
    chosen.key,
    next_min,
    evict-chosen,
    ground (arith, after-items chosen.key, chosen.freq, chosen.not_k),
    ground (arith, after-items k),
    chosen.higher,
  )
