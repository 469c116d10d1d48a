-- ===== src/Policy/Lfu/Buckets.antt =====
-- lfu.go: what removing a key from its bucket, and pushing it to another, do to each bucket.
use mcache.Prelude.{
  ℕ, ◌≡◌, ◌≤◌, refl, some, List, [], ◌∷◌, ◌++◌, Str, ℕ_discrete, length, ltb, if◌then◌else◌,
  is_some, ite, arith, true, inl, ◌⊎◌,
}
use mcache.Prelude.Dict.{Dict, lookup, lookup-insert, lookup-delete}
use mcache.Prelude.Keys.{remove_key}
use mcache.Policy.Lfu.{
  LfuPolicy, or_empty, bucket_of, scan_loop, scan_min_freq, remove_from_bucket, push_back,
}

-- The bucket of a frequency, as the policy finds it.
abbrev pub bucket : LfuPolicy → ℕ → List Str
bucket p f = bucket_of p.freq_lists f

nil_of_length : (l : List Str) → length l ≡ 0 → l ≡ []
nil_of_length [] h = refl
nil_of_length (x ∷ l) h = absurd (omega arith)

pub bucket-remove_from_bucket :
    (p : LfuPolicy) (k : Str) (f g : ℕ)
    → bucket (remove_from_bucket p k f) g
      ≡ ite (ℕ_discrete f g) (remove_key k (bucket p f)) (bucket p g)
unfolding remove_from_bucket bucket_of
bucket-remove_from_bucket p k f g = ground (
  arith,
  nil_of_length (remove_key k (or_empty (lookup ℕ_discrete f p.freq_lists))),
  lookup-delete ℕ_discrete f g p.freq_lists,
  lookup-insert ℕ_discrete f g (remove_key k (or_empty (lookup ℕ_discrete f p.freq_lists)))
      p.freq_lists,
)

pub bucket-push_back :
    (p : LfuPolicy) (k : Str) (f g : ℕ)
    → bucket (push_back p k f) g ≡ ite (ℕ_discrete f g) (bucket p f ++ k ∷ []) (bucket p g)
unfolding push_back bucket_of
bucket-push_back p k f g = ground (
  arith,
  lookup-insert ℕ_discrete f g (or_empty (lookup ℕ_discrete f p.freq_lists) ++ k ∷ []) p.freq_lists,
)

pub items-remove_from_bucket :
    (p : LfuPolicy) (k : Str) (f : ℕ) → (remove_from_bucket p k f).items ≡ p.items
unfolding remove_from_bucket
items-remove_from_bucket p k f = ground arith

-- What a scan over the lists finds, started with `m`.
record Found (m : ℕ) (lists : Dict ℕ (List Str)) (r : ℕ) : Type 0 where
  here : scan_loop (some m) lists ≡ some r
  least : r ≤ m
  known : (r ≡ m) ⊎ (is_some (lookup ℕ_discrete r lists) ≡ true)

scan_loop-Found : (lists : Dict ℕ (List Str)) (m : ℕ) → (r : ℕ) × Found m lists r
unfolding scan_loop lookup
scan_loop-Found [] m = (m, record { here = refl; least = omega arith; known = inl refl })
scan_loop-Found (e ∷ lists) m =
    let (r, d) = scan_loop-Found lists (if ltb e.0 m then e.0 else m) in
    (r, record { here = d.here; least = ground (arith, d.least); known = ground (arith, d.known) })

scan_loop-le :
    (lists : Dict ℕ (List Str)) (m f : ℕ)
    → is_some (lookup ℕ_discrete f lists) ≡ true
    → (r : ℕ) × (scan_loop (some m) lists ≡ some r) × (r ≤ f)
unfolding scan_loop lookup
scan_loop-le [] m f h = cc
scan_loop-le (e ∷ lists) m f h = elim (ℕ_discrete e.0 f) [
  | yes p ↦
      let (r, d) = scan_loop-Found lists (if ltb e.0 m then e.0 else m) in
      (r, d.here, ground (arith, d.least))
  | no p ↦ scan_loop-le lists (if ltb e.0 m then e.0 else m) f (ground arith)
]

-- The scan finds the least frequency that has a list.
pub scan_min_freq-le :
    (lists : Dict ℕ (List Str)) (f : ℕ)
    → is_some (lookup ℕ_discrete f lists) ≡ true
    → scan_min_freq lists ≤ f
unfolding scan_min_freq scan_loop lookup
scan_min_freq-le [] f h = cc
scan_min_freq-le (e ∷ lists) f h = elim (ℕ_discrete e.0 f) [
  | yes p ↦
      let (r, d) = scan_loop-Found lists e.0 in rw (d.here, scan_min_freq) (omega (arith, d.least))
  | no p ↦ let (r, q, le) = scan_loop-le lists e.0 f (ground arith) in rw (q, scan_min_freq) le
]

not_known : (f : ℕ) → is_some (lookup {V = List Str} ℕ_discrete f []) ≡ true → ⊥
unfolding lookup
not_known f h = cc

known_cons :
    (e : ℕ × List Str) (lists : Dict ℕ (List Str)) (r : ℕ)
    → (r ≡ e.0) ⊎ (is_some (lookup ℕ_discrete r lists) ≡ true)
    → is_some (lookup ℕ_discrete r (e ∷ lists)) ≡ true
unfolding lookup
known_cons e lists r h = ground arith

pub scan_min_freq-known :
    (lists : Dict ℕ (List Str)) (f : ℕ)
    → is_some (lookup ℕ_discrete f lists) ≡ true
    → is_some (lookup ℕ_discrete (scan_min_freq lists) lists) ≡ true
unfolding scan_min_freq scan_loop
scan_min_freq-known [] f h = absurd (not_known f h)
scan_min_freq-known (e ∷ lists) f h =
    let (r, d) = scan_loop-Found lists e.0 in
    rw (d.here, scan_min_freq) (known_cons e lists r d.known)
