-- ===== src/Server/Blocking/Ends.antt =====
-- net/server_ext.go: a blocking pop ends, once the clock has passed its deadline.
use mcache.Prelude.{
  ℕ, zero, suc, ◌⊎◌, ◌≡◌, ◌<◌, refl, ap, true, Option, none, some, List, [], ◌∷◌, Str, arith,
  get_elem?, set, length, inl, inr, Bool-cases,
}
use mcache.Prelude.Int.{ℤ, pos, ltb_ℤ}
use mcache.Prelude.Panics.{Panics, returns}
use mcache.Rehash.Shards.{old_shard_index}
use mcache.Cache.{Error, Answer, ok, failed, cache_closed, key_empty, is_empty}
use mcache.Cache.Typed.{TypedCache, Maps, at_key, found}
use mcache.Cache.Typed.Lists as Cached
use mcache.Shard.Typed.Lists as Shards
use mcache.Net.ListWire.{Request}
use mcache.Net.ListAnswer.{Response}
use mcache.Server.Replies.{list_reply, as_not_found}
use mcache.Server.Lists.{Command, wait_left, wait_right, command, said, process_as}
use mcache.Server.Blocking.{Round, tried, wait, deadline_of, popped, serve_as, serve_list}

-- The table has the shard of the key.
abbrev pub Reaches : Str → TypedCache → Type 0
Reaches key c = old_shard_index key c.mask < length c.table

-- One of the rounds reads the clock behind the deadline.
abbrev pub Passes : ℤ → List Round → Type 0
Passes deadline [] = ⊥
Passes deadline (r ∷ rounds) = (ltb_ℤ deadline r.now ≡ true) ⊎ Passes deadline rounds

-- What the others do leaves the shard of the key in the table.
abbrev pub Keeps : Str → List Round → Type 0
Keeps key [] = Unit
Keeps key (r ∷ rounds) =
    ((c : TypedCache) → Reaches key c → Reaches key (r.others c)) × Keeps key rounds

length-set : {A : Type 0} (xs : List A) (i : ℕ) (v : A) → length (set xs i v) ≡ length xs
length-set [] i v = refl
length-set (x ∷ xs) zero v = refl
length-set (x ∷ xs) (suc i) v = ap suc (length-set xs i v)

within : {A : Type 0} (xs : List A) (i : ℕ) → i < length xs → (x : A) × (get_elem? xs i ≡ some x)
within [] i h = absurd (omega arith)
within (x ∷ xs) zero h = (x, refl)
within (x ∷ xs) (suc i) h = within xs i (omega arith)

-- An operation that returns on the maps returns on the cache, and leaves the shard in the table.
at_key-Reaches :
    {A : Type 0} (c : TypedCache) (key : Str) (body : Maps → Maps × Answer A)
    → Reaches key c
    → (out : TypedCache × Answer A) × (at_key c key (λ m. returns (body m)) ≡ returns out)
      × Reaches key out.0
unfolding at_key
at_key-Reaches c key body h = elim (Bool-cases c.closed) [
  | inl e ↦ ((c, failed cache_closed), rw e refl, h)
  | inr e ↦ elim (Bool-cases (is_empty key)) [
    | inl k ↦ ((c, failed key_empty), rw (e, k) refl, h)
    | inr k ↦
        let i = old_shard_index key c.mask in
        let (m, g) = within c.table i h in
        let same = length-set c.table i (body m).0 in
        (
          (record c { table = set c.table i (body m).0 }, (body m).1),
          simp (e, k, g),
          omega (arith, h, same),
        )
  ]
]

-- The pop returns, and leaves the shard in the table.
abbrev Pops : (TypedCache → Panics (TypedCache × Answer Str)) → Str → Type 0
Pops pop key =
    (c : TypedCache)
    → Reaches key c
    → (out : TypedCache × Answer Str) × (pop c ≡ returns out) × Reaches key out.0

module _ (pop : TypedCache → Panics (TypedCache × Answer Str)) (key : Str) (deadline : ℤ) where
  abbrev Ends : List Round → TypedCache → Type 0
  Ends rounds c =
      (out : TypedCache × Option Str) × (wait pop deadline rounds c ≡ returns (some out))

  tried-Ends :
      (again : TypedCache → Panics (Option (TypedCache × Option Str)))
      → (now : ℤ) (c : TypedCache) (answer : Answer Str)
      → ((ltb_ℤ deadline now ≡ true)
          ⊎ ((out : TypedCache × Option Str) × (again c ≡ returns (some out))))
      → (out : TypedCache × Option Str) × (tried deadline again now (c, answer)
          ≡ returns (some out))
  unfolding tried
  tried-Ends again now c (ok elem) h = ((c, some elem), refl)
  tried-Ends again now c (failed e) (inl late) = ((c, none), rw late refl)
  tried-Ends again now c (failed e) (inr (out, q)) = elim (Bool-cases (ltb_ℤ deadline now)) [
    | inl late ↦ ((c, none), rw late refl)
    | inr early ↦ (out, rw early q)
  ]

  wait-Ends :
      Pops pop key
      → (rounds : List Round) (c : TypedCache) → Passes deadline rounds
      → Keeps key rounds
      → Reaches key c
      → Ends rounds c
  unfolding wait
  wait-Ends pops [] c p k h = absurd p
  wait-Ends pops (r ∷ rounds) c (inl late) (k, ks) h =
      let (out, e, h') = pops (r.others c) (k c h) in
      let (end, q) = tried-Ends (wait pop deadline rounds) r.now out.0 out.1 (inl late) in
      (end, rw e q)
  wait-Ends pops (r ∷ rounds) c (inr p) (k, ks) h =
      let (out, e, h') = pops (r.others c) (k c h) in
      let rest = wait-Ends pops rounds out.0 p ks h' in
      let (end, q) = tried-Ends (wait pop deadline rounds) r.now out.0 out.1 (inr rest) in
      (end, rw e q)

l_pop-Pops : (key : Str) → Pops (λ c. Cached.l_pop c key) key
unfolding Cached.l_pop
l_pop-Pops key c h =
    at_key-Reaches c key
      (λ m. let out = Shards.l_pop m.lists key in (record m { lists = out.0 }, found out.1)) h

r_pop-Pops : (key : Str) → Pops (λ c. Cached.r_pop c key) key
unfolding Cached.r_pop
r_pop-Pops key c h =
    at_key-Reaches c key
      (λ m. let out = Shards.r_pop m.lists key in (record m { lists = out.0 }, found out.1)) h

module _ (text : Error → Str) (start : ℤ) (rounds : List Round) where
  abbrev Serves : Command → TypedCache → Request → Type 0
  Serves w c req =
      (out : TypedCache × Response) × (serve_as text start rounds w c req ≡ returns (some out))

  left-Serves :
      (c : TypedCache) (req : Request)
      → Passes (deadline_of start req.timeout) rounds
      → Keeps req.key rounds
      → Reaches req.key c
      → Serves wait_left c req
  unfolding process_as
  left-Serves c req p k h = elim (Bool-cases (ltb_ℤ (pos 0) req.timeout)) [
    | inl t ↦
        let ((c', end), e) =
          wait-Ends (λ c'. Cached.l_pop c' req.key) req.key (deadline_of start req.timeout)
            (l_pop-Pops req.key) rounds c p k h in
        ((c', popped req.cmd end), rw (t, e) refl)
    | inr t ↦
        let ((c', answer), e, r) = l_pop-Pops req.key c h in
        ((c', list_reply text req.cmd as_not_found said answer), rw (t, e) refl)
  ]

  right-Serves :
      (c : TypedCache) (req : Request)
      → Passes (deadline_of start req.timeout) rounds
      → Keeps req.key rounds
      → Reaches req.key c
      → Serves wait_right c req
  unfolding process_as
  right-Serves c req p k h = elim (Bool-cases (ltb_ℤ (pos 0) req.timeout)) [
    | inl t ↦
        let ((c', end), e) =
          wait-Ends (λ c'. Cached.r_pop c' req.key) req.key (deadline_of start req.timeout)
            (r_pop-Pops req.key) rounds c p k h in
        ((c', popped req.cmd end), rw (t, e) refl)
    | inr t ↦
        let ((c', answer), e, r) = r_pop-Pops req.key c h in
        ((c', list_reply text req.cmd as_not_found said answer), rw (t, e) refl)
  ]

  -- A blocking pop is answered, and does not panic, if one of the rounds of its loop reads the clock
  -- behind the deadline, whatever the other connections do meanwhile that leaves the shard of the
  -- key in the table; it is there at the start.
  pub serve_list-Ends :
      (c : TypedCache) (req : Request)
      → (command req.cmd ≡ wait_left) ⊎ (command req.cmd ≡ wait_right)
      → Passes (deadline_of start req.timeout) rounds
      → Keeps req.key rounds
      → Reaches req.key c
      → (out : TypedCache × Response) × (serve_list text start rounds c req ≡ returns (some out))
  unfolding serve_list
  serve_list-Ends c req (inl w) p k h = rw w (left-Serves c req p k h)
  serve_list-Ends c req (inr w) p k h = rw w (right-Serves c req p k h)
