-- ===== src/Net/Safety.antt =====
-- What the decoders of requests do on a payload of any bytes.
pub mod Hashes
pub mod Lists
use mcache.Prelude.{
  ℕ, zero, suc, ◌+◌, ◌≡◌, ◌≤◌, ◌<◌, refl, sym, ap, ◌∙◌, Bool, true, false, Option, none, some, List,
  [], ◌∷◌, leb, length, if◌then◌else◌, get_elem?, arith, inl, inr, Bool-cases, ◌&&◌,
}
use mcache.Net.Bytes.{
  Decoded, ok, failed, panic, Error, ◌>>=◌, check, Payload, len, slice, byte_at, num_at, value,
  get_strings, get_string,
}
use mcache.Net.Bytes.Views.{leb_of}

-- A decoder does not panic.
abbrev pub IsSafe {ℓ} : {A : Type ℓ} → Decoded A → Type 0
IsSafe (ok x) = Unit
IsSafe (failed e) = Unit
IsSafe panic = ⊥

within : (l : List ℕ) (i : ℕ) → i < length l → (b : ℕ) × (get_elem? l i ≡ some b)
within [] i h = absurd (omega arith)
within (b ∷ l) zero h = (b, refl)
within (b ∷ l) (suc i) h = within l i (omega arith)

module _ {ℓ κ} {A : Type ℓ} {B : Type κ} where
  pub bind-IsSafe :
      (d : Decoded A) (f : A → Decoded B) → IsSafe d → ((x : A) → IsSafe (f x)) → IsSafe (d >>= f)
  bind-IsSafe (ok x) f h k = k x
  bind-IsSafe (failed e) f h k = tt
  bind-IsSafe panic f h k = absurd h

module _ {κ} {B : Type κ} where
  pub check-IsSafe :
      (m n : ℕ) (e : Error) (f : Unit {0} → Decoded B)
      → (m ≤ n → IsSafe (f tt))
      → IsSafe (check (leb m n) e >>= f)
  check-IsSafe m n e f k = elim (Bool-cases (leb m n)) [
    | inl h ↦ rw h (k (ground (arith, h)))
    | inr h ↦ rw h tt
  ]

  pub slice-IsSafe :
      (p : Payload) (low high : ℕ) (f : List ℕ → Decoded B)
      → low ≤ high
      → high ≤ len p
      → ((s : List ℕ) → IsSafe (f s))
      → IsSafe (slice p low high >>= f)
  unfolding slice
  slice-IsSafe p low high f h r k =
      let room : leb high (length p.bytes + length p.spare) ≡ true = leb_of (omega arith) in
      rw (leb_of h, room) (k _)

  pub num_at-IsSafe :
      (width : ℕ) (p : Payload) (off : ℕ) (f : ℕ → Decoded B)
      → off + width ≤ len p
      → ((n : ℕ) → IsSafe (f n))
      → IsSafe (num_at width p off >>= f)
  unfolding num_at slice
  num_at-IsSafe width p off f r k =
      let room : leb (off + width) (length p.bytes + length p.spare) ≡ true =
        leb_of (omega arith) in
      let low : leb off (off + width) ≡ true = leb_of (omega arith) in rw (low, room) (k _)

  pub byte_at-IsSafe :
      (p : Payload) (i : ℕ) (f : ℕ → Decoded B)
      → i < len p
      → ((n : ℕ) → IsSafe (f n))
      → IsSafe (byte_at p i >>= f)
  unfolding byte_at
  byte_at-IsSafe p i f r k = let (b, e) = within p.bytes i r in rw (e, byte_at, IsSafe) (k b)

pub get_string-IsSafe : (width : ℕ) (p : Payload) (off : ℕ) → IsSafe (get_string width p off)
unfolding get_string
get_string-IsSafe width p off = check-IsSafe _ _ _ _ (λ g.
    num_at-IsSafe width p off _ g
      (λ n. check-IsSafe _ _ _ _ (λ r. slice-IsSafe p _ _ _ (omega arith) r (λ s. tt))))

pub get_strings-IsSafe :
    (width count : ℕ) (p : Payload) (off : ℕ) → IsSafe (get_strings width count p off)
unfolding get_strings
get_strings-IsSafe width zero p off = tt
get_strings-IsSafe width (suc count) p off = check-IsSafe _ _ _ _ (λ g.
    num_at-IsSafe width p off _ g (λ n. check-IsSafe _ _ _ _ (λ r.
      slice-IsSafe p _ _ _ (omega arith) r
        (λ s. bind-IsSafe _ _ (get_strings-IsSafe width count p (off + width + n)) (λ ss. tt)))))
