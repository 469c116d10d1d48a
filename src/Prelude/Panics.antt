-- ===== src/Prelude/Panics.antt =====
-- What a Go call does: it returns, or it panics (on a nil pointer or an index out of range).
pub data Panics {ℓ} (A : Type ℓ) : Type ℓ where
  returns : A → Panics A
  panic : Panics A

infixl 5 ◌>>=◌
abbrev pub ◌>>=◌ {ℓ κ} : {A : Type ℓ} {B : Type κ} → Panics A → (A → Panics B) → Panics B
returns a >>= f = f a
panic >>= f = panic
