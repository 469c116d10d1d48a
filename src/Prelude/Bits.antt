-- ===== src/Prelude/Bits.antt =====
-- Bounds on `bit_and`.
use mcache.Prelude.{ℕ, zero, suc, ◌/◌, ◌≤◌, arith, min}
use Prim.Native.Nat.{bit_and, digits, bit_and-bitwise}

digits_le : (n a b : ℕ) → digits (λ b. zero) min n a b ≤ b
digits_le zero a b = omega arith
digits_le (suc n) zero b = omega arith
digits_le (suc n) (suc a) b = omega (arith, digits_le n (suc a / 2) (b / 2))

pub bit_and-le : (a b : ℕ) → bit_and a b ≤ b
bit_and-le a b = omega (arith, bit_and-bitwise a b, digits_le a a b)
