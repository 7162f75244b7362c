-- ===== src/Base/Bits.antt =====
-- Bounds of the bitwise operations.
use Prim.Native.Nat.{min, max, bit_and, bit_or, digits, bit_and-bitwise, bit_or-bitwise}
use cmsis_cpp.Base.{ℕ, zero, suc, ◌/◌, ◌^◌, ◌≤◌, ◌<◌, arith}

or_digits-lt : (k n a b : ℕ) → a < 2 ^ k → b < 2 ^ k → digits (λ b. b) max n a b < 2 ^ k
or_digits-lt k zero a b p q = q
or_digits-lt k (suc n) zero b p q = q
or_digits-lt zero (suc n) (suc a) b p q = absurd (omega arith)
or_digits-lt (suc k) (suc n) (suc a) b p q =
    omega (arith, or_digits-lt k n (suc a / 2) (b / 2) (omega arith) (omega arith))

pub bit_or-lt : (k a b : ℕ) → a < 2 ^ k → b < 2 ^ k → bit_or a b < 2 ^ k
bit_or-lt k a b p q = omega (arith, bit_or-bitwise a b, or_digits-lt k a a b p q)

and_digits-le : (n a b : ℕ) → digits (λ b. zero) min n a b ≤ a
and_digits-le zero a b = omega arith
and_digits-le (suc n) zero b = omega arith
and_digits-le (suc n) (suc a) b = omega (arith, and_digits-le n (suc a / 2) (b / 2))

pub bit_and-le : (a b : ℕ) → bit_and a b ≤ a
bit_and-le a b = omega (arith, bit_and-bitwise a b, and_digits-le a a b)
