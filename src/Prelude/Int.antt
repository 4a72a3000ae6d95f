-- ===== src/Prelude/Int.antt =====
-- The signed numbers that a difference of two instants is: `negsuc n` is -(n + 1).
use Prim.Native.Nat.{ℕ, zero, suc, ◌+◌}
use mathlib.Core.Path.{◌≡◌}
use mathlib.Core.Bool.{Bool, true, false}
use native.Mathlib.Omega.{arith}
use npmfilter.Prelude.Tests.{ltb}

pub data ℤ : Type 0 where
  pos : ℕ → ℤ
  negsuc : ℕ → ℤ

-- `a < b`.
unfoldable pub lt_int : ℤ → ℤ → Bool
lt_int (pos a) (pos b) = ltb a b
lt_int (pos a) (negsuc b) = false
lt_int (negsuc a) (pos b) = true
lt_int (negsuc a) (negsuc b) = ltb b a

-- `u64::try_from(n).unwrap_or_default()`.
unfoldable pub unsigned_or_zero : ℤ → ℕ
unsigned_or_zero (pos n) = n
unsigned_or_zero (negsuc n) = 0

-- `n + 1`.
unfoldable pub increment : ℤ → ℤ
increment (pos n) = pos (n + 1)
increment (negsuc zero) = pos 0
increment (negsuc (suc n)) = negsuc n

infix 50 ◌≤ℤ◌
abbrev pub ◌≤ℤ◌ : ℤ → ℤ → Type 0
a ≤ℤ b = lt_int b a ≡ false

-- What is not below a bound stays so as it grows.
pub lt_int_mono : (a b c : ℤ) → lt_int a c ≡ false → a ≤ℤ b → lt_int b c ≡ false
unfolding lt_int
lt_int_mono (pos a) (pos b) (pos c) h k = ground arith
lt_int_mono (pos a) (pos b) (negsuc c) h k = ground arith
lt_int_mono (pos a) (negsuc b) (pos c) h k = ground arith
lt_int_mono (pos a) (negsuc b) (negsuc c) h k = ground arith
lt_int_mono (negsuc a) (pos b) (pos c) h k = ground arith
lt_int_mono (negsuc a) (pos b) (negsuc c) h k = ground arith
lt_int_mono (negsuc a) (negsuc b) (pos c) h k = ground arith
lt_int_mono (negsuc a) (negsuc b) (negsuc c) h k = ground arith
