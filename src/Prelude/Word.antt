-- ===== src/Prelude/Word.antt =====
-- Machine integers: `saturating_add` and `saturating_sub` on `u64` and `usize`.
use Prim.Native.Nat.{ℕ, ◌+◌, ◌≤◌, min}
use mathlib.Core.Path.{◌≡◌}
use native.Mathlib.Omega.{arith}

-- `u64::MAX`, which is `usize::MAX` on the 64-bit targets of the daemon.
abbrev pub u64_max : ℕ
u64_max = 18_446_744_073_709_551_615

unfoldable pub saturating_add : ℕ → ℕ → ℕ
saturating_add a b = min (a + b) u64_max

-- Adding one to a count that is itself capped.
pub saturating_add_capped :
    (a b n : ℕ) → a ≡ min n u64_max → saturating_add a b ≡ min (n + b) u64_max
unfolding saturating_add
saturating_add_capped a b n h = omega arith

pub saturating_add-le : (a b : ℕ) → saturating_add a b ≤ a + b
unfolding saturating_add
saturating_add-le a b = omega arith

-- No overflow below the limit.
pub saturating_add-exact : (a b : ℕ) → a + b ≤ u64_max → saturating_add a b ≡ a + b
unfolding saturating_add
saturating_add-exact a b h = omega arith
