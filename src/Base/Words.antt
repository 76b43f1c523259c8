-- ===== src/Base/Words.antt =====
-- uint32_t arithmetic: conversions, sums and differences modulo 2^32.
use Prim.Native.Nat.{ℕ, ◌+◌, ◌-◌, ◌%◌, ◌^◌, ◌≤◌, ◌<◌}
use mathlib.Core.Path.{◌≡◌}
use native.Mathlib.Omega.{arith}

-- static_cast<std::uint32_t>(n)
unfoldable pub u32 : ℕ → ℕ
u32 n = n % 2 ^ 32

unfoldable pub add32 : ℕ → ℕ → ℕ
add32 a b = (a + b) % 2 ^ 32

unfoldable pub sub32 : ℕ → ℕ → ℕ
sub32 a b = (a + 2 ^ 32 - b) % 2 ^ 32

pub u32-le : (n : ℕ) → u32 n ≤ n
unfolding u32
u32-le n = omega arith

pub u32_small : (n : ℕ) → n < 2 ^ 32 → u32 n ≡ n
unfolding u32
u32_small n h = omega arith

pub add32_small : (a b : ℕ) → a + b < 2 ^ 32 → add32 a b ≡ a + b
unfolding add32
add32_small a b h = omega arith

pub sub32_small : (a b : ℕ) → b ≤ a → a < 2 ^ 32 → sub32 a b ≡ a - b
unfolding sub32
sub32_small a b h k = omega arith
