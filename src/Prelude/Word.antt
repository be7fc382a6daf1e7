-- ===== src/Prelude/Word.antt =====
-- `uint64_t` (and `size_t`) addition and subtraction: both wrap at 2 ^ 64.
use Prim.Native.Nat.{ℕ, ◌+◌, ◌-◌, ◌%◌, ◌^◌, ◌≤◌, ◌<◌}
use mathlib.Core.Path.{◌≡◌}
use native.Mathlib.Omega.{arith}

abbrev pub word : ℕ
word = 2 ^ 64

unfoldable pub add64 : ℕ → ℕ → ℕ
add64 a b = (a + b) % word

unfoldable pub sub64 : ℕ → ℕ → ℕ
sub64 a b = (a + word - b) % word

-- A `uint32_t` as it is read
unfoldable pub to32 : ℕ → ℕ
to32 n = n % 2 ^ 32

-- Neither wraps while the result is in range.
pub add64_exact : (a b : ℕ) → a + b < word → add64 a b ≡ a + b
unfolding add64
add64_exact a b h = omega arith

pub sub64_exact : (a b : ℕ) → b ≤ a → a < word → sub64 a b ≡ a - b
unfolding sub64
sub64_exact a b h k = omega arith

pub to32_exact : (n : ℕ) → n < 2 ^ 32 → to32 n ≡ n
unfolding to32
to32_exact n h = omega arith
