-- ===== src/Prelude/Words.antt =====
-- Go's `uint64`: subtraction wraps around.
use Prim.Native.Nat.{ℕ, ◌+◌, ◌-◌, ◌%◌, ◌^◌, ◌≤◌, ◌<◌}
use mathlib.Core.Path.{◌≡◌}
use native.Mathlib.Omega.{arith}

abbrev pub word : ℕ
word = 2 ^ 64

unfoldable pub sub64 : ℕ → ℕ → ℕ
sub64 a b = (a + word - b) % word

-- Below the bound, nothing wraps where the smaller number is subtracted from the larger.
pub sub64_of_le : (a b : ℕ) → a < word → b ≤ a → sub64 a b ≡ a - b
unfolding sub64
sub64_of_le a b h k = omega arith
