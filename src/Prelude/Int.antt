-- ===== src/Prelude/Int.antt =====
-- Signed numbers: Go's `int`, and the values of a `*big.Int`.
use Prim.Native.Nat.{ℕ, zero, suc}
use Prim.Native.Char.{char}
use Prim.Native.String.{String}
use mathlib.Core.Bool.{Bool, true, false}
use mathlib.Core.Option.{Option, none, some}
use mathlib.Core.Path.{◌≡◌, refl}
use eth_proxy.Prelude.Decimal.{format}

-- `negsuc n` is -(n + 1).
pub data ℤ : Type 0 where
  pos : ℕ → ℤ
  negsuc : ℕ → ℤ

abbrev pub is_zero : ℤ → Bool
is_zero (pos zero) = true
is_zero _ = false

-- `fmt.Sprintf("%d", n)`, and the decimal print of a `*big.Int`, which is "<nil>" for a nil pointer.
unfoldable pub format_int : ℤ → String
unfolding format
format_int (pos n) = format n
format_int (negsuc n) = String.◌∷◌ (char 45 tt) (format (suc n))

unfoldable pub big_string : Option ℤ → String
unfolding format_int
big_string none = "<nil>"
big_string (some n) = format_int n

big_string_tests : (big_string (some (negsuc 41)) ≡ "-42") × (big_string none ≡ "<nil>")
unfolding big_string
big_string_tests = (refl, refl)
