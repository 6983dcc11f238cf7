-- ===== src/Prelude/Decimal.antt =====
-- `fmt.Sprintf("%d", n)`: numbers in decimal.
use Prim.Native.Nat.{ℕ, zero, suc, ◌+◌, ◌-◌, ◌*◌, ◌/◌, ◌%◌, ◌<◌}
use Prim.Native.Char.{Char, char, code}
use Prim.Native.String.{String}
use mathlib.Core.Path.{◌≡◌, refl, ap, sym, ◌∙◌}
use native.Mathlib.Omega.{arith}
use eth_proxy.Prelude.Tests.{ltb, if◌then◌else◌}
use eth_proxy.Prelude.Text.{Lacks}

-- The digit of a number below ten.
digit : ℕ → Char
digit zero = char 48 tt
digit (suc zero) = char 49 tt
digit (suc (suc zero)) = char 50 tt
digit (suc (suc (suc zero))) = char 51 tt
digit (suc (suc (suc (suc zero)))) = char 52 tt
digit (suc (suc (suc (suc (suc zero))))) = char 53 tt
digit (suc (suc (suc (suc (suc (suc zero)))))) = char 54 tt
digit (suc (suc (suc (suc (suc (suc (suc zero))))))) = char 55 tt
digit (suc (suc (suc (suc (suc (suc (suc (suc zero)))))))) = char 56 tt
digit _ = char 57 tt

-- The digits of `n` before the text `acc`; a round divides `n` by ten.
digits : ℕ → ℕ → String → String
digits zero n acc = acc
digits (suc fuel) n acc =
    let longer = String.◌∷◌ (digit (n % 10)) acc in
    let more = digits fuel (n / 10) longer in if ltb n 10 then longer else more

-- `suc n` rounds are enough.
unfoldable pub format : ℕ → String
unfolding digits digit
format n = digits (suc n) n ""

-- The number that digits spell behind `n`.
abbrev value : ℕ → String → ℕ
value n String.[] = n
value n (String.◌∷◌ c s) = value (n * 10 + (code c - 48)) s

digit-code : (d : ℕ) → d < 10 → code (digit d) ≡ d + 48
unfolding digit
digit-code zero h = refl
digit-code (suc zero) h = refl
digit-code (suc (suc zero)) h = refl
digit-code (suc (suc (suc zero))) h = refl
digit-code (suc (suc (suc (suc zero)))) h = refl
digit-code (suc (suc (suc (suc (suc zero))))) h = refl
digit-code (suc (suc (suc (suc (suc (suc zero)))))) h = refl
digit-code (suc (suc (suc (suc (suc (suc (suc zero))))))) h = refl
digit-code (suc (suc (suc (suc (suc (suc (suc (suc zero)))))))) h = refl
digit-code (suc (suc (suc (suc (suc (suc (suc (suc (suc d))))))))) h = omega arith

value-digits : (fuel n : ℕ) (acc : String) → n < fuel → value 0 (digits fuel n acc) ≡ value n acc
unfolding digits
value-digits zero n acc h = absurd (omega arith)
value-digits (suc fuel) n acc h =
    ground
      (arith, digit-code (n % 10), value-digits fuel (n / 10) (String.◌∷◌ (digit (n % 10)) acc))

-- Different numbers are printed differently.
pub format_injective : (n m : ℕ) → format n ≡ format m → n ≡ m
unfolding format
format_injective n m e =
    sym (value-digits (suc n) n "" (omega arith))
    ∙ ap (value 0) e
    ∙ value-digits (suc m) m "" (omega arith)

-- No digit is the separator `c`.
digits-Lacks : (c fuel n : ℕ) (acc : String) → 57 < c → Lacks c acc → Lacks c (digits fuel n acc)
unfolding digits
digits-Lacks c zero n acc h k = k
digits-Lacks c (suc fuel) n acc h k =
    ground
      (arith, digit-code (n % 10), digits-Lacks c fuel (n / 10) (String.◌∷◌ (digit (n % 10)) acc))

pub format-Lacks : (c n : ℕ) → 57 < c → Lacks c (format n)
unfolding format
format-Lacks c n h = digits-Lacks c (suc n) n "" h tt

format_tests : (format 0 ≡ "0") × (format 1000000000000000000 ≡ "1000000000000000000")
unfolding format
format_tests = (refl, refl)
