-- ===== src/Prelude/Fault.antt =====
-- State passing with a fault: `none` is a panic of the Go runtime.
use Prim.Native.String.{String}
use mathlib.Core.Path.{◌≡◌, refl}
use mathlib.Core.Logic.{◌⊎◌, inl, inr}
use mathlib.Core.Option.{Option, none, some}
use eth_proxy.Prelude.Tests.{Option-cases}

-- A fallible result whose value is not looked at when there is an error.
pub data Result {ℓ} (A : Type ℓ) : Type ℓ where
  ok : A → Result A
  err : String → Result A

abbrev pub Run : Type 0 → Type 0 → Type 0
Run S A = S → Option (A × S)

abbrev pub pure : {S A : Type 0} → A → Run S A
pure a s = some (a, s)

abbrev pub panic : {S A : Type 0} → Run S A
panic s = none

infixl 5 ◌>>=◌ ◌>>◌
abbrev pub ◌>>=◌ : {S A B : Type 0} → Run S A → (A → Run S B) → Run S B
◌>>=◌ m f s = elim (m s) [ none ↦ none | some (a, s') ↦ f a s' ]

abbrev pub ◌>>◌ : {S B : Type 0} → Run S (Unit {0}) → Run S B → Run S B
m >> k = m >>= λ _. k

-- The value of an index expression that is in range, and a panic of one that is not.
abbrev pub in_range : {S A : Type 0} → Option A → Run S A
in_range none = panic
in_range (some a) = pure a

-- The parts of a sequence that returns.
pub >>=-eq-some :
    {S A B : Type 0} (m : Run S A) (f : A → Run S B) (s : S) {r : B × S}
    → (m >>= f) s ≡ some r
    → (a : A) × (t : S) × (m s ≡ some (a, t)) × (f a t ≡ some r)
>>=-eq-some m f s h = elim (Option-cases (m s)) [
  | inl e ↦ absurd (cc (rw (e, ◌>>=◌) at h))
  | inr ((a, t), e) ↦ (a, t, e, rw (e, ◌>>=◌) at h)
]

pub Result-cases {ℓ} :
    {A : Type ℓ} (r : Result A) → ((e : String) × (r ≡ err e)) ⊎ ((a : A) × (r ≡ ok a))
Result-cases (ok a) = inr (a, refl)
Result-cases (err e) = inl (e, refl)
