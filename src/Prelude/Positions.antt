-- ===== src/Prelude/Positions.antt =====
-- Lists by their positions: what is in range, and a property of all elements at one.
use Prim.Native.Nat.{ℕ, zero, suc, ◌<◌}
use mathlib.Core.Path.{◌≡◌, refl, ap}
use mathlib.Core.Logic.{◌≢◌, ◌⊎◌, inl, inr}
use mathlib.Core.Option.{some}
use mathlib.Core.List.{List, [], ◌∷◌, ◌++◌}
use native.Mathlib.Omega.{arith}
use eth_proxy.Prelude.Lists.{length, get_elem?, set, All}

module _ {A : Type 0} where
  pub get_elem?_in_range :
      (xs : List A) (i : ℕ) → i < length xs → (x : A) × (get_elem? xs i ≡ some x)
  get_elem?_in_range [] i h = absurd (omega arith)
  get_elem?_in_range (x ∷ xs) zero h = (x, refl)
  get_elem?_in_range (x ∷ xs) (suc i) h = get_elem?_in_range xs i (omega arith)

  pub snoc_cases :
      (xs : List A) → (xs ≡ []) ⊎ ((before : List A) × (x : A) × (xs ≡ before ++ x ∷ []))
  snoc_cases [] = inl refl
  snoc_cases (x ∷ xs) = elim (snoc_cases xs) [
    | inl e ↦ inr ([], x, ap (λ l. x ∷ l) e)
    | inr (before, y, e) ↦ inr (x ∷ before, y, ap (λ l. x ∷ l) e)
  ]

  pub snoc-ne-nil : (xs : List A) (x : A) → xs ++ x ∷ [] ≢ []
  snoc-ne-nil [] x = cc
  snoc-ne-nil (y ∷ xs) x = cc

  pub All_at :
      (P : A → Type 0) (xs : List A) (k : ℕ) (x : A) → All P xs → get_elem? xs k ≡ some x → P x
  All_at P [] k x h e = cc
  All_at P (y ∷ xs) zero x (p, h) e = let same : y ≡ x = ground arith in rw (← same) p
  All_at P (y ∷ xs) (suc k) x (p, h) e = All_at P xs k x h e

  pub All-set : (P : A → Type 0) (xs : List A) (k : ℕ) (x : A) → All P xs → P x → All P (set xs k x)
  All-set P [] k x h p = tt
  All-set P (y ∷ xs) zero x (q, h) p = (p, h)
  All-set P (y ∷ xs) (suc k) x (q, h) p = (q, All-set P xs k x h p)

  pub All-front : (P : A → Type 0) (xs ys : List A) → All P (xs ++ ys) → All P xs
  All-front P [] ys h = tt
  All-front P (x ∷ xs) ys (p, h) = (p, All-front P xs ys h)
