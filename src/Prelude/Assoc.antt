-- ===== src/Prelude/Assoc.antt =====
-- Maps as lists of their entries, by a key that is a text.
use eth_proxy.Prelude.{
  ◌≡◌, refl, String, List, [], ◌∷◌, Option, none, some, str_eq, eq_iff, if◌then◌else◌, Bool-cases,
  inl, inr, arith,
}

module _ {A : Type 0} where
  -- `m[key]`.
  abbrev pub lookup : String → List (String × A) → Option A
  lookup key [] = none
  lookup key ((k, a) ∷ m) = if str_eq k key then some a else lookup key m

  -- `m[key] = a`: a new key stands behind the others.
  abbrev pub put : String → A → List (String × A) → List (String × A)
  put key a [] = (key, a) ∷ []
  put key a ((k, b) ∷ m) = if str_eq k key then (key, a) ∷ m else (k, b) ∷ put key a m

  abbrev pub put_all : List (String × A) → List (String × A) → List (String × A)
  put_all m [] = m
  put_all m ((key, a) ∷ es) = put_all (put key a m) es

  -- The last of some entries under a key.
  abbrev pub latest : String → List (String × A) → Option A
  latest key [] = none
  latest key ((k, a) ∷ es) = elim (latest key es) [
    | some b ↦ some b
    | none ↦ if str_eq k key then some a else none
  ]

  abbrev pub or_else : Option A → Option A → Option A
  or_else (some a) b = some a
  or_else none b = b

  lookup-put :
      (key k : String) (a : A) (m : List (String × A))
      → lookup key (put k a m) ≡ (if str_eq k key then some a else lookup key m)
  lookup-put key k a [] = refl
  lookup-put key k a ((j, b) ∷ m) = elim (Bool-cases (str_eq j k)) [
    | inl same ↦ let here : j ≡ k = ground (arith, eq_iff j k) in rw here (ground arith)
    | inr other ↦ ground (arith, lookup-put key k a m, eq_iff j key, eq_iff k key)
  ]

  pub lookup-put_all :
      (key : String) (m es : List (String × A))
      → lookup key (put_all m es) ≡ or_else (latest key es) (lookup key m)
  lookup-put_all key m [] = refl
  lookup-put_all key m ((k, a) ∷ es) =
      ground (arith, lookup-put_all key (put k a m) es, lookup-put key k a m)
