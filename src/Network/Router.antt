-- ===== src/Network/Router.antt =====
-- `httprouter.Router`, as far as its documentation says what it does with a request: a parameter, the
-- laws that the service relies on, and a router by trial and error that has them.
use eth_proxy.Prelude.{
  ℕ, zero, suc, ◌+◌, ◌≡◌, ◌∙◌, refl, ap, Bool, true, false, not, ◌&&◌, ◌||◌, String, List, [], ◌∷◌,
  none, some, ◌==◌, str_eq, eq_iff, if◌then◌else◌, get_elem?, arith,
}
use eth_proxy.Prelude.Text.{count}
use Prim.Native.Char.{code}
use eth_proxy.Api.{Params}
use eth_proxy.Network.Patterns.{match_pattern, diverge, match_pattern-diverge, diverge_symm}

-- What the router does with a request: it calls the handle that was registered at an index, or replies
-- itself.
pub data Lookup : Type 0 where
  found : ℕ → Params → Lookup
  replied : (status : ℕ) → Lookup

-- The methods and patterns that were registered, in their order.
abbrev pub Table : Type 0
Table = List (String × String)

abbrev pub LookupFn : Type 0
LookupFn = Table → (method path : String) → Lookup

abbrev is_name : String → Bool
is_name key =
    not (str_eq key "") && (count b'/' key == 0) && (count b':' key == 0) && (count b'*' key == 0)

-- What may follow a character of a pattern, which is a slash or not: a parameter ends a pattern.
abbrev is_rest : Bool → String → Bool
is_rest slash String.[] = true
is_rest slash (String.◌∷◌ c p) =
    let rest = is_rest (code c == b'/') p in
    not (slash && (code c == b'/' || code c == b'.'))
    && (if code c == b':' then is_name p else not (code c == b'*') && rest)

-- A pattern that is a clean path, but for a parameter at its end.
abbrev is_simple : String → Bool
is_simple String.[] = false
is_simple (String.◌∷◌ c p) = (code c == b'/') && is_rest true p

abbrev apart_from : String × String → Table → Bool
apart_from r [] = true
apart_from r (q ∷ t) = diverge r.1 q.1 && apart_from r t

-- A table that is registered without a conflict, since its patterns are simple and diverge.
unfoldable pub unambiguous : Table → Bool
unfolding diverge count
unambiguous [] = true
unambiguous (r ∷ t) = is_simple r.1 && apart_from r t && unambiguous t

-- On such a table, a request is given to the one route of its method whose pattern matches. A path
-- that has a route of another method gets status 405, but for the method OPTIONS.
pub record Documented (lookup : LookupFn) : Type 0 where
  pub matched :
      (t : Table) (i : ℕ) (method pattern path : String) (ps : Params)
      → unambiguous t ≡ true
      → get_elem? t i ≡ some (method, pattern)
      → match_pattern pattern path ≡ some ps
      → lookup t method path ≡ found i ps
  pub other_method :
      (t : Table) (i : ℕ) (method other pattern path : String) (ps : Params)
      → unambiguous t ≡ true
      → get_elem? t i ≡ some (other, pattern)
      → match_pattern pattern path ≡ some ps
      → str_eq other method ≡ false
      → str_eq method "OPTIONS" ≡ false
      → lookup t method path ≡ replied 405

-- The first route that matches.
select : ℕ → Table → String → String → Bool → Lookup
unfolding match_pattern
select i [] method path known = replied (if known then 405 else 404)
select i ((m, p) ∷ t) method path known = elim (match_pattern p path) [
  | none ↦ select (suc i) t method path known
  | some ps ↦ if str_eq m method then found i ps else select (suc i) t method path true
]

unfoldable pub first_match : LookupFn
unfolding select
first_match t method path = select 0 t method path false

apart_from-at :
    (r q : String × String) (t : Table) (i : ℕ)
    → apart_from r t ≡ true
    → get_elem? t i ≡ some q
    → diverge r.1 q.1 ≡ true
apart_from-at r q [] i h e = absurd (cc e)
apart_from-at r q (x ∷ t) zero h e = ground arith
apart_from-at r q (x ∷ t) (suc i) h e = apart_from-at r q t i (ground arith) e

select-matched :
    (t : Table) (j i : ℕ) (method pattern path : String) (ps : Params) (known : Bool)
    → unambiguous t ≡ true
    → get_elem? t i ≡ some (method, pattern)
    → match_pattern pattern path ≡ some ps
    → select j t method path known ≡ found (j + i) ps
unfolding unambiguous select
select-matched [] j i method pattern path ps known h e m = absurd (cc e)
select-matched (r ∷ t) j zero method pattern path ps known h e m =
    ground (arith, eq_iff method method)
select-matched ((n, q) ∷ t) j (suc i) method pattern path ps known h e m =
    let apart = apart_from-at (n, q) (method, pattern) t i (ground arith) e in
    let other : match_pattern q path ≡ none =
      match_pattern-diverge pattern q path ps (diverge_symm pattern q ∙ apart) m in
    ground (arith, select-matched t (suc j) i method pattern path ps known)

select-apart :
    (t : Table) (j : ℕ) (r : String × String) (method path : String) (ps : Params) (known : Bool)
    → apart_from r t ≡ true
    → match_pattern r.1 path ≡ some ps
    → select j t method path known ≡ replied (if known then 405 else 404)
unfolding select
select-apart [] j r method path ps known h m = refl
select-apart ((n, q) ∷ t) j r method path ps known h m =
    let apart : diverge r.1 q ≡ true = ground arith in
    let other : match_pattern q path ≡ none = match_pattern-diverge r.1 q path ps apart m in
    ground (arith, select-apart t (suc j) r method path ps known)

select-other_method :
    (t : Table) (j i : ℕ) (method other pattern path : String) (ps : Params)
    → unambiguous t ≡ true
    → get_elem? t i ≡ some (other, pattern)
    → match_pattern pattern path ≡ some ps
    → str_eq other method ≡ false
    → select j t method path false ≡ replied 405
unfolding unambiguous select
select-other_method [] j i method other pattern path ps h e m wrong = absurd (cc e)
select-other_method (r ∷ t) j zero method other pattern path ps h e m wrong =
    ground (arith, select-apart t (suc j) r method path ps true)
select-other_method ((n, q) ∷ t) j (suc i) method other pattern path ps h e m wrong =
    let apart = apart_from-at (n, q) (other, pattern) t i (ground arith) e in
    let unlike : match_pattern q path ≡ none =
      match_pattern-diverge pattern q path ps (diverge_symm pattern q ∙ apart) m in
    ground (arith, select-other_method t (suc j) i method other pattern path ps)

-- Trying the routes one after the other does what is documented.
pub first_match-Documented : Documented first_match
unfolding first_match
first_match-Documented = record {
  matched = λ t i method pattern path ps h e m.
      select-matched t 0 i method pattern path ps false h e m ∙ ap (λ k. found k ps) (omega arith);
  other_method = λ t i method other pattern path ps h e m wrong options.
      select-other_method t 0 i method other pattern path ps h e m wrong;
}
