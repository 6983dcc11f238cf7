-- ===== src/Network/Patterns.antt =====
-- The patterns that routes are registered under, and how the documentation of httprouter says that they
-- match: a path is matched exactly, and a last `:name` matches what is left up to the next `/`.
use eth_proxy.Prelude.{
  ℕ, ◌+◌, ◌≡◌, ◌≢◌, ◌∙◌, refl, Bool, true, false, not, ◌&&◌, ◌||◌, String, ◌^^◌, Option, none, some,
  ltb, ◌==◌, if◌then◌else◌, arith,
}
use eth_proxy.Prelude.Text.{count}
use Prim.Native.Char.{Char, code}
use text.Mathlib.TextLemmas.{nil-append, cons-append}
use eth_proxy.Api.{Params, param, no_params}

-- What a last `:name` captures.
abbrev pub segment : String → String → Option Params
segment key v = if count b'/' v == 0 then some (param key v) else none

unfoldable pub match_pattern : String → String → Option Params
unfolding count
match_pattern String.[] String.[] = some no_params
match_pattern String.[] (String.◌∷◌ d s) = none
match_pattern (String.◌∷◌ c p) String.[] = none
match_pattern (String.◌∷◌ c p) (String.◌∷◌ d s) =
    let rest = match_pattern p s in
    if code c == b':' then segment p (String.◌∷◌ d s) else if code c == code d then rest else none

abbrev lower : ℕ → ℕ
lower c = if ltb 64 c && ltb c 91 then c + 32 else c

-- Two characters of ASCII that differ in more than their case.
abbrev differ : ℕ → ℕ → Bool
differ c d = ltb c 128 && ltb d 128 && not (lower c == lower d)

-- Two patterns that differ in a character, whatever its case, before either has a parameter.
unfoldable pub diverge : String → String → Bool
diverge (String.◌∷◌ c p) (String.◌∷◌ d q) =
    let rest = diverge p q in
    if code c == b':' || code d == b':'
    then false
    else if differ (code c) (code d)
    then true
    else rest
diverge _ _ = false

-- Patterns that diverge match no path in common.
pub match_pattern-diverge :
    (p q path : String) (ps : Params)
    → diverge p q ≡ true
    → match_pattern p path ≡ some ps
    → match_pattern q path ≡ none
unfolding match_pattern diverge
match_pattern-diverge (String.◌∷◌ c p) (String.◌∷◌ d q) (String.◌∷◌ e s) ps apart h =
    ground (arith, match_pattern-diverge p q s ps)
match_pattern-diverge p q path ps apart h = ground arith

pub diverge_symm : (p q : String) → diverge p q ≡ diverge q p
unfolding diverge
diverge_symm String.[] String.[] = refl
diverge_symm String.[] (String.◌∷◌ d q) = refl
diverge_symm (String.◌∷◌ c p) String.[] = refl
diverge_symm (String.◌∷◌ c p) (String.◌∷◌ d q) = ground (arith, diverge_symm p q)

count-first :
    (sep : ℕ) (c : Char) (s : String)
    → count sep (String.◌∷◌ c s) ≡ 0
    → (count sep s ≡ 0) × (code c ≢ sep)
unfolding count
count-first sep c s h = (ground arith, ground arith)

match_step :
    (c : Char) (p s : String)
    → code c ≢ b':'
    → match_pattern (String.◌∷◌ c p) (String.◌∷◌ c s) ≡ match_pattern p s
unfolding match_pattern
match_step c p s h = ground arith

-- A pattern without a parameter matches itself.
pub match_pattern_self : (p : String) → count b':' p ≡ 0 → match_pattern p p ≡ some no_params
unfolding match_pattern count
match_pattern_self String.[] _ = refl
match_pattern_self (String.◌∷◌ c p) h = ground (arith, match_pattern_self p)

-- A prefix without a parameter, and a parameter behind it, match the prefix and a segment behind it.
pub match_pattern-append :
    (prefix key v : String) (c : Char)
    → count b':' prefix ≡ 0
    → count b'/' (String.◌∷◌ c v) ≡ 0
    → match_pattern (prefix ^^ String.◌∷◌ ":" key) (prefix ^^ String.◌∷◌ c v)
      ≡ some (param key (String.◌∷◌ c v))
match_pattern-append String.[] key v c _ h =
    rw (nil-append, nil-append) (unfold match_pattern in ground arith)
match_pattern-append (String.◌∷◌ d p) key v c plain h =
    let (fewer, no_colon) = count-first b':' d p plain in
    rw (cons-append, cons-append)
      (match_step d (p ^^ String.◌∷◌ ":" key) (p ^^ String.◌∷◌ c v) no_colon
        ∙ match_pattern-append p key v c fewer h)
