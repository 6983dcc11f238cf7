-- ===== src/Prelude/Text.antt =====
-- Go's strings, as native texts: `strings.Split` at an ASCII character, and texts that lack one.
use Prim.Native.Nat.{ℕ, suc, ◌+◌}
use Prim.Native.Char.{Char, code}
use Prim.Native.String.{String, ◌++◌ as ◌^^◌}
use mathlib.Core.Path.{◌≡◌, refl, ap}
use mathlib.Core.Logic.{◌≢◌}
use mathlib.Core.List.{List, [], ◌∷◌}
use native.Mathlib.Omega.{arith}
use text.Mathlib.TextLemmas.{nil-append, cons-append, append_assoc}
use eth_proxy.Prelude.Tests.{◌==◌, if◌then◌else◌}
use eth_proxy.Prelude.Lists.{All, length, drop_last}

-- A character before the first part.
abbrev onto_head : Char → List String → List String
onto_head c [] = String.◌∷◌ c "" ∷ []
onto_head c (p ∷ ps) = String.◌∷◌ c p ∷ ps

-- `strings.Split(s, sep)` at a separator of one character, given by its code point.
unfoldable pub split : String → ℕ → List String
split String.[] sep = "" ∷ []
split (String.◌∷◌ c s) sep =
    let parts = split s sep in if code c == sep then "" ∷ parts else onto_head c parts

-- The separator behind every text.
abbrev pub closed : String → List String → String
closed bar [] = ""
closed bar (p ∷ ps) = (p ^^ bar) ^^ closed bar ps

abbrev pub Lacks : ℕ → String → Type 0
Lacks sep String.[] = Unit
Lacks sep (String.◌∷◌ c s) = (code c ≢ sep) × Lacks sep s

pub append-Lacks : (sep : ℕ) (s t : String) → Lacks sep s → Lacks sep t → Lacks sep (s ^^ t)
append-Lacks sep String.[] t _ k = rw nil-append k
append-Lacks sep (String.◌∷◌ c s) t (p, h) k = rw cons-append (p, append-Lacks sep s t h k)

split_at_sep : (c : Char) (s : String) → split (String.◌∷◌ c s) (code c) ≡ "" ∷ split s (code c)
unfolding split
split_at_sep c s = ground arith

split_step :
    (sep : ℕ) (d : Char) (s p : String) (ps : List String)
    → code d ≢ sep
    → split s sep ≡ p ∷ ps
    → split (String.◌∷◌ d s) sep ≡ String.◌∷◌ d p ∷ ps
unfolding split
split_step sep d s p ps h e = ground arith

-- A part that lacks the separator ends where the separator stands.
pub split-append :
    (c : Char) (p s : String)
    → Lacks (code c) p
    → split (p ^^ String.◌∷◌ c s) (code c) ≡ p ∷ split s (code c)
split-append c String.[] s _ = rw nil-append (split_at_sep c s)
split-append c (String.◌∷◌ d p) s (q, h) =
    rw cons-append (split_step (code c) d _ p _ q (split-append c p s h))

pub split-of_Lacks : (sep : ℕ) (p : String) → Lacks sep p → split p sep ≡ p ∷ []
split-of_Lacks sep String.[] _ = unfold split in refl
split-of_Lacks sep (String.◌∷◌ c p) (q, h) = split_step sep c p p [] q (split-of_Lacks sep p h)

-- There is always a part.
pub split-ne-nil : (s : String) (sep : ℕ) → split s sep ≢ []
unfolding split
split-ne-nil String.[] sep = cc
split-ne-nil (String.◌∷◌ c s) sep = ground (arith, split-ne-nil s sep)

drop_last-cons : (p : String) (ps : List String) → ps ≢ [] → drop_last (p ∷ ps) ≡ p ∷ drop_last ps
drop_last-cons p [] h = absurd (h refl)
drop_last-cons p (q ∷ ps) h = refl

closed-cons :
    (c : Char) (p : String) (rest : String)
    → (p ^^ String.◌∷◌ c "") ^^ rest ≡ p ^^ String.◌∷◌ c rest
closed-cons c p rest = rw (append_assoc, cons-append, nil-append)

-- Texts that lack the separator, each with the separator behind it, split into themselves and a
-- last empty part.
pub split-closed :
    (c : Char) (ps : List String)
    → All (Lacks (code c)) ps
    → drop_last (split (closed (String.◌∷◌ c "") ps) (code c)) ≡ ps
split-closed c [] _ = unfold split in refl
split-closed c (p ∷ ps) (h, hs) =
    let rest = closed (String.◌∷◌ c "") ps in
    rw (closed-cons c p rest, split-append c p rest h)
      (rw (drop_last-cons p (split rest (code c)) (split-ne-nil rest (code c)))
        (ap (λ qs. p ∷ qs) (split-closed c ps hs)))

-- The separators in a text.
unfoldable pub count : ℕ → String → ℕ
count sep String.[] = 0
count sep (String.◌∷◌ c s) = if code c == sep then suc (count sep s) else count sep s

count_step :
    (sep : ℕ) (c : Char) (r s : String) (n : ℕ)
    → count sep r ≡ count sep s + n
    → count sep (String.◌∷◌ c r) ≡ count sep (String.◌∷◌ c s) + n
unfolding count
count_step sep c r s n e = ground arith

pub count-append : (sep : ℕ) (s t : String) → count sep (s ^^ t) ≡ count sep s + count sep t
count-append sep String.[] t = rw nil-append (unfold count in omega arith)
count-append sep (String.◌∷◌ c s) t =
    rw cons-append (count_step sep c (s ^^ t) s (count sep t) (count-append sep s t))

-- There is one part more than separators.
pub length-split : (s : String) (sep : ℕ) → length (split s sep) ≡ suc (count sep s)
unfolding split count
length-split String.[] sep = refl
length-split (String.◌∷◌ c s) sep = ground (arith, length-split s sep)

split_tests : (split "a,,b" b',' ≡ "a" ∷ "" ∷ "b" ∷ []) × (split "" b',' ≡ "" ∷ [])
unfolding split
split_tests = (refl, refl)
