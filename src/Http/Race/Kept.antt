-- ===== src/Http/Race/Kept.antt =====
-- What every step of requests that are served at once keeps.
use eth_proxy.Prelude.{
  ℕ, zero, suc, ◌+◌, ◌≡◌, ◌∙◌, ◌⊎◌, inl, inr, ap, refl, sym, List, [], ◌∷◌, Option, none, some,
  length, set, get_elem?, All, All-append, length-append, append-nil, Option-cases, arith,
}
use eth_proxy.Prelude.Positions.{All_at, All-set}
use eth_proxy.Http.Logging.{Access, line_of}
use eth_proxy.Http.Race.{
  Ending, served, loaded, assigned, ended, Handled, advance, put_ending, log_step, LogSteps, here,
  next,
}

abbrev pending_one : {Entry : Type 0} → Ending Entry → ℕ
pending_one ended = 0
pending_one _ = 1

-- The requests that have not been logged.
abbrev pub pending : {Entry : Type 0} → List (Ending Entry) → ℕ
pending [] = 0
pending (p ∷ ps) = pending_one p + pending ps

pending-set :
    {Entry : Type 0} (ps : List (Ending Entry)) (i : ℕ) (p q : Ending Entry)
    → get_elem? ps i ≡ some p
    → pending (set ps i q) + pending_one p ≡ pending ps + pending_one q
pending-set [] i p q h = absurd (cc h)
pending-set (r ∷ ps) zero p q h =
    let same : r ≡ p = ground arith in
    let units : pending_one r ≡ pending_one p = ap pending_one same in omega arith
pending-set (r ∷ ps) (suc i) p q h = omega (arith, pending-set ps i p q h)

-- The request has not assigned to the variable.
abbrev pub IsEarly : {Entry : Type 0} → Ending Entry → Type 0
IsEarly (served a) = Unit
IsEarly (loaded a e) = Unit
IsEarly _ = ⊥

module _ {Entry : Type 0} (with_fields : Access → Entry → Entry) (base : Entry)
    (P : Access → Type 0) where
  -- The fields are those of one request, whichever.
  abbrev pub IsOne : Entry → Type 0
  IsOne e = (x : Access) × P x × (e ≡ with_fields x base)

  -- A property of what each request is logged with, and what it can have read.
  abbrev pub Of : Ending Entry → Type 0
  Of (served a) = P a
  Of (loaded a e) = P a × (with_fields a e ≡ with_fields a base)
  Of (assigned a) = P a
  Of ended = Unit

  abbrev Variable : Handled with_fields → Type 0
  Variable s =
      ((s.entry ≡ some base) × All IsEarly s.endings)
      ⊎ ((x : Access) × P x × (s.entry ≡ some (with_fields x base)))

  pub record Sound (s : Handled with_fields) : Type 0 where
    pub endings : All Of s.endings
    pub variable : Variable s
    pub lines : All (λ l. IsOne l.entry) s.lines

  module _
      (replaces : (a b : Access) (e : Entry)
        → with_fields a (with_fields b e) ≡ with_fields a e) where
    Sound-served :
        (s : Handled with_fields) (i : ℕ) (a : Access) (e : Entry)
        → get_elem? s.endings i ≡ some (served a)
        → s.entry ≡ some e
        → with_fields a e ≡ with_fields a base
        → Sound s
        → Sound (put_ending with_fields i (advance with_fields (served a) (some e)) s)
    Sound-served s i a e at_i holds same h = record {
      endings =
          All-set Of s.endings i (loaded a e) h.endings
            (All_at Of s.endings i (served a) h.endings at_i, same);
      variable = elim h.variable [
        | inl (fresh, early) ↦
            inl (sym holds ∙ fresh, All-set IsEarly s.endings i (loaded a e) early tt)
        | inr (x, px, one) ↦ inr (x, px, sym holds ∙ one)
      ];
      lines = rw append-nil h.lines;
    }

    Sound-loaded :
        (s : Handled with_fields) (i : ℕ) (a : Access) (e : Entry) (v : Option Entry)
        → get_elem? s.endings i ≡ some (loaded a e)
        → Sound s
        → Sound (put_ending with_fields i (advance with_fields (loaded a e) v) s)
    Sound-loaded s i a e v at_i h =
        let (pa, same) = All_at Of s.endings i (loaded a e) h.endings at_i in
        record {
          endings = All-set Of s.endings i (assigned a) h.endings pa;
          variable = inr (a, pa, ap some same);
          lines = rw append-nil h.lines;
        }

    Sound-assigned :
        (s : Handled with_fields) (i : ℕ) (a x : Access)
        → P x
        → Sound s
        → Of (assigned a)
        → Sound (
            put_ending with_fields i
              (advance with_fields (assigned a) (some (with_fields x base)))
              s)
    Sound-assigned s i a x px h own = record {
      endings = All-set Of s.endings i ended h.endings tt;
      variable = inr (x, px, refl);
      lines = All-append (λ l. IsOne l.entry) s.lines _ h.lines ((x, px, refl), tt);
    }

    log_step-at :
        (s : Handled with_fields) (i : ℕ) (p : Ending Entry) (e : Option Entry)
        → get_elem? s.endings i ≡ some p
        → s.entry ≡ e
        → log_step with_fields i s ≡ put_ending with_fields i (advance with_fields p e) s
    unfolding log_step
    log_step-at s i p e at_i holds = rw (← holds) (rw (at_i, log_step) refl)

    counted :
        (s : Handled with_fields) (i : ℕ) (p : Ending Entry) (e : Entry)
        → get_elem? s.endings i ≡ some p
        → let t = put_ending with_fields i (advance with_fields p (some e)) s in
          length t.lines + pending t.endings ≡ length s.lines + pending s.endings
    counted s i (served a) e at_i =
        rw append-nil (omega (arith, pending-set s.endings i (served a) (loaded a e) at_i))
    counted s i (loaded a d) e at_i =
        rw append-nil (omega (arith, pending-set s.endings i (loaded a d) (assigned a) at_i))
    counted s i (assigned a) e at_i = omega (
      arith,
      length-append s.lines (line_of with_fields a.http_code e ∷ []),
      pending-set s.endings i (assigned a) ended at_i,
    )
    counted s i ended e at_i =
        rw append-nil (omega (arith, pending-set s.endings i ended ended at_i))

    abbrev Kept : Handled with_fields → Handled with_fields → Type 0
    Kept s t = Sound t × (length t.lines + pending t.endings ≡ length s.lines + pending s.endings)

    Kept-at :
        (s : Handled with_fields) (i : ℕ) (p : Ending Entry)
        → get_elem? s.endings i ≡ some p
        → Sound s
        → Variable s
        → Kept s (log_step with_fields i s)
    Kept-at s i (served a) at_i h (inl (holds, _)) =
        rw (log_step-at s i (served a) (some base) at_i holds)
          (Sound-served s i a base at_i holds refl h, counted s i (served a) base at_i)
    Kept-at s i (served a) at_i h (inr (x, px, holds)) =
        rw (log_step-at s i (served a) (some (with_fields x base)) at_i holds) (
          Sound-served s i a (with_fields x base) at_i holds (replaces a x base) h,
          counted s i (served a) (with_fields x base) at_i,
        )
    Kept-at s i (loaded a e) at_i h (inl (holds, _)) =
        rw (log_step-at s i (loaded a e) (some base) at_i holds)
          (Sound-loaded s i a e (some base) at_i h, counted s i (loaded a e) base at_i)
    Kept-at s i (loaded a e) at_i h (inr (x, px, holds)) =
        rw (log_step-at s i (loaded a e) (some (with_fields x base)) at_i holds) (
          Sound-loaded s i a e (some (with_fields x base)) at_i h,
          counted s i (loaded a e) (with_fields x base) at_i,
        )
    Kept-at s i (assigned a) at_i h (inl (_, fresh)) =
        absurd (All_at IsEarly s.endings i (assigned a) fresh at_i)
    Kept-at s i (assigned a) at_i h (inr (x, px, holds)) =
        rw (log_step-at s i (assigned a) (some (with_fields x base)) at_i holds) (
          Sound-assigned s i a x px h (All_at Of s.endings i (assigned a) h.endings at_i),
          counted s i (assigned a) (with_fields x base) at_i,
        )
    Kept-at s i ended at_i h (inl (_, fresh)) = absurd (All_at IsEarly s.endings i ended fresh at_i)
    Kept-at s i ended at_i h (inr (x, px, holds)) =
        rw (log_step-at s i ended (some (with_fields x base)) at_i holds) (
          record {
            endings = All-set Of s.endings i ended h.endings tt;
            variable = inr (x, px, refl);
            lines = rw append-nil h.lines;
          },
          counted s i ended (with_fields x base) at_i,
        )

    log_step-past :
        (s : Handled with_fields) (i : ℕ)
        → get_elem? s.endings i ≡ none
        → log_step with_fields i s ≡ s
    unfolding log_step
    log_step-past s i past = rw (past, log_step) refl

    step-Kept : (s : Handled with_fields) (i : ℕ) → Sound s → Kept s (log_step with_fields i s)
    step-Kept s i h = elim (Option-cases (get_elem? s.endings i)) [
      | inl past ↦ rw (log_step-past s i past) (h, refl)
      | inr (p, at_i) ↦ Kept-at s i p at_i h h.variable
    ]

    pub steps-Kept : {s t : Handled with_fields} → LogSteps with_fields s t → Sound s → Kept s t
    steps-Kept here h = (h, refl)
    steps-Kept {s} (next i steps) h =
        let (sound, count) = step-Kept s i h in
        let (sound', count') = steps-Kept steps sound in (sound', count' ∙ count)
