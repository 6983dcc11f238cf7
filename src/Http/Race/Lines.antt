-- ===== src/Http/Race/Lines.antt =====
-- What is logged for requests that are served at once.
use eth_proxy.Prelude.{◌+◌, ◌≡◌, inl, refl, List, [], ◌∷◌, some, length, map, All, arith}
use eth_proxy.Http.Logging.{Access, line_of}
use eth_proxy.Http.Race.Kept.{pending, IsEarly, Of, steps-Kept}
use eth_proxy.Http.Race.{served, Handled, log_step, LogSteps, here, next}

module _ {Entry : Type 0} (with_fields : Access → Entry → Entry) (base : Entry) where
  -- The handlers of some requests have returned, and nothing is logged yet.
  abbrev pub started : List Access → Handled with_fields
  started accs = record { entry = some base; endings = map served accs; lines = [] }

  All-IsEarly : (accs : List Access) → All (IsEarly {Entry = Entry}) (map served accs)
  All-IsEarly [] = tt
  All-IsEarly (a ∷ accs) = (tt, All-IsEarly accs)

  All-Of :
      (P : Access → Type 0) (accs : List Access)
      → All P accs
      → All (Of with_fields base P) (map served accs)
  All-Of P [] _ = tt
  All-Of P (a ∷ accs) (h, hs) = (h, All-Of P accs hs)

  pending-served : (accs : List Access) → pending {Entry = Entry} (map served accs) ≡ length accs
  pending-served [] = refl
  pending-served (a ∷ accs) = omega (arith, pending-served accs)

  -- However the requests that one handle serves at once are mixed, the logger has been called as often
  -- as there are requests that are done, though not always with the fields of the request that is done;
  -- and no call mixes the fields of two requests, if fields that are given again replace those that
  -- were there: each has the fields of a single one of them.
  pub LogSteps-lines :
      (P : Access → Type 0) (accs : List Access) (t : Handled with_fields)
      → ((a b : Access) (e : Entry) → with_fields a (with_fields b e) ≡ with_fields a e)
      → All P accs
      → LogSteps with_fields (started accs) t
      → All (λ l. (x : Access) × P x × (l.entry ≡ with_fields x base)) t.lines
        × (length t.lines + pending t.endings ≡ length accs)
  LogSteps-lines P accs t replaces holds steps =
      let (sound, count) = steps-Kept with_fields base P replaces steps (record {
        endings = All-Of P accs holds;
        variable = inl (refl, All-IsEarly accs);
        lines = tt;
      }) in
      let waiting = pending-served accs in (sound.lines, omega arith)

  -- Of two requests at once, the line of the first can have the fields of the second, under the level
  -- of the first.
  pub LogSteps-mistaken :
      (a b : Access)
      → ((x y : Access) (e : Entry) → with_fields x (with_fields y e) ≡ with_fields x e)
      → (t : Handled with_fields) × LogSteps with_fields (started (a ∷ b ∷ [])) t
        × (t.lines
            ≡ line_of with_fields a.http_code (with_fields b base)
              ∷ line_of with_fields b.http_code (with_fields b base)
              ∷ [])
        × (pending t.endings ≡ 0)
  unfolding log_step
  LogSteps-mistaken a b replaces = (
    _,
    next 0 (next 0 (next 1 (next 1 (next 0 (next 1 here))))),
    rw (replaces b a base) refl,
    refl,
  )
