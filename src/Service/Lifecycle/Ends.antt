-- ===== src/Service/Lifecycle/Ends.antt =====
-- How the service's start and stop end, in any order of events.
use eth_proxy.Prelude.{
  ℕ, suc, ◌≡◌, ◌≢◌, ◌∙◌, ◌⊎◌, inl, inr, sym, refl, Bool, true, false, String, List, [], ◌∷◌, ◌++◌,
  append-nil, append_assoc, Option, none, some, arith,
}
use eth_proxy.Service.{
  Action, log_line, listen_and_serve, shutdown, LogLine, Service, Build, start, stop,
}
use eth_proxy.Service.Lifecycle.{
  Life, Routine, absent, entering, serving, ended, server_closed, terminated_line, routine_step,
  caller_step, Event, by_caller, by_routine, life_step, live, launched,
}

-- The lines among some actions, how often they start the server, and whether they shut it down.
abbrev pub lines_of : List Action → List LogLine
lines_of [] = []
lines_of (log_line l ∷ acts) = l ∷ lines_of acts
lines_of (_ ∷ acts) = lines_of acts

abbrev pub starts_in : List Action → ℕ
starts_in [] = 0
starts_in (listen_and_serve addr ∷ acts) = suc (starts_in acts)
starts_in (_ ∷ acts) = starts_in acts

abbrev pub shuts : List Action → Bool
shuts [] = false
shuts (shutdown ∷ acts) = true
shuts (_ ∷ acts) = shuts acts

abbrev Started : Routine → List Action → Type 0
Started absent todo = starts_in todo ≡ 1
Started _ todo = starts_in todo ≡ 0

starts_in-Started :
    (r : Routine) (x y : List Action) → starts_in x ≡ starts_in y → Started r x → Started r y
starts_in-Started absent x y e k = omega arith
starts_in-Started entering x y e k = omega arith
starts_in-Started serving x y e k = omega arith
starts_in-Started ended x y e k = omega arith

twice : (n : ℕ) → suc n ≢ 0
twice n = omega arith

-- The goroutine logs when it ends.
abbrev pub Ended : Routine → List LogLine → Type 0
Ended ended ls = (e : String) × (ls ≡ terminated_line e ∷ [])
Ended _ ls = ls ≡ []

-- What holds between any two events.
record Ordered (actions : List Action) (l : Life) : Type 0 where
  said : l.caller_lines ++ lines_of l.todo ≡ lines_of actions
  starts : Started l.routine l.todo
  closes : (l.is_shut ≡ true) ⊎ (shuts l.todo ≡ true)
  ends : Ended l.routine l.routine_lines

module _ (actions : List Action) where
  abbrev life : Routine → Bool → List Action → List LogLine → List LogLine → Life
  life r shut todo cl rl = record {
    routine = r;
    is_shut = shut;
    todo = todo;
    caller_lines = cl;
    routine_lines = rl;
  }

  caller_life :
      (r : Routine) (shut : Bool) (todo : List Action) (cl rl : List LogLine)
      → Ordered actions (life r shut todo cl rl)
      → Ordered actions (caller_step (life r shut todo cl rl))
  unfolding caller_step
  caller_life r shut [] cl rl h = h
  caller_life r shut (log_line line ∷ rest) cl rl h = record {
    said = append_assoc cl (line ∷ []) (lines_of rest) ∙ h.said;
    starts = starts_in-Started r (log_line line ∷ rest) rest refl h.starts;
    closes = h.closes;
    ends = h.ends;
  }
  caller_life r shut (shutdown ∷ rest) cl rl h = record {
    said = h.said;
    starts = starts_in-Started r (shutdown ∷ rest) rest refl h.starts;
    closes = inl refl;
    ends = h.ends;
  }
  caller_life absent shut (listen_and_serve addr ∷ rest) cl rl h = record {
    said = h.said;
    starts = let once = h.starts in omega arith;
    closes = h.closes;
    ends = h.ends;
  }
  caller_life entering shut (listen_and_serve addr ∷ rest) cl rl h =
      absurd (twice (starts_in rest) h.starts)
  caller_life serving shut (listen_and_serve addr ∷ rest) cl rl h =
      absurd (twice (starts_in rest) h.starts)
  caller_life ended shut (listen_and_serve addr ∷ rest) cl rl h =
      absurd (twice (starts_in rest) h.starts)

  ended_life :
      (e : String) (r : Routine) (shut : Bool) (todo : List Action) (cl rl : List LogLine)
      → starts_in todo ≡ 0
      → rl ≡ []
      → Ordered actions (life r shut todo cl rl)
      → Ordered actions (life ended shut todo cl (rl ++ terminated_line e ∷ []))
  ended_life e r shut todo cl rl once quiet h = record {
    said = h.said;
    starts = once;
    closes = h.closes;
    ends = (e, rw quiet refl);
  }

  routine_life :
      (failed : Option String) (r : Routine) (shut : Bool) (todo : List Action)
      (cl rl : List LogLine)
      → Ordered actions (life r shut todo cl rl)
      → Ordered actions (routine_step failed (life r shut todo cl rl))
  unfolding routine_step
  routine_life failed absent shut todo cl rl h = h
  routine_life failed ended shut todo cl rl h = h
  routine_life failed entering true todo cl rl h =
      ended_life server_closed entering true todo cl rl h.starts h.ends h
  routine_life (some e) entering false todo cl rl h =
      ended_life e entering false todo cl rl h.starts h.ends h
  routine_life none entering false todo cl rl h = record {
    said = h.said;
    starts = h.starts;
    closes = h.closes;
    ends = h.ends;
  }
  routine_life failed serving true todo cl rl h =
      ended_life server_closed serving true todo cl rl h.starts h.ends h
  routine_life (some e) serving false todo cl rl h =
      ended_life e serving false todo cl rl h.starts h.ends h
  routine_life none serving false todo cl rl h = h

  live-Ordered : (evs : List Event) (l : Life) → Ordered actions l → Ordered actions (live evs l)
  unfolding live life_step
  live-Ordered [] l h = h
  live-Ordered (by_caller ∷ evs) l h =
      live-Ordered evs (caller_step l)
        (caller_life l.routine l.is_shut l.todo l.caller_lines l.routine_lines h)
  live-Ordered (by_routine failed ∷ evs) l h =
      live-Ordered evs (routine_step failed l)
        (routine_life failed l.routine l.is_shut l.todo l.caller_lines l.routine_lines h)

  launched-Ordered :
      starts_in actions ≡ 1 → shuts actions ≡ true → Ordered actions (launched actions)
  launched-Ordered once closed = record {
    said = refl;
    starts = once;
    closes = inr closed;
    ends = refl;
  }

abbrev Over : List Action → Life → Type 0
Over actions l =
    (l.routine ≡ ended)
    × ((e : String) × (l.routine_lines ≡ terminated_line e ∷ []))
    × (l.caller_lines ≡ lines_of actions)

Over-life :
    (actions : List Action) (any : Option String) (r : Routine) (shut : Bool) (cl rl : List LogLine)
    → Ordered actions (life actions r shut [] cl rl)
    → Over actions (routine_step any (life actions r shut [] cl rl))
unfolding routine_step
Over-life actions any absent shut cl rl h = absurd (let once = h.starts in omega arith)
Over-life actions any r false cl rl h = absurd (elim h.closes [ inl e ↦ cc e | inr e ↦ cc e ])
Over-life actions any entering true cl rl h =
    let quiet = h.ends in (refl, (server_closed, rw quiet refl), sym (append-nil cl) ∙ h.said)
Over-life actions any serving true cl rl h =
    let quiet = h.ends in (refl, (server_closed, rw quiet refl), sym (append-nil cl) ∙ h.said)
Over-life actions any ended true cl rl h = (refl, h.ends, sym (append-nil cl) ∙ h.said)

Over-at :
    (actions : List Action) (any : Option String) (r : Routine) (shut : Bool) (todo : List Action)
    (cl rl : List LogLine)
    → Ordered actions (life actions r shut todo cl rl)
    → todo ≡ []
    → Over actions (routine_step any (life actions r shut todo cl rl))
Over-at actions any r shut [] cl rl h done = Over-life actions any r shut cl rl h
Over-at actions any r shut (a ∷ todo) cl rl h done = absurd (cc done)

module _ {Entry R S : Type 0} (b : Build) (srv : Service Entry R S) (sig : String)
    (failed : Option String) where
  -- What main does with the service.
  abbrev pub start_and_stop : List Action
  start_and_stop = start b srv ++ stop sig failed srv

  starts_once : starts_in start_and_stop ≡ 1
  unfolding start stop
  starts_once = elim failed as (λ k. starts_in (start b srv ++ stop sig k srv) ≡ 1) [
    | none ↦ refl
    | some e ↦ refl
  ]

  shuts_down : shuts start_and_stop ≡ true
  unfolding start stop
  shuts_down = refl

  -- In whatever order the service and its server's goroutine run, once the service has been stopped the
  -- next step of the goroutine, if it is not over yet, ends it; it has then logged exactly one warning
  -- that the server has terminated, a graceful stop included, and the service's own lines are those of
  -- its start and stop, in their order.
  pub live-ends :
      (evs : List Event) (any : Option String)
      → (live evs (launched start_and_stop)).todo ≡ []
      → let l = routine_step any (live evs (launched start_and_stop)) in
        (l.routine ≡ ended)
        × ((e : String) × (l.routine_lines ≡ terminated_line e ∷ []))
        × (l.caller_lines ≡ lines_of start_and_stop)
  live-ends evs any done =
      let l = live evs (launched start_and_stop) in
      Over-at start_and_stop any l.routine l.is_shut l.todo l.caller_lines l.routine_lines
        (live-Ordered start_and_stop evs (launched start_and_stop)
          (launched-Ordered start_and_stop starts_once shuts_down))
        done

  -- If the server cannot listen, the service says that it listens all the same, and is left with no
  -- server until it is stopped.
  pub live-failed_listen :
      (e : String)
      → live
          (by_caller ∷ by_caller ∷ by_caller ∷ by_caller ∷ by_routine (some e) ∷ by_caller ∷ [])
          (launched start_and_stop)
        ≡ record {
          routine = ended;
          is_shut = false;
          todo = stop sig failed srv;
          caller_lines = lines_of (start b srv);
          routine_lines = terminated_line e ∷ [];
        }
  unfolding live life_step start stop
  live-failed_listen e = refl
