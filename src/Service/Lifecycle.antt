-- ===== src/Service/Lifecycle.antt =====
-- proxy/http.go: `Start` and `Stop` of the server, while the service is started and stopped. The server
-- runs beside its caller: of `net/http` the model has that `ListenAndServe` returns an error whenever it
-- returns, and the error that the server is closed once `Shutdown` has been called.
pub mod Ends
use eth_proxy.Prelude.{
  ◌≡◌, refl, Bool, true, false, String, List, [], ◌∷◌, ◌++◌, Option, none, some, if◌then◌else◌,
}
use eth_proxy.Service.{
  Action, log_line, listen_and_serve, shutdown, LogLine, info_level, warn_level,
}

-- Where the goroutine of `Start` stands.
pub data Routine : Type 0 where
  absent entering serving ended : Routine

-- The goroutine, whether `Shutdown` has been called, what the caller has left to do, and the lines that
-- each of them has logged.
pub record Life : Type 0 where
  pub routine : Routine
  pub is_shut : Bool
  pub todo : List Action
  pub caller_lines : List LogLine
  pub routine_lines : List LogLine

-- `http.ErrServerClosed`.
abbrev pub server_closed : String
server_closed = "http: Server closed"

abbrev pub terminated_line : String → LogLine
terminated_line e = record {
  level = warn_level;
  message = "serverTerminated";
  fields = ("error", e) ∷ [];
}

-- `ListenAndServe` returns.
abbrev terminated : String → Life → Life
terminated e l = record l {
  routine = ended;
  routine_lines = l.routine_lines ++ terminated_line e ∷ [];
}

-- It listens and serves, unless the server is shut, or it fails.
abbrev listen : Option String → Life → Life
listen failed l =
    if l.is_shut
    then terminated server_closed l
    else elim failed [ none ↦ record l { routine = serving } | some e ↦ terminated e l ]

-- A step of the goroutine, in which the listener may fail, and a step of the caller.
unfoldable pub routine_step : Option String → Life → Life
routine_step failed l = elim l.routine [
  | absent ↦ l
  | entering ↦ listen failed l
  | serving ↦ listen failed l
  | ended ↦ l
]

unfoldable pub caller_step : Life → Life
caller_step l = elim l.todo [
  | [] ↦ l
  | log_line line ∷ rest ↦ record l { todo = rest; caller_lines = l.caller_lines ++ line ∷ [] }
  | listen_and_serve addr ∷ rest ↦ record l { todo = rest; routine = entering }
  | shutdown ∷ rest ↦ record l { todo = rest; is_shut = true }
]

pub data Event : Type 0 where
  by_caller : Event
  by_routine : (failed : Option String) → Event

unfoldable pub life_step : Event → Life → Life
unfolding routine_step caller_step
life_step by_caller l = caller_step l
life_step (by_routine failed) l = routine_step failed l

-- Any order of the events.
unfoldable pub live : List Event → Life → Life
unfolding life_step
live [] l = l
live (ev ∷ evs) l = live evs (life_step ev l)

abbrev pub launched : List Action → Life
launched actions = record {
  routine = absent;
  is_shut = false;
  todo = actions;
  caller_lines = [];
  routine_lines = [];
}
