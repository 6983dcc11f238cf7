-- ===== src/Tests/Lives.antt =====
-- Runs of the service's start and stop, and of the service over a simulated chain.
use eth_proxy.Prelude.{
  ℕ, ◌≡◌, refl, String, List, [], ◌∷◌, none, some, Result, ok, err, str_eq, if◌then◌else◌, arith,
}
use eth_proxy.Prelude.Int.{pos}
use eth_proxy.Http.{Conn, conn_writer}
use eth_proxy.Http.Logging.{Access}
use eth_proxy.Logger.{Logrus, Entry}
use eth_proxy.Service.{Service, Build, new, start, stop}
use eth_proxy.Service.Lifecycle.{
  Event, by_caller, by_routine, live, launched, life_step, ended, terminated_line, routine_step,
}
use eth_proxy.Service.Lifecycle.Ends.{lines_of, start_and_stop, live-ends}
use eth_proxy.Stack.Mock.{
  Simulation, BlockchainBackend, SvcStack, Cleanup, close_backend, mock_eth_proxy_service,
}
use eth_proxy.Stack.Mock.Chains.{Tracks}
use eth_proxy.Stack.Mock.Cleanups.{Ends, mock-Ends}
use eth_proxy.Tests.Samples.{toy, World, answering}

abbrev levels : Logrus
levels = record {
  Level = String;
  parse_level = λ s. if str_eq s "loud" then err "not a valid logrus Level" else ok s;
  is_debug = λ l. str_eq l "debug";
}

abbrev with_none : Access → Entry String → Entry String
with_none a e = e

abbrev build : Build
build = record { version = "0.1.0"; git_commit = ""; build_date = ""; commit_date = "" }

abbrev srv : Service (Entry String) Conn World
srv = new with_none {R = Conn} (pos 8080) none (answering "1" 100) "0.1.0"

-- The server listens only after the service has said so, and is then shut down.
abbrev events : List Event
events =
    by_caller
    ∷ by_caller
    ∷ by_caller
    ∷ by_caller
    ∷ by_caller
    ∷ by_routine none
    ∷ by_caller
    ∷ by_caller
    ∷ []

all_done : (live events (launched (start_and_stop build srv "interrupt" none))).todo ≡ []
unfolding live life_step start stop
all_done = refl

live-ends_example :
    let l =
      routine_step none (live events (launched (start_and_stop build srv "interrupt" none))) in
    (l.routine ≡ ended)
    × ((e : String) × (l.routine_lines ≡ terminated_line e ∷ []))
    × (l.caller_lines ≡ lines_of (start_and_stop build srv "interrupt" none))
live-ends_example = live-ends build srv "interrupt" none events none all_done

-- Of a chain the world keeps when it was opened and closed.
abbrev simulation : Simulation toy World
simulation = record {
  PrivateKey = ℕ;
  TransactOpts = ℕ;
  Sim = String;
  generate_key = λ w. some (ok 7, w);
  new_keyed_transactor = λ k id. ok k;
  from = λ o. "0x1";
  discard_logs = λ w. some (tt, w);
  new_backend = λ alloc w. some ("chain", "opened" ∷ w);
  client = λ s. answering s 0;
  close = λ s w. some (none, "closed" ∷ w);
}

abbrev opened_by : List String → List String
opened_by [] = []
opened_by (x ∷ w) = if str_eq x "opened" then "chain" ∷ opened_by w else drop_one (opened_by w)
  where
    drop_one : List String → List String
    drop_one [] = []
    drop_one (c ∷ cs) = cs

tracked : Tracks simulation opened_by
tracked = record {
  generate_key = λ w u r h. let same : w ≡ u = ground arith in rw same refl;
  discard_logs = λ w u h. let same : w ≡ u = ground arith in rw same refl;
  new_backend = λ alloc w u s h.
      let same : "opened" ∷ w ≡ u = ground arith in
      let chain : "chain" ≡ s = ground arith in rw (← same, ← chain) refl;
  close = λ w s others h. (none, "closed" ∷ w, refl, rw h refl);
}

-- The chain of a test whose level the logger refuses.
abbrev bank_chain : BlockchainBackend simulation
bank_chain = record {
  backend = "chain";
  bank_account = record { transact_opts = 7; private_key = 7 };
}

abbrev refused : Result (SvcStack simulation levels with_none build)
refused = err "not a valid logrus Level"

abbrev cleanups : List (Cleanup simulation levels with_none build)
cleanups = close_backend simulation levels with_none build bank_chain ∷ []

too_loud :
    mock_eth_proxy_service simulation levels with_none build none "loud" [] []
    ≡ some ((refused, cleanups), "opened" ∷ [])
unfolding mock_eth_proxy_service
too_loud = refl

mock-Ends_example :
    Ends simulation levels with_none build none "loud" opened_by tracked [] refused cleanups
      ("opened" ∷ [])
mock-Ends_example =
    mock-Ends simulation levels with_none build none "loud" opened_by tracked [] ("opened" ∷ [])
      ("opened" ∷ []) refused cleanups too_loud refl
