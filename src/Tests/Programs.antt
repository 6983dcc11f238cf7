-- ===== src/Tests/Programs.antt =====
-- Runs of the program's start, of the configuration and the logger, and of the key fixtures.
use eth_proxy.Prelude.{
  ◌≡◌, refl, String, ◌^^◌, List, map, [], ◌∷◌, ◌++◌, none, some, ok, str_eq, if◌then◌else◌, ◌||◌,
  Bool-cases, inl, inr, arith,
}
use eth_proxy.Prelude.Decimal.{format}
use eth_proxy.Http.Logging.{Access}
use eth_proxy.Prelude.Int.{pos, format_int}
use eth_proxy.Prelude.Text.{split}
use mathlib.Core.List.Perm
use eth_proxy.Config.{Config, sanitize, IsComplete, sanitize_lem}
use eth_proxy.Logger.{Logrus, Entry, new_logger, text_formatter}
use eth_proxy.Http.{Conn, conn_writer}
use eth_proxy.MultiNode.{MultiNodeClient, multi_node_client}
use eth_proxy.MultiNode.New.{dial, label}
use eth_proxy.Service.{Service, Action, start, stop}
use eth_proxy.Service.Routes.{table, endpoints}
use eth_proxy.Service.Constants.{service_name}
use eth_proxy.Main.{
  FileRead, missing, Surroundings, served, main, main_serves, parse_yaml_config, zero_config,
}
use eth_proxy.Http.Delivery.{Reply}
use eth_proxy.Api.Answers.{to_status, to_health}
use eth_proxy.Client.{other}
use eth_proxy.Network.Router.{first_match, first_match-Documented}
use eth_proxy.Network.Serving.{Running, Served}
use eth_proxy.Network.Calls.{request_for, response_to}
use eth_proxy.Network.Session.{Asked, serve_all, answer_all, Told, Replaces}
use eth_proxy.Network.Whole.{Permitted}
use eth_proxy.Network.Program.{serving, main-serve_all}
use eth_proxy.Tests.Samples.{toy, World, answering, answering_returns}

abbrev given : Config
given = record { port = pos 0; log_level = "debug"; log_format = ""; urls = "a,b" }

sanitize_lem_example :
    IsComplete (sanitize given)
    × ((sanitize given).urls ≡ given.urls)
    × (sanitize (sanitize given) ≡ sanitize given)
    × (IsComplete given → sanitize given ≡ given)
sanitize_lem_example = sanitize_lem given

-- Levels by their names, of which all are taken.
abbrev levels : Logrus
levels = record { Level = String; parse_level = λ s. ok s; is_debug = λ l. str_eq l "debug" }

abbrev plain_entry : Entry String
plain_entry = record {
  logger = record { formatter = text_formatter; level = "info"; warned = [] };
  level = "info";
  fields = ("serviceName", service_name) ∷ ("version", "0.1.0") ∷ [];
}

-- The fields that are not of a request.
abbrev own : List (String × String) → List (String × String)
own [] = []
own ((k, v) ∷ fs) = if str_eq k "serviceName" || str_eq k "version" then (k, v) ∷ own fs else own fs

abbrev fields_of : Access → List (String × String)
fields_of a =
    ("http_method", a.http_method) ∷ ("http_code", format a.http_code) ∷ ("url", a.url) ∷ []

-- The entry with some of the fields of a request, in place of those of another.
abbrev with_own : Access → Entry String → Entry String
with_own a e = record e { fields = own e.fields ++ fields_of a }

own-own : (a : Access) (fs : List (String × String)) → own (own fs ++ fields_of a) ≡ own fs
own-own a [] = refl
own-own a ((k, v) ∷ fs) = elim (Bool-cases (str_eq k "serviceName" || str_eq k "version")) [
  | inl ours ↦ ground (arith, own-own a fs)
  | inr strange ↦ ground (arith, own-own a fs)
]

with_own-with_own : Replaces with_own plain_entry
with_own-with_own a b e = rw (own-own b e.fields) refl

abbrev surroundings : FileRead → Surroundings toy World
surroundings file = record {
  parsers = record {
    yaml_unmarshal = λ b c. ok c;
    read_file = λ path. if str_eq path "config.yml" then file else missing;
    clean = λ path. path;
    init_from_env = λ p c. if str_eq p "ETH_PROXY" then ok (record c { urls = "a,b" }) else ok c;
  };
  flag = none;
  logrus = levels;
  with_fields = with_own;
  range = record { order = λ errs. errs; every = Perm.refl };
  new_eth_client = λ url w. some (ok (answering url 100), url ∷ w);
  build = record { version = "0.1.0"; git_commit = ""; build_date = ""; commit_date = "" };
  sig = "interrupt";
  shutdown_error = none;
}

abbrev from_env : Config
from_env = record { port = pos 0; log_level = ""; log_format = ""; urls = "a,b" }

env_parsed :
    parse_yaml_config (surroundings missing).parsers "config.yml" zero_config "ETH_PROXY"
    ≡ ok from_env
unfolding parse_yaml_config
env_parsed = refl

env_logger :
    new_logger levels (sanitize from_env).log_level (sanitize from_env).log_format "0.1.0"
    ≡ ok plain_entry
unfolding new_logger sanitize
env_logger = refl

env_dialled :
    dial (surroundings missing).new_eth_client (split (sanitize from_env).urls b',') []
    ≡ some (ok (answering "a" 100) ∷ ok (answering "b" 100) ∷ [], "b" ∷ "a" ∷ [])
unfolding dial split sanitize
env_dialled = refl

-- Without a file the program runs from its environment, on the default port.
main_serves_example :
    (srv : Service (Entry String) Conn (MultiNodeClient toy World)) × (main
        (surroundings missing)
        []
      ≡ some (
        served srv
            (record {
              nodes = label 0 (answering "a" 100 ∷ answering "b" 100 ∷ []);
              world = "b" ∷ "a" ∷ [];
            })
            (start (surroundings missing).build srv ++ stop "interrupt" none srv),
        "b" ∷ "a" ∷ [],
      ))
    × (srv.server.addr ≡ ":" ^^ format_int (sanitize from_env).port)
    × (srv.server.handler
        ≡ table (surroundings missing).with_fields multi_node_client "0.1.0" endpoints)
main_serves_example =
    main_serves (surroundings missing) from_env plain_entry [] ("b" ∷ "a" ∷ [])
      (ok (answering "a" 100) ∷ ok (answering "b" 100) ∷ []) (answering "a" 100)
      (answering "b" 100 ∷ []) env_parsed env_logger env_dialled refl

abbrev routed : Served (Entry String) (MultiNodeClient toy World)
routed = record { lookup = first_match; prometheus = λ n. (200, other); elapsed = λ req n. 7 }

abbrev asked : List Asked
asked = (to_status, "") ∷ (to_health, "") ∷ []

main-serve_all_example :
    (srv : Service (Entry String) Conn (MultiNodeClient toy World)) × (client : MultiNodeClient toy
      World)
    × (actions : List Action) × (replies : List Reply) × (m : Running
        (Entry String)
        (MultiNodeClient toy World))
    × (main (surroundings missing) [] ≡ some (served srv client actions, "b" ∷ "a" ∷ []))
    × (serve_all routed srv.server.handler
          (map (λ q. request_for q.0 q.1) asked)
          (serving (surroundings missing) srv client)
        ≡ some (map response_to replies, m))
    × (answer_all multi_node_client "0.1.0" asked client ≡ some (replies, m.world))
    × Permitted asked replies
    × Told with_own plain_entry asked replies m.lines
main-serve_all_example =
    main-serve_all (surroundings missing) routed asked from_env plain_entry [] ("b" ∷ "a" ∷ [])
      (ok (answering "a" 100) ∷ ok (answering "b" 100) ∷ []) (answering "a" 100)
      (answering "b" 100 ∷ []) env_parsed env_logger env_dialled refl
      (answering_returns "a" 100, (answering_returns "b" 100, tt)) first_match-Documented
      with_own-with_own (refl, (refl, tt))
