-- ===== src/Main.antt =====
-- cmd/eth-proxy/main.go: the configuration, and the program put together.
use eth_proxy.Prelude.{
  ◌≡◌, ◌⊎◌, inl, inr, refl, ◌∙◌, String, ◌^^◌, List, ◌∷◌, ◌++◌, Option, none, some, Result, ok, err,
  Run, pure, ◌>>=◌, arith,
}
use eth_proxy.Prelude.Text.{split}
use eth_proxy.Prelude.Int.{pos, format_int}
use eth_proxy.Ethereum.{Ethereum, SimpleEthClient}
use eth_proxy.Config.{Config, sanitize}
use eth_proxy.Logger.{Logrus, Entry, new_logger}
use eth_proxy.Http.{Conn, conn_writer}
use eth_proxy.Http.Logging.{Access}
use eth_proxy.MultiNode.{Item, MultiNodeClient, multi_node_client}
use eth_proxy.MultiNode.New.{
  new_multi_node_client, new_multi_node_client-choose, MapRange, dial, connected, label,
}
use eth_proxy.Service.Routes.{endpoints, table, new-table}
use eth_proxy.Service.{Service, Build, Action, new, start, stop}

-- `os.ReadFile`: a file that does not exist is one for which `os.IsNotExist` holds.
pub data FileRead : Type 0 where
  contents : String → FileRead
  missing : FileRead
  unreadable : String → FileRead

abbrev pub env_prefix : String
env_prefix = "ETH_PROXY"

abbrev pub default_config_file : String
default_config_file = "config.yml"

-- `init`: the path of the configuration file is the flag's value, if the flag was given.
abbrev pub config_file_path : (flag : Option String) → String
config_file_path none = default_config_file
config_file_path (some path) = path

-- `os.ReadFile` at a path, `filepath.Clean`, and `yaml.Unmarshal` and `envconfig.InitWithOptions` with
-- its prefix, which change a configuration.
pub record Parsers : Type 0 where
  pub read_file : (path : String) → FileRead
  pub clean : String → String
  pub yaml_unmarshal : String → Config → Result Config
  pub init_from_env : (prefix : String) → Config → Result Config

unfoldable pub parse_yaml_config :
    Parsers → (config_file : String) → Config → (prefix : String) → Result Config
parse_yaml_config ps config_file receiver prefix = elim (ps.read_file (ps.clean config_file)) [
  | unreadable e ↦ err e
  | missing ↦ ps.init_from_env prefix receiver
  | contents b ↦ elim (ps.yaml_unmarshal b receiver) [
    | err e ↦ err e
    | ok c ↦ ps.init_from_env prefix c
  ]
]

-- What surrounds a run: the configuration's sources, the levels and lines of logrus, the order in which
-- a map is ranged over, the connector to a node, the variables of the build, and the signal and the
-- error of the shutdown at the end.
pub record Surroundings (E : Ethereum) (W : Type 0) : Type 1 where
  pub parsers : Parsers
  pub flag : Option String
  pub logrus : Logrus
  pub with_fields : Access → Entry logrus.Level → Entry logrus.Level
  pub range : MapRange
  pub new_eth_client : String → Run W (Result (SimpleEthClient E W))
  pub build : Build
  pub sig : String
  pub shutdown_error : Option String

abbrev pub zero_config : Config
zero_config = record { port = pos 0; log_level = ""; log_format = ""; urls = "" }

module _ {E : Ethereum} {W : Type 0} (o : Surroundings E W) where
  -- A run: its panic, or the service, its client, and what was done between start and stop.
  pub data Outcome : Type 0 where
    panicked : String → Outcome
    served :
        Service (Entry o.logrus.Level) Conn (MultiNodeClient E W)
        → MultiNodeClient E W
        → List Action
        → Outcome

  serve_until_signal : Config → Entry o.logrus.Level → List (Item E W) → Run W Outcome
  unfolding new start stop
  serve_until_signal cfg l nodes w =
      let srv = new o.with_fields {R = Conn} cfg.port (some l) multi_node_client o.build.version in
      some (
        served srv (record { nodes = nodes; world = w })
            (start o.build srv ++ stop o.sig o.shutdown_error srv),
        w,
      )

  unfoldable pub main : Run W Outcome
  unfolding parse_yaml_config sanitize new_logger new_multi_node_client serve_until_signal
  main = elim (parse_yaml_config o.parsers (config_file_path o.flag) zero_config env_prefix) [
    | err e ↦ pure (panicked ("error parsing config: " ^^ e))
    | ok c ↦
        elim (new_logger o.logrus (sanitize c).log_level (sanitize c).log_format o.build.version) [
          | err e ↦ pure (panicked e)
          | ok l ↦ do
            made ← new_multi_node_client o.range (sanitize c).urls o.new_eth_client
            elim made [
              | err e ↦ pure (panicked e)
              | ok nodes ↦ serve_until_signal (sanitize c) l nodes
            ]
        ]
  ]

  main_dials :
      (c : Config) (l : Entry o.logrus.Level) (w v : W) (r : Result (List (Item E W)))
      → parse_yaml_config o.parsers (config_file_path o.flag) zero_config env_prefix ≡ ok c
      → new_logger o.logrus (sanitize c).log_level (sanitize c).log_format o.build.version ≡ ok l
      → new_multi_node_client o.range (sanitize c).urls o.new_eth_client w ≡ some (r, v)
      → main w ≡ elim r [
        | err e ↦ some (panicked e, v)
        | ok nodes ↦ serve_until_signal (sanitize c) l nodes v
      ]
  unfolding main
  main_dials c l w v (err e) parsed logs made = ground arith
  main_dials c l w v (ok nodes) parsed logs made = ground arith

  -- The service that a run makes, over some nodes.
  abbrev pub made_service :
      Config → Entry o.logrus.Level → Service (Entry o.logrus.Level) Conn (MultiNodeClient E W)
  made_service c l =
      new o.with_fields {R = Conn} (sanitize c).port (some l) multi_node_client o.build.version

  pub main_made :
      (c : Config) (l : Entry o.logrus.Level) (w v : W) (rs : List (Result (SimpleEthClient E W)))
      (k : SimpleEthClient E W) (ks : List (SimpleEthClient E W))
      → parse_yaml_config o.parsers (config_file_path o.flag) zero_config env_prefix ≡ ok c
      → new_logger o.logrus (sanitize c).log_level (sanitize c).log_format o.build.version ≡ ok l
      → dial o.new_eth_client (split (sanitize c).urls b',') w ≡ some (rs, v)
      → connected rs ≡ k ∷ ks
      → main w
        ≡ some (
          served
              (made_service c l)
              (record { nodes = label 0 (k ∷ ks); world = v })
              (start o.build (made_service c l) ++ stop o.sig o.shutdown_error (made_service c l)),
          v,
        )
  main_made c l w v rs k ks parsed logs dialled found =
      let made =
        new_multi_node_client-choose o.range (sanitize c).urls o.new_eth_client w rs v dialled in
      main_dials c l w v (ok (label 0 (k ∷ ks))) parsed logs (made ∙ rw found refl)
      ∙ unfold serve_until_signal in refl

  -- If the configuration can be read, its level and format (or their defaults) are ones that the logger
  -- takes, and at least one node can be connected to, the program serves until the signal: from the
  -- configured port (or its default) it routes every endpoint to its handler over the nodes that were
  -- connected to, in their order.
  pub main_serves :
      (c : Config) (l : Entry o.logrus.Level) (w v : W) (rs : List (Result (SimpleEthClient E W)))
      (k : SimpleEthClient E W) (ks : List (SimpleEthClient E W))
      → parse_yaml_config o.parsers (config_file_path o.flag) zero_config env_prefix ≡ ok c
      → new_logger o.logrus (sanitize c).log_level (sanitize c).log_format o.build.version ≡ ok l
      → dial o.new_eth_client (split (sanitize c).urls b',') w ≡ some (rs, v)
      → connected rs ≡ k ∷ ks
      → (srv : Service (Entry o.logrus.Level) Conn (MultiNodeClient E W)) × (main w
          ≡ some (
            served srv
                (record { nodes = label 0 (k ∷ ks); world = v })
                (start o.build srv ++ stop o.sig o.shutdown_error srv),
            v,
          ))
        × (srv.server.addr ≡ ":" ^^ format_int (sanitize c).port)
        × (srv.server.handler ≡ table o.with_fields multi_node_client o.build.version endpoints)
  main_serves c l w v rs k ks parsed logs dialled found =
      let (listens, routed) =
        new-table o.with_fields {R = Conn} (sanitize c).port (some l) multi_node_client
          o.build.version in
      (made_service c l, main_made c l w v rs k ks parsed logs dialled found, listens, routed)

  -- A configuration that cannot be read, or whose level or format the logger does not take, ends the
  -- program with a panic before any node is dialled.
  pub main_refuses :
      (w : W) (e : String)
      → (parse_yaml_config o.parsers (config_file_path o.flag) zero_config env_prefix ≡ err e)
        ⊎ ((c : Config) × (parse_yaml_config o.parsers
                (config_file_path o.flag)
                zero_config
                env_prefix
              ≡ ok c)
            × (new_logger o.logrus (sanitize c).log_level (sanitize c).log_format o.build.version
                ≡ err e))
      → (m : String) × (main w ≡ some (panicked m, w))
  main_refuses w e (inl bad) = ("error parsing config: " ^^ e, unfold main in ground arith)
  main_refuses w e (inr (c, parsed, bad)) = (e, unfold main in ground arith)
