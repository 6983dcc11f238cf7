-- ===== src/Service.antt =====
-- proxy/http.go and proxy/service.go: the table of endpoints, the router's registrations, the HTTP
-- server that is made of them, and the service's start and stop.
pub mod Constants
pub mod Routes
pub mod Lifecycle
use eth_proxy.Prelude.{ℕ, ◌≡◌, refl, String, ◌^^◌, List, [], ◌∷◌, ◌++◌, Option, none, some, Run}
use eth_proxy.Prelude.Int.{ℤ, format_int}
use eth_proxy.Ethereum.{Ethereum, SimpleEthClient}
use eth_proxy.Service.Constants.{service_name}
use eth_proxy.Http.{ResponseWriter, ResponseRecorder, recorder_writer}
use eth_proxy.Http.Logging.{Access, Line, Request, log_http_request}
use eth_proxy.Api.{
  Params, Handle, status, health, balance, tx, tx_receipt, send_tx, status_end_pnt, health_end_pnt,
  metrics_end_pnt, balance_prefix, tx_prefix, tx_receipt_prefix, send_tx_prefix, address_key,
  id_key, data_key,
}

-- `endPoint`. Every handler is called with the recorder of the logging middleware.
pub record EndPoint (R S : Type 0) : Type 0 where
  pub path : String
  pub handler : Handle (ResponseRecorder R) S
  pub method_type : String

-- `api`.
pub record Api (R S : Type 0) : Type 0 where
  pub endpoints : List (EndPoint R S)

unfoldable pub add_endpoint : {R S : Type 0} → Api R S → EndPoint R S → Api R S
add_endpoint a e = record a { endpoints = a.endpoints ++ e ∷ [] }

-- The loop of `makeAPI`.
abbrev add_endpoints : {R S : Type 0} → Api R S → List (EndPoint R S) → Api R S
add_endpoints r [] = r
add_endpoints r (e ∷ es) = add_endpoints (add_endpoint r e) es

unfoldable pub make_api : {R S : Type 0} → List (EndPoint R S) → Api R S
unfolding add_endpoint
make_api endpoints = add_endpoints (record { endpoints = [] }) endpoints

-- The routes with a parameter.
abbrev pub balance_end_pnt : String
balance_end_pnt = balance_prefix ^^ ":" ^^ address_key

abbrev pub tx_end_pnt : String
tx_end_pnt = tx_prefix ^^ ":" ^^ id_key

abbrev pub tx_receipt_end_pnt : String
tx_receipt_end_pnt = tx_receipt_prefix ^^ ":" ^^ id_key

abbrev pub send_tx_end_pnt : String
send_tx_end_pnt = send_tx_prefix ^^ ":" ^^ data_key

module _ {R : Type 0} ⦃w : ResponseWriter R⦄ {S : Type 0} {E : Ethereum} where
  unfoldable pub make_proxy_apis : SimpleEthClient E S → String → Api R S
  unfolding make_api
  make_proxy_apis client version = make_api (
      record { path = status_end_pnt; handler = status version; method_type = "GET" }
      ∷ record { path = health_end_pnt; handler = health version client; method_type = "GET" }
      ∷ record { path = balance_end_pnt; handler = balance client; method_type = "GET" }
      ∷ record { path = tx_end_pnt; handler = tx client; method_type = "GET" }
      ∷ record { path = tx_receipt_end_pnt; handler = tx_receipt client; method_type = "GET" }
      ∷ record { path = send_tx_end_pnt; handler = send_tx client; method_type = "POST" }
      ∷ [])

-- What the router is given for a route: a handle that logs, with its captured variable `entry`, or the
-- handler of Prometheus.
pub data Route (Entry R S : Type 0) : Type 0 where
  logged :
      (Option Entry → Request → ℕ → Params → R → Run S (R × Option Entry × List (Line Entry)))
      → Route Entry R S
  metrics : Route Entry R S

-- The calls of `Handle` and `Handler` on a `httprouter.Router`, in their order.
pub record Registration (Entry R S : Type 0) : Type 0 where
  pub method : String
  pub path : String
  pub route : Route Entry R S

module _ {Entry : Type 0} (with_fields : Access → Entry → Entry) {R S : Type 0} where
  abbrev register : EndPoint R S → Registration Entry R S
  register e = record {
    method = e.method_type;
    path = e.path;
    route = logged (λ entry. log_http_request with_fields entry e.handler);
  }

  abbrev registrations : List (EndPoint R S) → List (Registration Entry R S)
  registrations [] = record { method = "GET"; path = metrics_end_pnt; route = metrics } ∷ []
  registrations (e ∷ es) = register e ∷ registrations es

  unfoldable pub routes : Api R S → List (Registration Entry R S)
  routes a = registrations a.endpoints

-- `hTTPService`, with the address and the routes of its server.
pub record HttpService (Entry R S : Type 0) : Type 0 where
  pub addr : String
  pub handler : List (Registration Entry R S)
  pub logger : Option Entry

pub record Service (Entry R S : Type 0) : Type 0 where
  pub server : HttpService Entry R S
  pub logger : Option Entry

module _ {Entry : Type 0} (with_fields : Access → Entry → Entry) {R S : Type 0} where
  unfoldable pub new_http_service : ℤ → Api R S → Option Entry → HttpService Entry R S
  unfolding routes format_int
  new_http_service port a l = record {
    addr = ":" ^^ format_int port;
    handler = routes with_fields a;
    logger = l;
  }

  -- `New`; the last argument is the variable `Version`.
  unfoldable pub new :
      {E : Ethereum}
      → ⦃w : ResponseWriter R⦄ → ℤ
      → Option Entry
      → SimpleEthClient E S
      → String
      → Service Entry R S
  unfolding new_http_service make_proxy_apis
  new port l client version = record {
    server = new_http_service port (make_proxy_apis client version) l;
    logger = l;
  }

-- What the service logs, with the fields that it adds to a line, and what it does to its server.
pub data Level : Type 0 where
  info_level warn_level error_level : Level

pub record LogLine : Type 0 where
  pub level : Level
  pub message : String
  pub fields : List (String × String)

pub data Action : Type 0 where
  log_line : LogLine → Action
  listen_and_serve : (addr : String) → Action
  shutdown : Action

-- The variables of proxy/constants.go, which the linker sets.
pub record Build : Type 0 where
  pub version : String
  pub git_commit : String
  pub build_date : String
  pub commit_date : String

module _ {Entry R S : Type 0} where
  unfoldable pub addr : HttpService Entry R S → String
  addr h = h.addr

  -- `Start` of the server: `ListenAndServe` runs beside the caller; what it logs at its end is left out.
  unfoldable pub start_http : HttpService Entry R S → List Action
  start_http h = listen_and_serve h.addr ∷ []

  unfoldable pub start : Build → Service Entry R S → List Action
  unfolding addr start_http
  start b s =
      log_line (record { level = info_level; message = "starting service"; fields = [] })
      ∷ log_line (record {
        level = info_level;
        message = "version";
        fields = ("commit", b.git_commit) ∷ ("version", b.version) ∷ [];
      })
      ∷ log_line (record {
        level = info_level;
        message = "build date";
        fields = ("buildDate", b.build_date) ∷ ("commitTimestamp", b.commit_date) ∷ [];
      })
      ∷ (start_http s.server
          ++ log_line (record {
            level = info_level;
            message = "listening on port " ^^ addr s.server;
            fields = [];
          })
            ∷ [])

  -- The last argument is the error of `Shutdown`.
  unfoldable pub stop : (sig : String) → Option String → Service Entry R S → List Action
  stop sig failed s =
      log_line (record {
        level = info_level;
        message = "stopping " ^^ service_name ^^ " service";
        fields = ("signal", sig) ∷ [];
      })
      ∷ shutdown
      ∷ elim failed [
        | none ↦ []
        | some e ↦
            log_line (record {
              level = error_level;
              message = "error stopping server";
              fields = ("error", e) ∷ [];
            })
            ∷ []
      ]

  unfoldable pub server : Service Entry R S → HttpService Entry R S
  server s = s.server
