-- ===== src/Service/Routes.antt =====
-- The routes of the service, beside the endpoints of its interface.
use eth_proxy.Prelude.{◌≡◌, refl, String, ◌^^◌, List, [], ◌∷◌, Option}
use eth_proxy.Prelude.Int.{ℤ, format_int}
use eth_proxy.Ethereum.{Ethereum, SimpleEthClient}
use eth_proxy.Http.{ResponseWriter, recorder_writer}
use eth_proxy.Http.Logging.{Access, log_http_request}
use eth_proxy.Api.{
  Params, param, no_params, status_end_pnt, health_end_pnt, metrics_end_pnt, balance_prefix,
  tx_prefix, tx_receipt_prefix, send_tx_prefix, address_key, id_key, data_key,
}
use eth_proxy.Api.Answers.{
  Endpoint, to_status, to_health, to_balance, to_tx, to_tx_receipt, to_send_tx, serve,
}
use eth_proxy.Service.{Registration, logged, metrics, new}

-- Where an endpoint is reached: with a path parameter, its name.
abbrev pub prefix_of : Endpoint → String
prefix_of to_status = status_end_pnt
prefix_of to_health = health_end_pnt
prefix_of to_balance = balance_prefix
prefix_of to_tx = tx_prefix
prefix_of to_tx_receipt = tx_receipt_prefix
prefix_of to_send_tx = send_tx_prefix

abbrev pub key_of : Endpoint → String
key_of to_status = ""
key_of to_health = ""
key_of to_balance = address_key
key_of to_tx = id_key
key_of to_tx_receipt = id_key
key_of to_send_tx = data_key

-- What `ByName` gives at the route of an endpoint, for a last segment of the path.
abbrev pub params_of : Endpoint → String → Params
params_of to_status v = no_params
params_of to_health v = no_params
params_of e v = param (key_of e) v

abbrev pub method_of : Endpoint → String
method_of to_send_tx = "POST"
method_of _ = "GET"

abbrev pub pattern_of : Endpoint → String
pattern_of to_status = status_end_pnt
pattern_of to_health = health_end_pnt
pattern_of e = prefix_of e ^^ ":" ^^ key_of e

abbrev pub endpoints : List Endpoint
endpoints = to_status ∷ to_health ∷ to_balance ∷ to_tx ∷ to_tx_receipt ∷ to_send_tx ∷ []

module _ {Entry : Type 0} (with_fields : Access → Entry → Entry) {R S : Type 0}
    ⦃w : ResponseWriter R⦄ {E : Ethereum} where
  abbrev pub table : SimpleEthClient E S → String → List Endpoint → List (Registration Entry R S)
  table client version [] = record { method = "GET"; path = metrics_end_pnt; route = metrics } ∷ []
  table client version (e ∷ es) =
      record {
        method = method_of e;
        path = pattern_of e;
        route = logged (λ entry. log_http_request with_fields entry (serve client version e));
      }
      ∷ table client version es

  -- The service listens on its port on every interface, and routes each endpoint, by its method and
  -- pattern, to its own handler under the logging middleware, and the metrics without it.
  pub new-table :
      (port : ℤ) (l : Option Entry) (client : SimpleEthClient E S) (version : String)
      → ((new with_fields {R = R} port l client version).server.addr ≡ ":" ^^ format_int port)
        × ((new with_fields {R = R} port l client version).server.handler
            ≡ table client version endpoints)
  unfolding new serve
  new-table port l client version = (refl, refl)
