-- ===== src/Client.antt =====
-- client/client.go: the client of the proxy's interface.
pub mod Decode
pub mod Server
pub mod Reports
pub mod Transactions
pub mod Outcomes
use eth_proxy.Prelude.{
  ℕ, ◌≤◌, ◌≡◌, refl, Bool, true, false, not, String, ◌^^◌, List, [], ◌∷◌, Option, none, some,
  Result, ok, err, leb, ◌==◌, str_eq, if◌then◌else◌,
}
use eth_proxy.Json.{Json}
use eth_proxy.Ethereum.{Ethereum}
use eth_proxy.Client.Decode.{
  status_of_json, health_of_json, balance_of_json, error_of_json, receipt_of_json,
  tx_response_of_json,
}
use eth_proxy.Http.{
  Header, set_header_value, set_header_values, status_bad_request, status_method_not_allowed,
  JsonError,
}
use eth_proxy.Api.{
  StatusResponse, HealthResponse, BalanceResponse, TxResponse, status_end_pnt, health_end_pnt,
  balance_prefix, tx_prefix, tx_receipt_prefix, send_tx_prefix,
}

-- An error of the client: `method_not_allowed` is one that wraps `ErrMethodNotAllowed`.
pub data Error : Type 0 where
  method_not_allowed : (method path : String) → Error
  plain : String → Error

pub data Fallible (A : Type 0) : Type 0 where
  value : A → Fallible A
  error : Error → Fallible A

pub record HttpRequest : Type 0 where
  pub method : String
  pub url : String
  pub header : Header
  pub content : Option Json

-- The body of a response: a JSON document, or a text that is none.
pub data Body : Type 0 where
  document : Json → Body
  other : Body

-- A `context.Context`: the headers that it carries, and the error that it ends with, if it has ended
-- when the response is awaited.
pub record Context : Type 0 where
  pub headers : Header
  pub ended : Option String

-- What is outside the client: the network `N`, which `http.NewRequestWithContext` and `Client.Do` send a
-- request into; the canonical form of a header's name; the errors of `json.Decode`; and whether a
-- `select` with both channels ready takes the one of the context.
pub record Outside (N : Type 0) : Type 0 where
  pub round_trip : Context → HttpRequest → N → Result (ℕ × Body) × N
  pub canonical_header_key : String → String
  pub decode_error : Body → String
  pub takes_done : Bool

pub record Client : Type 0 where
  pub base_url : String
  pub headers : Header

unfoldable pub make_default_headers : Header
make_default_headers = set_header_value "Content-Type" "application/json" []

unfoldable pub new : String → Client
unfolding make_default_headers
new url = record { base_url = url; headers = make_default_headers }

-- `requestOp`, with the value of its `msg` as `json.Marshal` makes it: `none` for nil.
pub record RequestOp : Type 0 where
  pub path : String
  pub method : String
  pub msg : Option (Result Json)

-- `jsonResult`: the value that `result` points to, and the error message.
pub record JsonResult (A : Type 0) : Type 0 where
  pub result : Option A
  pub err_msg : Option JsonError

-- `headersFromContext` and `setHeaders`: the headers of the context are in the order in which the range
-- over the map takes them.
abbrev headers_from_context : Context → Header
headers_from_context ctx = ctx.headers

abbrev pub set_headers : (String → String) → Header → Header → Header
set_headers canonical dst [] = dst
set_headers canonical dst ((k, values) ∷ src) =
    set_headers canonical (set_header_values (canonical k) values dst) src

-- `json.NewDecoder(body).Decode(…)`.
abbrev decode : {A : Type 0} → (Body → String) → (Json → Option A) → Body → Result A
decode decode_error of_json (document j) = elim (of_json j) [
  | none ↦ err (decode_error (document j))
  | some a ↦ ok a
]
decode decode_error of_json other = err (decode_error other)

module _ {N : Type 0} (out : Outside N) (client : Client) (ctx : Context) where
  abbrev request : RequestOp → Option Json → HttpRequest
  request op content = record {
    method = op.method;
    url = client.base_url ^^ op.path;
    header = set_headers out.canonical_header_key client.headers (headers_from_context ctx);
    content = content;
  }

  unfoldable pub do_request : RequestOp → N → Fallible (ℕ × Body) × N
  do_request op n = elim op.msg [
    | some (err e) ↦ (error (plain e), n)
    | some (ok j) ↦ answered (out.round_trip ctx (request op (some j)) n)
    | none ↦ answered (out.round_trip ctx (request op none) n)
  ]
    where
      answered : Result (ℕ × Body) × N → Fallible (ℕ × Body) × N
      answered (err e, n') = (error (plain e), n')
      answered (ok r, n') = (value r, n')

  -- What a response is made into.
  unfoldable pub process :
      {A : Type 0} → (Json → Option A) → RequestOp → ℕ → Body → Fallible (JsonResult A)
  process of_json op status body =
      if leb status_bad_request status
      then if status == status_method_not_allowed
        then error (method_not_allowed op.method op.path)
        else elim (decode out.decode_error error_of_json body) [
          | err e ↦ error (plain e)
          | ok m ↦ value (record { result = none; err_msg = some m })
        ]
      else elim (decode out.decode_error of_json body) [
        | err e ↦ error (plain e)
        | ok a ↦ value (record { result = some a; err_msg = none })
      ]

  -- The value is what is put into the channel `op.resp`.
  unfoldable pub send_http :
      {A : Type 0} → (Json → Option A) → RequestOp → N → Fallible (JsonResult A) × N
  unfolding do_request process
  send_http {A = A} of_json op n = sent (do_request op n)
    where
      sent : Fallible (ℕ × Body) × N → Fallible (JsonResult A) × N
      sent (error e, n') = (error e, n')
      sent (value (status, body), n') = (process of_json op status body, n')

  -- The channel holds a response when `wait` is called.
  unfoldable pub wait : {A : Type 0} → JsonResult A → Fallible (JsonResult A)
  wait resp = elim ctx.ended [
    | none ↦ value resp
    | some e ↦ if out.takes_done then error (plain e) else value resp
  ]

  unfoldable pub execute_request :
      {A : Type 0} → (Json → Option A) → A → RequestOp → N → Fallible A × N
  unfolding send_http wait
  execute_request {A = A} of_json zero_value op n = ended (send_http of_json op n)
    where
      taken : Fallible (JsonResult A) → Fallible A
      taken (error e) = error e
      taken (value res) = elim res.err_msg [
        | some m ↦ error (plain m.error)
        | none ↦ elim res.result [ none ↦ value zero_value | some a ↦ value a ]
      ]

      ended : Fallible (JsonResult A) × N → Fallible A × N
      ended (error e, n') = (error e, n')
      ended (value resp, n') = (taken (wait resp), n')

  -- A request with no content, into a variable that holds the zero value.
  abbrev fetch : {A : Type 0} → (Json → Option A) → A → String → String → N → Fallible A × N
  fetch of_json zero_value method path n =
      execute_request of_json zero_value (record { path = path; method = method; msg = none }) n

  unfoldable pub status : N → Fallible StatusResponse × N
  unfolding execute_request
  status n =
      fetch status_of_json (record { message = ""; version = ""; service = "" }) "GET"
        status_end_pnt n

  unfoldable pub health : N → Fallible HealthResponse × N
  unfolding execute_request
  health n =
      fetch health_of_json (record { version = ""; service = ""; failures = [] }) "GET"
        health_end_pnt n

  module _ (E : Ethereum) where
    unfoldable pub balance : E.Address → N → Fallible BalanceResponse × N
    unfolding execute_request
    balance address n =
        fetch balance_of_json (record { balance = "" }) "GET"
          (balance_prefix ^^ E.address_hex address) n

    abbrev empty_tx_response : TxResponse E
    empty_tx_response = record { tx = none; txid = ""; is_pending = false }

    unfoldable pub transaction_by_hash : E.Hash → N → Fallible (TxResponse E) × N
    unfolding execute_request
    transaction_by_hash hash n =
        fetch (tx_response_of_json E) empty_tx_response "GET" (tx_prefix ^^ E.hash_hex hash) n

    unfoldable pub transaction_receipt : E.Hash → N → Fallible E.Receipt × N
    unfolding execute_request
    transaction_receipt hash n =
        fetch (receipt_of_json E) E.empty_receipt "GET" (tx_receipt_prefix ^^ E.hash_hex hash) n

    unfoldable pub send_transaction : E.Transaction → N → Fallible (TxResponse E) × N
    unfolding execute_request
    send_transaction tx n = elim (E.marshal_binary tx) [
      | err e ↦ (error (plain e), n)
      | ok b ↦
          fetch (tx_response_of_json E) empty_tx_response "POST" (send_tx_prefix ^^ E.hex_encode b)
            n
    ]
