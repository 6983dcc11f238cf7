-- ===== src/Tests/Clients.antt =====
-- Runs of the client against the handlers over one node.
use eth_proxy.Prelude.{
  ◌^^◌, ◌<◌, ◌↔◌, ℕ, ◌≡◌, refl, true, String, [], ◌∷◌, Option, none, some, Result, ok, err,
}
use eth_proxy.Prelude.Int.{big_string}
use eth_proxy.Json.{Json}
use eth_proxy.Ethereum.{SimpleEthClient}
use eth_proxy.Service.Routes.{params_of}
use eth_proxy.Http.Delivery.{Reply, status_of, document_of}
use eth_proxy.Api.Answers.{Endpoint, to_balance, answer}
use eth_proxy.Client.{
  RequestOp, execute_request, error, method_not_allowed, Client, Outside, Context, Body, value,
  document,
}
use eth_proxy.Http.{Header}
use eth_proxy.Client.Outcomes.{
  IsSentWith, sent_request, execute_request-value, execute_request-method_not_allowed,
}
use eth_proxy.Client.Decode.{balance_of_json}
use eth_proxy.Tests.Samples.{toy, World, answering, failing}

-- A network on which one endpoint is served, whatever is asked for.
abbrev respond_to : Option (Reply × World) → World → Result (ℕ × Body) × World
respond_to none s = (err "EOF", s)
respond_to (some (a, s')) s = (ok (status_of a, document (document_of a)), s')

abbrev network : SimpleEthClient toy World → Endpoint → String → Outside World
network cl e v = record {
  round_trip = λ ctx req s. respond_to (answer cl "0.1.0" e (params_of e v) s) s;
  canonical_header_key = λ k. k;
  decode_error = λ b. "EOF";
  takes_done = true;
}

abbrev background : Context
background = record { headers = []; ended = none }

abbrev client : Client
client = record { base_url = "http://localhost:8080"; headers = [] }

abbrev up : SimpleEthClient toy World
up = answering "1" 100

abbrev down : SimpleEthClient toy World
down = failing "1" "EOF"

-- The request for the balance of an account, and its value.
abbrev balance_op : RequestOp
balance_op = record { path = "/eth/v0/balance/0x1"; method = "GET"; msg = none }

-- The context replaces the client's type of content, and adds a header.
abbrev typed_client : Client
typed_client = record {
  base_url = "http://localhost:8080";
  headers = ("Content-Type", "application/json" ∷ []) ∷ [];
}

abbrev with_headers : Context
with_headers = record {
  headers = ("Content-Type", "text/plain" ∷ []) ∷ ("X-Id", "7" ∷ []) ∷ [];
  ended = none;
}

balance_value :
    execute_request
      (network up to_balance "0x1")
      typed_client
      with_headers
      balance_of_json
      (record { balance = "" })
      balance_op
      []
    ≡ (value (record { balance = "100" }), "1" ∷ [])
unfolding execute_request answer balance_of_json big_string
balance_value = refl

execute_request-value_example :
    (code : ℕ) × (j : Json) × (header : Header) × ((network up to_balance "0x1").round_trip
        with_headers
        (record {
          method = "GET";
          url = "http://localhost:8080" ^^ "/eth/v0/balance/0x1";
          header = header;
          content = none;
        })
        []
      ≡ (ok (code, document j), "1" ∷ []))
    × IsSentWith (network up to_balance "0x1") typed_client with_headers header
    × (code < 400)
    × (balance_of_json j ≡ some (record { balance = "100" }))
execute_request-value_example =
    execute_request-value (network up to_balance "0x1") typed_client with_headers balance_of_json
      (record { balance = "" }) balance_op [] ("1" ∷ []) (record { balance = "100" }) refl
      balance_value

execute_request-method_not_allowed_example :
    (execute_request
        (network up to_balance "0x1")
        client
        background
        balance_of_json
        (record { balance = "" })
        balance_op
        []
      ≡ (error (method_not_allowed "GET" "/eth/v0/balance/0x1"), []))
    ↔ ((b : Body) × ((network up to_balance "0x1").round_trip background
            (sent_request (network up to_balance "0x1") client background balance_op)
            []
          ≡ (ok (405, b), []))
        × ("GET" ≡ balance_op.method)
        × ("/eth/v0/balance/0x1" ≡ balance_op.path))
execute_request-method_not_allowed_example =
    execute_request-method_not_allowed (network up to_balance "0x1") client background
      balance_of_json (record { balance = "" }) balance_op [] [] "GET" "/eth/v0/balance/0x1" refl
