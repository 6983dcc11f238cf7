-- ===== src/Tests/Services.antt =====
-- Runs of the client over a network that carries its requests to a service over one node.
use eth_proxy.Prelude.{
  ◌≡◌, refl, Bool, true, false, String, ◌^^◌, [], ◌∷◌, Option, none, some, Result, ok, err,
}
use eth_proxy.Prelude.Int.{pos, big_string}
use text.Mathlib.TextLemmas.{nil-append, cons-append}
use eth_proxy.Ethereum.{SimpleEthClient}
use eth_proxy.Service.Constants.{service_name}
use eth_proxy.Service.Routes.{prefix_of, params_of}
use eth_proxy.Http.{status_method_not_allowed}
use eth_proxy.Http.Delivery.{Reply, success}
use eth_proxy.Http.Logging.{Access}
use eth_proxy.Api.{TxResponse, health_failures, status_json}
use eth_proxy.Api.Answers.{to_status, answer}
use eth_proxy.Client.{
  Client, Outside, Context, HttpRequest, other, health, balance, transaction_by_hash,
  transaction_receipt, send_transaction,
}
use eth_proxy.Client.Server.{Returns, passed_on}
use eth_proxy.Client.Reports.{health_result}
use eth_proxy.Client.Transactions.{receipt_result}
use eth_proxy.Network.Router.{first_match, first_match-Documented}
use eth_proxy.Network.Serving.{Running, Response, Served, serve_http}
use eth_proxy.Network.Asked.{is_alphanumeric}
use eth_proxy.Network.Calls.{registered, response_to, after_reply}
use eth_proxy.Network.Reach.{Carries}
use eth_proxy.Network.Methods.{is_valid_method}
use eth_proxy.Network.EndToEnd.{
  balance_through_service, tx_through_service, receipt_through_service, send_through_service,
  health_through_service,
}
use eth_proxy.IntegrationTests.{execute_request, service_url, execute_request-response}
use eth_proxy.Tests.Samples.{toy, World, answering, failing, toy_hashes, toy_tx, transfer, Transfer}

-- An entry keeps the fields that it was given last.
abbrev with_last : Access → Option Access → Option Access
with_last a entry = some a

abbrev Page : Type 0
Page = Running (Option Access) World

abbrev served : Served (Option Access) World
served = record { lookup = first_match; prometheus = λ n. (200, other); elapsed = λ req n. 7 }

-- A text behind another one.
unfoldable strip : String → String → Option String
strip String.[] s = some s
strip (String.◌∷◌ c p) String.[] = none
strip (String.◌∷◌ c p) (String.◌∷◌ d s) = strip p s

strip-append : (p s : String) → strip p (p ^^ s) ≡ some s
unfolding strip
strip-append String.[] s = rw nil-append refl
strip-append (String.◌∷◌ c p) s = rw cons-append (strip-append p s)

abbrev base_url : String
base_url = "http://localhost:8080"

abbrev sent_back : Option (Response × Page) → Page → Result Response × Page
sent_back none n = (err "EOF", n)
sent_back (some (r, m)) n = (ok r, m)

abbrev arrives :
    SimpleEthClient toy World → HttpRequest → Option String → Page → Result Response × Page
arrives cl req none n = (err "connection refused", n)
arrives cl req (some path) n =
    sent_back
      (serve_http served (registered with_last cl "0.1.0" (pos 8080) (some none))
        (record { method = req.method; path = path }) n)
      n

abbrev local_network : SimpleEthClient toy World → String → Outside Page
local_network cl base = record {
  round_trip = λ ctx req n. arrives cl req (strip base req.url) n;
  canonical_header_key = λ k. k;
  decode_error = λ b. "EOF";
  takes_done = true;
}

abbrev background : Context
background = record { headers = []; ended = none }

abbrev client : Client
client = record { base_url = base_url; headers = [] }

carried :
    (cl : SimpleEthClient toy World) (base : String)
    → Carries with_last cl "0.1.0"
        (pos 8080)
        (some none)
        served
        (local_network cl base)
        (record { base_url = base; headers = [] })
        background
carried cl base req path n m r valid url plain ran = rw (url, strip-append, ran) refl

abbrev start : Page
start = record { entry_at = λ i. some none; lines = []; world = [] }

abbrev up : SimpleEthClient toy World
up = answering "1" 100

abbrev down : SimpleEthClient toy World
down = failing "1" "EOF"

plain_address : is_alphanumeric "0x1" ≡ true
unfolding is_alphanumeric
plain_address = refl

balance_through_service_example :
    Returns up "0.1.0"
      (local_network up base_url)
      (λ n. n.world)
      client
      background
      (balance (local_network up base_url) client background toy "0x1" start)
      (passed_on (λ b. record { balance = big_string b }) (some (pos 100), none))
      ("1" ∷ [])
balance_through_service_example =
    balance_through_service with_last up "0.1.0" (pos 8080) (some none) served
      (local_network up base_url) client background "0x1" start ("1" ∷ []) (some (pos 100)) none
      refl first_match-Documented (carried up base_url) (cc) plain_address refl refl refl

plain_hash : is_alphanumeric "0xabc" ≡ true
unfolding is_alphanumeric
plain_hash = refl

plain_bytes : is_alphanumeric "0x01" ≡ true
unfolding is_alphanumeric
plain_bytes = refl

abbrev found : TxResponse toy
found = record { tx = some transfer; txid = "0xabc"; is_pending = false }

tx_through_service_example :
    Returns up "0.1.0"
      (local_network up base_url)
      (λ n. n.world)
      client
      background
      (transaction_by_hash (local_network up base_url) client background toy "0xabc" start)
      (passed_on {A = Option Transfer × Bool} (λ x. found) ((some transfer, false), none))
      ("1" ∷ [])
tx_through_service_example =
    tx_through_service with_last up "0.1.0" (pos 8080) (some none) served
      (local_network up base_url) client background "0xabc" start ("1" ∷ []) (some transfer) false
      none refl first_match-Documented (carried up base_url) (cc) plain_hash toy_hashes refl toy_tx
      refl

receipt_through_service_example :
    Returns up "0.1.0"
      (local_network up base_url)
      (λ n. n.world)
      client
      background
      (transaction_receipt (local_network up base_url) client background toy "0xabc" start)
      (receipt_result up "0.1.0"
        (local_network up base_url)
        (λ n. n.world)
        client
        background
        none
        none)
      ("1" ∷ [])
receipt_through_service_example =
    receipt_through_service with_last up "0.1.0" (pos 8080) (some none) served
      (local_network up base_url) client background "0xabc" start ("1" ∷ []) none none refl
      first_match-Documented (carried up base_url) (cc) plain_hash toy_hashes refl tt refl

send_through_service_example :
    Returns up "0.1.0"
      (local_network up base_url)
      (λ n. n.world)
      client
      background
      (send_transaction (local_network up base_url) client background toy transfer start)
      (passed_on {A = Unit {0}}
        (λ _. record { tx = none; txid = "0xabc"; is_pending = false })
        (tt, none))
      ("1" ∷ [])
send_through_service_example =
    send_through_service with_last up "0.1.0" (pos 8080) (some none) served
      (local_network up base_url) client background transfer start ("1" ∷ []) (1 ∷ []) none refl
      first_match-Documented (carried up base_url) (cc) plain_bytes refl refl refl refl

-- The failure of the node is lost.
health_through_service_example :
    Returns down "0.1.0"
      (local_network down base_url)
      (λ n. n.world)
      client
      background
      (health (local_network down base_url) client background start)
      (health_result down "0.1.0"
        (local_network down base_url)
        (λ n. n.world)
        client
        background
        (health_failures (some "EOF")))
      ("1" ∷ [])
health_through_service_example =
    health_through_service with_last down "0.1.0" (pos 8080) (some none) served
      (local_network down base_url) client background start ("1" ∷ []) 0 (some "EOF") refl
      first_match-Documented (carried down base_url) refl

abbrev status_reply : Reply
status_reply =
    success 200
      (ok (status_json (record { message = "OK"; version = "0.1.0"; service = service_name })))

status_replied : answer up "0.1.0" to_status (params_of to_status "") [] ≡ some (status_reply, [])
unfolding answer
status_replied = refl

abbrev tests_url : String
tests_url =
    service_url with_last up "0.1.0" (pos 8080) (some none) served (local_network up base_url)

abbrev tests_network : Outside Page
tests_network = local_network up tests_url

abbrev any_url : String → Option String
any_url url = none

post_valid : is_valid_method "POST" ≡ true
unfolding is_valid_method
post_valid = refl

spaced_invalid : is_valid_method "GE T" ≡ false
unfolding is_valid_method
spaced_invalid = refl

-- The status, and the same request under another method, and under one that is not valid.
execute_request-response_example :
    (execute_request any_url tests_network "" (tests_url ^^ (prefix_of to_status ^^ "")) start
      ≡ (ok (response_to status_reply), after_reply with_last 7 to_status "" status_reply [] start))
    × (execute_request any_url tests_network "POST" (tests_url ^^ (prefix_of to_status ^^ "")) start
        ≡ (ok (status_method_not_allowed, other), start))
    × ((m : String) × (execute_request any_url tests_network "GE T"
            (tests_url ^^ (prefix_of to_status ^^ ""))
            start
          ≡ (err m, start)))
execute_request-response_example =
    execute_request-response with_last up "0.1.0" (pos 8080) (some none) served tests_network
      any_url to_status "" "" "POST" "GE T" start status_reply [] first_match-Documented
      (carried up tests_url) (λ path plain. refl) refl status_replied refl post_valid refl refl
      spaced_invalid
