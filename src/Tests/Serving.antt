-- ===== src/Tests/Serving.antt =====
-- Runs of the handlers and the logging middleware over three nodes.
use eth_proxy.Prelude.{
  ℕ, ◌+◌, ◌⊎◌, inl, inr, All, ◌≡◌, ◌≢◌, refl, ltb, if◌then◌else◌, String, List, [], ◌∷◌, Option,
  none, some, false, length, arith,
}
use eth_proxy.Json.{Json}
use eth_proxy.Http.{Conn, conn_writer, recorder_writer, respond_with_error}
use eth_proxy.Http.Delivery.{success, failure, deliver, fresh, json_header}
use eth_proxy.Http.Logging.{
  Access, Line, Request, log_http_request, line_of, log_http_request-inner,
}
use eth_proxy.Http.Race.{Handled, LogSteps, here, next, ended, assigned, log_step}
use eth_proxy.Http.Race.Kept.{pending}
use eth_proxy.Http.Race.Lines.{started, LogSteps-lines, LogSteps-mistaken}
use eth_proxy.Api.{Params, health_failures, health_json, tx_response_json, balance, tx}
use eth_proxy.Api.Answers.{to_health, to_balance, to_tx, serve}
use eth_proxy.Api.Statuses.{Answers, Allowed, serve-Allowed, serve_refused, tx_never_refused}
use eth_proxy.Api.Unbarred.{health_unbarred}
use eth_proxy.Api.Health.{Plain, pieces, health-messages, length-health_failures}
use eth_proxy.Service.Constants.{service_name}
use eth_proxy.MultiNode.{multi_node_client}
use eth_proxy.MultiNode.Replies.{Reply as NodeReply, poll, messages, summary}
use eth_proxy.Ethereum.{SimpleEthClient}
use eth_proxy.Tests.Samples.{toy, World, answering, failing, three, toy_hashes, transfer}

abbrev params : String → Params
params v k = v

abbrev replies : List NodeReply
replies = (0, some "EOF") ∷ (100, none) ∷ (900, none) ∷ []

abbrev world : World
world = "2" ∷ "1" ∷ "0" ∷ []

polled : poll three.nodes three.world ≡ some (replies, world)
unfolding poll
polled = refl

nonempty : three.nodes ≢ []
nonempty = cc

no_bar : Plain replies
no_bar = (omega arith, tt)

health-messages_example :
    serve multi_node_client "0.1.0" to_health (params "") (fresh (none ∷ [])) three
    ≡ some (
      record {
        header = json_header;
        sent = some (if ltb 0 (length (messages 0 none replies)) then 503 else 200, json_header);
        body =
            health_json (record {
              version = "0.1.0";
              service = service_name;
              failures = messages 0 none replies;
            })
            ∷ [];
        faults = [];
      },
      record three { world = world },
    )
health-messages_example =
    health-messages "0.1.0" (params "") three replies world [] nonempty polled no_bar

length-health_failures_example :
    length (health_failures (summary ("node 0 err: a|b" ∷ []) 0).1)
    ≡ pieces ("node 0 err: a|b" ∷ [])
length-health_failures_example = length-health_failures "node 0 err: a|b" []

-- A single node serves as the client.
abbrev one : SimpleEthClient toy World
one = answering "1" 100

one_answers : Answers one "0.1.0"
one_answers = record {
  block_number = λ s. (_, refl);
  balance_at = λ a n s. (_, refl);
  transaction_by_hash = λ h s. (_, refl);
  transaction_receipt = λ h s. (_, refl);
  send_transaction = λ t s. (_, refl);
}

serve-Allowed_example :
    (code : ℕ) × (j : Json) × (s' : World) × (serve one "0.1.0" to_balance
        (params "0x1")
        (fresh (none ∷ []))
        []
      ≡ some (
        record {
          header = json_header;
          sent = some (code, json_header);
          body = j ∷ [];
          faults = [];
        },
        s',
      ))
    × Allowed to_balance code
serve-Allowed_example = serve-Allowed one "0.1.0" one_answers to_balance (params "0x1") [] []

abbrev refused : Conn
refused = deliver (failure 400 "invalid address format") (fresh (none ∷ []))

abbrev earlier : World
earlier = "earlier call" ∷ []

was_refused :
    serve one "0.1.0" to_balance (params "?") (fresh (none ∷ [])) earlier ≡ some (refused, earlier)
unfolding serve balance deliver
was_refused = refl

sent_400 : refused.sent ≡ some (400, json_header)
unfolding deliver respond_with_error
sent_400 = refl

serve_refused_example : earlier ≡ earlier
serve_refused_example =
    serve_refused one "0.1.0" to_balance (params "?") [] earlier earlier refused was_refused
      sent_400

abbrev found : Conn
found =
    deliver
      (success 200
        (tx_response_json toy (record { tx = some transfer; txid = "zz"; is_pending = false })))
      (fresh (none ∷ []))

was_found : serve one "0.1.0" to_tx (params "zz") (fresh (none ∷ [])) [] ≡ some (found, "1" ∷ [])
unfolding serve tx deliver
was_found = refl

-- A text that is no hash is looked up all the same.
tx_never_refused_example : found.sent ≢ some (400, json_header)
tx_never_refused_example =
    tx_never_refused one "0.1.0" (params "zz") [] [] ("1" ∷ []) found toy_hashes was_found

-- An entry is the list of what it was given.
abbrev with_access : Access → List Access → List Access
with_access a entry = a ∷ entry

abbrev request : Request
request = record { method = "GET"; path = "/eth/v0/balance/?" }

log_http_request-inner_example :
    (entry' : Option (List Access)) × (lines : List (Line (List Access))) × (log_http_request
        with_access
        (some [])
        (serve one "0.1.0" to_balance)
        request
        7
        (params "?")
        (fresh (none ∷ []))
        earlier
      ≡ some ((refused, entry', lines), earlier))
log_http_request-inner_example =
    log_http_request-inner with_access one "0.1.0" (some []) to_balance request 7 (params "?")
      (fresh (none ∷ [])) refused earlier earlier was_refused

-- A single node that is down.
health_unbarred_example :
    serve (failing "1" "EOF") "0.1.0" to_health (params "") (fresh (none ∷ [])) []
    ≡ some (
      record {
        header = json_header;
        sent = some (200, json_header);
        body =
            health_json (record { version = "0.1.0"; service = service_name; failures = [] }) ∷ [];
        faults = [];
      },
      "1" ∷ [],
    )
health_unbarred_example =
    health_unbarred (failing "1" "EOF") "0.1.0" (params "") [] [] ("1" ∷ []) 0 "EOF" refl
      (omega arith)

-- Two requests at once, of which the second is an error.
abbrev access : String → ℕ → Access
access url code = record {
  http_method = "GET";
  http_code = code;
  elapsed_microseconds = 7;
  url = url;
  response = none;
}

abbrev with_one : Access → Option Access → Option Access
with_one a entry = some a

abbrev first : Access
first = access "/status" 200

abbrev second : Access
second = access "/eth/v0/balance/?" 400

LogSteps-mistaken_example :
    (t : Handled with_one) × LogSteps with_one (started with_one none (first ∷ second ∷ [])) t
    × (t.lines ≡ line_of with_one 200 (some second) ∷ line_of with_one 400 (some second) ∷ [])
    × (pending t.endings ≡ 0)
LogSteps-mistaken_example = LogSteps-mistaken with_one none first second (λ x y e. refl)

abbrev halfway : Handled with_one
halfway = record {
  entry = some (some second);
  endings = ended ∷ assigned second ∷ [];
  lines = line_of with_one 200 (some second) ∷ [];
}

mixed : LogSteps with_one (started with_one none (first ∷ second ∷ [])) halfway
unfolding log_step
mixed = next 0 (next 1 (next 0 (next 1 (next 0 here))))

LogSteps-lines_example :
    All
      (λ l. (x : Access) × ((x ≡ first) ⊎ (x ≡ second)) × (l.entry ≡ with_one x none))
      halfway.lines
    × (length halfway.lines + pending halfway.endings ≡ 2)
LogSteps-lines_example =
    LogSteps-lines with_one none (λ x. (x ≡ first) ⊎ (x ≡ second)) (first ∷ second ∷ []) halfway
      (λ x y e. refl) (inl refl, (inr refl, tt)) mixed
