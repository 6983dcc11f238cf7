-- ===== src/IntegrationTests.antt =====
-- integrationtests/utils.go: the request that the integration tests send to a service.
use eth_proxy.Prelude.{
  ◌≡◌, refl, false, String, ◌^^◌, [], Option, none, some, Result, ok, err, str_eq, ◌∙◌, true,
  if◌then◌else◌,
}
use eth_proxy.Prelude.Int.{ℤ}
use eth_proxy.Ethereum.{Ethereum, SimpleEthClient}
use eth_proxy.Http.{set_header_value, status_method_not_allowed, Conn, conn_writer}
use eth_proxy.Http.Delivery.{Reply}
use eth_proxy.Http.Logging.{Access}
use eth_proxy.Api.Answers.{Endpoint, answer}
use eth_proxy.Client.{HttpRequest, Outside, Context, other}
use eth_proxy.Service.{new, addr}
use eth_proxy.Service.Routes.{params_of, prefix_of, method_of}
use eth_proxy.Network.Router.{Documented}
use eth_proxy.Network.Serving.{Running, Response, Served}
use eth_proxy.Network.Asked.{Fits}
use eth_proxy.Network.Calls.{
  request_for, response_to, after_reply, serve_http-answer, serve_http-wrong_method,
}
use eth_proxy.Network.Reach.{Carries, is_plain_path, plain_request}
use eth_proxy.Network.Methods.{is_valid_method, sent_method, method_of-valid}

-- `context.Background()`.
abbrev pub background : Context
background = record { headers = []; ended = none }

-- `http.NewRequestWithContext`, without a body: `parse_url` gives the error of `url.Parse`, if any.
unfoldable request_with :
    (parse_url : String → Option String) → (method url : String) → Result HttpRequest
request_with parse_url method url =
    if is_valid_method method
    then elim (parse_url url) [
      | some e ↦ err e
      | none ↦ ok (record { method = method; url = url; header = []; content = none })
    ]
    else err ("net/http: invalid method \"" ^^ method ^^ "\"")

unfoldable pub new_request :
    (parse_url : String → Option String) → (method url : String) → Result HttpRequest
unfolding request_with
new_request parse_url method url = request_with parse_url (sent_method method) url

request_with_made :
    (parse_url : String → Option String) (method url : String)
    → is_valid_method method ≡ true
    → parse_url url ≡ none
    → request_with parse_url method url
      ≡ ok (record { method = method; url = url; header = []; content = none })
unfolding request_with
request_with_made parse_url method url valid parsed = rw (valid, parsed) refl

request_with_refused :
    (parse_url : String → Option String) (method url : String)
    → is_valid_method method ≡ false
    → request_with parse_url method url ≡ err ("net/http: invalid method \"" ^^ method ^^ "\"")
unfolding request_with
request_with_refused parse_url method url invalid = rw invalid refl

request_made :
    (parse_url : String → Option String) (method url : String)
    → is_valid_method (sent_method method) ≡ true
    → parse_url url ≡ none
    → new_request parse_url method url
      ≡ ok (record { method = sent_method method; url = url; header = []; content = none })
unfolding new_request
request_made parse_url method url = request_with_made parse_url (sent_method method) url

request_refused :
    (parse_url : String → Option String) (method url : String)
    → is_valid_method (sent_method method) ≡ false
    → new_request parse_url method url
      ≡ err ("net/http: invalid method \"" ^^ sent_method method ^^ "\"")
unfolding new_request
request_refused parse_url method url = request_with_refused parse_url (sent_method method) url

-- `Do` of the default client is the network's.
unfoldable pub execute_request :
    {N : Type 0}
    → (parse_url : String → Option String) → Outside N
    → (method_type url : String) → N
    → Result Response × N
unfolding new_request
execute_request {N} parse_url out method_type url n = sent (new_request parse_url method_type url)
  where
    sent : Result HttpRequest → Result Response × N
    sent (err e) = (err e, n)
    sent (ok req) =
        out.round_trip background
          (record req { header = set_header_value "Content-Type" "application/json" req.header }) n

module _ {Entry S : Type 0} {E : Ethereum} (with_fields : Access → Entry → Entry)
    (cl : SimpleEthClient E S) (version : String) (port : ℤ) (l : Option Entry)
    (sv : Served Entry S) (out : Outside (Running Entry S)) where
  -- The URL of the service on the machine of the tests.
  abbrev pub service_url : String
  service_url = "http://0.0.0.0" ^^ addr (new with_fields {R = Conn} port l cl version).server

  made :
      (parse_url : String → Option String) (method path : String) (n : Running Entry S)
      → is_valid_method (sent_method method) ≡ true
      → parse_url (service_url ^^ path) ≡ none
      → execute_request parse_url out method (service_url ^^ path) n
        ≡ out.round_trip background
            (record {
              method = sent_method method;
              url = service_url ^^ path;
              header = set_header_value "Content-Type" "application/json" [];
              content = none;
            })
            n
  unfolding execute_request
  made parse_url method path n valid parsed =
      rw (request_made parse_url method (service_url ^^ path) valid parsed) refl

  refused :
      (parse_url : String → Option String) (method url : String) (n : Running Entry S)
      → is_valid_method (sent_method method) ≡ false
      → execute_request parse_url out method url n
        ≡ (err ("net/http: invalid method \"" ^^ sent_method method ^^ "\""), n)
  unfolding execute_request
  refused parse_url method url n invalid = rw (request_refused parse_url method url invalid) refl

  -- If the network carries the requests of the tests to the service, its URLs can be parsed, and the
  -- router does what is documented, a request for an endpoint, with a last segment of letters and digits
  -- that is not empty where the route has a parameter, gets, under the endpoint's method, or none for
  -- GET, the status and the document of what its handler answers. Under another valid method, other than
  -- OPTIONS, it gets status 405, and under one that is not valid an error; then the handlers, the log and
  -- the state behind them are left alone.
  pub execute_request-response :
      (parse_url : String → Option String) (e : Endpoint) (v own other_method bad : String)
      (n : Running Entry S) (a : Reply) (t : S)
      → Documented sv.lookup
      → Carries with_fields cl version port l sv out
          (record { base_url = service_url; headers = [] })
          background
      → ((path : String) → is_plain_path path ≡ true → parse_url (service_url ^^ path) ≡ none)
      → Fits e v
      → answer cl version e (params_of e v) n.world ≡ some (a, t)
      → sent_method own ≡ method_of e
      → is_valid_method (sent_method other_method) ≡ true
      → str_eq (method_of e) (sent_method other_method) ≡ false
      → str_eq (sent_method other_method) "OPTIONS" ≡ false
      → is_valid_method (sent_method bad) ≡ false
      → (execute_request parse_url out own (service_url ^^ (prefix_of e ^^ v)) n ≡ (
        ok (response_to a),
        after_reply with_fields (sv.elapsed (request_for e v) n) e v a t n,
      ))
        × (execute_request parse_url out other_method (service_url ^^ (prefix_of e ^^ v)) n
            ≡ (ok (status_method_not_allowed, other), n))
        × ((m : String) × (execute_request parse_url out bad (service_url ^^ (prefix_of e ^^ v)) n
              ≡ (err m, n)))
  unfolding execute_request
  execute_request-response parse_url e v own other_method bad n a t documented carries parses fits
        given same valid wrong options invalid =
      let plain = plain_request e v fits in
      let parsed = parses (prefix_of e ^^ v) plain in
      let own_valid : is_valid_method (sent_method own) ≡ true = rw same (method_of-valid e) in
      (
        made parse_url own (prefix_of e ^^ v) n own_valid parsed
            ∙ rw same (
                carries _ (prefix_of e ^^ v) n _ _ (method_of-valid e) refl plain (
                  serve_http-answer with_fields cl version port l sv documented e v n a t fits
                    given)),
        made parse_url other_method (prefix_of e ^^ v) n valid parsed
            ∙ carries _ (prefix_of e ^^ v) n _ _ valid refl plain (
                serve_http-wrong_method with_fields cl version port l sv documented e v
                  (sent_method other_method) n fits wrong options),
        (_, refused parse_url bad _ n invalid),
      )
