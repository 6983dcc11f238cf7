-- ===== src/Network/Calls.antt =====
-- A request for an endpoint, through the router and the logging middleware.
use eth_proxy.Prelude.{
  ℕ, ◌≡◌, ◌∙◌, refl, true, false, String, ◌^^◌, List, [], ◌∷◌, ◌++◌, Option, none, some, str_eq,
  get_elem?,
}
use eth_proxy.Prelude.Int.{ℤ}
use eth_proxy.Ethereum.{Ethereum, SimpleEthClient}
use eth_proxy.Http.{status_method_not_allowed, Conn, conn_writer, recorder, recorder_writer}
use eth_proxy.Http.Delivery.{
  Reply, deliver, fresh, status_of, document_of, deliver-fresh, recorder-deliver-fresh,
}
use eth_proxy.Http.Logging.{
  Access, Line, Request, log_http_request, access_given, line_of, entry_after, lines_after,
  log-answer,
}
use eth_proxy.Api.{param}
use eth_proxy.Api.Answers.{
  Endpoint, to_status, to_health, to_balance, to_tx, to_tx_receipt, to_send_tx, serve, answer,
}
use eth_proxy.Client.{document, other}
use eth_proxy.Service.{Registration, logged, new}
use eth_proxy.Service.Routes.{
  endpoints, table, prefix_of, key_of, params_of, method_of, pattern_of, new-table,
}
use eth_proxy.Network.Asked.{Fits, pattern_matched}
use eth_proxy.Network.Router.{Documented, unambiguous}
use eth_proxy.Network.Serving.{
  Running, Response, Served, serve_http, set_entry, table_of, serve_http-found, run_route-logged,
  serve_http-replied,
}

abbrev pub place_of : Endpoint → ℕ
place_of to_status = 0
place_of to_health = 1
place_of to_balance = 2
place_of to_tx = 3
place_of to_tx_receipt = 4
place_of to_send_tx = 5

abbrev pub request_for : Endpoint → String → Request
request_for e v = record { method = method_of e; path = prefix_of e ^^ v }

abbrev pub response_to : Reply → Response
response_to a = (status_of a, document (document_of a))

module _ {Entry : Type 0} (with_fields : Access → Entry → Entry) where
  abbrev pub entry_given : Option Entry → Access → Option Entry
  entry_given none a = none
  entry_given (some base) a = some (with_fields a base)

  abbrev pub lines_given : Option Entry → Access → List (Line Entry)
  lines_given none a = []
  lines_given (some base) a = line_of with_fields a.http_code (with_fields a base) ∷ []

  entry_recorded :
      (entry : Option Entry) (req : Request) (elapsed : ℕ) (a : Reply)
      → entry_after with_fields entry req elapsed (deliver a (recorder (fresh (none ∷ []))))
        ≡ entry_given entry (access_given with_fields req elapsed a)
  entry_recorded none req elapsed a = refl
  entry_recorded (some base) req elapsed a = rw (recorder-deliver-fresh a []) refl

  lines_recorded :
      (entry : Option Entry) (req : Request) (elapsed : ℕ) (a : Reply)
      → lines_after with_fields entry req elapsed (deliver a (recorder (fresh (none ∷ []))))
        ≡ lines_given entry (access_given with_fields req elapsed a)
  lines_recorded none req elapsed a = refl
  lines_recorded (some base) req elapsed a = rw (recorder-deliver-fresh a []) refl

  module _ {S : Type 0} where
    -- What a reply to a request for an endpoint leaves of the service.
    abbrev pub after_reply : ℕ → Endpoint → String → Reply → S → Running Entry S → Running Entry S
    after_reply elapsed e v a t n =
        let acc = access_given with_fields (request_for e v) elapsed a in
        let before = n.entry_at (place_of e) in
        record n {
          entry_at = set_entry (place_of e) (entry_given before acc) n.entry_at;
          lines = n.lines ++ lines_given before acc;
          world = t;
        }

module _ {Entry : Type 0} (with_fields : Access → Entry → Entry) {S : Type 0} {E : Ethereum}
    (client : SimpleEthClient E S) (version : String) where
  abbrev rows : List (Registration Entry Conn S)
  rows = table with_fields client version endpoints

  abbrev row : Endpoint → Registration Entry Conn S
  row e = record {
    method = method_of e;
    path = pattern_of e;
    route = logged (λ entry. log_http_request with_fields entry (serve client version e));
  }

  rows_at :
      (e : Endpoint)
      → (get_elem? rows (place_of e) ≡ some (row e))
        × (get_elem? (table_of rows) (place_of e) ≡ some (method_of e, pattern_of e))
  rows_at to_status = (refl, refl)
  rows_at to_health = (refl, refl)
  rows_at to_balance = (refl, refl)
  rows_at to_tx = (refl, refl)
  rows_at to_tx_receipt = (refl, refl)
  rows_at to_send_tx = (refl, refl)

  -- The routes of the service are registered without a conflict.
  pub unambiguous-rows : unambiguous (table_of rows) ≡ true
  unfolding unambiguous
  unambiguous-rows = refl

  params_answer :
      (e : Endpoint) (v : String) (s : S)
      → answer client version e (param (key_of e) v) s ≡ answer client version e (params_of e v) s
  unfolding answer
  params_answer to_status v s = refl
  params_answer to_health v s = refl
  params_answer to_balance v s = refl
  params_answer to_tx v s = refl
  params_answer to_tx_receipt v s = refl
  params_answer to_send_tx v s = refl

  module _ (port : ℤ) (l : Option Entry) where
    -- What the service registers.
    abbrev pub registered : List (Registration Entry Conn S)
    registered = (new with_fields {R = Conn} port l client version).server.handler

    registered-rows : registered ≡ rows
    registered-rows = (new-table with_fields {R = Conn} port l client version).1

  module _ (port : ℤ) (l : Option Entry) (sv : Served Entry S)
      (documented : Documented sv.lookup) where
    run_logged :
        (e : Endpoint) (v : String) (n : Running Entry S) (a : Reply) (t : S)
        → answer client version e (params_of e v) n.world ≡ some (a, t)
        → log_http_request with_fields
            (n.entry_at (place_of e))
            (serve client version e)
            (request_for e v)
            (sv.elapsed (request_for e v) n)
            (params_of e v)
            (fresh (none ∷ []))
            n.world
          ≡ some (
            (
              deliver a (fresh (none ∷ [])),
              entry_given with_fields
                  (n.entry_at (place_of e))
                  (access_given with_fields (request_for e v) (sv.elapsed (request_for e v) n) a),
              lines_given with_fields
                  (n.entry_at (place_of e))
                  (access_given with_fields (request_for e v) (sv.elapsed (request_for e v) n) a),
            ),
            t,
          )
    run_logged e v n a t given =
        log-answer with_fields client version (n.entry_at (place_of e)) e (request_for e v)
          (sv.elapsed (request_for e v) n) (params_of e v) (fresh (none ∷ [])) n.world t a given
        ∙ rw (entry_recorded with_fields _ _ _ a, lines_recorded with_fields _ _ _ a) refl

    -- A request for an endpoint is given to its handler, with the last segment as its parameter.
    pub serve_http-answer :
        (e : Endpoint) (v : String) (n : Running Entry S) (a : Reply) (t : S)
        → Fits e v
        → answer client version e (params_of e v) n.world ≡ some (a, t)
        → serve_http sv (registered port l) (request_for e v) n
          ≡ some (response_to a, after_reply with_fields (sv.elapsed (request_for e v) n) e v a t n)
    serve_http-answer e v n a t fits given =
        let (row_at, pattern_at) = rows_at e in
        let routed =
          documented.matched (table_of rows) (place_of e) (method_of e) (pattern_of e)
            (prefix_of e ^^ v) (params_of e v) unambiguous-rows pattern_at
            (pattern_matched e v fits) in
        rw (registered-rows port l) (
          serve_http-found sv rows (request_for e v) n (place_of e) (params_of e v) (row e) routed
            row_at
          ∙ run_route-logged sv _ (place_of e) (params_of e v) (request_for e v) n _ _ _ t
              (run_logged e v n a t given)
          ∙ rw (deliver-fresh a []) refl)

    -- A request for the path of an endpoint under another method than its own, other than OPTIONS, gets
    -- status 405 from the router, and no handler is called and nothing logged.
    pub serve_http-wrong_method :
        (e : Endpoint) (v method : String) (n : Running Entry S)
        → Fits e v
        → str_eq (method_of e) method ≡ false
        → str_eq method "OPTIONS" ≡ false
        → serve_http sv (registered port l) (record { method = method; path = prefix_of e ^^ v }) n
          ≡ some ((status_method_not_allowed, other), n)
    serve_http-wrong_method e v method n fits wrong options =
        let (_, pattern_at) = rows_at e in
        rw (registered-rows port l) (
          serve_http-replied sv rows (record { method = method; path = prefix_of e ^^ v }) n 405
            (documented.other_method (table_of rows) (place_of e) method (method_of e)
              (pattern_of e) (prefix_of e ^^ v) (params_of e v) unambiguous-rows pattern_at
              (pattern_matched e v fits) wrong options))
