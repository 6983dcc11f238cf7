-- ===== src/Http/Logging.antt =====
-- proxy/http.go: the logging middleware, `logHTTPRequest`.
use eth_proxy.Prelude.{
  ℕ, ◌<◌, ◌≡◌, ◌↔◌, ◌∙◌, sym, refl, String, List, [], ◌∷◌, Option, none, some, Run, pure, ◌>>=◌,
  >>=-eq-some, ltb, if◌then◌else◌, arith,
}
use mathlib.Core.Path.{ap₂}
use eth_proxy.Json.{Json}
use eth_proxy.Ethereum.{Ethereum, SimpleEthClient}
use eth_proxy.Http.{ResponseWriter, ResponseRecorder, recorder, recorder_writer, Conn, conn_writer}
use eth_proxy.Http.Delivery.{
  Reply, deliver, inner-deliver, deliver-fresh, recorder-deliver-fresh, status_of, document_of,
  fresh, json_header,
}
use eth_proxy.Api.{Params, Handle}
use eth_proxy.Api.Answers.{Endpoint, serve, answer, serve-answer}

-- What a line says of a request: the elapsed time is measured by the clock.
pub record Access : Type 0 where
  pub http_method : String
  pub http_code : ℕ
  pub elapsed_microseconds : ℕ
  pub url : String
  pub response : Option Json

pub data Severity : Type 0 where
  warn debug : Severity

-- A call of `Warn` or `Debug` on an entry. Whether it is written is up to the level of the logger, which
-- is logrus's.
pub record Line (Entry : Type 0) : Type 0 where
  pub severity : Severity
  pub message : String
  pub entry : Entry

-- Of a request the middleware reads the method and the path.
pub record Request : Type 0 where
  pub method : String
  pub path : String

-- A `logrus.Entry`, and `WithFields` on the five fields of a request.
module _ {Entry : Type 0} (with_fields : Access → Entry → Entry) where
  abbrev pub access_of : {R : Type 0} → Request → ℕ → ResponseRecorder R → Access
  access_of req elapsed r = record {
    http_method = req.method;
    http_code = r.status_code;
    elapsed_microseconds = elapsed;
    url = req.path;
    response = r.response;
  }

  -- Errors are logged at level `warn`, all else at `debug`.
  abbrev pub line_of : ℕ → Entry → Line Entry
  line_of http_code entry = record {
    severity = if ltb 399 http_code then warn else debug;
    message = if ltb 399 http_code then "httpErr" else "servedHttpRequest";
    entry = entry;
  }

  -- The wrapped handler, with the variable `entry` that it captures: the result holds the writer, the
  -- variable afterwards, and the lines that were logged.
  unfoldable pub log_http_request :
      {R S : Type 0}
      → Option Entry
      → Handle (ResponseRecorder R) S
      → Request
      → ℕ
      → Params
      → R
      → Run S (R × Option Entry × List (Line Entry))
  log_http_request entry h req elapsed p w = do
    r ← h p (recorder w)
    elim entry [
      | none ↦ pure (r.inner, none, [])
      | some base ↦
          let entry' = with_fields (access_of req elapsed r) base in
          pure (r.inner, some entry', line_of r.status_code entry' ∷ [])
    ]

  -- What a line should say of a reply.
  abbrev pub access_given : Request → ℕ → Reply → Access
  access_given req elapsed a = record {
    http_method = req.method;
    http_code = status_of a;
    elapsed_microseconds = elapsed;
    url = req.path;
    response = some (document_of a);
  }

  -- The variable and the lines after a handler that left `r`.
  abbrev pub entry_after :
      {R : Type 0} → Option Entry → Request → ℕ → ResponseRecorder R → Option Entry
  entry_after none req elapsed r = none
  entry_after (some base) req elapsed r = some (with_fields (access_of req elapsed r) base)

  abbrev pub lines_after :
      {R : Type 0} → Option Entry → Request → ℕ → ResponseRecorder R → List (Line Entry)
  lines_after none req elapsed r = []
  lines_after (some base) req elapsed r =
      line_of r.status_code (with_fields (access_of req elapsed r) base) ∷ []

  log_http_request_lem :
      {R S : Type 0} (entry : Option Entry) (h : Handle (ResponseRecorder R) S) (req : Request)
      (elapsed : ℕ) (p : Params) (w : R) (q : ResponseRecorder R) (s t : S)
      → h p (recorder w) s ≡ some (q, t)
      → log_http_request entry h req elapsed p w s
        ≡ some ((q.inner, entry_after entry req elapsed q, lines_after entry req elapsed q), t)
  log_http_request_lem none h req elapsed p w q s t e = unfold log_http_request in rw (e, ◌>>=◌)
  log_http_request_lem (some base) h req elapsed p w q s t e =
      unfold log_http_request in rw (e, ◌>>=◌)

  module _ {S : Type 0} {E : Ethereum} (client : SimpleEthClient E S) (version : String) where
    pub log-answer :
        {R : Type 0} ⦃w : ResponseWriter R⦄ (entry : Option Entry) (e : Endpoint) (req : Request)
        (elapsed : ℕ) (p : Params) (r : R) (s t : S) (a : Reply)
        → answer client version e p s ≡ some (a, t)
        → log_http_request entry (serve client version e) req elapsed p r s
          ≡ some (
            (
              deliver a r,
              entry_after entry req elapsed (deliver a (recorder r)),
              lines_after entry req elapsed (deliver a (recorder r)),
            ),
            t,
          )
    log-answer entry e req elapsed p r s t a given =
        let wrapped = serve-answer client version e p (recorder r) s ∙ rw (given, ◌>>=◌) in
        log_http_request_lem entry (serve client version e) req elapsed p r (deliver a (recorder r))
          s t wrapped
        ∙ rw (inner-deliver a (recorder r))

    -- Where a handler returns, the middleware changes nothing of what it does to the writer and to
    -- the state behind the client, for every handler of the interface and every writer.
    pub log_http_request-inner :
        {R : Type 0} ⦃w : ResponseWriter R⦄ (entry : Option Entry) (e : Endpoint) (req : Request)
        (elapsed : ℕ) (p : Params) (r r' : R) (s s' : S)
        → serve client version e p r s ≡ some (r', s')
        → (entry' : Option Entry) × (lines : List (Line Entry)) × (log_http_request entry
              (serve client version e)
              req
              elapsed
              p
              r
              s
            ≡ some ((r', entry', lines), s'))
    log_http_request-inner entry e req elapsed p r r' s s' bare =
        let (a, t, given, ends) =
          >>=-eq-some (answer client version e p) (λ a. pure (deliver a r)) s
            (sym (serve-answer client version e p r s) ∙ bare) in
        let wire : deliver a r ≡ r' = ground arith in
        let world : t ≡ s' = ground arith in
        let q = deliver a (recorder r) in
        (
          entry_after entry req elapsed q,
          lines_after entry req elapsed q,
          log-answer entry e req elapsed p r s t a given
              ∙ ap₂
                  (λ x y.
                    some ((x, entry_after entry req elapsed q, lines_after entry req elapsed q), y))
                  wire world,
        )

    -- On a connection whose first write succeeds, a logger writes one line for a request: with the
    -- status and the document that were sent, at level `warn` if the status is an error and at `debug`
    -- if not.
    pub log_http_request_line :
        (base : Entry) (e : Endpoint) (req : Request) (elapsed : ℕ) (p : Params)
        (faults : List (Option String)) (s t : S) (a : Reply)
        → answer client version e p s ≡ some (a, t)
        → (c : Conn) × (line : Line Entry) × (log_http_request
              (some base)
              (serve client version e)
              req
              elapsed
              p
              (fresh (none ∷ faults))
              s
            ≡ some ((c, some line.entry, line ∷ []), t))
          × (c.sent ≡ some (status_of a, json_header))
          × (line.entry ≡ with_fields (access_given req elapsed a) base)
          × ((line.severity ≡ warn) ↔ (399 < status_of a))
    log_http_request_line base e req elapsed p faults s t a given =
        let r = fresh (none ∷ faults) in
        (
          deliver a r,
          line_of (status_of a) (with_fields (access_given req elapsed a) base),
          log-answer (some base) e req elapsed p r s t a given
              ∙ rw (recorder-deliver-fresh a faults),
          rw (deliver-fresh a faults),
          refl,
          ground arith,
        )
