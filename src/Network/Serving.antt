-- ===== src/Network/Serving.antt =====
-- A service that serves: what is routed for a request, and what comes back.
use eth_proxy.Prelude.{
  ℕ, ◌≡◌, refl, List, [], ◌∷◌, ◌++◌, map, Option, none, some, ◌==◌, if◌then◌else◌, get_elem?, Run,
  arith,
}
use eth_proxy.Json.{Json}
use eth_proxy.Http.{Conn, status_ok}
use eth_proxy.Http.Logging.{Line, Request}
use eth_proxy.Http.Delivery.{fresh}
use eth_proxy.Api.{Params}
use eth_proxy.Client.{Body, document, other}
use eth_proxy.Service.{Registration, Route, logged, metrics}
use eth_proxy.Network.Router.{LookupFn, found, replied, Table}

-- While it serves, a service has the variable `entry` of each of its handles, by the place of the route
-- in the table, the lines that it has logged, and the state behind the handlers.
pub record Running (Entry S : Type 0) : Type 0 where
  pub entry_at : ℕ → Option Entry
  pub lines : List (Line Entry)
  pub world : S

-- A status and a body, as `http.Client` gives them.
abbrev pub Response : Type 0
Response = ℕ × Body

-- Of the documents that a body holds the client decodes the first. Where nothing was sent, the end of
-- the handler sends status 200.
abbrev body_of : List Json → Body
body_of [] = other
body_of (j ∷ js) = document j

abbrev pub response_of : Conn → Response
response_of c = (elim c.sent [ none ↦ status_ok | some (code, h) ↦ code ], body_of c.body)

abbrev pub set_entry : {Entry : Type 0} → ℕ → Option Entry → (ℕ → Option Entry) → ℕ → Option Entry
set_entry i e f j = if j == i then e else f j

abbrev pub table_of : {Entry R S : Type 0} → List (Registration Entry R S) → Table
table_of regs = map (λ r. (r.method, r.path)) regs

-- The router, the handler of Prometheus, and the time that a handler takes.
pub record Served (Entry S : Type 0) : Type 0 where
  pub lookup : LookupFn
  pub prometheus : Running Entry S → Response
  pub elapsed : Request → Running Entry S → ℕ

module _ {Entry S : Type 0} (sv : Served Entry S) where
  -- On a connection whose writes succeed.
  unfoldable pub run_route :
      ℕ
      → Params
      → Route Entry Conn S
      → Request
      → Running Entry S
      → Option (Response × Running Entry S)
  run_route i ps metrics req n = some (sv.prometheus n, n)
  run_route i ps (logged f) req n =
      elim (f (n.entry_at i) req (sv.elapsed req n) ps (fresh (none ∷ [])) n.world) [
        | none ↦ none
        | some ((c, entry, ls), s) ↦ some (
          response_of c,
          record n { entry_at = set_entry i entry n.entry_at; lines = n.lines ++ ls; world = s },
        )
      ]

  unfoldable pub serve_http :
      List (Registration Entry Conn S)
      → Request
      → Running Entry S
      → Option (Response × Running Entry S)
  unfolding run_route
  serve_http regs req n = elim (sv.lookup (table_of regs) req.method req.path) [
    | replied status ↦ some ((status, other), n)
    | found i ps ↦ elim (get_elem? regs i) [ none ↦ none | some r ↦ run_route i ps r.route req n ]
  ]

  pub serve_http-found :
      (regs : List (Registration Entry Conn S)) (req : Request) (n : Running Entry S) (i : ℕ)
      (ps : Params) (r : Registration Entry Conn S)
      → sv.lookup (table_of regs) req.method req.path ≡ found i ps
      → get_elem? regs i ≡ some r
      → serve_http regs req n ≡ run_route i ps r.route req n
  unfolding serve_http
  serve_http-found regs req n i ps r routed at_place = ground (arith, routed, at_place)

  pub serve_http-replied :
      (regs : List (Registration Entry Conn S)) (req : Request) (n : Running Entry S) (status : ℕ)
      → sv.lookup (table_of regs) req.method req.path ≡ replied status
      → serve_http regs req n ≡ some ((status, other), n)
  unfolding serve_http
  serve_http-replied regs req n status routed = ground (arith, routed)

  pub run_route-logged :
      (f : Option Entry
        → Request
        → ℕ
        → Params
        → Conn
        → Run S (Conn × Option Entry × List (Line Entry)))
      (i : ℕ) (ps : Params) (req : Request) (n : Running Entry S) (c : Conn) (entry : Option Entry)
      (ls : List (Line Entry)) (s : S)
      → f (n.entry_at i) req (sv.elapsed req n) ps (fresh (none ∷ [])) n.world
        ≡ some ((c, entry, ls), s)
      → run_route i ps (logged f) req n
        ≡ some (
          response_of c,
          record n { entry_at = set_entry i entry n.entry_at; lines = n.lines ++ ls; world = s },
        )
  unfolding run_route
  run_route-logged f i ps req n c entry ls s ran = rw ran refl
