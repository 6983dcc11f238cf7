-- ===== src/Http.antt =====
-- proxy/http.go and proxy/error.go: what a handler writes to, and how it responds. Of `net/http` the
-- model has the contract of a `ResponseWriter`: the first `WriteHeader` sends the status and the
-- headers, a `Write` before it sends 200, a later `WriteHeader` sends nothing.
pub mod Delivery
pub mod Logging
pub mod Race
use eth_proxy.Prelude.{
  ℕ, ◌≡◌, refl, String, ◌^^◌, List, [], ◌∷◌, ◌++◌, Option, none, some, Result, ok, err, Run, str_eq,
  if◌then◌else◌,
}
use eth_proxy.Prelude.Assoc.{put}
use eth_proxy.Json.{Json, obj, Fields, end, nonempty_field}

-- `http.StatusOK` and the others.
abbrev pub status_ok : ℕ
status_ok = 200

abbrev pub status_bad_request : ℕ
status_bad_request = 400

abbrev pub status_not_found : ℕ
status_not_found = 404

abbrev pub status_method_not_allowed : ℕ
status_method_not_allowed = 405

abbrev pub status_internal_server_error : ℕ
status_internal_server_error = 500

abbrev pub status_service_unavailable : ℕ
status_service_unavailable = 503

-- `http.Header`: a name has a list of values.
abbrev pub Header : Type 0
Header = List (String × List String)

-- `h[k] = values`.
abbrev pub set_header_values : String → List String → Header → Header
set_header_values k values h = put k values h

-- `http.Header.Set`, for a name in its canonical form.
abbrev pub set_header_value : String → String → Header → Header
set_header_value k v h = set_header_values k (v ∷ []) h

-- `http.ResponseWriter`. A `Write` returns its error, and the writer after it.
pub record ResponseWriter (R : Type 0) : Type 0 where
  pub set_header : String → String → R → R
  pub write_header : ℕ → R → R
  pub write : Json → R → Option String × R

-- The writer of a connection: the header map, what has been sent, and the outcomes of the writes to
-- come, of which those that are not listed succeed.
pub record Conn : Type 0 where
  pub header : Header
  pub sent : Option (ℕ × Header)
  pub body : List Json
  pub faults : List (Option String)

abbrev conn_write_header : ℕ → Conn → Conn
conn_write_header code c = elim c.sent [
  | none ↦ record c { sent = some (code, c.header) }
  | some _ ↦ c
]

abbrev conn_send : Json → Conn → Option String × Conn
conn_send b c = elim c.faults [
  | [] ↦ (none, record c { body = c.body ++ b ∷ [] })
  | none ∷ fs ↦ (none, record c { body = c.body ++ b ∷ []; faults = fs })
  | some e ∷ fs ↦ (some e, record c { faults = fs })
]

instance abbrev pub conn_writer : ResponseWriter Conn
conn_writer = record {
  set_header = λ k v c. record c { header = set_header_value k v c.header };
  write_header = conn_write_header;
  write = λ b c. conn_send b (conn_write_header status_ok c);
}

-- `responseRecorder`: it embeds a writer, and keeps the last status and the last bytes written.
pub record ResponseRecorder (R : Type 0) : Type 0 where
  pub inner : R
  pub status_code : ℕ
  pub response : Option Json

-- `&responseRecorder{ResponseWriter: w}`.
abbrev pub recorder : {R : Type 0} → R → ResponseRecorder R
recorder w = record { inner = w; status_code = 0; response = none }

instance abbrev pub recorder_writer :
    {R : Type 0} ⦃w : ResponseWriter R⦄ → ResponseWriter (ResponseRecorder R)
recorder_writer ⦃w⦄ = record {
  set_header = λ k v r. record r { inner = w.set_header k v r.inner };
  write_header = λ code r. record r { status_code = code; inner = w.write_header code r.inner };
  write = λ b r.
      let (e, inner) = w.write b r.inner in (e, record r { response = some b; inner = inner });
}

-- `JSONError`, marshalled.
pub record JsonError : Type 0 where
  pub error : String

abbrev pub json_error : JsonError → Json
json_error e = obj (nonempty_field "error" e.error end)

module _ {R : Type 0} ⦃w : ResponseWriter R⦄ where
  -- The payload is what `json.Marshal` makes of the value.
  unfoldable pub respond_with_json : ℕ → Result Json → R → Option String × R
  respond_with_json code (err e) r = (some e, r)
  respond_with_json code (ok response) r =
      w.write response (w.write_header code (w.set_header "Content-Type" "application/json" r))

  unfoldable pub respond_with_error : ℕ → String → R → R
  unfolding respond_with_json
  respond_with_error code e r =
      (respond_with_json code (ok (json_error (record { error = e }))) r).1

  -- The statement that ends the handlers: `if err := respondWithJSON(…); err != nil { … }`.
  unfoldable pub respond : ℕ → Result Json → R → R
  unfolding respond_with_json respond_with_error
  respond code payload r =
      let (failed, r') = respond_with_json code payload r in
      elim failed [
        | none ↦ r'
        | some e ↦ respond_with_error status_internal_server_error ("respond error: " ^^ e) r'
      ]
