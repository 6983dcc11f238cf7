-- ===== src/Client/Outcomes.antt =====
-- What a value and an error that the client returns say of the response.
use eth_proxy.Prelude.{
  ℕ, ◌<◌, ◌≡◌, ◌↔◌, ◌∙◌, ap, refl, [], ◌∷◌, String, ◌^^◌, Option, none, some, Result, ok, err,
  arith,
}
use eth_proxy.Prelude.Assoc.{put, lookup, latest, or_else, put_all, lookup-put_all}
use eth_proxy.Http.{Header}
use eth_proxy.Json.{Json}
use eth_proxy.Client.{
  Client, Outside, Context, HttpRequest, RequestOp, Body, document, other, value, error,
  method_not_allowed, execute_request, set_headers,
}

-- The headers of a context, under the canonical forms of their names.
abbrev pub canonical : (String → String) → Header → Header
canonical key [] = []
canonical key ((k, values) ∷ src) = (key k, values) ∷ canonical key src

set_headers-put_all :
    (key : String → String) (dst src : Header)
    → set_headers key dst src ≡ put_all dst (canonical key src)
set_headers-put_all key dst [] = refl
set_headers-put_all key dst ((k, values) ∷ src) =
    set_headers-put_all key (put (key k) values dst) src

module _ {N : Type 0} (out : Outside N) (c : Client) (ctx : Context) where
  abbrev pub sent_request : RequestOp → HttpRequest
  sent_request op = record {
    method = op.method;
    url = c.base_url ^^ op.path;
    header = set_headers out.canonical_header_key c.headers ctx.headers;
    content = none;
  }

  value_sent :
      {A : Type 0} (of_json : Json → Option A) (zero_value : A) (op : RequestOp) (n n' : N) (x : A)
      → op.msg ≡ none
      → execute_request out c ctx of_json zero_value op n ≡ (value x, n')
      → (code : ℕ) × (j : Json) × (out.round_trip ctx (sent_request op) n
          ≡ (ok (code, document j), n'))
        × (code < 400)
        × (of_json j ≡ some x)
  value_sent of_json zero_value op n n' x no_content returned =
      go (out.round_trip ctx (sent_request op) n) refl
    where
      go :
          (r : Result (ℕ × Body) × N)
          → out.round_trip ctx (sent_request op) n ≡ r
          → (code : ℕ) × (j : Json) × (out.round_trip ctx (sent_request op) n
              ≡ (ok (code, document j), n'))
            × (code < 400)
            × (of_json j ≡ some x)
      go (err e, m) came = absurd (unfold execute_request in ground arith)
      go (ok (code, other), m) came = absurd (unfold execute_request in ground arith)
      go (ok (code, document j), m) came =
          let same : m ≡ n' = unfold execute_request in ground arith in
          (
            code,
            j,
            rw (← same) came,
            unfold execute_request in ground arith,
            unfold execute_request in ground arith,
          )

  -- The header that a request is sent with: the client's, where the context has none for a name, and else
  -- the last one that the context has for it, by its canonical form.
  abbrev pub IsSentWith : Header → Type 0
  IsSentWith header =
      (name : String)
      → lookup name header
        ≡ or_else (latest name (canonical out.canonical_header_key ctx.headers))
            (lookup name c.headers)

  sent_request-IsSentWith : (op : RequestOp) → IsSentWith (sent_request op).header
  sent_request-IsSentWith op name =
      ap (lookup name) (set_headers-put_all out.canonical_header_key c.headers ctx.headers)
      ∙ lookup-put_all name c.headers (canonical out.canonical_header_key ctx.headers)

  -- Where a request without content gives a value, the client has sent it with its own headers, in place
  -- of which the context's stand where it has one of the same name, and the response had a status below
  -- 400 and a document that reads as the value: no response with another status is taken for a value,
  -- whatever its document holds.
  pub execute_request-value :
      {A : Type 0} (of_json : Json → Option A) (zero_value : A) (op : RequestOp) (n n' : N) (x : A)
      → op.msg ≡ none
      → execute_request out c ctx of_json zero_value op n ≡ (value x, n')
      → (code : ℕ) × (j : Json) × (header : Header) × (out.round_trip ctx
            (record {
              method = op.method;
              url = c.base_url ^^ op.path;
              header = header;
              content = none;
            })
            n
          ≡ (ok (code, document j), n'))
        × IsSentWith header
        × (code < 400)
        × (of_json j ≡ some x)
  execute_request-value of_json zero_value op n n' x no_content returned =
      let (code, j, came, low, read) =
        value_sent of_json zero_value op n n' x no_content returned in
      (code, j, (sent_request op).header, came, sent_request-IsSentWith op, low, read)

  not_allowed_sent :
      {A : Type 0} (of_json : Json → Option A) (zero_value : A) (op : RequestOp) (n n' : N)
      (method path : String) (r : Result (ℕ × Body) × N)
      → op.msg ≡ none
      → out.round_trip ctx (sent_request op) n ≡ r
      → execute_request out c ctx of_json zero_value op n
        ≡ (error (method_not_allowed method path), n')
      → (b : Body) × (r ≡ (ok (405, b), n')) × (method ≡ op.method) × (path ≡ op.path)
  not_allowed_sent of_json zero_value op n n' method path (err e, m) no_content came h =
      absurd (unfold execute_request in ground arith)
  not_allowed_sent of_json zero_value op n n' method path (ok (code, b), m) no_content came h =
      let status : code ≡ 405 = unfold execute_request in ground arith in
      let same : m ≡ n' = unfold execute_request in ground arith in
      (
        b,
        rw (status, same) refl,
        unfold execute_request in ground arith,
        unfold execute_request in ground arith,
      )

  -- For a request without content, the client's error wraps `ErrMethodNotAllowed` exactly if the
  -- response had status 405, and it then names the method and the path of the request.
  pub execute_request-method_not_allowed :
      {A : Type 0} (of_json : Json → Option A) (zero_value : A) (op : RequestOp) (n n' : N)
      (method path : String)
      → op.msg ≡ none
      → (execute_request out c ctx of_json zero_value op n
          ≡ (error (method_not_allowed method path), n'))
        ↔ ((b : Body) × (out.round_trip ctx (sent_request op) n ≡ (ok (405, b), n'))
            × (method ≡ op.method)
            × (path ≡ op.path))
  execute_request-method_not_allowed of_json zero_value op n n' method path no_content = (
    not_allowed_sent of_json zero_value op n n' method path (out.round_trip ctx (sent_request op) n)
        no_content refl,
    λ (b, came, same_method, same_path). unfold execute_request in ground arith,
  )
