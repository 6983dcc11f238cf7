-- ===== src/Client/Server.antt =====
-- The client of a proxy whose handlers answer its requests: client/client.go over proxy/api.go.
use eth_proxy.Prelude.{◌<◌, ◌≡◌, ◌≢◌, true, String, ◌^^◌, Option, none, some, ok, arith}
use eth_proxy.Prelude.Int.{ℤ, big_string}
use eth_proxy.Json.{Json}
use eth_proxy.Ethereum.{Ethereum, SimpleEthClient}
use eth_proxy.Service.Routes.{prefix_of, params_of, method_of}
use eth_proxy.Http.{Header}
use eth_proxy.Http.Delivery.{Reply, success, failure, status_of, document_of}
use eth_proxy.Api.{balance_json}
use eth_proxy.Api.Answers.{Endpoint, to_balance, answer}
use eth_proxy.Client.{
  Client, Outside, Context, RequestOp, Fallible, value, error, plain, document, execute_request,
  set_headers, balance,
}
use eth_proxy.Client.Decode.{
  error_of_json, balance_of_json, balance_of_json-balance_json, error_of_json-json_error,
}

-- What the client of the proxy returns for what the client of the node returned.
abbrev pub passed_on : {A B : Type 0} → (A → B) → A × Option String → Fallible B
passed_on f (a, none) = value (f a)
passed_on f (a, some m) = error (plain ("eth client error: " ^^ m))

-- The network `N` that the client sends its requests into, and the state behind the handlers in it.
module _ {E : Ethereum} {S N : Type 0} (cl : SimpleEthClient E S) (version : String)
    (out : Outside N) (world_of : N → S) (c : Client) (ctx : Context) where
  -- A request for an endpoint, with a given last segment of the path, gets what its handler answers,
  -- and leaves the state that the handler leaves.
  abbrev pub Reaches : Endpoint → String → N → Type 0
  Reaches e v n =
      (h : Header) (s' : S) (a : Reply)
      → answer cl version e (params_of e v) (world_of n) ≡ some (a, s')
      → (m : N) × (out.round_trip ctx
            (record {
              method = method_of e;
              url = c.base_url ^^ (prefix_of e ^^ v);
              header = h;
              content = none;
            })
            n
          ≡ (ok (status_of a, document (document_of a)), m))
        × (world_of m ≡ s')

  -- What the client returns, and the state that it leaves behind the handlers.
  abbrev pub Returns : {A : Type 0} → Fallible A × N → Fallible A → S → Type 0
  Returns got r s' = (m : N) × (got ≡ (r, m)) × (world_of m ≡ s')

  abbrev pub op : Endpoint → String → RequestOp
  op e v = record { path = prefix_of e ^^ v; method = method_of e; msg = none }

  -- A reply with a status below 400 is read, and its value returned.
  pub fetch_value :
      {A : Type 0} (of_json : Json → Option A) (zero_value : A) (e : Endpoint) (v : String) (n : N)
      (s' : S) (a : Reply) (x : A)
      → ctx.ended ≡ none
      → Reaches e v n
      → answer cl version e (params_of e v) (world_of n) ≡ some (a, s')
      → status_of a < 400
      → of_json (document_of a) ≡ some x
      → Returns (execute_request out c ctx of_json zero_value (op e v) n) (value x) s'
  unfolding execute_request
  fetch_value of_json zero_value e v n s' a x live reach given low read =
      let (m, came, left) =
        reach (set_headers out.canonical_header_key c.headers ctx.headers) s' a given in
      (m, rw came (ground arith), left)

  -- A reply with another status is read for its error, whose text the client returns.
  pub fetch_error :
      {A : Type 0} (of_json : Json → Option A) (zero_value : A) (e : Endpoint) (v : String) (n : N)
      (s' : S) (a : Reply) (text : String)
      → ctx.ended ≡ none
      → Reaches e v n
      → answer cl version e (params_of e v) (world_of n) ≡ some (a, s')
      → 399 < status_of a
      → status_of a ≢ 405
      → error_of_json (document_of a) ≡ some (record { error = text })
      → Returns (execute_request out c ctx of_json zero_value (op e v) n) (error (plain text)) s'
  unfolding execute_request
  fetch_error of_json zero_value e v n s' a text live reach given high other read =
      let (m, came, left) =
        reach (set_headers out.canonical_header_key c.headers ctx.headers) s' a given in
      (m, rw came (ground arith), left)

  balance_answer :
      (v : String) (s s' : S) (b : Option ℤ) (e : Option String)
      → E.is_hex_address v ≡ true
      → cl.balance_at (E.hex_to_address v) none s ≡ some ((b, e), s')
      → answer cl version to_balance (params_of to_balance v) s
        ≡ some (
          elim e [
            | none ↦ success 200 (ok (balance_json (record { balance = big_string b })))
            | some m ↦ failure 500 ("eth client error: " ^^ m)
          ],
          s',
        )
  unfolding answer
  balance_answer v s s' b e hex called = ground arith

  -- If the request reaches the handler before the context ends, and go-ethereum takes the print of
  -- the address and reads it back, the balance of the address, through the proxy, is the decimal
  -- print of what the client of the node gives for it; an error of that client is passed on in its
  -- words.
  pub balance_through_proxy :
      (address : E.Address) (n : N) (s' : S) (b : Option ℤ) (e : Option String)
      → ctx.ended ≡ none
      → Reaches to_balance (E.address_hex address) n
      → E.is_hex_address (E.address_hex address) ≡ true
      → E.hex_to_address (E.address_hex address) ≡ address
      → cl.balance_at address none (world_of n) ≡ some ((b, e), s')
      → Returns
          (balance out c ctx E address n)
          (passed_on (λ b. record { balance = big_string b }) (b, e))
          s'
  unfolding balance
  balance_through_proxy address n s' b none live reach hex back called =
      fetch_value balance_of_json (record { balance = "" }) to_balance (E.address_hex address) n s'
        _ _ live reach
        (balance_answer (E.address_hex address) (world_of n) s' b none hex (rw back called))
        (omega arith) (balance_of_json-balance_json _)
  balance_through_proxy address n s' b (some m) live reach hex back called =
      fetch_error balance_of_json (record { balance = "" }) to_balance (E.address_hex address) n s'
        _ _ live reach
        (balance_answer (E.address_hex address) (world_of n) s' b (some m) hex (rw back called))
        (omega arith) (omega arith) (error_of_json-json_error _)
