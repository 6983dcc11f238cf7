-- ===== src/Api/Statuses.antt =====
-- The statuses that each handler can send, and what a refused request leaves alone.
use eth_proxy.Prelude.{
  ℕ, ◌≡◌, ◌≢◌, ◌⊎◌, inl, inr, sym, ◌∙◌, Option-cases, Result-cases, >>=-eq-some, Bool, String, List,
  [], ◌∷◌, Option, none, some, pure, ◌>>=◌, arith,
}
use eth_proxy.Json.{Json}
use eth_proxy.Prelude.Int.{ℤ}
use eth_proxy.Ethereum.{Ethereum, SimpleEthClient, HashesAre32Bytes}
use eth_proxy.Http.Delivery.{
  Reply, deliver, deliver-fresh, status_of, document_of, fresh, json_header,
}
use eth_proxy.Http.{Conn, conn_writer}
use eth_proxy.Api.{address_key, id_key, data_key, Params}
use eth_proxy.Api.Answers.{
  Endpoint, to_status, to_health, to_balance, to_tx, to_tx_receipt, to_send_tx, serve, answer,
  serve-answer,
}

-- The statuses that an endpoint is documented to give.
abbrev pub Allowed : Endpoint → ℕ → Type 0
Allowed to_status c = c ≡ 200
Allowed to_health c = (c ≡ 200) ⊎ (c ≡ 503)
Allowed to_balance c = (c ≡ 200) ⊎ (c ≡ 400) ⊎ (c ≡ 500)
Allowed to_tx c = (c ≡ 200) ⊎ (c ≡ 400) ⊎ (c ≡ 500)
Allowed to_tx_receipt c = (c ≡ 200) ⊎ (c ≡ 400) ⊎ (c ≡ 404) ⊎ (c ≡ 500)
Allowed to_send_tx c = (c ≡ 200) ⊎ (c ≡ 400) ⊎ (c ≡ 500)

module _ {S : Type 0} {E : Ethereum} (client : SimpleEthClient E S) (version : String) where
  pub answer-Allowed :
      (e : Endpoint) (p : Params) (s s' : S) (a : Reply)
      → answer client version e p s ≡ some (a, s')
      → Allowed e (status_of a)
  unfolding answer
  answer-Allowed to_status p s s' a h = ground arith
  answer-Allowed to_health p s s' a h = ground arith
  answer-Allowed to_balance p s s' a h = ground arith
  answer-Allowed to_tx p s s' a h = ground arith
  answer-Allowed to_tx_receipt p s s' a h = ground arith
  answer-Allowed to_send_tx p s s' a h = ground arith

  refused-untouched :
      (e : Endpoint) (p : Params) (s s' : S) (a : Reply)
      → answer client version e p s ≡ some (a, s')
      → status_of a ≡ 400
      → s' ≡ s
  unfolding answer
  refused-untouched to_status p s s' a h c = ground arith
  refused-untouched _ p s s' a h c = ground arith

  -- No method of the client panics.
  pub record Answers : Type 0 where
    pub block_number : (s : S) → (r : (ℕ × Option String) × S) × (client.block_number s ≡ some r)
    pub balance_at :
        (a : E.Address) (n : Option ℤ) (s : S)
        → (r : (Option ℤ × Option String) × S) × (client.balance_at a n s ≡ some r)
    pub transaction_by_hash :
        (h : E.Hash) (s : S)
        → (r : ((Option E.Transaction × Bool) × Option String) × S) × (client.transaction_by_hash h
              s
            ≡ some r)
    pub transaction_receipt :
        (h : E.Hash) (s : S)
        → (r : (Option E.Receipt × Option String) × S) × (client.transaction_receipt h s ≡ some r)
    pub send_transaction :
        (t : E.Transaction) (s : S)
        → (r : (Unit {0} × Option String) × S) × (client.send_transaction t s ≡ some r)

  answer-ne-none :
      Answers → (e : Endpoint) (p : Params) (s : S) → answer client version e p s ≢ none
  unfolding answer
  answer-ne-none h to_status p s = ground arith
  answer-ne-none h to_health p s = ground (arith, (h.block_number s).1)
  answer-ne-none h to_balance p s =
      ground (arith, (h.balance_at (E.hex_to_address (p address_key)) none s).1)
  answer-ne-none h to_tx p s =
      ground (arith, (h.transaction_by_hash (E.hex_to_hash (p id_key)) s).1)
  answer-ne-none h to_tx_receipt p s =
      ground (arith, (h.transaction_receipt (E.hex_to_hash (p id_key)) s).1)
  answer-ne-none h to_send_tx p s = elim (Result-cases (E.hex_decode (p data_key))) [
    | inl (m, malformed) ↦ ground arith
    | inr (bytes, decoded) ↦ elim (Result-cases (E.unmarshal_binary bytes)) [
      | inl (m, malformed) ↦ ground arith
      | inr (t, parsed) ↦ ground (arith, (h.send_transaction t s).1)
    ]
  ]

  answer_returns :
      Answers
      → (e : Endpoint) (p : Params) (s : S)
      → (a : Reply) × (s' : S) × (answer client version e p s ≡ some (a, s'))
  answer_returns h e p s = elim (Option-cases (answer client version e p s)) [
    | inl stuck ↦ absurd (answer-ne-none h e p s stuck)
    | inr ((a, s'), given) ↦ (a, s', given)
  ]

  -- If the client returns, every handler sends exactly one response to a connection that takes it: the
  -- header of JSON, one document, and a status that the endpoint gives.
  pub serve-Allowed :
      Answers
      → (e : Endpoint) (p : Params) (faults : List (Option String)) (s : S)
      → (code : ℕ) × (j : Json) × (s' : S) × (serve client version e p (fresh (none ∷ faults)) s
          ≡ some (
            record {
              header = json_header;
              sent = some (code, json_header);
              body = j ∷ [];
              faults = faults;
            },
            s',
          ))
        × Allowed e code
  serve-Allowed h e p faults s =
      let (a, s', given) = answer_returns h e p s in
      (
        status_of a,
        document_of a,
        s',
        serve-answer client version e p (fresh (none ∷ faults)) s
            ∙ rw (given, ◌>>=◌) (rw (deliver-fresh a faults)),
        answer-Allowed e p s s' a given,
      )

  -- A request that is refused with status 400 leaves the state behind the client alone: no node has
  -- been called.
  pub serve_refused :
      (e : Endpoint) (p : Params) (faults : List (Option String)) (s s' : S) (c : Conn)
      → serve client version e p (fresh (none ∷ faults)) s ≡ some (c, s')
      → c.sent ≡ some (400, json_header)
      → s' ≡ s
  serve_refused e p faults s s' c done sent =
      let (a, t, given, ends) =
        >>=-eq-some (answer client version e p) (λ a. pure (deliver a (fresh (none ∷ faults)))) s
          (sym (serve-answer client version e p (fresh (none ∷ faults)) s) ∙ done) in
      let wire = deliver-fresh a faults in
      let refused : status_of a ≡ 400 = ground arith in
      let same : t ≡ s' = ground arith in sym same ∙ refused-untouched e p s t a given refused

tx-ne-400 :
    {S : Type 0} {E : Ethereum} (client : SimpleEthClient E S) (version : String) (p : Params)
    (s s' : S) (a : Reply)
    → HashesAre32Bytes E
    → answer client version to_tx p s ≡ some (a, s')
    → status_of a ≢ 400
tx-ne-400 {E} client version p s s' a sized given =
    let size = sized (E.hex_to_hash (p id_key)) in unfold answer in ground (arith, size)

-- `common.HexToHash` takes any text to 32 bytes, so the test of the length never refuses one: whatever
-- the text, the response to a request for a transaction has another status than 400.
pub tx_never_refused :
    {S : Type 0} {E : Ethereum} (client : SimpleEthClient E S) (version : String) (p : Params)
    (faults : List (Option String)) (s s' : S) (c : Conn)
    → HashesAre32Bytes E
    → serve client version to_tx p (fresh (none ∷ faults)) s ≡ some (c, s')
    → c.sent ≢ some (400, json_header)
tx_never_refused client version p faults s s' c sized done sent =
    let (a, t, given, ends) =
      >>=-eq-some (answer client version to_tx p) (λ a. pure (deliver a (fresh (none ∷ faults)))) s
        (sym (serve-answer client version to_tx p (fresh (none ∷ faults)) s) ∙ done) in
    let wire = deliver-fresh a faults in
    let refused : status_of a ≡ 400 = ground arith in
    absurd (tx-ne-400 client version p s t a sized given refused)
