-- ===== src/Client/Transactions.antt =====
-- The client's transactions and receipts, through a proxy whose handlers answer its requests.
use eth_proxy.Prelude.{
  ℕ, ◌≡◌, ap, ◌∙◌, Bool, false, String, ◌^^◌, List, Option, none, some, Result, ok, err, length,
  arith,
}
use eth_proxy.Ethereum.{Ethereum, SimpleEthClient, HashesAre32Bytes}
use eth_proxy.Http.Delivery.{success, failure}
use eth_proxy.Api.{param, id_key, data_key, TxResponse, tx_response_json}
use eth_proxy.Api.Answers.{to_tx, to_tx_receipt, to_send_tx, answer}
use eth_proxy.Client.{
  Client, Outside, Context, Fallible, value, error, plain, execute_request, transaction_by_hash,
  transaction_receipt, send_transaction,
}
use eth_proxy.Client.Decode.{
  receipt_of_json, tx_response_of_json, TxReadBack, ReceiptReadBack, GivenBack,
  error_of_json-json_error, no_tx_fields, tx_response_of_json-tx_response_json,
}
use eth_proxy.Client.Server.{Reaches, Returns, fetch_value, fetch_error, passed_on}

module _ {E : Ethereum} {S N : Type 0} (cl : SimpleEthClient E S) (version : String)
    (out : Outside N) (world_of : N → S) (c : Client) (ctx : Context) where
  abbrev empty : TxResponse E
  empty = record { tx = none; txid = ""; is_pending = false }

  tx_answer :
      (v : String) (s s' : S) (t : Option E.Transaction) (p : Bool) (e : Option String)
      → length (E.hash_bytes (E.hex_to_hash v)) ≡ 32
      → cl.transaction_by_hash (E.hex_to_hash v) s ≡ some (((t, p), e), s')
      → answer cl version to_tx (param id_key v) s
        ≡ some (
          elim e [
            | none ↦ success 200 (
                tx_response_json E
                  (record { tx = t; txid = E.hash_hex (E.hex_to_hash v); is_pending = p }))
            | some m ↦ failure 500 ("eth client error: " ^^ m)
          ],
          s',
        )
  unfolding answer
  tx_answer v s s' t p e sized called = ground arith

  -- If the request reaches the handler before the context ends, and go-ethereum reads back the
  -- prints of hashes and of the transaction that is given without an error, a transaction, through the
  -- proxy, is the one that the client of the node gives for the hash, with whether it is pending; an
  -- error of that client is passed on in its words.
  pub tx_through_proxy :
      (hash : E.Hash) (n : N) (s' : S) (t : Option E.Transaction) (p : Bool) (e : Option String)
      → ctx.ended ≡ none
      → Reaches cl version out world_of c ctx to_tx (E.hash_hex hash) n
      → HashesAre32Bytes E
      → E.hex_to_hash (E.hash_hex hash) ≡ hash
      → GivenBack (TxReadBack E) t e
      → cl.transaction_by_hash hash (world_of n) ≡ some (((t, p), e), s')
      → Returns cl version out world_of c ctx
          (transaction_by_hash out c ctx E hash n)
          (passed_on {A = Option E.Transaction × Bool}
            (λ x. record { tx = t; txid = E.hash_hex hash; is_pending = p })
            ((t, p), e))
          s'
  unfolding transaction_by_hash
  tx_through_proxy hash n s' t p none live reach sized back reads called =
      let (j, written, read) = tx_response_of_json-tx_response_json E t (E.hash_hex hash) p reads in
      let given = tx_answer (E.hash_hex hash) (world_of n) s' t p none (sized _) (rw back called) in
      fetch_value cl version out world_of c ctx (tx_response_of_json E) empty to_tx
        (E.hash_hex hash) n s' (success 200 (ok j)) _ live reach (given ∙ rw (back, written))
        (omega arith) read
  tx_through_proxy hash n s' t p (some m) live reach sized back reads called =
      let given =
        tx_answer (E.hash_hex hash) (world_of n) s' t p (some m) (sized _) (rw back called) in
      fetch_error cl version out world_of c ctx (tx_response_of_json E) empty to_tx
        (E.hash_hex hash) n s' _ _ live reach given (omega arith) (omega arith)
        (error_of_json-json_error _)

  receipt_answer :
      (v : String) (s s' : S) (r : Option E.Receipt) (e : Option String)
      → length (E.hash_bytes (E.hex_to_hash v)) ≡ 32
      → cl.transaction_receipt (E.hex_to_hash v) s ≡ some ((r, e), s')
      → answer cl version to_tx_receipt (param id_key v) s
        ≡ some (
          elim e [
            | none ↦ elim r [
              | none ↦ failure 404 "not found"
              | some t ↦ success 200 (E.receipt_json t)
            ]
            | some m ↦ failure 500 ("eth client error: " ^^ m)
          ],
          s',
        )
  unfolding answer
  receipt_answer v s s' r e sized called = ground arith

  -- What the client of the proxy returns for a receipt.
  abbrev pub receipt_result : Option E.Receipt → Option String → Fallible E.Receipt
  receipt_result (some t) none = value t
  receipt_result none none = error (plain "not found")
  receipt_result r (some m) = error (plain ("eth client error: " ^^ m))

  -- If the request reaches the handler before the context ends, and go-ethereum reads back the
  -- prints of hashes and of the receipt that is given without an error, a receipt, through the proxy, is the one that the client of the
  -- node gives for the hash; none is the error "not found", and an error of that client is passed
  -- on in its words.
  pub receipt_through_proxy :
      (hash : E.Hash) (n : N) (s' : S) (r : Option E.Receipt) (e : Option String)
      → ctx.ended ≡ none
      → Reaches cl version out world_of c ctx to_tx_receipt (E.hash_hex hash) n
      → HashesAre32Bytes E
      → E.hex_to_hash (E.hash_hex hash) ≡ hash
      → GivenBack (ReceiptReadBack E) r e
      → cl.transaction_receipt hash (world_of n) ≡ some ((r, e), s')
      → Returns cl version out world_of c ctx
          (transaction_receipt out c ctx E hash n)
          (receipt_result r e)
          s'
  unfolding transaction_receipt
  receipt_through_proxy hash n s' (some t) none live reach sized back reads called =
      let (j, written, read) = reads in
      let given =
        receipt_answer (E.hash_hex hash) (world_of n) s' (some t) none (sized _) (rw back called) in
      fetch_value cl version out world_of c ctx (receipt_of_json E) E.empty_receipt to_tx_receipt
        (E.hash_hex hash) n s' (success 200 (ok j)) t live reach (given ∙ rw written) (omega arith)
        read
  receipt_through_proxy hash n s' none none live reach sized back reads called =
      let given =
        receipt_answer (E.hash_hex hash) (world_of n) s' none none (sized _) (rw back called) in
      fetch_error cl version out world_of c ctx (receipt_of_json E) E.empty_receipt to_tx_receipt
        (E.hash_hex hash) n s' _ _ live reach given (omega arith) (omega arith)
        (error_of_json-json_error _)
  receipt_through_proxy hash n s' r (some m) live reach sized back reads called =
      let given =
        receipt_answer (E.hash_hex hash) (world_of n) s' r (some m) (sized _) (rw back called) in
      fetch_error cl version out world_of c ctx (receipt_of_json E) E.empty_receipt to_tx_receipt
        (E.hash_hex hash) n s' _ _ live reach given (omega arith) (omega arith)
        (error_of_json-json_error _)

  send_answer :
      (v : String) (s s' : S) (bytes : List ℕ) (t : E.Transaction) (e : Option String)
      → E.hex_decode v ≡ ok bytes
      → E.unmarshal_binary bytes ≡ ok t
      → cl.send_transaction t s ≡ some ((tt, e), s')
      → answer cl version to_send_tx (param data_key v) s
        ≡ some (
          elim e [
            | none ↦ success 200 (
                tx_response_json E
                  (record { tx = none; txid = E.hash_hex (E.tx_hash t); is_pending = false }))
            | some m ↦ failure 500 ("eth client error: " ^^ m)
          ],
          s',
        )
  unfolding answer
  send_answer v s s' bytes t e decoded parsed called = ground arith

  send_marshalled :
      (t : E.Transaction) (n : N) (bytes : List ℕ)
      → E.marshal_binary t ≡ ok bytes
      → send_transaction out c ctx E t n
        ≡ execute_request out c ctx
            (tx_response_of_json E)
            empty
            (record { path = "/eth/v0/tx/new/" ^^ E.hex_encode bytes; method = "POST"; msg = none })
            n
  unfolding send_transaction
  send_marshalled t n bytes marshalled = ap sent_or_failed marshalled
    where
      sent_or_failed : Result (List ℕ) → Fallible (TxResponse E) × N
      sent_or_failed r = elim r [
        | err e ↦ (error (plain e), n)
        | ok b ↦
            execute_request out c ctx (tx_response_of_json E) empty
              (record { path = "/eth/v0/tx/new/" ^^ E.hex_encode b; method = "POST"; msg = none }) n
      ]

  -- If the request reaches the handler before the context ends, a transaction that go-ethereum
  -- reads back from its bytes is sent, through the proxy, to the client of the node, and its hash
  -- is returned; an error of that client is passed on in its words.
  pub send_through_proxy :
      (t : E.Transaction) (n : N) (s' : S) (bytes : List ℕ) (e : Option String)
      → ctx.ended ≡ none
      → Reaches cl version out world_of c ctx to_send_tx (E.hex_encode bytes) n
      → E.marshal_binary t ≡ ok bytes
      → E.hex_decode (E.hex_encode bytes) ≡ ok bytes
      → E.unmarshal_binary bytes ≡ ok t
      → cl.send_transaction t (world_of n) ≡ some ((tt, e), s')
      → Returns cl version out world_of c ctx
          (send_transaction out c ctx E t n)
          (passed_on {A = Unit {0}}
            (λ _. record { tx = none; txid = E.hash_hex (E.tx_hash t); is_pending = false })
            (tt, e))
          s'
  unfolding tx_response_json
  send_through_proxy t n s' bytes none live reach marshalled decoded parsed called =
      let given =
        send_answer (E.hex_encode bytes) (world_of n) s' bytes t none decoded parsed called in
      let sent : TxResponse E = record {
        tx = none;
        txid = E.hash_hex (E.tx_hash t);
        is_pending = false;
      } in
      let (m, came, left) =
        fetch_value cl version out world_of c ctx (tx_response_of_json E) empty to_send_tx
          (E.hex_encode bytes) n s' _ sent live reach given (omega arith)
          (no_tx_fields E (E.hash_hex (E.tx_hash t)) false) in
      (m, send_marshalled t n bytes marshalled ∙ came, left)
  send_through_proxy t n s' bytes (some m) live reach marshalled decoded parsed called =
      let given =
        send_answer (E.hex_encode bytes) (world_of n) s' bytes t (some m) decoded parsed called in
      let (m, came, left) =
        fetch_error cl version out world_of c ctx (tx_response_of_json E) empty to_send_tx
          (E.hex_encode bytes) n s' _ _ live reach given (omega arith) (omega arith)
          (error_of_json-json_error _) in
      (m, send_marshalled t n bytes marshalled ∙ came, left)
