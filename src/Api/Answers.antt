-- ===== src/Api/Answers.antt =====
-- What a handler answers, apart from the writer that it answers to.
use eth_proxy.Prelude.{
  ◌≡◌, refl, false, String, ◌^^◌, List, Option, none, some, ok, err, Run, pure, ◌>>=◌, ltb, ◌==◌,
  length, if◌then◌else◌, arith,
}
use eth_proxy.Prelude.Int.{big_string}
use eth_proxy.Ethereum.{Ethereum, SimpleEthClient}
use eth_proxy.Service.Constants.{service_name}
use eth_proxy.Http.{ResponseWriter}
use eth_proxy.Http.Delivery.{Reply, success, failure, deliver}
use eth_proxy.Api.{
  Params, Handle, status, health, balance, tx, tx_receipt, send_tx, status_json, health_json,
  balance_json, tx_response_json, health_failures, client_error, address_key, id_key, data_key,
}

-- The handlers of the interface.
pub data Endpoint : Type 0 where
  to_status to_health to_balance to_tx to_tx_receipt to_send_tx : Endpoint

module _ {S : Type 0} {E : Ethereum} (client : SimpleEthClient E S) (version : String) where
  unfoldable pub serve : {R : Type 0} ⦃w : ResponseWriter R⦄ → Endpoint → Handle R S
  serve to_status = status version
  serve to_health = health version client
  serve to_balance = balance client
  serve to_tx = tx client
  serve to_tx_receipt = tx_receipt client
  serve to_send_tx = send_tx client

  abbrev health_reply : List String → Reply
  health_reply failures =
      success (if ltb 0 (length failures) then 503 else 200) (
        ok
          (health_json (record { version = version; service = service_name; failures = failures })))

  -- The reply to what a client gave.
  abbrev reply_or_error : {A : Type 0} → (A → Reply) → A × Option String → Reply
  reply_or_error f (a, none) = f a
  reply_or_error f (a, some e) = failure 500 (client_error e)

  unfoldable pub answer : Endpoint → Params → Run S Reply
  answer to_status p = pure (
      success 200
        (ok (status_json (record { message = "OK"; version = version; service = service_name }))))
  answer to_health p = client.block_number >>= λ x. pure (health_reply (health_failures x.1))
  answer to_balance p =
      if E.is_hex_address (p address_key)
      then (client.balance_at (E.hex_to_address (p address_key)) none >>= λ x. pure (
          reply_or_error (λ b. success 200 (ok (balance_json (record { balance = big_string b }))))
            x))
      else pure (failure 400 "invalid address format")
  answer to_tx p =
      let h = E.hex_to_hash (p id_key) in
      if length (E.hash_bytes h) == 32
      then (client.transaction_by_hash h >>= λ x. pure (
          reply_or_error
            (λ y.
              success 200
                (tx_response_json E (record { tx = y.0; txid = E.hash_hex h; is_pending = y.1 })))
            x))
      else pure (failure 400 "invalid hash")
  answer to_tx_receipt p =
      let h = E.hex_to_hash (p id_key) in
      if length (E.hash_bytes h) == 32
      then (client.transaction_receipt h >>= λ x. pure (
          reply_or_error
            (λ y. elim y [
              | none ↦ failure 404 "not found"
              | some t ↦ success 200 (E.receipt_json t)
            ])
            x))
      else pure (failure 400 "invalid hash")
  answer to_send_tx p = elim (E.hex_decode (p data_key)) [
    | err e ↦ pure (failure 400 ("invalid tx data: " ^^ e))
    | ok bytes ↦ elim (E.unmarshal_binary bytes) [
      | err e ↦ pure (failure 400 ("could not unmarshal tx JSON: " ^^ e))
      | ok t ↦ client.send_transaction t >>= λ x. pure (
          reply_or_error
            (λ _. success 200 (
              tx_response_json E
                (record { tx = none; txid = E.hash_hex (E.tx_hash t); is_pending = false })))
            x)
    ]
  ]

  -- Each handler delivers its answer, to whatever writer it is given.
  pub serve-answer :
      {R : Type 0} ⦃w : ResponseWriter R⦄ (e : Endpoint) (p : Params) (r : R) (s : S)
      → serve e p r s ≡ (answer e p >>= λ a. pure (deliver a r)) s
  serve-answer to_status p r s = unfold serve answer status deliver in refl
  serve-answer to_health p r s = unfold serve answer health deliver in ground arith
  serve-answer to_balance p r s = unfold serve answer balance deliver in ground arith
  serve-answer to_tx p r s = unfold serve answer tx deliver in ground arith
  serve-answer to_tx_receipt p r s = unfold serve answer tx_receipt deliver in ground arith
  serve-answer to_send_tx p r s = unfold serve answer send_tx deliver in ground arith
