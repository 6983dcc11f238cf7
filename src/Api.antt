-- ===== src/Api.antt =====
-- proxy/api.go: the answers and the handlers.
pub mod Answers
pub mod Statuses
pub mod Health
pub mod Unbarred
pub mod Kept
use eth_proxy.Prelude.{
  ℕ, ◌≡◌, refl, Bool, true, false, not, String, ◌^^◌, List, [], ◌∷◌, Option, none, some, Result, ok,
  err, Run, pure, ◌>>=◌, ltb, ◌==◌, str_eq, length, drop_last, if◌then◌else◌,
}
use eth_proxy.Prelude.Text.{split}
use eth_proxy.Prelude.Int.{ℤ, big_string}
use eth_proxy.Json.{Json, obj, arr, str, Fields, end, field, nonempty_field, true_field, str_items}
use eth_proxy.Ethereum.{Ethereum, SimpleEthClient}
use eth_proxy.Service.Constants.{service_name}
use eth_proxy.Http.{
  ResponseWriter, respond, respond_with_error, status_ok, status_bad_request, status_not_found,
  status_internal_server_error, status_service_unavailable,
}

abbrev pub status_end_pnt : String
status_end_pnt = "/status"

abbrev pub health_end_pnt : String
health_end_pnt = "/health"

abbrev pub metrics_end_pnt : String
metrics_end_pnt = "/metrics"

abbrev pub balance_prefix : String
balance_prefix = "/eth/v0/balance/"

abbrev pub tx_prefix : String
tx_prefix = "/eth/v0/tx/hash/"

abbrev pub tx_receipt_prefix : String
tx_receipt_prefix = "/eth/v0/tx/receipt/"

abbrev pub send_tx_prefix : String
send_tx_prefix = "/eth/v0/tx/new/"

-- The keys of the path parameters, without the colon in front.
abbrev pub address_key : String
address_key = "address"

abbrev pub id_key : String
id_key = "id"

abbrev pub data_key : String
data_key = "data"

pub record StatusResponse : Type 0 where
  pub message : String
  pub version : String
  pub service : String

abbrev pub status_json : StatusResponse → Json
status_json s = obj (
    nonempty_field "message" s.message
      (nonempty_field "version" s.version (nonempty_field "service" s.service end)))

pub record HealthResponse : Type 0 where
  pub version : String
  pub service : String
  pub failures : List String

abbrev pub health_json : HealthResponse → Json
health_json h = obj (
    nonempty_field "version" h.version
      (nonempty_field "service" h.service (field "failures" (arr (str_items h.failures)) end)))

pub record BalanceResponse : Type 0 where
  pub balance : String

abbrev pub balance_json : BalanceResponse → Json
balance_json b = obj (field "balance" (str b.balance) end)

-- `httprouter.Params`, by what `ByName` gives for a name.
abbrev pub Params : Type 0
Params = String → String

-- The parameters of a route: its key stands for the segment of the path.
abbrev pub param : String → String → Params
param key v k = if str_eq k key then v else ""

abbrev pub no_params : Params
no_params k = ""

-- A handler changes the state behind its client, and the writer. The request itself is not read.
abbrev pub Handle : Type 0 → Type 0 → Type 0
Handle R S = Params → R → Run S R

module _ (E : Ethereum) where
  pub record TxResponse : Type 0 where
    pub tx : Option E.Transaction
    pub txid : String
    pub is_pending : Bool

  unfoldable pub tx_response_json : TxResponse → Result Json
  tx_response_json r =
      let rest = nonempty_field "txid" r.txid (true_field "is_pending" r.is_pending end) in
      elim r.tx [
        | none ↦ ok (obj rest)
        | some t ↦ elim (E.tx_json t) [ err e ↦ err e | ok j ↦ ok (obj (field "tx" j rest)) ]
      ]

-- The failures that `Health` reads off the error of `BlockNumber`.
unfoldable pub health_failures : Option String → List String
unfolding split
health_failures none = []
health_failures (some e) = drop_last (split e b'|')

module _ {R : Type 0} ⦃w : ResponseWriter R⦄ {S : Type 0} (version : String) where
  unfoldable pub status : Handle R S
  unfolding respond
  status p r = pure (
      respond status_ok
        (ok (status_json (record { message = "OK"; version = version; service = service_name }))) r)

  unfoldable pub health : {E : Ethereum} → SimpleEthClient E S → Handle R S
  unfolding respond health_failures
  health client p r = do
    (b, e) ← client.block_number
    let failures = health_failures e
    let code = if ltb 0 (length failures) then status_service_unavailable else status_ok
    pure (
        respond code
          (ok (
            health_json
              (record { version = version; service = service_name; failures = failures })))
          r)

abbrev client_error : String → String
client_error e = "eth client error: " ^^ e

module _ {R : Type 0} ⦃w : ResponseWriter R⦄ {S : Type 0} {E : Ethereum}
    (client : SimpleEthClient E S) where
  unfoldable pub balance : Handle R S
  unfolding respond respond_with_error big_string
  balance p r =
      let address = p address_key in
      if not (E.is_hex_address address)
      then pure (respond_with_error status_bad_request "invalid address format" r)
      else do
        (b, e) ← client.balance_at (E.hex_to_address address) none
        elim e [
          | some m ↦ pure (respond_with_error status_internal_server_error (client_error m) r)
          | none ↦
              pure (respond status_ok (ok (balance_json (record { balance = big_string b }))) r)
        ]

  unfoldable pub tx : Handle R S
  unfolding respond respond_with_error tx_response_json
  tx p r =
      let tx_hash = E.hex_to_hash (p id_key) in
      if not (length (E.hash_bytes tx_hash) == 32)
      then pure (respond_with_error status_bad_request "invalid hash" r)
      else do
        ((found, pending), e) ← client.transaction_by_hash tx_hash
        elim e [
          | some m ↦ pure (respond_with_error status_internal_server_error (client_error m) r)
          | none ↦ pure (
              respond status_ok
                (tx_response_json E
                  (record { tx = found; txid = E.hash_hex tx_hash; is_pending = pending }))
                r)
        ]

  unfoldable pub tx_receipt : Handle R S
  unfolding respond respond_with_error
  tx_receipt p r =
      let tx_hash = E.hex_to_hash (p id_key) in
      if not (length (E.hash_bytes tx_hash) == 32)
      then pure (respond_with_error status_bad_request "invalid hash" r)
      else do
        (found, e) ← client.transaction_receipt tx_hash
        elim e [
          | some m ↦ pure (respond_with_error status_internal_server_error (client_error m) r)
          | none ↦ elim found [
            | none ↦ pure (respond_with_error status_not_found "not found" r)
            | some receipt ↦ pure (respond status_ok (E.receipt_json receipt) r)
          ]
        ]

  unfoldable pub send_tx : Handle R S
  unfolding respond respond_with_error tx_response_json
  send_tx p r = elim (E.hex_decode (p data_key)) [
    | err e ↦ pure (respond_with_error status_bad_request ("invalid tx data: " ^^ e) r)
    | ok bytes ↦ elim (E.unmarshal_binary bytes) [
      | err e ↦
          pure (respond_with_error status_bad_request ("could not unmarshal tx JSON: " ^^ e) r)
      | ok sent ↦ do
        (_, e) ← client.send_transaction sent
        elim e [
          | some m ↦ pure (respond_with_error status_internal_server_error (client_error m) r)
          | none ↦ pure (
              respond status_ok
                (tx_response_json E
                  (record { tx = none; txid = E.hash_hex (E.tx_hash sent); is_pending = false }))
                r)
        ]
    ]
  ]
