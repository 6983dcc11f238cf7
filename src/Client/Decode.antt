-- ===== src/Client/Decode.antt =====
-- client/client.go: `json.Decode` into the types that the client reads. The name of a member is
-- matched as it is written.
use eth_proxy.Prelude.{◌≡◌, refl, Bool, true, false, String, List, Option, none, some, ok, err}
use eth_proxy.Json.{
  Json, null, obj, Fields, end, field, member, to_string, to_bool, to_strings, strings-str_items,
  strings, str_items, nonempty_field, true_field,
}
use eth_proxy.Ethereum.{Ethereum}
use eth_proxy.Http.{JsonError, json_error}
use eth_proxy.Api.{
  StatusResponse, HealthResponse, BalanceResponse, TxResponse, status_json, health_json,
  balance_json, tx_response_json,
}

-- `json.Decode` into a variable that holds the zero value: `null` leaves it.
abbrev object_of : {A : Type 0} → (Fields → Option A) → Json → Option A
object_of f (obj fs) = f fs
object_of f null = f end
object_of f _ = none

infixl 5 ◌>>=◌
abbrev ◌>>=◌ : {A B : Type 0} → Option A → (A → Option B) → Option B
none >>= f = none
some a >>= f = f a

unfoldable pub status_of_json : Json → Option StatusResponse
unfolding member strings
status_of_json = object_of λ fs. do
  message ← to_string (member "message" fs)
  version ← to_string (member "version" fs)
  service ← to_string (member "service" fs)
  some (record { message = message; version = version; service = service })

unfoldable pub health_of_json : Json → Option HealthResponse
unfolding member strings
health_of_json = object_of λ fs. do
  version ← to_string (member "version" fs)
  service ← to_string (member "service" fs)
  failures ← to_strings (member "failures" fs)
  some (record { version = version; service = service; failures = failures })

unfoldable pub balance_of_json : Json → Option BalanceResponse
unfolding member strings
balance_of_json =
    object_of
      λ fs. do balance ← to_string (member "balance" fs); some (record { balance = balance })

unfoldable pub error_of_json : Json → Option JsonError
unfolding member strings
error_of_json = object_of λ fs. do e ← to_string (member "error" fs); some (record { error = e })

-- A pointer to a transaction: nil if the member is missing or `null`.
abbrev tx_member : (E : Ethereum) → Option Json → Option (Option E.Transaction)
tx_member E none = some none
tx_member E (some null) = some none
tx_member E (some j) = elim (E.tx_of_json j) [ err _ ↦ none | ok t ↦ some (some t) ]

unfoldable pub receipt_of_json : (E : Ethereum) → Json → Option E.Receipt
receipt_of_json E null = some E.empty_receipt
receipt_of_json E j = elim (E.receipt_of_json j) [ err _ ↦ none | ok r ↦ some r ]

unfoldable pub tx_response_of_json : (E : Ethereum) → Json → Option (TxResponse E)
unfolding member strings
tx_response_of_json E = object_of λ fs. do
  tx ← tx_member E (member "tx" fs)
  txid ← to_string (member "txid" fs)
  is_pending ← to_bool (member "is_pending" fs)
  some (record { tx = tx; txid = txid; is_pending = is_pending })

-- What the proxy writes, the client reads back.
status_fields :
    (m v s : String)
    → status_of_json (status_json (record { message = m; version = v; service = s }))
      ≡ some (record { message = m; version = v; service = s })
unfolding status_of_json
status_fields String.[] String.[] String.[] = refl
status_fields String.[] String.[] (String.◌∷◌ e s) = refl
status_fields String.[] (String.◌∷◌ d v) String.[] = refl
status_fields String.[] (String.◌∷◌ d v) (String.◌∷◌ e s) = refl
status_fields (String.◌∷◌ c m) String.[] String.[] = refl
status_fields (String.◌∷◌ c m) String.[] (String.◌∷◌ e s) = refl
status_fields (String.◌∷◌ c m) (String.◌∷◌ d v) String.[] = refl
status_fields (String.◌∷◌ c m) (String.◌∷◌ d v) (String.◌∷◌ e s) = refl

pub status_of_json-status_json : (s : StatusResponse) → status_of_json (status_json s) ≡ some s
status_of_json-status_json s = status_fields s.message s.version s.service

health_fields :
    (v s : String) (fs : List String)
    → strings (str_items fs) ≡ some fs
    → health_of_json (health_json (record { version = v; service = s; failures = fs }))
      ≡ some (record { version = v; service = s; failures = fs })
unfolding health_of_json
health_fields String.[] String.[] fs e = rw e
health_fields String.[] (String.◌∷◌ d s) fs e = rw e
health_fields (String.◌∷◌ c v) String.[] fs e = rw e
health_fields (String.◌∷◌ c v) (String.◌∷◌ d s) fs e = rw e

pub health_of_json-health_json : (h : HealthResponse) → health_of_json (health_json h) ≡ some h
health_of_json-health_json h =
    health_fields h.version h.service h.failures (strings-str_items h.failures)

pub balance_of_json-balance_json : (b : BalanceResponse) → balance_of_json (balance_json b) ≡ some b
unfolding balance_of_json
balance_of_json-balance_json b = refl

error_field :
    (e : String) → error_of_json (json_error (record { error = e })) ≡ some (record { error = e })
unfolding error_of_json
error_field String.[] = refl
error_field (String.◌∷◌ c e) = refl

pub error_of_json-json_error : (e : JsonError) → error_of_json (json_error e) ≡ some e
error_of_json-json_error e = error_field e.error

-- A document of `/health` has no member "error", so it reads as an error with an empty text.
health_no_error :
    (v s : String) (fs : List String)
    → error_of_json (health_json (record { version = v; service = s; failures = fs }))
      ≡ some (record { error = "" })
unfolding error_of_json
health_no_error String.[] String.[] fs = refl
health_no_error String.[] (String.◌∷◌ d s) fs = refl
health_no_error (String.◌∷◌ c v) String.[] fs = refl
health_no_error (String.◌∷◌ c v) (String.◌∷◌ d s) fs = refl

pub error_of_json-health_json :
    (h : HealthResponse) → error_of_json (health_json h) ≡ some (record { error = "" })
error_of_json-health_json h = health_no_error h.version h.service h.failures

-- go-ethereum writes a transaction as an object that it reads back.
abbrev pub TxReadBack : (E : Ethereum) → E.Transaction → Type 0
TxReadBack E t = (fs : Fields) × (E.tx_json t ≡ ok (obj fs)) × (E.tx_of_json (obj fs) ≡ ok t)

-- It writes a receipt, and reads back what it writes.
abbrev pub ReceiptReadBack : (E : Ethereum) → E.Receipt → Type 0
ReceiptReadBack E r = (j : Json) × (E.receipt_json r ≡ ok j) × (receipt_of_json E j ≡ some r)

-- So it does with a value that is given without an error.
abbrev pub GivenBack : {A : Type 0} → (A → Type 0) → Option A → Option String → Type 0
GivenBack P (some a) none = P a
GivenBack P _ _ = Unit

tx_fields :
    (E : Ethereum) (t : E.Transaction) (fs : Fields) (id : String) (p : Bool)
    → E.tx_of_json (obj fs) ≡ ok t
    → tx_response_of_json E
        (obj (field "tx" (obj fs) (nonempty_field "txid" id (true_field "is_pending" p end))))
      ≡ some (record { tx = some t; txid = id; is_pending = p })
unfolding tx_response_of_json
tx_fields E t fs String.[] false e = rw e
tx_fields E t fs String.[] true e = rw e
tx_fields E t fs (String.◌∷◌ c id) false e = rw e
tx_fields E t fs (String.◌∷◌ c id) true e = rw e

pub no_tx_fields :
    (E : Ethereum) (id : String) (p : Bool)
    → tx_response_of_json E (obj (nonempty_field "txid" id (true_field "is_pending" p end)))
      ≡ some (record { tx = none; txid = id; is_pending = p })
unfolding tx_response_of_json
no_tx_fields E String.[] false = refl
no_tx_fields E String.[] true = refl
no_tx_fields E (String.◌∷◌ c id) false = refl
no_tx_fields E (String.◌∷◌ c id) true = refl

-- A response without a transaction is read back, and one with a transaction that is.
pub tx_response_of_json-tx_response_json :
    (E : Ethereum) (x : Option E.Transaction) (id : String) (p : Bool)
    → GivenBack (TxReadBack E) x none
    → (j : Json) × (tx_response_json E (record { tx = x; txid = id; is_pending = p }) ≡ ok j)
      × (tx_response_of_json E j ≡ some (record { tx = x; txid = id; is_pending = p }))
unfolding tx_response_json
tx_response_of_json-tx_response_json E none id p back = (_, refl, no_tx_fields E id p)
tx_response_of_json-tx_response_json E (some t) id p (fs, written, read) =
    (_, rw (tx_response_json, written) refl, tx_fields E t fs id p read)
