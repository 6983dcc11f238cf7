-- ===== src/Tests/Samples.antt =====
-- A small chain and small nodes, for the tests: addresses and hashes are their own texts, there is one
-- transaction, and a node writes its name into the world whenever it is called.
use eth_proxy.Prelude.{
  ℕ, zero, suc, ◌≡◌, Option, if◌then◌else◌, refl, false, not, String, List, [], ◌∷◌, none, some,
  Result, ok, err, str_eq,
}
use eth_proxy.Prelude.Int.{pos}
use eth_proxy.Json.{Json, obj, str, field, end}
use eth_proxy.Ethereum.{Ethereum, SimpleEthClient, HashesAre32Bytes}
use eth_proxy.Client.Decode.{TxReadBack}
use eth_proxy.MultiNode.{Item, MultiNodeClient}
use eth_proxy.MultiNode.Concurrent.{
  Job, Answer, call_of, balance_job, tx_job, receipt_job, send_job,
}
use eth_proxy.MultiNode.Concurrent.Nodes.{Returning}

abbrev zeros : ℕ → List ℕ
zeros zero = []
zeros (suc n) = 0 ∷ zeros n

pub data Transfer : Type 0 where
  transfer : Transfer

abbrev one_tx_of_json : Json → Result Transfer
one_tx_of_json (obj _) = ok transfer
one_tx_of_json _ = err "not an object"

abbrev one_unmarshal : List ℕ → Result Transfer
one_unmarshal (_ ∷ []) = ok transfer
one_unmarshal _ = err "rlp: not a transaction"

abbrev one_decode : String → Result (List ℕ)
one_decode s = if str_eq s "0x01" then ok (1 ∷ []) else err "hex string without 0x prefix"

abbrev pub toy : Ethereum
toy = record {
  Address = String;
  Hash = String;
  Transaction = Transfer;
  Receipt = String;
  is_hex_address = λ a. not (str_eq a "?");
  hex_to_address = λ a. a;
  address_hex = λ a. a;
  hex_to_hash = λ h. h;
  hash_bytes = λ h. zeros 32;
  hash_hex = λ h. h;
  hex_decode = one_decode;
  hex_encode = λ b. "0x01";
  unmarshal_binary = one_unmarshal;
  marshal_binary = λ t. ok (1 ∷ []);
  tx_hash = λ t. "0xabc";
  tx_json = λ t. ok (obj (field "to" (str "0x1") end));
  receipt_json = λ r. ok (str r);
  tx_of_json = one_tx_of_json;
  receipt_of_json = λ j. elim j [ str r ↦ ok r | _ ↦ err "not a receipt" ];
  empty_receipt = "";
}

pub toy_hashes : HashesAre32Bytes toy
toy_hashes h = refl

pub toy_tx : TxReadBack toy transfer
toy_tx = (field "to" (str "0x1") end, refl, refl)

abbrev pub World : Type 0
World = List String

-- A node that answers with no error, and one that fails.
abbrev pub answering : String → ℕ → SimpleEthClient toy World
answering id height = record {
  block_number = λ w. some ((height, none), id ∷ w);
  transaction_by_hash = λ h w. some (((some transfer, false), none), id ∷ w);
  transaction_receipt = λ h w. some ((none, none), id ∷ w);
  send_transaction = λ t w. some ((tt, none), id ∷ w);
  balance_at = λ a n w. some ((some (pos height), none), id ∷ w);
}

abbrev pub failing : String → String → SimpleEthClient toy World
failing id e = record {
  block_number = λ w. some ((0, some e), id ∷ w);
  transaction_by_hash = λ h w. some (((none, false), some e), id ∷ w);
  transaction_receipt = λ h w. some ((none, some e), id ∷ w);
  send_transaction = λ t w. some ((tt, some e), id ∷ w);
  balance_at = λ a n w. some ((none, some e), id ∷ w);
}

answering_calls :
    (id : String) (x : ℕ) (j : Job toy) (w : World)
    → (r : (Answer j × Option String) × World) × (call_of j (answering id x) w ≡ some r)
answering_calls id x (balance_job a n) w = (_, refl)
answering_calls id x (tx_job h) w = (_, refl)
answering_calls id x (receipt_job h) w = (_, refl)
answering_calls id x (send_job t) w = (_, refl)

pub answering_returns : (id : String) (x : ℕ) → Returning (answering id x)
answering_returns id x = record { calls = answering_calls id x; block_number = λ w. (_, refl) }

failing_calls :
    (id : String) (x : String) (j : Job toy) (w : World)
    → (r : (Answer j × Option String) × World) × (call_of j (failing id x) w ≡ some r)
failing_calls id x (balance_job a n) w = (_, refl)
failing_calls id x (tx_job h) w = (_, refl)
failing_calls id x (receipt_job h) w = (_, refl)
failing_calls id x (send_job t) w = (_, refl)

pub failing_returns : (id : String) (x : String) → Returning (failing id x)
failing_returns id x = record { calls = failing_calls id x; block_number = λ w. (_, refl) }

abbrev pub node : String → SimpleEthClient toy World → Item toy World
node id c = record { id = id; client = c }

-- The first of three nodes is down, and the third is far ahead.
abbrev pub three : MultiNodeClient toy World
three = record {
  nodes =
      node "0" (failing "0" "EOF")
      ∷ node "1" (answering "1" 100)
      ∷ node "2" (answering "2" 900)
      ∷ [];
  world = [];
}
