-- ===== src/Ethereum.antt =====
-- What the program uses of go-ethereum (`common`, `hexutil`, `core/types`): parameters.
use eth_proxy.Prelude.{Bool, ℕ, String, List, Option, Result, Run, ◌≡◌, length}
use eth_proxy.Prelude.Int.{ℤ}
use eth_proxy.Json.{Json}

pub record Ethereum : Type 1 where
  pub Address : Type 0
  pub Hash : Type 0
  pub Transaction : Type 0
  pub Receipt : Type 0
  -- `common.IsHexAddress`, `common.HexToAddress`, `Address.Hex`
  pub is_hex_address : String → Bool
  pub hex_to_address : String → Address
  pub address_hex : Address → String
  -- `common.HexToHash`, `Hash.Bytes`, `Hash.Hex`
  pub hex_to_hash : String → Hash
  pub hash_bytes : Hash → List ℕ
  pub hash_hex : Hash → String
  -- `hexutil.Decode`, and `fmt.Sprintf("0x%x", bytes)`, which it reads back
  pub hex_decode : String → Result (List ℕ)
  pub hex_encode : List ℕ → String
  -- `Transaction.UnmarshalBinary`, `MarshalBinary`, `Hash`
  pub unmarshal_binary : List ℕ → Result Transaction
  pub marshal_binary : Transaction → Result (List ℕ)
  pub tx_hash : Transaction → Hash
  -- `MarshalJSON` and `UnmarshalJSON` of a transaction and of a receipt
  pub tx_json : Transaction → Result Json
  pub receipt_json : Receipt → Result Json
  pub tx_of_json : Json → Result Transaction
  pub receipt_of_json : Json → Result Receipt
  -- `types.Receipt{}`
  pub empty_receipt : Receipt

-- A `common.Hash` is an array of 32 bytes.
abbrev pub HashesAre32Bytes : Ethereum → Type 0
HashesAre32Bytes E = (h : E.Hash) → length (E.hash_bytes h) ≡ 32

-- proxy/eth_client.go: `SimpleEthClient`. A method changes the state `S` behind the client; a nil
-- error is `none`. The context of a call sets a deadline, whose effect is part of what `S` decides.
pub record SimpleEthClient (E : Ethereum) (S : Type 0) : Type 0 where
  pub block_number : Run S (ℕ × Option String)
  pub transaction_by_hash : E.Hash → Run S ((Option E.Transaction × Bool) × Option String)
  pub transaction_receipt : E.Hash → Run S (Option E.Receipt × Option String)
  pub send_transaction : E.Transaction → Run S (Unit {0} × Option String)
  pub balance_at : E.Address → Option ℤ → Run S (Option ℤ × Option String)
