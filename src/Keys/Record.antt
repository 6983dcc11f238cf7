-- ===== src/Keys/Record.antt =====
-- keys/keys.go.
use eth_proxy.Prelude.{String}

pub record KeyRecord : Type 0 where
  pub private_key : String
  pub address : String

pub record SignatureRecord : Type 0 where
  pub address : String
  pub signature : String

-- A record of the JSON, by its members in their order.
abbrev pub key : (private_key address : String) → KeyRecord
key private_key address = record { private_key = private_key; address = address }

abbrev pub sig : (address signature : String) → SignatureRecord
sig address signature = record { address = address; signature = signature }
