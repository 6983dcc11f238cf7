-- ===== src/Keys.antt =====
-- keys: `Sign`, and the records that it is tested with. The hash and the signature of go-ethereum's
-- `crypto` are parameters.
pub mod Record
pub mod Data
pub mod Pairs
use eth_proxy.Prelude.{String, Result}

-- `crypto.Keccak256Hash(…).Bytes()` and `crypto.Sign`.
pub record Crypto : Type 1 where
  pub PrivateKey : Type 0
  pub Digest : Type 0
  pub Bytes : Type 0
  pub keccak256_hash : String → Digest
  pub sign : Digest → PrivateKey → Result Bytes

unfoldable pub sign : (C : Crypto) → C.PrivateKey → String → Result C.Bytes
sign C priv_key msg = C.sign (C.keccak256_hash msg) priv_key
