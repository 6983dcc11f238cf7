-- ===== src/Stack.antt =====
-- internal/stack/stack.go: the transactions of the simulated chain. The backend of go-ethereum is a
-- parameter: what it is asked for, and the signing of a transaction.
pub mod Payment
pub mod Record
pub mod Mock
use eth_proxy.Prelude.{
  ℕ, ◌+◌, ◌*◌, ◌/◌, ◌≡◌, Bool, String, ◌^^◌, List, [], ◌∷◌, Option, none, some, Result, ok, err,
  Run, pure, ◌>>=◌, ltb, ◌==◌, if◌then◌else◌,
}
use eth_proxy.Prelude.Decimal.{format}

-- `params.GWei`, and the gas of a transfer.
abbrev pub gwei : ℕ
gwei = 1000000000

abbrev pub gas_unit : ℕ
gas_unit = 21000

abbrev pub dummy_addr : String
dummy_addr = "0xfe3b557e8fb62b89f4916b721be55ceb828dbd73"

-- `types.DynamicFeeTx`, with the fields that are set.
pub record DynamicFeeTx : Type 0 where
  pub chain_id : ℕ
  pub nonce : ℕ
  pub gas_tip_cap : ℕ
  pub gas_fee_cap : ℕ
  pub gas : ℕ
  pub to : String
  pub value : ℕ

-- A backend over the state `S` of its chain, and its client.
pub record Backend (S Tx : Type 0) : Type 0 where
  pub base_fee : Run S (Result ℕ)
  pub chain_id : Run S (Result ℕ)
  pub pending_nonce : Run S (Result ℕ)
  pub pending_balance : Run S (Result ℕ)
  pub sign_tx : DynamicFeeTx → Result Tx
  pub send_transaction : Tx → Run S (Option String)
  pub commit : Run S (Unit {0})
  pub block_number : Run S (Result ℕ)

module _ {S Tx : Type 0} (b : Backend S Tx) where
  abbrev then_ok : {A B : Type 0} → Run S (Result A) → (A → Run S (Result B)) → Run S (Result B)
  then_ok m f = m >>= λ r. elim r [ err e ↦ pure (err e) | ok a ↦ f a ]

  -- What is paid for, and how it is signed.
  unfoldable pub make_tx : (gas_price chain_id nonce bal : ℕ) → Result Tx
  make_tx gas_price chain_id nonce bal =
      if ltb bal (gas_price * gas_unit)
      then err (
          "insufficient balance "
          ^^ format bal
          ^^ " below (gasPrice) "
          ^^ format gas_price
          ^^ " x (gasUnit) "
          ^^ format gas_unit)
      else b.sign_tx (record {
        chain_id = chain_id;
        nonce = nonce;
        gas_tip_cap = gwei;
        gas_fee_cap = gas_price;
        gas = gas_unit;
        to = dummy_addr;
        value = bal / 2;
      })

  unfoldable pub new_tx : Run S (Result Tx)
  unfolding make_tx
  new_tx = then_ok b.base_fee λ base_fee. then_ok b.chain_id λ chain_id.
      then_ok b.pending_nonce λ nonce.
        then_ok b.pending_balance λ bal. pure (make_tx (base_fee + gwei) chain_id nonce bal)

-- `EthereumStack`: the chain, and the confirmed transactions by their block.
pub record EthereumStack (S Tx : Type 0) : Type 0 where
  pub backend : S
  pub txs : List (ℕ × Tx)

abbrev pub put_tx : {Tx : Type 0} → ℕ → Tx → List (ℕ × Tx) → List (ℕ × Tx)
put_tx n tx [] = (n, tx) ∷ []
put_tx n tx ((k, t) ∷ ts) = if k == n then (n, tx) ∷ ts else (k, t) ∷ put_tx n tx ts

abbrev pub tx_at : {Tx : Type 0} → ℕ → List (ℕ × Tx) → Option Tx
tx_at n [] = none
tx_at n ((k, t) ∷ ts) = if k == n then some t else tx_at n ts

module _ {S Tx : Type 0} (b : Backend S Tx) where
  abbrev on_backend : {A : Type 0} → Run S A → Run (EthereumStack S Tx) A
  on_backend m e = elim (m e.backend) [
    | none ↦ none
    | some (a, s) ↦ some (a, record e { backend = s })
  ]

  abbrev add : ℕ → Tx → Run (EthereumStack S Tx) (Option String)
  add n tx e = some (none, record e { txs = put_tx n tx e.txs })

  unfoldable pub add_tx : Run (EthereumStack S Tx) (Option String)
  unfolding new_tx
  add_tx = do
    made ← on_backend (new_tx b)
    elim made [
      | err m ↦ pure (some m)
      | ok tx ↦ do
        failed ← on_backend (b.send_transaction tx)
        elim failed [
          | some m ↦ pure (some m)
          | none ↦ do
            _ ← on_backend b.commit
            blk ← on_backend b.block_number
            elim blk [ err m ↦ pure (some m) | ok n ↦ add n tx ]
        ]
    ]
