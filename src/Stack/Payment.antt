-- ===== src/Stack/Payment.antt =====
-- What a transaction of the simulated chain costs, against the balance that pays for it.
use eth_proxy.Prelude.{ℕ, ◌+◌, ◌*◌, ◌/◌, ◌≤◌, ◌≡◌, ◌↔◌, arith}
use eth_proxy.Stack.{gwei, gas_unit, dummy_addr, DynamicFeeTx, Backend, make_tx}

-- The most that a transaction can take from its sender.
abbrev pub cost : DynamicFeeTx → ℕ
cost t = t.gas * t.gas_fee_cap + t.value

abbrev pub transfer : (gas_price chain_id nonce bal : ℕ) → DynamicFeeTx
transfer gas_price chain_id nonce bal = record {
  chain_id = chain_id;
  nonce = nonce;
  gas_tip_cap = gwei;
  gas_fee_cap = gas_price;
  gas = gas_unit;
  to = dummy_addr;
  value = bal / 2;
}

module _ {S Tx : Type 0} (b : Backend S Tx) where
  -- A transaction is signed once the balance pays for the gas; it moves half of the balance, so the
  -- balance pays for all of it exactly if it pays for the gas twice, or is one short of that.
  pub make_tx-cost :
      (gas_price chain_id nonce bal : ℕ)
      → gas_price * 21000 ≤ bal
      → (make_tx b gas_price chain_id nonce bal ≡ b.sign_tx (transfer gas_price chain_id nonce bal))
        × ((cost (transfer gas_price chain_id nonce bal) ≤ bal) ↔ (gas_price * 42000 ≤ bal + 1))
  make_tx-cost gas_price chain_id nonce bal paid = (unfold make_tx in ground arith, ground arith)
