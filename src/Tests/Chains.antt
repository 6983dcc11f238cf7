-- ===== src/Tests/Chains.antt =====
-- Runs of the simulated chain: its state is the number of its last block.
use eth_proxy.Prelude.{ℕ, suc, ◌+◌, ◌*◌, ◌≤◌, ◌≡◌, ◌↔◌, refl, [], ◌∷◌, none, some, ok, arith}
use eth_proxy.Stack.{DynamicFeeTx, Backend, make_tx, EthereumStack, add_tx}
use eth_proxy.Stack.Payment.{cost, transfer, make_tx-cost}
use eth_proxy.Stack.Record.{Recorded, add_tx-Recorded}

abbrev chain : ℕ → Backend ℕ DynamicFeeTx
chain bal = record {
  base_fee = λ n. some (ok 1000000000, n);
  chain_id = λ n. some (ok 1337, n);
  pending_nonce = λ n. some (ok n, n);
  pending_balance = λ n. some (ok bal, n);
  sign_tx = λ t. ok t;
  send_transaction = λ t n. some (none, n);
  commit = λ n. some (tt, suc n);
  block_number = λ n. some (ok n, n);
}

make_tx-cost_example :
    (make_tx (chain 1000000) 20 1337 0 1000000 ≡ ok (transfer 20 1337 0 1000000))
    × ((cost (transfer 20 1337 0 1000000) ≤ 1000000) ↔ (20 * 42000 ≤ 1000000 + 1))
make_tx-cost_example = make_tx-cost (chain 1000000) 20 1337 0 1000000 (omega arith)

abbrev empty : EthereumStack ℕ DynamicFeeTx
empty = record { backend = 0; txs = [] }

abbrev one_tx : EthereumStack ℕ DynamicFeeTx
one_tx = record { backend = 1; txs = (1, transfer 2000000000 1337 0 1000000000000000000) ∷ [] }

added : add_tx (chain 1000000000000000000) empty ≡ some (none, one_tx)
unfolding add_tx
added = refl

add_tx-Recorded_example : Recorded (chain 1000000000000000000) empty none one_tx
add_tx-Recorded_example = add_tx-Recorded (chain 1000000000000000000) empty one_tx none added
