-- ===== src/MultiNode.antt =====
-- proxy/eth_client.go: `multiNodeClient`, one call at a time.
pub mod Priority
pub mod Failover
pub mod Convergence
pub mod Replies
pub mod Heights
pub mod Agreement
pub mod Verdicts
pub mod New
pub mod Reorder
pub mod Calls
pub mod Invariant
pub mod Kept
pub mod Concurrent
use eth_proxy.Prelude.{
  ℕ, zero, suc, ◌+◌, ◌-◌, ◌≡◌, refl, Bool, true, false, String, ◌^^◌, List, [], ◌∷◌, ◌++◌, Option,
  none, some, Run, pure, panic, in_range, ◌>>=◌, ◌>>◌, length, get_elem?, set, ltb, ◌==◌, str_eq,
  not, if◌then◌else◌,
}
use eth_proxy.Prelude.Decimal.{format}
use eth_proxy.Prelude.Int.{ℤ, pos}
use eth_proxy.Ethereum.{Ethereum, SimpleEthClient}

module _ (E : Ethereum) (W : Type 0) where
  -- A node: its label, and the client of it, which acts on the world `W` outside the process.
  pub record Item : Type 0 where
    pub id : String
    pub client : SimpleEthClient E W

  -- `multiNodeClient`, with the world that its nodes act on.
  pub record MultiNodeClient : Type 0 where
    pub nodes : List Item
    pub world : W

module _ {E : Ethereum} {W : Type 0} where
  -- `m.nodes[position]`.
  abbrev pub node_at : ℕ → Run (MultiNodeClient E W) (Item E W)
  node_at position m = in_range (get_elem? m.nodes position) m

  abbrev pub on_world : {A : Type 0} → Run W A → Run (MultiNodeClient E W) A
  on_world call m = elim (call m.world) [
    | none ↦ none
    | some (a, w) ↦ some (a, record m { world = w })
  ]

  abbrev pub put_nodes : List (Item E W) → Run (MultiNodeClient E W) (Unit {0})
  put_nodes ns m = some (tt, record m { nodes = ns })

  -- `m.nodes[position-1], m.nodes[position] = m.nodes[position], m.nodes[position-1]`.
  pub swap_up : ℕ → Item E W → Run (MultiNodeClient E W) (Unit {0})
  swap_up position current m = elim (get_elem? m.nodes (position - 1)) [
    | none ↦ none
    | some previous ↦ put_nodes (set (set m.nodes (position - 1) current) position previous) m
  ]

  -- A node that answers moves one place up, unless the list has changed at its position.
  unfoldable pub increase_node_priority : ℕ → String → Run (MultiNodeClient E W) (Unit {0})
  unfolding swap_up
  increase_node_priority position id = if position == 0 then pure tt else do
    current ← node_at position
    if not (str_eq current.id id) then pure tt else swap_up position current

  -- The loop that four methods share, from position `i` with `rounds` nodes left: call the nodes in
  -- order up to the first that answers with no error. `last` holds the named results.
  unfoldable pub try_nodes :
      {A : Type 0}
      → (SimpleEthClient E W → Run W (A × Option String))
      → ℕ
      → ℕ
      → A × Option String
      → Run (MultiNodeClient E W) (A × Option String)
  try_nodes call zero i last = pure last
  try_nodes call (suc rounds) i last = do
    node ← node_at i
    (a, e) ← on_world (call node.client)
    elim e [
      | none ↦ do increase_node_priority i node.id; pure (a, none)
      | some m ↦ try_nodes call rounds (i + 1) (a, some m)
    ]

  unfoldable pub multi_call :
      {A : Type 0}
      → (SimpleEthClient E W → Run W (A × Option String))
      → A
      → Run (MultiNodeClient E W) (A × Option String)
  unfolding try_nodes increase_node_priority
  multi_call call zero_value m = try_nodes call (length m.nodes) 0 (zero_value, none) m

-- `blockDiff` and `absDiff`: the first branch is taken where `a > b`.
abbrev pub block_diff : ℕ
block_diff = 3

unfoldable pub abs_diff : ℕ → ℕ → ℕ
abs_diff a b = if ltb b a then a - b else b - a

-- The two messages that `BlockNumber` collects, without the "|" behind them.
abbrev pub node_error : ℕ → String → String
node_error index e = "node " ^^ format index ^^ " err: " ^^ e

abbrev pub tips_differ : ℕ → ℕ → ℕ → String
tips_differ index f s =
    "nodes "
    ^^ format index
    ^^ " (height="
    ^^ format f
    ^^ ") and "
    ^^ format (index - 1)
    ^^ " (height="
    ^^ format s
    ^^ ") are reporting different chain tips"

-- What is added to `errStr` once a height has been appended: `f` and `s` are the last two heights.
pub tip_report : ℕ → List ℕ → Option String
unfolding abs_diff
tip_report index heights =
    if ltb 1 (length heights)
    then elim (get_elem? heights (length heights - 1)) [
      | none ↦ none
      | some f ↦ elim (get_elem? heights (length heights - 2)) [
        | none ↦ none
        | some s ↦ some (if ltb block_diff (abs_diff f s) then tips_differ index f s ^^ "|" else "")
      ]
    ]
    else some ""

module _ {E : Ethereum} {W : Type 0} where
  -- The loop of `BlockNumber`, from position `i` with `rounds` nodes left.
  pub ask_heights : ℕ → ℕ → List ℕ → String → Run (MultiNodeClient E W) (List ℕ × String)
  unfolding tip_report
  ask_heights zero i heights err_str = pure (heights, err_str)
  ask_heights (suc rounds) i heights err_str = do
    node ← node_at i
    (b, e) ← on_world node.client.block_number
    elim e [
      | some m ↦ ask_heights rounds (i + 1) heights (err_str ^^ (node_error i m ^^ "|"))
      | none ↦ do
        report ← in_range (tip_report i (heights ++ b ∷ []))
        ask_heights rounds (i + 1) (heights ++ b ∷ []) (err_str ^^ report)
    ]

  -- An error if a message was collected, and the first height if none was.
  pub verdict : List ℕ × String → Run (MultiNodeClient E W) (ℕ × Option String)
  verdict (heights, err_str) =
      if not (str_eq err_str "")
      then pure (0, some err_str)
      else do first ← in_range (get_elem? heights 0); pure (first, none)

  unfoldable pub block_number : Run (MultiNodeClient E W) (ℕ × Option String)
  unfolding ask_heights verdict
  block_number m = (ask_heights (length m.nodes) 0 [] "" >>= verdict) m

  unfoldable pub balance_at :
      E.Address → Option ℤ → Run (MultiNodeClient E W) (Option ℤ × Option String)
  unfolding multi_call
  balance_at account number = multi_call (λ c. c.balance_at account number) none

  unfoldable pub transaction_by_hash :
      E.Hash → Run (MultiNodeClient E W) ((Option E.Transaction × Bool) × Option String)
  unfolding multi_call
  transaction_by_hash hash = multi_call (λ c. c.transaction_by_hash hash) (none, false)

  unfoldable pub transaction_receipt :
      E.Hash → Run (MultiNodeClient E W) (Option E.Receipt × Option String)
  unfolding multi_call
  transaction_receipt hash = multi_call (λ c. c.transaction_receipt hash) none

  unfoldable pub send_transaction :
      E.Transaction → Run (MultiNodeClient E W) (Unit {0} × Option String)
  unfolding multi_call
  send_transaction tx = multi_call (λ c. c.send_transaction tx) tt

  -- `var _ SimpleEthClient = (*multiNodeClient)(nil)`: the handlers take it for a client.
  abbrev pub multi_node_client : SimpleEthClient E (MultiNodeClient E W)
  multi_node_client = record {
    block_number = block_number;
    transaction_by_hash = transaction_by_hash;
    transaction_receipt = transaction_receipt;
    send_transaction = send_transaction;
    balance_at = balance_at;
  }
