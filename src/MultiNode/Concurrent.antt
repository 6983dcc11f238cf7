-- ===== src/MultiNode/Concurrent.antt =====
-- proxy/eth_client.go: calls that run at the same time. What a call does under the lock is one step: a
-- node is read and called under the reading lock, and `increaseNodePriority` takes the writing lock.
-- Between two steps of a call, other calls may reorder the list.
pub mod Alone
pub mod Nodes
pub mod Safety
pub mod Progress
pub mod Missed
use eth_proxy.Prelude.{
  ℕ, suc, ◌+◌, ◌≡◌, Bool, true, false, String, ◌^^◌, List, [], ◌∷◌, ◌++◌, Option, none, some, Run,
  pure, in_range, ◌>>=◌, ◌>>◌, length, get_elem?, set, ltb,
}
use eth_proxy.Prelude.Int.{ℤ}
use eth_proxy.Ethereum.{Ethereum, SimpleEthClient}
use eth_proxy.MultiNode.{
  Item, MultiNodeClient, node_at, on_world, increase_node_priority, node_error, tip_report, verdict,
}

-- The methods that call one node after the other.
pub data Job (E : Ethereum) : Type 0 where
  balance_job : E.Address → Option ℤ → Job E
  tx_job : E.Hash → Job E
  receipt_job : E.Hash → Job E
  send_job : E.Transaction → Job E

abbrev pub Answer : {E : Ethereum} → Job E → Type 0
Answer (balance_job account number) = Option ℤ
Answer {E} (tx_job hash) = Option E.Transaction × Bool
Answer {E} (receipt_job hash) = Option E.Receipt
Answer (send_job tx) = Unit {0}

abbrev pub zero_of : {E : Ethereum} (j : Job E) → Answer j
zero_of (balance_job account number) = none
zero_of (tx_job hash) = (none, false)
zero_of (receipt_job hash) = none
zero_of (send_job tx) = tt

-- Where a call stands: in its loop, with the variable `i` and the named results; before
-- `increaseNodePriority`; at its end. `asking` and `reported` are those of `BlockNumber`.
pub data Thread (E : Ethereum) : Type 0 where
  looping : (j : Job E) → ℕ → Answer j × Option String → Thread E
  raising : (j : Job E) → ℕ → String → Answer j → Thread E
  finished : (j : Job E) → Answer j × Option String → Thread E
  asking : ℕ → List ℕ → String → Thread E
  reported : ℕ × Option String → Thread E

abbrev pub is_done : {E : Ethereum} → Thread E → Bool
is_done (finished j r) = true
is_done (reported r) = true
is_done _ = false

-- The calls, and the client that they share.
pub record System (E : Ethereum) (W : Type 0) : Type 0 where
  pub threads : List (Thread E)
  pub client : MultiNodeClient E W

module _ {E : Ethereum} {W : Type 0} where
  abbrev pub call_of : (j : Job E) → SimpleEthClient E W → Run W (Answer j × Option String)
  call_of (balance_job account number) c = c.balance_at account number
  call_of (tx_job hash) c = c.transaction_by_hash hash
  call_of (receipt_job hash) c = c.transaction_receipt hash
  call_of (send_job tx) c = c.send_transaction tx

  abbrev call_node : (j : Job E) → ℕ → Run (MultiNodeClient E W) (Thread E)
  call_node j i = do
    node ← node_at i
    (a, e) ← on_world (call_of j node.client)
    elim e [ none ↦ pure (raising j i node.id a) | some m ↦ pure (looping j (i + 1) (a, some m)) ]

  abbrev ask_node : ℕ → List ℕ → String → Run (MultiNodeClient E W) (Thread E)
  ask_node i heights err_str = do
    node ← node_at i
    (b, e) ← on_world node.client.block_number
    elim e [
      | some m ↦ pure (asking (i + 1) heights (err_str ^^ (node_error i m ^^ "|")))
      | none ↦ do
        report ← in_range (tip_report i (heights ++ b ∷ []))
        pure (asking (i + 1) (heights ++ b ∷ []) (err_str ^^ report))
    ]

  unfoldable pub step : Thread E → Run (MultiNodeClient E W) (Thread E)
  unfolding increase_node_priority tip_report verdict
  step (looping j i last) m = elim (ltb i (length m.nodes)) [
    | true ↦ call_node j i m
    | false ↦ some (finished j last, m)
  ]
  step (raising j i id a) m = (increase_node_priority i id >>= λ _. pure (finished j (a, none))) m
  step (asking i heights err_str) m = elim (ltb i (length m.nodes)) [
    | true ↦ ask_node i heights err_str m
    | false ↦ (verdict (heights, err_str) >>= λ r. pure (reported r)) m
  ]
  step (finished j r) m = some (finished j r, m)
  step (reported r) m = some (reported r, m)

  -- One step of a call that has not ended.
  pub data Step (s : System E W) : System E W → Type 0 where
    by_thread :
        (k : ℕ) (t t' : Thread E) (m' : MultiNodeClient E W)
        → get_elem? s.threads k ≡ some t
        → is_done t ≡ false
        → step t s.client ≡ some (t', m')
        → Step s (record { threads = set s.threads k t'; client = m' })

  -- A number of steps, of whichever calls.
  pub data Steps (s : System E W) : ℕ → System E W → Type 0 where
    no_step : Steps s 0 s
    then_step : {n : ℕ} {s' s'' : System E W} → Steps s n s' → Step s' s'' → Steps s (suc n) s''

-- A call at its start.
pub data Started {E : Ethereum} : Thread E → Type 0 where
  job_started : (j : Job E) → Started (looping j 0 (zero_of j, none))
  block_number_started : Started (asking 0 [] "")
