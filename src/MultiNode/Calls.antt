-- ===== src/MultiNode/Calls.antt =====
-- Sequences of calls: each leaves the same nodes in the list, in some order.
use eth_proxy.Prelude.{ℕ, ◌≡◌, String, Option, none, some, Bool, false}
use mathlib.Core.List.Perm
use eth_proxy.Ethereum.{Ethereum}
use eth_proxy.MultiNode.{
  MultiNodeClient, balance_at, block_number, transaction_by_hash, transaction_receipt,
  send_transaction,
}
use eth_proxy.Prelude.Int.{ℤ}
use eth_proxy.MultiNode.Reorder.{Reordered, multi_call-Reordered, block_number-nodes}

module _ {E : Ethereum} {W : Type 0} where
  -- One call of a method that returns.
  pub data Call (m m' : MultiNodeClient E W) : Type 0 where
    asks_balance :
        (a : E.Address) (n : Option ℤ) (r : Option ℤ × Option String)
        → balance_at a n m ≡ some (r, m')
        → Call m m'
    asks_block : (r : ℕ × Option String) → block_number m ≡ some (r, m') → Call m m'
    asks_tx :
        (h : E.Hash) (r : (Option E.Transaction × Bool) × Option String)
        → transaction_by_hash h m ≡ some (r, m')
        → Call m m'
    asks_receipt :
        (h : E.Hash) (r : Option E.Receipt × Option String)
        → transaction_receipt h m ≡ some (r, m')
        → Call m m'
    sends :
        (tx : E.Transaction) (r : Unit {0} × Option String)
        → send_transaction tx m ≡ some (r, m')
        → Call m m'

  pub Call-Reordered : {m m' : MultiNodeClient E W} → Call m m' → Reordered m' m
  Call-Reordered {m} {m'} (asks_balance a n r e) =
      multi_call-Reordered (λ c. c.balance_at a n) none m m' r (unfold balance_at in e)
  Call-Reordered {m} {m'} (asks_block r e) = rw (block_number-nodes m m' r e) (Perm.refl _)
  Call-Reordered {m} {m'} (asks_tx h r e) =
      multi_call-Reordered (λ c. c.transaction_by_hash h) (none, false) m m' r
        (unfold transaction_by_hash in e)
  Call-Reordered {m} {m'} (asks_receipt h r e) =
      multi_call-Reordered (λ c. c.transaction_receipt h) none m m' r
        (unfold transaction_receipt in e)
  Call-Reordered {m} {m'} (sends tx r e) =
      multi_call-Reordered (λ c. c.send_transaction tx) tt m m' r (unfold send_transaction in e)

  -- Any number of calls, one after the other.
  pub data Calls (m : MultiNodeClient E W) : MultiNodeClient E W → Type 0 where
    start : Calls m m
    then_call : {m' m'' : MultiNodeClient E W} → Calls m m' → Call m' m'' → Calls m m''

  pub Calls-Reordered : {m m' : MultiNodeClient E W} → Calls m m' → Reordered m' m
  Calls-Reordered start = Perm.refl _
  Calls-Reordered (then_call cs c) = Perm.trans (Call-Reordered c) (Calls-Reordered cs)
