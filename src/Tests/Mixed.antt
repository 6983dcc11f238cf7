-- ===== src/Tests/Mixed.antt =====
-- Runs of calls that are mixed.
use eth_proxy.Prelude.{◌+◌, ◌≤◌, ◌≡◌, ◌≢◌, refl, false, String, [], ◌∷◌, Option, none, some, length}
use mathlib.Core.List.{Perm}
use eth_proxy.Prelude.Decimal.{format}
use eth_proxy.Prelude.Int.{ℤ, pos}
use eth_proxy.Ethereum.{SimpleEthClient}
use eth_proxy.MultiNode.{Item, MultiNodeClient}
use eth_proxy.MultiNode.Concurrent.{
  Job, balance_job, tx_job, receipt_job, send_job, Answer, call_of, Thread, looping, finished,
  asking, step, System, Steps, no_step, then_step, by_thread, job_started, block_number_started,
}
use eth_proxy.MultiNode.Concurrent.Alone.{alone, alone-Outcome}
use eth_proxy.MultiNode.Failover.{Outcome}
use eth_proxy.MultiNode.Concurrent.Nodes.{AllReturn, Returning}
use eth_proxy.MultiNode.Concurrent.Safety.{Steps-never_panics}
use eth_proxy.MultiNode.Concurrent.Progress.{total_left, Steps-total_left}
use eth_proxy.MultiNode.Concurrent.Missed.{system, Steps-missed}
use eth_proxy.Tests.Samples.{toy, World, node, three}

abbrev job : Job toy
job = balance_job "0x1" none

alone-Outcome_example :
    (r : Option ℤ × Option String) × (m' : MultiNodeClient toy World) × (alone
        (length three.nodes + 2)
        (looping job 0 (none, none))
        three
      ≡ some (finished job r, m'))
    × Outcome (call_of job) (none, none) three r m'
alone-Outcome_example =
    alone-Outcome job three (λ w. (_, refl), (λ w. (_, refl), (λ w. (_, refl), tt)))

-- Nodes that have no memory: one is down, and one is up.
abbrev quiet : Option String → SimpleEthClient toy World
quiet e = record {
  block_number = λ w. some ((100, e), w);
  transaction_by_hash = λ h w. some (((none, false), e), w);
  transaction_receipt = λ h w. some ((none, e), w);
  send_transaction = λ t w. some ((tt, e), w);
  balance_at = λ a n w. some ((some (pos 100), e), w);
}

abbrev down : Item toy World
down = node "0" (quiet (some "EOF"))

abbrev up : Item toy World
up = node "1" (quiet none)

Steps-missed_example :
    Steps
      (system job down up []
        (some (pos 100))
        (some (pos 100))
        "EOF"
        (looping job 0 (none, none))
        (looping job 0 (none, none))
        (down ∷ up ∷ []))
      6
      (system job down up []
        (some (pos 100))
        (some (pos 100))
        "EOF"
        (finished job (some (pos 100), some "EOF"))
        (finished job (some (pos 100), none))
        (up ∷ down ∷ []))
Steps-missed_example = Steps-missed job down up [] (some (pos 100)) (some (pos 100)) "EOF" refl refl

-- A call of `BalanceAt` and one of `BlockNumber`, of which the second has made a step.
abbrev before : System toy World
before = record {
  threads = looping job 0 (none, none) ∷ asking 0 [] "" ∷ [];
  client = record { nodes = down ∷ up ∷ []; world = [] };
}

abbrev after : System toy World
after = record before { threads = looping job 0 (none, none) ∷ asking 1 [] "node 0 err: EOF|" ∷ [] }

asked : step (asking 0 [] "") before.client ≡ some (asking 1 [] "node 0 err: EOF|", before.client)
unfolding step format
asked = refl

one_step : Steps before 1 after
one_step =
    then_step no_step
      (by_thread 1 (asking 0 [] "") (asking 1 [] "node 0 err: EOF|") before.client refl refl asked)

Steps-total_left_example :
    (length after.client.nodes ≡ length before.client.nodes)
    × (1 + total_left (length before.client.nodes) after.threads
        ≤ total_left (length before.client.nodes) before.threads)
Steps-total_left_example = Steps-total_left before after 1 one_step

quiet_calls :
    (e : Option String) (j : Job toy) (w : World)
    → (r : (Answer j × Option String) × World) × (call_of j (quiet e) w ≡ some r)
quiet_calls e (balance_job a n) w = (_, refl)
quiet_calls e (tx_job h) w = (_, refl)
quiet_calls e (receipt_job h) w = (_, refl)
quiet_calls e (send_job t) w = (_, refl)

quiet_returns : (e : Option String) → Returning (quiet e)
quiet_returns e = record { calls = quiet_calls e; block_number = λ w. (_, refl) }

both_return : AllReturn before.client
both_return = (quiet_returns (some "EOF"), (quiet_returns none, tt))

two_nodes : before.client.nodes ≢ []
two_nodes = cc

Steps-never_panics_example :
    Perm after.client.nodes before.client.nodes
    × ((r : Thread toy × MultiNodeClient toy World) × (step
            (asking 1 [] "node 0 err: EOF|")
            after.client
          ≡ some r))
Steps-never_panics_example =
    Steps-never_panics before after 1 1 (asking 1 [] "node 0 err: EOF|") two_nodes both_return
      (job_started job, (block_number_started, tt)) one_step refl
