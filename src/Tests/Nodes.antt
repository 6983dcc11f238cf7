-- ===== src/Tests/Nodes.antt =====
-- Runs of `multiNodeClient`.
use eth_proxy.Prelude.{
  ◌≡◌, refl, String, List, [], ◌∷◌, Option, none, some, Result, ok, err, Run, str_eq, if◌then◌else◌,
}
use mathlib.Core.List.{Perm}
use mathlib.Core.List.Perm
use eth_proxy.Prelude.Int.{ℤ, pos}
use eth_proxy.Prelude.Text.{split}
use eth_proxy.Prelude.Decimal.{format}
use eth_proxy.Ethereum.{SimpleEthClient}
use eth_proxy.MultiNode.{MultiNodeClient, multi_call, balance_at}
use eth_proxy.MultiNode.Convergence.{Down, Up, after_calls, multi_call_converges}
use eth_proxy.MultiNode.Failover.{multi_call-Outcome, Outcome, Returns}
use eth_proxy.MultiNode.Calls.{Calls, start, then_call, asks_balance}
use eth_proxy.MultiNode.Invariant.{IsValid, Calls-IsValid}
use eth_proxy.MultiNode.New.{MapRange, new_multi_node_client, connect, made, label}
use eth_proxy.Tests.Samples.{toy, World, answering, failing, node, three}

abbrev asks : SimpleEthClient toy World → Run World (Option ℤ × Option String)
asks c = c.balance_at "0x1" none

three_return : Returns asks three.nodes
three_return = (λ w. (_, refl), (λ w. (_, refl), (λ w. (_, refl), tt)))

-- The second node answers, and moves before the first.
failover_run :
    multi_call asks none three
    ≡ some (
      (some (pos 100), none),
      record {
        nodes =
            node "1" (answering "1" 100)
            ∷ node "0" (failing "0" "EOF")
            ∷ node "2" (answering "2" 900)
            ∷ [];
        world = "1" ∷ "0" ∷ [];
      },
    )
unfolding multi_call
failover_run = refl

multi_call-Outcome_example :
    (r : Option ℤ × Option String) × (m' : MultiNodeClient toy World) × (multi_call asks none three
      ≡ some (r, m'))
    × Outcome asks (none, none) three r m'
multi_call-Outcome_example = multi_call-Outcome asks none three three_return

abbrev kept : MapRange
kept = record { order = λ errs. errs; every = Perm.refl }

-- A url that is given twice has one entry, with the error of its second failure.
abbrev refusing : String → Run World (Result (SimpleEthClient toy World))
refusing url w = some (err (if str_eq url "a" then "refused" else "timeout"), url ∷ w)

abbrev outcomes : List (Result (SimpleEthClient toy World))
outcomes = err "refused" ∷ err "timeout" ∷ err "refused" ∷ []

abbrev two : List (SimpleEthClient toy World)
two = failing "0" "EOF" ∷ answering "1" 100 ∷ []

abbrev raised : MultiNodeClient toy World
raised = record {
  nodes = node "1" (answering "1" 100) ∷ node "0" (failing "0" "EOF") ∷ [];
  world = "1" ∷ "0" ∷ [];
}

raised_by :
    balance_at "0x1" none (record { nodes = label 0 two; world = [] })
    ≡ some ((some (pos 100), none), raised)
unfolding balance_at format
raised_by = refl

one_call : Calls (record { nodes = label 0 two; world = [] }) raised
one_call = then_call start (asks_balance "0x1" none (some (pos 100), none) raised_by)

abbrev two_of : String → Run World (Result (SimpleEthClient toy World))
two_of url w = some (ok (if str_eq url "x" then failing "0" "EOF" else answering "1" 100), w)

two_made : new_multi_node_client kept "x,y" two_of [] ≡ some (ok (label 0 two), [])
unfolding new_multi_node_client split connect made format
two_made = refl

Calls-IsValid_example : IsValid raised.nodes × Perm raised.nodes (label 0 two)
Calls-IsValid_example = Calls-IsValid kept "x,y" two_of [] [] (label 0 two) raised two_made one_call

zero-Down : Down asks none (node "0" (failing "0" "EOF"))
zero-Down w = (none, "EOF", "0" ∷ w, refl)

one-Up : Up asks none (node "1" (answering "1" 100))
one-Up w = (some (pos 100), "1" ∷ w, refl)

multi_call_converges_example :
    (u : World) × (after_calls asks none 1 three
      ≡ some (
        tt,
        record {
          nodes =
              node "1" (answering "1" 100)
              ∷ node "0" (failing "0" "EOF")
              ∷ node "2" (answering "2" 900)
              ∷ [];
          world = u;
        },
      ))
multi_call_converges_example =
    multi_call_converges asks none (node "0" (failing "0" "EOF") ∷ [])
      (node "2" (answering "2" 900) ∷ []) (node "1" (answering "1" 100)) [] (zero-Down, tt) one-Up
