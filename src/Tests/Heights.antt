-- ===== src/Tests/Heights.antt =====
-- Runs of `BlockNumber`.
use eth_proxy.Prelude.{◌≡◌, ◌≢◌, ◌<◌, refl, ◌^^◌, List, [], ◌∷◌, none, some, arith, ◌↔◌, ◌*◌, ◌+◌}
use eth_proxy.Prelude.Text.{closed}
use eth_proxy.Prelude.Decimal.{format}
use eth_proxy.Ethereum.{SimpleEthClient}
use eth_proxy.MultiNode.{MultiNodeClient, block_number, block_diff, abs_diff}
use eth_proxy.MultiNode.Replies.{Reply, poll, messages, report}
use eth_proxy.MultiNode.Heights.{block_number-report}
use eth_proxy.MultiNode.Agreement.{Agrees, climb, top}
use eth_proxy.MultiNode.Verdicts.{
  block_number-Agrees, block_number-climb, block_number_blames_failed_node,
}
use eth_proxy.MultiNode.New.{label}
use eth_proxy.Tests.Samples.{toy, World, answering, failing, three}

-- The heights of the three nodes.
abbrev replies : List Reply
replies = (0, some "EOF") ∷ (100, none) ∷ (900, none) ∷ []

three_polled : poll three.nodes three.world ≡ some (replies, "2" ∷ "1" ∷ "0" ∷ [])
unfolding poll
three_polled = refl

has_nodes : three.nodes ≢ []
has_nodes = cc

block_number-report_example :
    block_number three ≡ some (report replies, record three { world = "2" ∷ "1" ∷ "0" ∷ [] })
block_number-report_example =
    block_number-report three replies ("2" ∷ "1" ∷ "0" ∷ []) has_nodes three_polled

report_run : report replies ≡ (
  0,
  some
      "node 0 err: EOF|nodes 2 (height=900) and 1 (height=100) are reporting different chain tips|",
)
unfolding report messages abs_diff format
report_run = refl

abbrev answers_with : List (SimpleEthClient toy World) → MultiNodeClient toy World
answers_with cs = record { nodes = label 0 cs; world = [] }

abbrev close : MultiNodeClient toy World
close = answers_with (answering "a" 100 ∷ answering "b" 101 ∷ answering "c" 104 ∷ [])

abbrev close_replies : List Reply
close_replies = (100, none) ∷ (101, none) ∷ (104, none) ∷ []

close_polled : poll close.nodes close.world ≡ some (close_replies, "c" ∷ "b" ∷ "a" ∷ [])
unfolding poll
close_polled = refl

close_nodes : close.nodes ≢ []
close_nodes = cc

block_number-Agrees_example :
    (r : Reply) × (block_number close ≡ some (r, record close { world = "c" ∷ "b" ∷ "a" ∷ [] }))
    × ((r.1 ≡ none) ↔ Agrees none close_replies)
block_number-Agrees_example =
    block_number-Agrees close close_replies ("c" ∷ "b" ∷ "a" ∷ []) close_nodes close_polled

close_told : block_number close ≡ some ((100, none), record close { world = "c" ∷ "b" ∷ "a" ∷ [] })
unfolding block_number
close_told = refl

abbrev climbing : MultiNodeClient toy World
climbing = answers_with (answering "a" 100 ∷ answering "b" 103 ∷ answering "c" 106 ∷ [])

climbing_polled :
    poll climbing.nodes climbing.world ≡ some ((100, none) ∷ climb 100 2, "c" ∷ "b" ∷ "a" ∷ [])
unfolding poll
climbing_polled = refl

climbing_nodes : climbing.nodes ≢ []
climbing_nodes = cc

block_number-climb_example :
    (block_number climbing ≡ some ((100, none), record climbing { world = "c" ∷ "b" ∷ "a" ∷ [] }))
    × (top 100 (climb 100 2) ≡ 100 + 3 * 2)
block_number-climb_example =
    block_number-climb climbing 100 2 ("c" ∷ "b" ∷ "a" ∷ []) climbing_nodes climbing_polled

abbrev split_up : MultiNodeClient toy World
split_up = answers_with (answering "a" 100 ∷ failing "b" "EOF" ∷ answering "c" 900 ∷ [])

split_up_polled :
    poll split_up.nodes split_up.world
    ≡ some ((100, none) ∷ (0, some "EOF") ∷ (900, none) ∷ [], "c" ∷ "b" ∷ "a" ∷ [])
unfolding poll
split_up_polled = refl

split_up_nodes : split_up.nodes ≢ []
split_up_nodes = cc

far_apart : block_diff < abs_diff 900 100
unfolding abs_diff
far_apart = omega arith

block_number_blames_failed_node_example :
    block_number split_up
    ≡ some (
      (
        0,
        some (
            closed "|" (
              ("node " ^^ "1" ^^ " err: " ^^ "EOF")
              ∷ ("nodes "
                  ^^ "2"
                  ^^ " (height="
                  ^^ format 900
                  ^^ ") and "
                  ^^ "1"
                  ^^ " (height="
                  ^^ format 100
                  ^^ ") are reporting different chain tips")
              ∷ [])),
      ),
      record split_up { world = "c" ∷ "b" ∷ "a" ∷ [] },
    )
block_number_blames_failed_node_example =
    block_number_blames_failed_node split_up 100 900 "EOF" ("c" ∷ "b" ∷ "a" ∷ []) split_up_nodes
      split_up_polled far_apart
