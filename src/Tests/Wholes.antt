-- ===== src/Tests/Wholes.antt =====
-- A run of the service over three nodes, of which one is down.
use eth_proxy.Prelude.{◌≡◌, refl, List, [], ◌∷◌, ◌++◌, map, Option, none, some, All, inl}
use mathlib.Core.List.{Perm}
use mathlib.Core.List.Perm
use eth_proxy.Prelude.Int.{pos}
use eth_proxy.Http.Delivery.{Reply}
use eth_proxy.Http.Logging.{Access, Line}
use eth_proxy.Api.Answers.{to_health, to_balance}
use eth_proxy.Client.{other}
use eth_proxy.MultiNode.{MultiNodeClient, multi_node_client}
use eth_proxy.MultiNode.Kept.{Holds}
use eth_proxy.Network.Router.{first_match, first_match-Documented}
use eth_proxy.Network.Serving.{Running, Served}
use eth_proxy.Network.Asked.{Fits, is_alphanumeric}
use eth_proxy.Network.Calls.{registered, request_for, response_to}
use eth_proxy.Network.Session.{Asked, serve_all, answer_all, Told}
use eth_proxy.Network.Whole.{Permitted, serve_all-over_nodes}
use eth_proxy.Tests.Samples.{toy, World, three, answering_returns, failing_returns}

abbrev with_last : Access → Option Access → Option Access
with_last a entry = some a

abbrev served : Served (Option Access) (MultiNodeClient toy World)
served = record { lookup = first_match; prometheus = λ n. (200, other); elapsed = λ req n. 7 }

abbrev start : Running (Option Access) (MultiNodeClient toy World)
start = record { entry_at = λ i. some none; lines = []; world = three }

three_hold : Holds three.nodes three
three_hold = record {
  same = Perm.refl _;
  some_node = cc;
  returning =
      (failing_returns "0" "EOF", (answering_returns "1" 100, (answering_returns "2" 900, tt)));
}

abbrev asked : List Asked
asked = (to_health, "") ∷ (to_balance, "0x1") ∷ []

fit : All (λ q. Fits q.0 q.1) asked
unfolding is_alphanumeric
fit = (refl, ((cc, refl), tt))

serve_all-over_nodes_example :
    (rs : List Reply) × (m : Running (Option Access) (MultiNodeClient toy World)) × (ls : List
      (Line (Option Access)))
    × (serve_all served
          (registered with_last multi_node_client "0.1.0" (pos 8080) (some none))
          (map (λ q. request_for q.0 q.1) asked)
          start
        ≡ some (map response_to rs, m))
    × (answer_all multi_node_client "0.1.0" asked three ≡ some (rs, m.world))
    × Permitted asked rs
    × (m.lines ≡ [] ++ ls)
    × Told with_last none asked rs ls
    × Perm m.world.nodes three.nodes
serve_all-over_nodes_example =
    serve_all-over_nodes with_last none "0.1.0" (pos 8080) (some none) served asked start
      first_match-Documented (λ a b e. refl) (λ i. inl refl) fit three_hold
