-- ===== src/Network/Whole.antt =====
-- The whole program: the service that serves, over the nodes.
use eth_proxy.Prelude.{◌≡◌, refl, String, List, [], ◌∷◌, ◌++◌, map, Option, some, ◌>>=◌, All}
use mathlib.Core.List.{Perm}
use eth_proxy.Prelude.Int.{ℤ}
use eth_proxy.Ethereum.{Ethereum, SimpleEthClient}
use eth_proxy.Http.Delivery.{Reply, status_of}
use eth_proxy.Http.Logging.{Access, Line}
use eth_proxy.Api.Statuses.{Allowed, answer-Allowed}
use eth_proxy.Api.Kept.{Keeps, answer_stays}
use eth_proxy.Service.Routes.{params_of}
use eth_proxy.MultiNode.{MultiNodeClient, multi_node_client}
use eth_proxy.MultiNode.Kept.{Holds, multi_node_client-Keeps}
use eth_proxy.Network.Router.{Documented}
use eth_proxy.Network.Serving.{Running, Served}
use eth_proxy.Network.Asked.{Fits}
use eth_proxy.Network.Calls.{registered, request_for, response_to}
use eth_proxy.Network.Session.{
  Asked, serve_all, answer_all, Replaces, AllBased, Told, serve_all-answer_all,
}

-- Every reply has a status that its endpoint gives.
abbrev pub Permitted : List Asked → List Reply → Type 0
Permitted [] [] = Unit
Permitted (q ∷ qs) (a ∷ rs) = Allowed q.0 (status_of a) × Permitted qs rs
Permitted _ _ = ⊥

module _ {S : Type 0} {E : Ethereum} (I : S → Type 0) (client : SimpleEthClient E S)
    (version : String) (keeps : Keeps I client) where
  answer_all_stays :
      (qs : List Asked) (s : S)
      → I s
      → (rs : List Reply) × (t : S) × (answer_all client version qs s ≡ some (rs, t))
        × I t
        × Permitted qs rs
  unfolding answer_all
  answer_all_stays [] s h = ([], s, refl, h, tt)
  answer_all_stays ((e, v) ∷ qs) s h =
      let (a, u, given, kept) = answer_stays I client version keeps e (params_of e v) s h in
      let (rs, t, later, still, permitted) = answer_all_stays qs u kept in
      (
        a ∷ rs,
        t,
        rw (given, ◌>>=◌) (rw (later, ◌>>=◌) refl),
        still,
        (answer-Allowed client version e (params_of e v) s u a given, permitted),
      )

module _ {Entry W : Type 0} {E : Ethereum} (with_fields : Access → Entry → Entry) (base : Entry)
    (version : String) (port : ℤ) (l : Option Entry) (sv : Served Entry (MultiNodeClient E W)) where
  -- If the router does what is documented, fields that are given again replace those that were there,
  -- and there is at least one node and none panics, the service over the nodes replies to every request
  -- for an endpoint, whatever the nodes answer: with what its handler answers, under a status that the
  -- endpoint gives, and one call of the logger with the fields of that request alone: `Warn` from status
  -- 400 on, and else `Debug`, which a logger at a higher level does not write. A request for an endpoint
  -- is one whose last segment, where the route has a parameter, is a text of letters and digits that is
  -- not empty. The nodes are the same afterwards, in some order.
  pub serve_all-over_nodes :
      (qs : List Asked) (n : Running Entry (MultiNodeClient E W))
      → Documented sv.lookup
      → Replaces with_fields base
      → AllBased with_fields base n
      → All (λ q. Fits q.0 q.1) qs
      → Holds n.world.nodes n.world
      → (rs : List Reply) × (m : Running Entry (MultiNodeClient E W)) × (ls : List (Line Entry))
        × (serve_all sv
              (registered with_fields multi_node_client version port l)
              (map (λ q. request_for q.0 q.1) qs)
              n
            ≡ some (map response_to rs, m))
        × (answer_all multi_node_client version qs n.world ≡ some (rs, m.world))
        × Permitted qs rs
        × (m.lines ≡ n.lines ++ ls)
        × Told with_fields base qs rs ls
        × Perm m.world.nodes n.world.nodes
  serve_all-over_nodes qs n documented replaces based fits holds =
      let nodes = n.world.nodes in
      let (rs, t, given, held, permitted) =
        answer_all_stays (Holds nodes) multi_node_client version (multi_node_client-Keeps nodes) qs
          n.world holds in
      let (m, ls, served, world, logged, told, _) =
        serve_all-answer_all with_fields base multi_node_client version port l sv qs n rs t
          documented replaces based fits given in
      (rs, m, ls, served, rw world given, permitted, logged, told, rw world held.same)
