-- ===== src/Network/Program.antt =====
-- The program from its start on: what `main` serves answers requests.
use eth_proxy.Prelude.{ℕ, ◌+◌, ◌≡◌, inl, refl, List, [], ◌∷◌, map, some, Result, ok, All}
use eth_proxy.Prelude.Text.{split}
use mathlib.Core.List.Perm
use eth_proxy.Ethereum.{Ethereum, SimpleEthClient}
use eth_proxy.Config.{sanitize, Config}
use eth_proxy.Logger.{Entry, new_logger}
use eth_proxy.Http.{Conn, conn_writer}
use eth_proxy.Http.Delivery.{Reply}
use eth_proxy.Main.{
  Surroundings, served, main, main_made, made_service, parse_yaml_config, config_file_path,
  zero_config, env_prefix,
}
use eth_proxy.MultiNode.{MultiNodeClient, multi_node_client}
use eth_proxy.MultiNode.New.{dial, connected, label}
use eth_proxy.MultiNode.Kept.{Holds}
use eth_proxy.MultiNode.Concurrent.Nodes.{Returning}
use eth_proxy.Service.{Service, Action, new}
use eth_proxy.Network.Router.{Documented}
use eth_proxy.Network.Serving.{Running, Served}
use eth_proxy.Network.Asked.{Fits}
use eth_proxy.Network.Calls.{request_for, response_to}
use eth_proxy.Network.Session.{Asked, serve_all, answer_all, Replaces, Told}
use eth_proxy.Network.Whole.{Permitted, serve_all-over_nodes}

label-Returning :
    {E : Ethereum} {W : Type 0} (n : ℕ) (cs : List (SimpleEthClient E W))
    → All Returning cs
    → All (λ x. Returning x.client) (label n cs)
label-Returning n [] h = tt
label-Returning n (c ∷ cs) (returning, h) = (returning, label-Returning (n + 1) cs h)

module _ {E : Ethereum} {W : Type 0} (o : Surroundings E W) where
  -- A service as it begins to serve: every handle has the service's logger.
  abbrev pub serving :
      Service (Entry o.logrus.Level) Conn (MultiNodeClient E W)
      → MultiNodeClient E W
      → Running (Entry o.logrus.Level) (MultiNodeClient E W)
  serving srv m = record { entry_at = λ i. srv.server.logger; lines = []; world = m }

  made_service-logger :
      (c : Config) (l : Entry o.logrus.Level) → (made_service o c l).server.logger ≡ some l
  unfolding new
  made_service-logger c l = refl

  -- If the configuration can be read, the logger takes its level and format, at least one node can be
  -- connected to and none of those panics, the router does what is documented, and fields of a line that
  -- are given again replace those that were there, the program comes to serve, and its service replies
  -- to every request for an endpoint, whatever the nodes answer: with what the handler answers, under a
  -- status that the endpoint gives. For each it calls the logger once, with the fields of that request
  -- alone: `Warn` from status 400 on, and else `Debug`, which a logger at a higher level does not write.
  -- A request for an endpoint is one whose last segment, where the route has a parameter, is a text of
  -- letters and digits that is not empty.
  pub main-serve_all :
      (sv : Served (Entry o.logrus.Level) (MultiNodeClient E W)) (qs : List Asked) (c : Config)
      (l : Entry o.logrus.Level) (w v : W) (rs : List (Result (SimpleEthClient E W)))
      (k : SimpleEthClient E W) (ks : List (SimpleEthClient E W))
      → parse_yaml_config o.parsers (config_file_path o.flag) zero_config env_prefix ≡ ok c
      → new_logger o.logrus (sanitize c).log_level (sanitize c).log_format o.build.version ≡ ok l
      → dial o.new_eth_client (split (sanitize c).urls b',') w ≡ some (rs, v)
      → connected rs ≡ k ∷ ks
      → All Returning (k ∷ ks)
      → Documented sv.lookup
      → Replaces o.with_fields l
      → All (λ q. Fits q.0 q.1) qs
      → (srv : Service (Entry o.logrus.Level) Conn (MultiNodeClient E W))
        × (client : MultiNodeClient E W) × (actions : List Action) × (replies : List Reply)
        × (m : Running (Entry o.logrus.Level) (MultiNodeClient E W)) × (main o w
            ≡ some (served srv client actions, v))
        × (serve_all sv srv.server.handler (map (λ q. request_for q.0 q.1) qs) (serving srv client)
            ≡ some (map response_to replies, m))
        × (answer_all multi_node_client o.build.version qs client ≡ some (replies, m.world))
        × Permitted qs replies
        × Told o.with_fields l qs replies m.lines
  main-serve_all sv qs c l w v rs k ks parsed logs dialled found returning documented replaces
        fits =
      let nodes = label 0 (k ∷ ks) in
      let client : MultiNodeClient E W = record { nodes = nodes; world = v } in
      let srv = made_service o c l in
      let holds : Holds nodes client = record {
        same = Perm.refl nodes;
        some_node = cc;
        returning = label-Returning 0 (k ∷ ks) returning;
      } in
      let (replies, m, ls, answered, given, permitted, logged, told, _) =
        serve_all-over_nodes o.with_fields l o.build.version (sanitize c).port (some l) sv qs
          (serving srv client) documented replaces (λ i. inl (made_service-logger c l)) fits
          holds in
      (
        srv,
        client,
        _,
        replies,
        m,
        main_made o c l w v rs k ks parsed logs dialled found,
        answered,
        given,
        permitted,
        rw logged told,
      )
