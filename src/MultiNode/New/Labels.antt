-- ===== src/MultiNode/New/Labels.antt =====
-- `NewMultiNodeClient`: the labels of the nodes that it makes.
use eth_proxy.Prelude.{
  ◌≡◌, ◌∙◌, sym, String, List, [], ◌∷◌, ◌++◌, some, Result, ok, err, Run, pure, >>=-eq-some,
  Option-cases, inl, inr, arith,
}
use eth_proxy.Prelude.Text.{split}
use eth_proxy.Ethereum.{Ethereum, SimpleEthClient}
use eth_proxy.MultiNode.{Item}
use eth_proxy.MultiNode.New.{
  MapRange, new_multi_node_client, connect, connect_ok, made, label, choose, made-choose, new_lem,
  put_error,
}

module _ {E : Ethereum} {W : Type 0} where
  connect-label :
      (constructor : String → Run W (Result (SimpleEthClient E W))) (urls : List String)
      (cs : List (SimpleEthClient E W)) (errs fs : List (String × String)) (nodes : List (Item E W))
      (w v : W)
      → connect constructor urls (label 0 cs) errs w ≡ some ((nodes, fs), v)
      → (ds : List (SimpleEthClient E W)) × (nodes ≡ label 0 ds)
  connect-label constructor [] cs errs fs nodes w v h = (cs, unfold connect in ground arith)
  connect-label constructor (url ∷ urls) cs errs fs nodes w v h =
      elim (Option-cases (constructor url w)) [
        | inl panics ↦ absurd (unfold connect in ground arith)
        | inr ((err e, u), failed) ↦
            connect-label constructor urls cs (put_error url e errs) fs nodes u v
              (unfold connect in ground arith)
        | inr ((ok c, u), works) ↦
            connect-label constructor urls (cs ++ c ∷ []) errs fs nodes u v
              (sym (connect_ok constructor url urls cs errs c w u works) ∙ h)
      ]

  -- The nodes of a new client are some, and labelled in their order.
  pub new_multi_node_client-label :
      (range : MapRange) (possible_urls : String)
      (constructor : String → Run W (Result (SimpleEthClient E W))) (w v : W)
      (nodes : List (Item E W))
      → new_multi_node_client range possible_urls constructor w ≡ some (ok nodes, v)
      → (c : SimpleEthClient E W) × (cs : List (SimpleEthClient E W)) × (nodes ≡ label 0 (c ∷ cs))
  new_multi_node_client-label range possible_urls constructor w v nodes h =
      let ((ns, fs), u, found, ends) =
        >>=-eq-some (connect constructor (split possible_urls b',') [] [])
          (λ found. pure (made range found)) w
          (sym (new_lem range possible_urls constructor w) ∙ h) in
      let (ds, labelled) =
        connect-label constructor (split possible_urls b',') [] [] fs ns w u found in
      let chosen : made range (ns, fs) ≡ ok nodes = ground arith in
      named ds fs (sym (made-choose range ds fs) ∙ rw (← labelled) chosen)
    where
      named :
          (ds : List (SimpleEthClient E W)) (fs : List (String × String))
          → choose range ds fs ≡ ok nodes
          → (c : SimpleEthClient E W) × (cs : List (SimpleEthClient E W)) × (nodes
              ≡ label 0 (c ∷ cs))
      named [] fs e = absurd (cc e)
      named (d ∷ ds) fs e = (d, ds, ground arith)
