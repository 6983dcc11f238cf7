-- ===== src/MultiNode/Concurrent/Nodes.antt =====
-- What holds of every node stays so while calls are mixed: here, that its client does not panic.
use eth_proxy.Prelude.{
  ℕ, zero, suc, ◌≡◌, inl, inr, String, Option, none, some, pure, ◌>>=◌, get_elem?, set, arith,
  Option-cases, >>=-eq-some, Bool-cases, All, str_eq,
}
use eth_proxy.Prelude.Positions.{All_at, All-set}
use eth_proxy.Ethereum.{Ethereum, SimpleEthClient}
use eth_proxy.MultiNode.{Item, MultiNodeClient, increase_node_priority, swap_up}
use eth_proxy.MultiNode.Concurrent.{
  Job, Answer, call_of, Thread, looping, raising, finished, asking, reported, step, System,
  by_thread, Steps, no_step, then_step,
}

module _ {E : Ethereum} {W : Type 0} where
  -- No method of a client panics.
  pub record Returning (c : SimpleEthClient E W) : Type 0 where
    pub calls :
        (j : Job E) (w : W) → (r : (Answer j × Option String) × W) × (call_of j c w ≡ some r)
    pub block_number : (w : W) → (r : (ℕ × Option String) × W) × (c.block_number w ≡ some r)

  abbrev pub AllReturn : MultiNodeClient E W → Type 0
  AllReturn m = All (λ x. Returning x.client) m.nodes

  -- A step leaves in the list what holds of every node.
  increase-All :
      (P : Item E W → Type 0) (i : ℕ) (id : String) (m m' : MultiNodeClient E W) (t : Unit {0})
      → increase_node_priority i id m ≡ some (t, m')
      → All P m.nodes
      → All P m'.nodes
  increase-All P zero id m m' t done h =
      let same : m'.nodes ≡ m.nodes = unfold increase_node_priority in ground arith in rw same h
  increase-All P (suc n) id m m' t done h = elim (Option-cases (get_elem? m.nodes (suc n))) [
    | inl missing ↦ absurd (unfold increase_node_priority in ground arith)
    | inr (x, found) ↦ elim (Option-cases (get_elem? m.nodes n)) [
      | inl missing ↦
          let same : m'.nodes ≡ m.nodes = unfold increase_node_priority swap_up in ground arith in
          rw same h
      | inr (p, before) ↦ elim (Bool-cases (str_eq x.id id)) [
        | inl same_id ↦
            let swapped : m'.nodes ≡ set (set m.nodes n x) (suc n) p =
              unfold increase_node_priority swap_up in ground arith in
            rw swapped (
              All-set P (set m.nodes n x) (suc n) p
                (All-set P m.nodes n x h (All_at P m.nodes (suc n) x h found))
                (All_at P m.nodes n p h before))
        | inr other ↦
            let same : m'.nodes ≡ m.nodes = unfold increase_node_priority in ground arith in
            rw same h
      ]
    ]
  ]

  step-All :
      (P : Item E W → Type 0) (t t' : Thread E) (m m' : MultiNodeClient E W)
      → step t m ≡ some (t', m')
      → All P m.nodes
      → All P m'.nodes
  step-All P (raising j i id a) t' m m' e h =
      let whole : (increase_node_priority i id >>= λ _. pure (finished j (a, none))) m
          ≡ some (t', m') =
        unfold step in e in
      let (u, m'', raised, ends) =
        >>=-eq-some (increase_node_priority i id) (λ _. pure (finished j (a, none))) m whole in
      let same : m'' ≡ m' = ground arith in rw (← same) (increase-All P i id m m'' u raised h)
  step-All P (finished j r) t' m m' e h =
      let same : m'.nodes ≡ m.nodes = unfold step in ground arith in rw same h
  step-All P (reported r) t' m m' e h =
      let same : m'.nodes ≡ m.nodes = unfold step in ground arith in rw same h
  step-All P (looping j i last) t' m m' e h =
      let same : m'.nodes ≡ m.nodes = unfold step in ground arith in rw same h
  step-All P (asking i hs err_str) t' m m' e h =
      let same : m'.nodes ≡ m.nodes = unfold step in ground arith in rw same h

  pub Steps-AllReturn :
      (s s' : System E W) (n : ℕ) → AllReturn s.client → Steps s n s' → AllReturn s'.client
  Steps-AllReturn s s' zero h no_step = h
  Steps-AllReturn s s'' (suc n) h (then_step {s'} steps (by_thread k t t' m' found busy e)) =
      step-All (λ x. Returning x.client) t t' s'.client m' e (Steps-AllReturn s s' n h steps)
