-- ===== src/MultiNode/Concurrent/Missed.antt =====
-- A call that misses a node that answers, since another call has moved it.
use eth_proxy.Prelude.{
  ℕ, ◌+◌, ◌<◌, ◌≡◌, refl, String, List, [], ◌∷◌, Option, none, some, length, get_elem?, arith,
}
use eth_proxy.Ethereum.{Ethereum}
use eth_proxy.MultiNode.{Item, MultiNodeClient}
use eth_proxy.MultiNode.Priority.{increase_node_priority-bump}
use eth_proxy.MultiNode.Concurrent.{
  Job, Answer, zero_of, call_of, Thread, looping, raising, finished, step, System, by_thread, Steps,
  no_step, then_step,
}

module _ {E : Ethereum} {W : Type 0} (j : Job E) (x y : Item E W) (w : W) (a b : Answer j)
    (e : String) where
  abbrev pub system : Thread E → Thread E → List (Item E W) → System E W
  system s t nodes = record { threads = s ∷ t ∷ []; client = record { nodes = nodes; world = w } }

  step_fail :
      (i : ℕ) (last : Answer j × Option String) (m : MultiNodeClient E W)
      → i < length m.nodes
      → get_elem? m.nodes i ≡ some x
      → call_of j x.client m.world ≡ some ((a, some e), m.world)
      → step (looping j i last) m ≡ some (looping j (i + 1) (a, some e), m)
  unfolding step
  step_fail i last m below found fails = ground arith

  step_answer :
      (i : ℕ) (last : Answer j × Option String) (m : MultiNodeClient E W)
      → i < length m.nodes
      → get_elem? m.nodes i ≡ some y
      → call_of j y.client m.world ≡ some ((b, none), m.world)
      → step (looping j i last) m ≡ some (raising j i y.id b, m)
  unfolding step
  step_answer i last m below found answers = ground arith

  step_raise :
      step (raising j 1 y.id b) (record { nodes = x ∷ y ∷ []; world = w })
      ≡ some (finished j (b, none), record { nodes = y ∷ x ∷ []; world = w })
  step_raise =
      let raised = increase_node_priority-bump (x ∷ []) y [] w in unfold step in ground arith

  step_over :
      (last : Answer j × Option String)
      → step (looping j 2 last) (record { nodes = y ∷ x ∷ []; world = w })
        ≡ some (finished j last, record { nodes = y ∷ x ∷ []; world = w })
  unfolding step
  step_over last = refl

  -- Of two nodes the first fails and the second answers, in a world that their calls leave as it
  -- is. Two calls start together; the one moves the second node up while the other stands between
  -- the two, and that other then calls the failing node twice and ends in its error, though the
  -- second node would have answered.
  pub Steps-missed :
      call_of j x.client w ≡ some ((a, some e), w)
      → call_of j y.client w ≡ some ((b, none), w)
      → Steps
          (system (looping j 0 (zero_of j, none)) (looping j 0 (zero_of j, none)) (x ∷ y ∷ []))
          6
          (system (finished j (a, some e)) (finished j (b, none)) (y ∷ x ∷ []))
  Steps-missed fails answers =
      let before : MultiNodeClient E W = record { nodes = x ∷ y ∷ []; world = w } in
      let after : MultiNodeClient E W = record { nodes = y ∷ x ∷ []; world = w } in
      let first : Answer j × Option String = (zero_of j, none) in
      then_step
        (then_step
          (then_step
            (then_step
              (then_step
                (then_step no_step (
                  by_thread 1 (looping j 0 first) (looping j 1 (a, some e)) before refl refl
                    (step_fail 0 first before (omega arith) refl fails)))
                (by_thread 1 (looping j 1 (a, some e)) (raising j 1 y.id b) before refl refl
                  (step_answer 1 (a, some e) before (omega arith) refl answers)))
              (by_thread 0 (looping j 0 first) (looping j 1 (a, some e)) before refl refl
                (step_fail 0 first before (omega arith) refl fails)))
            (by_thread 1 (raising j 1 y.id b) (finished j (b, none)) after refl refl step_raise))
          (by_thread 0 (looping j 1 (a, some e)) (looping j 2 (a, some e)) after refl refl
            (step_fail 1 (a, some e) after (omega arith) refl fails)))
        (by_thread 0 (looping j 2 (a, some e)) (finished j (a, some e)) after refl refl
          (step_over (a, some e)))
