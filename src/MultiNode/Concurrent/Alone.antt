-- ===== src/MultiNode/Concurrent/Alone.antt =====
-- A call whose steps are not mixed with those of others is the method of MultiNode.antt.
use eth_proxy.Prelude.{
  ℕ, zero, suc, ◌+◌, ◌≡◌, refl, ap, sym, ◌∙◌, String, Option, none, some, Run, pure, ◌>>=◌, length,
  get_elem?, arith, Option-cases, inl, inr,
}
use eth_proxy.Ethereum.{Ethereum}
use eth_proxy.MultiNode.{MultiNodeClient, increase_node_priority, try_nodes, multi_call}
use eth_proxy.MultiNode.Failover.{multi_call-try_nodes, multi_call-Outcome, Outcome, Returns}
use eth_proxy.MultiNode.Concurrent.{
  Job, Answer, zero_of, call_of, Thread, looping, raising, finished, step,
}

module _ {E : Ethereum} {W : Type 0} where
  -- A number of steps of one call, with none of another between them.
  unfoldable pub alone : ℕ → Thread E → Run (MultiNodeClient E W) (Thread E)
  unfolding step
  alone zero t = pure t
  alone (suc n) t = step t >>= alone n

  alone_idle :
      (n : ℕ) (j : Job E) (r : Answer j × Option String) (m : MultiNodeClient E W)
      → alone n (finished j r) m ≡ some (finished j r, m)
  unfolding alone
  alone_idle zero j r m = refl
  alone_idle (suc n) j r m = alone_idle n j r m

  alone-step :
      (n : ℕ) (t t' : Thread E) (m m' : MultiNodeClient E W)
      → step t m ≡ some (t', m')
      → alone (suc n) t m ≡ alone n t' m'
  unfolding alone
  alone-step n t t' m m' e = rw (e, ◌>>=◌)

  alone_stuck :
      (n : ℕ) (t : Thread E) (m : MultiNodeClient E W) → step t m ≡ none → alone (suc n) t m ≡ none
  unfolding alone
  alone_stuck n t m e = rw (e, ◌>>=◌)

  module _ (j : Job E) where
    -- What a call that ends without a panic ends as.
    abbrev pub end_as :
        Run (MultiNodeClient E W) (Answer j × Option String) → Run (MultiNodeClient E W) (Thread E)
    end_as m = m >>= λ r. pure (finished j r)

    try_end :
        (i : ℕ) (last : Answer j × Option String) (m : MultiNodeClient E W)
        → end_as (try_nodes (call_of j) 0 i last) m ≡ some (finished j last, m)
    unfolding try_nodes
    try_end i last m = refl

    step_end :
        (i : ℕ) (last : Answer j × Option String) (m : MultiNodeClient E W)
        → i + 0 ≡ length m.nodes
        → step (looping j i last) m ≡ some (finished j last, m)
    unfolding step
    step_end i last m at = ground arith

    alone_raise :
        (n i : ℕ) (id : String) (a : Answer j) (m : MultiNodeClient E W)
        → alone (suc n) (raising j i id a) m
          ≡ (increase_node_priority i id >>= λ _. pure (finished j (a, none))) m
    alone_raise n i id a m = elim (Option-cases (increase_node_priority i id m)) [
      | inl stuck ↦
          alone_stuck n (raising j i id a) m (unfold step in ground arith)
          ∙ sym (rw (stuck, ◌>>=◌) refl)
      | inr ((_, m'), done) ↦
          alone-step n (raising j i id a) (finished j (a, none)) m m' (unfold step in ground arith)
          ∙ alone_idle n j (a, none) m'
          ∙ sym (rw (done, ◌>>=◌) refl)
    ]

    -- One round, with what the later rounds give.
    alone_round :
        (rounds i : ℕ) (last : Answer j × Option String) (m : MultiNodeClient E W)
        → i + suc rounds ≡ length m.nodes
        → ((last' : Answer j × Option String) (w : W)
            → alone (suc (suc rounds)) (looping j (i + 1) last') (record m { world = w })
              ≡ end_as (try_nodes (call_of j) rounds (i + 1) last') (record m { world = w }))
        → alone (suc (suc (suc rounds))) (looping j i last) m
          ≡ end_as (try_nodes (call_of j) (suc rounds) i last) m
    alone_round rounds i last m at later = elim (Option-cases (get_elem? m.nodes i)) [
      | inl missing ↦
          alone_stuck _ (looping j i last) m (unfold step in ground arith)
          ∙ sym (unfold try_nodes in ground arith)
      | inr (x, found) ↦ elim (Option-cases (call_of j x.client m.world)) [
        | inl panics ↦
            alone_stuck _ (looping j i last) m (unfold step in ground arith)
            ∙ sym (unfold try_nodes in ground arith)
        | inr (((a, some e), w), failed) ↦
            alone-step _ (looping j i last) (looping j (i + 1) (a, some e)) m
              (record m { world = w }) (unfold step in ground arith)
            ∙ later (a, some e) w
            ∙ sym (unfold try_nodes in ground arith)
        | inr (((a, none), w), answered) ↦
            alone-step _ (looping j i last) (raising j i x.id a) m (record m { world = w })
              (unfold step in ground arith)
            ∙ alone_raise (suc rounds) i x.id a (record m { world = w })
            ∙ sym (unfold try_nodes in ground arith)
      ]
    ]

    alone-try_nodes :
        (rounds i : ℕ) (last : Answer j × Option String) (m : MultiNodeClient E W)
        → i + rounds ≡ length m.nodes
        → alone (suc (suc rounds)) (looping j i last) m
          ≡ end_as (try_nodes (call_of j) rounds i last) m
    alone-try_nodes zero i last m at =
        alone-step 1 (looping j i last) (finished j last) m m (step_end i last m at)
        ∙ alone_idle 1 j last m
        ∙ sym (try_end i last m)
    alone-try_nodes (suc rounds) i last m at =
        alone_round rounds i last m at
          λ last' w. alone-try_nodes rounds (i + 1) last' (record m { world = w }) (omega arith)

    -- The steps of one call, with none of another between them, give what the method gives, a panic
    -- included; two steps more than there are nodes are enough.
    alone-multi_call :
        (m : MultiNodeClient E W)
        → alone (length m.nodes + 2) (looping j 0 (zero_of j, none)) m
          ≡ end_as (multi_call (call_of j) (zero_of j)) m
    alone-multi_call m =
        let fuel : length m.nodes + 2 ≡ suc (suc (length m.nodes)) = omega arith in
        let same : end_as (multi_call (call_of j) (zero_of j)) m
            ≡ end_as (try_nodes (call_of j) (length m.nodes) 0 (zero_of j, none)) m =
          ap ended (multi_call-try_nodes (call_of j) (zero_of j) m) in
        rw (fuel, same) (alone-try_nodes (length m.nodes) 0 (zero_of j, none) m (omega arith))
      where
        ended :
            Option ((Answer j × Option String) × MultiNodeClient E W)
            → Option (Thread E × MultiNodeClient E W)
        ended r = elim r [ none ↦ none | some (a, m') ↦ some (finished j a, m') ]

  -- If no node's client panics, the steps of one call, with none of another between them, come to its
  -- end within two steps more than there are nodes, and do one of the two things that `Outcome` names:
  -- the nodes are called in order up to the first that answers without an error, whose answer the call
  -- ends with, and which moves one place up; if there is none, it ends with the last node's answer and
  -- error, and the list stays as it is.
  pub alone-Outcome :
      (j : Job E) (m : MultiNodeClient E W)
      → Returns (call_of j) m.nodes
      → (r : Answer j × Option String) × (m' : MultiNodeClient E W) × (alone
            (length m.nodes + 2)
            (looping j 0 (zero_of j, none))
            m
          ≡ some (finished j r, m'))
        × Outcome (call_of j) (zero_of j, none) m r m'
  alone-Outcome j m returns =
      let (r, m', called, outcome) = multi_call-Outcome (call_of j) (zero_of j) m returns in
      (r, m', alone-multi_call j m ∙ rw (called, ◌>>=◌) refl, outcome)
