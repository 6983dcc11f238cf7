-- ===== src/Stack/Mock/Chains.antt =====
-- `NewEthBackend`: the chain that it opens, and its account.
use eth_proxy.Prelude.{
  ◌≡◌, ◌∙◌, inl, inr, refl, String, List, [], ◌∷◌, ap, ℕ, Option, some, Result, ok, err, pure,
  ◌>>=◌, >>=-eq-some, Option-cases, arith,
}
use eth_proxy.Ethereum.{Ethereum}
use eth_proxy.Http.{conn_writer}
use eth_proxy.Stack.Mock.{
  Simulation, BlockchainBackend, new_eth_backend, one_ether, Eoa, open_chain, open_or_fail,
  with_bank, create_eoa, simulated_chain_id, sim_test_backend,
}

module _ {E : Ethereum} {W : Type 0} (sim : Simulation E W) where
  -- The chains that are open, by go-ethereum's `simulated`: a new backend opens one, `Close` returns and
  -- closes the one that it is called on, and nothing else that is called opens or closes any.
  pub record Tracks (chains_of : W → List sim.Sim) : Type 0 where
    pub generate_key :
        (w u : W) (r : Result sim.PrivateKey)
        → sim.generate_key w ≡ some (r, u)
        → chains_of u ≡ chains_of w
    pub discard_logs : (w u : W) → sim.discard_logs w ≡ some (tt, u) → chains_of u ≡ chains_of w
    pub new_backend :
        (alloc : List (E.Address × ℕ)) (w u : W) (s : sim.Sim)
        → sim.new_backend alloc w ≡ some (s, u)
        → chains_of u ≡ s ∷ chains_of w
    pub close :
        (w : W) (s : sim.Sim) (others : List sim.Sim)
        → chains_of w ≡ s ∷ others
        → (e : Option String) × (u : W) × (sim.close s w ≡ some (e, u)) × (chains_of u ≡ others)

  module _ (chains_of : W → List sim.Sim) (tracks : Tracks chains_of) where
    create_eoa-open :
        (w u : W) (r : Result (Eoa sim))
        → create_eoa sim w ≡ some (r, u)
        → chains_of u ≡ chains_of w
    create_eoa-open w u r h = elim (Option-cases (sim.generate_key w)) [
      | inl panics ↦ absurd (unfold create_eoa in ground arith)
      | inr ((err e, v), given) ↦
          let same : v ≡ u = unfold create_eoa in ground arith in
          rw (← same) (tracks.generate_key w v (err e) given)
      | inr ((ok k, v), given) ↦
          let same : v ≡ u = unfold create_eoa in ground arith in
          rw (← same) (tracks.generate_key w v (ok k) given)
    ]

    -- What `NewEthBackend` leaves open besides what was open: the chain that it returns.
    abbrev pub opened_chain : Result (BlockchainBackend sim) → List sim.Sim → List sim.Sim
    opened_chain (err e) chains = chains
    opened_chain (ok bk) chains = bk.backend ∷ chains

    open_chain-open :
        (made : Result (Eoa sim)) (w u : W) (r : Result (BlockchainBackend sim))
        → open_or_fail sim made w ≡ some (r, u)
        → chains_of u ≡ opened_chain r (chains_of w)
    unfolding open_chain
    open_chain-open (err e) w u r h =
        let failed : err e ≡ r = ground arith in
        let same : w ≡ u = ground arith in rw (← failed, ← same) refl
    open_chain-open (ok bank) w u r h =
        let make = sim_test_backend sim (sim.from bank.transact_opts) in
        let (_, v, quiet, rest) =
          >>=-eq-some sim.discard_logs (λ _. make >>= λ chain. pure (ok (with_bank sim bank chain)))
            w h in
        let (chain, x, made, ends) =
          >>=-eq-some make (λ chain. pure (ok (with_bank sim bank chain))) v rest in
        let result : ok (with_bank sim bank chain) ≡ r = ground arith in
        let same : x ≡ u = ground arith in
        rw (← result, ← same)
          (tracks.new_backend _ v x chain (unfold sim_test_backend in made)
            ∙ ap (λ cs. chain ∷ cs) (tracks.discard_logs w v quiet))

    pub new_eth_backend-open :
        (w u : W) (r : Result (BlockchainBackend sim))
        → new_eth_backend sim w ≡ some (r, u)
        → chains_of u ≡ opened_chain r (chains_of w)
    unfolding new_eth_backend
    new_eth_backend-open w u r h =
        let (made, v, given, rest) = >>=-eq-some (create_eoa sim) (open_or_fail sim) w h in
        rw (← create_eoa-open w v made given) (open_chain-open made v u r rest)

  create_eoa-signs :
      (w v : W) (bank : Eoa sim)
      → create_eoa sim w ≡ some (ok bank, v)
      → sim.new_keyed_transactor bank.private_key simulated_chain_id ≡ ok bank.transact_opts
  unfolding create_eoa
  create_eoa-signs w v bank h = ground arith

  opened :
      (bank : Eoa sim) (w w' : W) (bk : BlockchainBackend sim)
      → open_chain sim bank w ≡ some (ok bk, w')
      → (v : W) × (sim.new_backend ((sim.from bank.transact_opts, one_ether) ∷ []) v
          ≡ some (bk.backend, w'))
        × (bank ≡ bk.bank_account)
  unfolding open_chain
  opened bank w w' bk h =
      let make = sim_test_backend sim (sim.from bank.transact_opts) in
      let (_, v, quiet, rest) =
        >>=-eq-some sim.discard_logs (λ _. make >>= λ chain. pure (ok (with_bank sim bank chain))) w
          h in
      let (chain, u, made, ends) =
        >>=-eq-some make (λ chain. pure (ok (with_bank sim bank chain))) v rest in
      let same : chain ≡ bk.backend = ground arith in
      let world : u ≡ w' = ground arith in
      (v, unfold sim_test_backend in rw (← same, ← world) made, ground arith)

  opened_by :
      (made : Result (Eoa sim)) (v w' : W) (bk : BlockchainBackend sim)
      → open_or_fail sim made v ≡ some (ok bk, w')
      → (bank : Eoa sim) × (made ≡ ok bank) × (open_chain sim bank v ≡ some (ok bk, w'))
  opened_by (err e) v w' bk h = absurd (cc h)
  opened_by (ok bank) v w' bk h = (bank, refl, h)

  -- A chain that is made has one account, the bank's, with an ether, and the bank signs for the chain's
  -- id.
  pub new_eth_backend-bank :
      (w w' : W) (bk : BlockchainBackend sim)
      → new_eth_backend sim w ≡ some (ok bk, w')
      → (v : W) × (sim.new_backend ((sim.from bk.bank_account.transact_opts, one_ether) ∷ []) v
          ≡ some (bk.backend, w'))
        × (sim.new_keyed_transactor bk.bank_account.private_key simulated_chain_id
            ≡ ok bk.bank_account.transact_opts)
  unfolding new_eth_backend
  new_eth_backend-bank w w' bk h =
      let (made, v, given, rest) = >>=-eq-some (create_eoa sim) (open_or_fail sim) w h in
      let (bank, made_it, opens) = opened_by made v w' bk rest in
      let (u, filled, same) = opened bank v w' bk opens in
      let signs = create_eoa-signs w v bank (rw (← made_it) given) in
      (u, rw (← same) filled, rw (← same) signs)
