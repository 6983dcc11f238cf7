-- ===== src/Stack/Mock.antt =====
-- internal/stack: the simulated chain with its bank account, and `MockEthProxyService`, the service over
-- it that the tests run. The chain, the keys and the accounts of go-ethereum are parameters.
pub mod Chains
pub mod Cleanups
use eth_proxy.Prelude.{
  ℕ, String, List, [], ◌∷◌, ◌++◌, map, Option, none, some, Result, ok, err, Run, pure, ◌>>=◌, ◌>>◌,
}
use eth_proxy.Prelude.Int.{pos}
use eth_proxy.Ethereum.{Ethereum, SimpleEthClient}
use eth_proxy.Config.{Config}
use eth_proxy.Logger.{Logrus, Entry, new_logger}
use eth_proxy.Http.{Conn, conn_writer}
use eth_proxy.Http.Logging.{Access}
use eth_proxy.Service.{Service, Build, Action, new, start, stop}
use eth_proxy.Stack.{EthereumStack}

abbrev pub simulated_chain_id : ℕ
simulated_chain_id = 1337

-- `params.Ether`, in wei.
abbrev pub one_ether : ℕ
one_ether = 1000000000000000000

-- go-ethereum's `crypto`, `bind`, `log` and `simulated`: a backend is `Sim`, and its chain is a part of
-- the state `W`.
pub record Simulation (E : Ethereum) (W : Type 0) : Type 1 where
  pub PrivateKey : Type 0
  pub TransactOpts : Type 0
  pub Sim : Type 0
  pub generate_key : Run W (Result PrivateKey)
  pub new_keyed_transactor : PrivateKey → (chain_id : ℕ) → Result TransactOpts
  pub from : TransactOpts → E.Address
  pub discard_logs : Run W (Unit {0})
  pub new_backend : (alloc : List (E.Address × ℕ)) → Run W Sim
  pub client : Sim → SimpleEthClient E W
  pub close : Sim → Run W (Option String)

module _ {E : Ethereum} {W : Type 0} (sim : Simulation E W) where
  pub record Eoa : Type 0 where
    pub transact_opts : sim.TransactOpts
    pub private_key : sim.PrivateKey

  pub record BlockchainBackend : Type 0 where
    pub backend : sim.Sim
    pub bank_account : Eoa

  unfoldable pub create_eoa : Run W (Result Eoa)
  create_eoa = do
    made ← sim.generate_key
    elim made [
      | err e ↦ pure (err e)
      | ok priv ↦ elim (sim.new_keyed_transactor priv simulated_chain_id) [
        | err e ↦ pure (err e)
        | ok opts ↦ pure (ok (record { transact_opts = opts; private_key = priv }))
      ]
    ]

  unfoldable pub sim_test_backend : E.Address → Run W sim.Sim
  sim_test_backend test_addr = sim.new_backend ((test_addr, one_ether) ∷ [])

  abbrev pub with_bank : Eoa → sim.Sim → BlockchainBackend
  with_bank bank chain = record { backend = chain; bank_account = bank }

  unfoldable pub open_chain : Eoa → Run W (Result BlockchainBackend)
  unfolding sim_test_backend
  open_chain bank =
      sim.discard_logs
      >> (sim_test_backend (sim.from bank.transact_opts) >>= λ chain.
          pure (ok (with_bank bank chain)))

  abbrev pub open_or_fail : Result Eoa → Run W (Result BlockchainBackend)
  open_or_fail (err e) = pure (err e)
  open_or_fail (ok bank) = open_chain bank

  unfoldable pub new_eth_backend : Run W (Result BlockchainBackend)
  unfolding create_eoa open_chain
  new_eth_backend = create_eoa >>= open_or_fail

  module _ (logrus : Logrus) (with_fields : Access → Entry logrus.Level → Entry logrus.Level)
      (build : Build) where
    abbrev pub MockService : Type 0
    MockService = Service (Entry logrus.Level) Conn W

    -- The stack, with what its service has done.
    pub record SvcStack : Type 0 where
      pub eth : EthereumStack BlockchainBackend E.Transaction
      pub service : MockService
      pub started : List Action

    -- What is done at the end of a test: by the service, or to a chain, with the error of its `Close`,
    -- which fails the test.
    pub data Ended : Type 0 where
      did : Action → Ended
      closed : Option String → Ended

    -- A function that is passed to `t.Cleanup`.
    abbrev pub Cleanup : Type 0
    Cleanup = Run W (List Ended)

    -- `t.Cleanup`: the functions are called when the test ends, the last one first.
    abbrev pub add_cleanup : Cleanup → List Cleanup → List Cleanup
    add_cleanup f t = f ∷ t

    -- A function that ends in `t.Fatal` keeps none of the others from being called.
    unfoldable pub run_cleanups : List Cleanup → Run W (List Ended)
    run_cleanups [] = pure []
    run_cleanups (f ∷ t) = do done ← f; later ← run_cleanups t; pure (done ++ later)

    abbrev pub close_backend : BlockchainBackend → Cleanup
    close_backend bk = do e ← sim.close bk.backend; pure (closed e ∷ [])

    -- `os.Kill` prints as `killed`; `shutdown_error` is the error of the shutdown.
    abbrev pub stop_service : (shutdown_error : Option String) → MockService → Cleanup
    stop_service shutdown_error svc = pure (map did (stop "killed" shutdown_error svc))

    -- `t.Fatal` ends the test with an error.
    unfoldable pub mock_eth_proxy_service :
        (shutdown_error : Option String)
        → (log_level : String) → List Cleanup
        → Run W (Result SvcStack × List Cleanup)
    unfolding new_eth_backend new_logger new start
    mock_eth_proxy_service shutdown_error log_level t = do
      made ← new_eth_backend
      elim made [
        | err e ↦ pure (err e, t)
        | ok bk ↦
            let t = add_cleanup (close_backend bk) t in
            let cfg : Config = record {
              port = pos 8080;
              log_level = log_level;
              log_format = "plain";
              urls = "";
            } in
            elim (new_logger logrus cfg.log_level cfg.log_format build.version) [
              | err e ↦ pure (err e, t)
              | ok l ↦
                  let svc =
                    new with_fields {R = Conn} cfg.port (some l) (sim.client bk.backend)
                      build.version in
                  let started = start build svc in
                  let t = add_cleanup (stop_service shutdown_error svc) t in
                  pure (
                    ok (record {
                      eth = record { backend = bk; txs = [] };
                      service = svc;
                      started = started;
                    }),
                    t,
                  )
            ]
      ]
