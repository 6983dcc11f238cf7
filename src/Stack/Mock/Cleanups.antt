-- ===== src/Stack/Mock/Cleanups.antt =====
-- What a test that runs on `MockEthProxyService` has, and that it closes its chain.
use eth_proxy.Prelude.{
  ◌≡◌, ◌∙◌, ◌⊎◌, inl, inr, refl, sym, String, ◌^^◌, List, [], ◌∷◌, ◌++◌, map, ap, Option, none,
  some, Result, ok, err, Run, ◌>>=◌, Result-cases, Option-cases, arith,
}
use eth_proxy.Prelude.Int.{pos, format_int}
use eth_proxy.Ethereum.{Ethereum}
use eth_proxy.Logger.{Logrus, Entry, new_logger}
use eth_proxy.Http.{Conn, conn_writer}
use eth_proxy.Http.Logging.{Access}
use eth_proxy.Service.{Build, new, start, stop}
use eth_proxy.Service.Routes.{endpoints, table, new-table}
use eth_proxy.Stack.Mock.Chains.{Tracks, new_eth_backend-open}
use eth_proxy.Stack.Mock.{
  Simulation, BlockchainBackend, new_eth_backend, SvcStack, Cleanup, close_backend, stop_service,
  mock_eth_proxy_service, Ended, did, closed, run_cleanups,
}

module _ {E : Ethereum} {W : Type 0} (sim : Simulation E W) (logrus : Logrus)
    (with_fields : Access → Entry logrus.Level → Entry logrus.Level) (build : Build) where
  abbrev Stack : Type 0
  Stack = SvcStack sim logrus with_fields build

  abbrev Cleanups : Type 0
  Cleanups = List (Cleanup sim logrus with_fields build)

  -- The service of a stack is that of the handlers over its chain, on port 8080, and has been started.
  pub record IsServing (bk : BlockchainBackend sim) (st : Stack) : Type 0 where
    pub backend : st.eth ≡ record { backend = bk; txs = [] }
    pub addr : st.service.server.addr ≡ ":" ^^ format_int (pos 8080)
    pub handler :
        st.service.server.handler
        ≡ table with_fields (sim.client bk.backend) build.version endpoints
    pub started : st.started ≡ start build st.service

  abbrev stack_of : BlockchainBackend sim → Entry logrus.Level → Stack
  stack_of bk l =
      let svc =
        new with_fields {R = Conn} (pos 8080) (some l) (sim.client bk.backend) build.version in
      record { eth = record { backend = bk; txs = [] }; service = svc; started = start build svc }

  stack_of-IsServing :
      (bk : BlockchainBackend sim) (l : Entry logrus.Level) → IsServing bk (stack_of bk l)
  stack_of-IsServing bk l =
      let (listens, routed) =
        new-table with_fields {R = Conn} (pos 8080) (some l) (sim.client bk.backend)
          build.version in
      record { backend = refl; addr = listens; handler = routed; started = refl }

  module _ (shutdown_error : Option String) (level : String) where
    abbrev mock : Run W (Result Stack × Cleanups)
    mock = mock_eth_proxy_service sim logrus with_fields build shutdown_error level []

    abbrev closing : BlockchainBackend sim → Cleanup sim logrus with_fields build
    closing bk = close_backend sim logrus with_fields build bk

    abbrev stopping : Stack → Cleanup sim logrus with_fields build
    stopping st = stop_service sim logrus with_fields build shutdown_error st.service

    panicked : (w : W) → new_eth_backend sim w ≡ none → mock w ≡ none
    unfolding mock_eth_proxy_service
    panicked w made = rw (made, ◌>>=◌) refl

    no_backend :
        (w v : W) (e : String)
        → new_eth_backend sim w ≡ some (err e, v)
        → mock w ≡ some ((err e, []), v)
    unfolding mock_eth_proxy_service
    no_backend w v e made = rw (made, ◌>>=◌) refl

    no_logger :
        (w v : W) (bk : BlockchainBackend sim) (e : String)
        → new_eth_backend sim w ≡ some (ok bk, v)
        → new_logger logrus level "plain" build.version ≡ err e
        → mock w ≡ some ((err e, closing bk ∷ []), v)
    unfolding mock_eth_proxy_service
    no_logger w v bk e made refused = rw (made, ◌>>=◌) (rw refused refl)

    has_stack :
        (w v : W) (bk : BlockchainBackend sim) (l : Entry logrus.Level)
        → new_eth_backend sim w ≡ some (ok bk, v)
        → new_logger logrus level "plain" build.version ≡ ok l
        → mock w ≡ some ((ok (stack_of bk l), stopping (stack_of bk l) ∷ closing bk ∷ []), v)
    unfolding mock_eth_proxy_service
    has_stack w v bk l made taken = rw (made, ◌>>=◌) (rw taken refl)

    module _ (chains_of : W → List sim.Sim) (tracks : Tracks sim chains_of) where
      -- What the end of the test does, with what there was: a service is stopped before its chain is
      -- closed.
      abbrev pub Trace : Result Stack → List (Ended sim logrus with_fields build) → Type 0
      Trace (err e) trace = (trace ≡ []) ⊎ ((e' : Option String) × (trace ≡ closed e' ∷ []))
      Trace (ok st) trace =
          (bk : BlockchainBackend sim) × IsServing bk st
          × (e : Option String) × (trace
              ≡ map did (stop "killed" shutdown_error st.service) ++ closed e ∷ [])

      -- The end of a test that has left the chains as they were.
      abbrev pub Ends : W → Result Stack → Cleanups → W → Type 0
      Ends w r cs v =
          (trace : List (Ended sim logrus with_fields build)) × (w' : W) × (run_cleanups sim logrus
              with_fields build cs v
            ≡ some (trace, w'))
          × (chains_of w' ≡ chains_of w)
          × Trace r trace

      closes :
          (bk : BlockchainBackend sim) (w v : W)
          → chains_of v ≡ bk.backend ∷ chains_of w
          → (e : Option String) × (w' : W) × (run_cleanups sim logrus with_fields build
                (closing bk ∷ [])
                v
              ≡ some (closed e ∷ [], w'))
            × (chains_of w' ≡ chains_of w)
      unfolding run_cleanups
      closes bk w v chains =
          let (e, w', ended, left) = tracks.close v bk.backend (chains_of w) chains in
          (e, w', rw (ended, ◌>>=◌) refl, left)

      stops_and_closes :
          (bk : BlockchainBackend sim) (st : Stack) (w v : W)
          → IsServing bk st
          → chains_of v ≡ bk.backend ∷ chains_of w
          → Ends w (ok st) (stopping st ∷ closing bk ∷ []) v
      unfolding run_cleanups
      stops_and_closes bk st w v serving chains =
          let (e, w', ended, left) = tracks.close v bk.backend (chains_of w) chains in
          (_, w', rw (ended, ◌>>=◌) refl, left, (bk, serving, e, refl))

      agree :
          (w u v x : W) (r q : Result Stack) (cs ds : Cleanups)
          → mock w ≡ some ((r, cs), u)
          → mock w ≡ some ((q, ds), x)
          → Ends w q ds v
          → Ends w r cs v
      agree w u v x r q cs ds h k o =
          let both : ◌≡◌ {A = Option ((Result Stack × Cleanups) × W)} (some ((q, ds), x))
              (some ((r, cs), u)) =
            sym k ∙ h in
          let result : q ≡ r = ground arith in
          let cleanups : ds ≡ cs = ground arith in rw (← result, ← cleanups) o

      left_by :
          (w u x : W) (r q : Result Stack) (cs ds : Cleanups)
          → mock w ≡ some ((r, cs), u)
          → mock w ≡ some ((q, ds), x)
          → u ≡ x
      left_by w u x r q cs ds h k =
          let both : ◌≡◌ {A = Option ((Result Stack × Cleanups) × W)} (some ((q, ds), x))
              (some ((r, cs), u)) =
            sym k ∙ h in
          ground arith

      -- However `MockEthProxyService` ends, the cleanups at the end of the test return, and the chains
      -- that are then open are those that were open before it, if the test has not opened or closed
      -- any: none is left open, also when the logger refuses the level. If it takes the level, the
      -- service on port 8080, which has been started and routes every endpoint to its handler over the
      -- chain, is stopped before the chain is closed. It is taken that a new backend opens one chain,
      -- that `Close` returns and closes the one that it is called on, and that making a key and silencing
      -- the log do neither.
      pub mock-Ends :
          (w u v : W) (r : Result Stack) (cs : Cleanups)
          → mock_eth_proxy_service sim logrus with_fields build shutdown_error level [] w
            ≡ some ((r, cs), u)
          → chains_of v ≡ chains_of u
          → Ends w r cs v
      mock-Ends w u v r cs h kept = elim (Option-cases (new_eth_backend sim w)) [
        | inl made ↦ absurd (cc (panicked w made, h))
        | inr ((err e, x), given) ↦
            let k = no_backend w x e given in
            let same = left_by w u x r (err e) cs [] h k in
            let chains = new_eth_backend-open sim chains_of tracks w x (err e) given in
            agree w u v x r (err e) cs [] h k
              ([], v, unfold run_cleanups in refl, kept ∙ ap chains_of same ∙ chains, inl refl)
        | inr ((ok bk, x), given) ↦
            let chains = new_eth_backend-open sim chains_of tracks w x (ok bk) given in
            elim (Result-cases (new_logger logrus level "plain" build.version)) [
              | inl (e, refused) ↦
                  let k = no_logger w x bk e given refused in
                  let same = left_by w u x r (err e) cs _ h k in
                  let (e', w', ran, left) = closes bk w v (kept ∙ ap chains_of same ∙ chains) in
                  agree w u v x r (err e) cs _ h k (_, w', ran, left, inr (e', refl))
              | inr (l, taken) ↦
                  let k = has_stack w x bk l given taken in
                  let same = left_by w u x r (ok (stack_of bk l)) cs _ h k in
                  agree w u v x r (ok (stack_of bk l)) cs _ h k (
                    stops_and_closes bk (stack_of bk l) w v (stack_of-IsServing bk l)
                      (kept ∙ ap chains_of same ∙ chains))
            ]
      ]
