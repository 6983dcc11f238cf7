-- ===== src/Api/Unbarred.antt =====
-- `/health` over a client whose errors end in no bar, as a single node's do.
use eth_proxy.Prelude.{
  ℕ, ◌≡◌, ap, ◌∙◌, String, List, [], ◌∷◌, Option, none, some, ok, ◌>>=◌, drop_last,
}
use eth_proxy.Prelude.Text.{Lacks, split-of_Lacks}
use eth_proxy.Ethereum.{Ethereum, SimpleEthClient}
use eth_proxy.Service.Constants.{service_name}
use eth_proxy.Http.{conn_writer}
use eth_proxy.Http.Delivery.{success, deliver-fresh, fresh, json_header}
use eth_proxy.Api.{Params, health_failures, health_json}
use eth_proxy.Api.Answers.{to_health, answer, serve, serve-answer}

health_failures_unbarred : (e : String) → Lacks b'|' e → health_failures (some e) ≡ []
unfolding health_failures
health_failures_unbarred e h = ap drop_last (split-of_Lacks b'|' e h)

module _ {S : Type 0} {E : Ethereum} (client : SimpleEthClient E S) (version : String) where
  unbarred_answer :
      (p : Params) (s s' : S) (b : ℕ) (e : String)
      → client.block_number s ≡ some ((b, some e), s')
      → health_failures (some e) ≡ []
      → answer client version to_health p s
        ≡ some (
          success 200 (
              ok (
                health_json (record { version = version; service = service_name; failures = [] }))),
          s',
        )
  unbarred_answer p s s' b e failed none_read = unfold answer in rw (failed, ◌>>=◌) (rw none_read)

  -- Where a client fails with an error that holds no bar, `/health` sends status 200 and no failure, on a
  -- connection that takes it.
  pub health_unbarred :
      (p : Params) (faults : List (Option String)) (s s' : S) (b : ℕ) (e : String)
      → client.block_number s ≡ some ((b, some e), s')
      → Lacks b'|' e
      → serve client version to_health p (fresh (none ∷ faults)) s
        ≡ some (
          record {
            header = json_header;
            sent = some (200, json_header);
            body =
                health_json (record { version = version; service = service_name; failures = [] })
                ∷ [];
            faults = faults;
          },
          s',
        )
  health_unbarred p faults s s' b e failed plain =
      serve-answer client version to_health p (fresh (none ∷ faults)) s
      ∙ rw (unbarred_answer p s s' b e failed (health_failures_unbarred e plain), ◌>>=◌)
          (rw (deliver-fresh _ faults))
