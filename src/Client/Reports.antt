-- ===== src/Client/Reports.antt =====
-- The client's health reports and statuses, through a proxy whose handlers answer its requests.
use eth_proxy.Prelude.{
  ℕ, ◌≡◌, refl, String, List, [], ◌∷◌, Option, none, some, ok, ltb, length, if◌then◌else◌, arith,
}
use eth_proxy.Ethereum.{Ethereum, SimpleEthClient}
use eth_proxy.Service.Constants.{service_name}
use eth_proxy.Http.Delivery.{success}
use eth_proxy.Api.{no_params, health_failures, HealthResponse, health_json}
use eth_proxy.Api.Answers.{to_status, to_health, answer}
use eth_proxy.Client.{Client, Outside, Context, Fallible, value, error, plain, status, health}
use eth_proxy.Client.Decode.{
  status_of_json, health_of_json, status_of_json-status_json, health_of_json-health_json,
  error_of_json-health_json,
}
use eth_proxy.Client.Server.{Reaches, Returns, fetch_value, fetch_error}

module _ {E : Ethereum} {S N : Type 0} (cl : SimpleEthClient E S) (version : String)
    (out : Outside N) (world_of : N → S) (c : Client) (ctx : Context) where
  health_answer :
      (s s' : S) (b : ℕ) (e : Option String)
      → cl.block_number s ≡ some ((b, e), s')
      → answer cl version to_health no_params s
        ≡ some (
          success (if ltb 0 (length (health_failures e)) then 503 else 200) (
              ok (
                health_json (record {
                  version = version;
                  service = service_name;
                  failures = health_failures e;
                }))),
          s',
        )
  unfolding answer
  health_answer s s' b e called = ground arith

  -- What the client makes of a health report: the report if it holds no failure, and an error with an
  -- empty text if it holds one.
  abbrev pub health_result : List String → Fallible HealthResponse
  health_result [] = value (record { version = version; service = service_name; failures = [] })
  health_result (f ∷ fs) = error (plain "")

  health_read :
      (n : N) (s' : S) (fs : List String)
      → ctx.ended ≡ none
      → Reaches cl version out world_of c ctx to_health "" n
      → answer cl version to_health no_params (world_of n)
        ≡ some (
          success (if ltb 0 (length fs) then 503 else 200) (
              ok (
                health_json (record { version = version; service = service_name; failures = fs }))),
          s',
        )
      → Returns cl version out world_of c ctx (health out c ctx n) (health_result fs) s'
  unfolding health
  health_read n s' [] live reach given =
      fetch_value cl version out world_of c ctx health_of_json
        (record { version = ""; service = ""; failures = [] }) to_health "" n s' _ _ live reach
        given (omega arith) (health_of_json-health_json _)
  health_read n s' (f ∷ fs) live reach given =
      fetch_error cl version out world_of c ctx health_of_json
        (record { version = ""; service = ""; failures = [] }) to_health "" n s' _ _ live reach
        given (grind arith) (grind arith)
        (error_of_json-health_json
          (record { version = version; service = service_name; failures = f ∷ fs }))

  -- If the request reaches the handler before the context ends, the client of the proxy returns the
  -- health report where it holds no failure; where it holds one, an error with an empty text.
  pub health_through_proxy :
      (n : N) (s' : S) (b : ℕ) (e : Option String)
      → ctx.ended ≡ none
      → Reaches cl version out world_of c ctx to_health "" n
      → cl.block_number (world_of n) ≡ some ((b, e), s')
      → Returns cl version out world_of c ctx
          (health out c ctx n)
          (health_result (health_failures e))
          s'
  health_through_proxy n s' b e live reach called =
      health_read n s' (health_failures e) live reach (health_answer (world_of n) s' b e called)

  -- If the request reaches the handler before the context ends, the status names the service and
  -- its version.
  pub status_through_proxy :
      (n : N)
      → ctx.ended ≡ none
      → Reaches cl version out world_of c ctx to_status "" n
      → Returns cl version out world_of c ctx
          (status out c ctx n)
          (value (record { message = "OK"; version = version; service = service_name }))
          (world_of n)
  unfolding status answer
  status_through_proxy n live reach =
      fetch_value cl version out world_of c ctx status_of_json
        (record { message = ""; version = ""; service = "" }) to_status "" n (world_of n) _ _ live
        reach refl (omega arith) (status_of_json-status_json _)
