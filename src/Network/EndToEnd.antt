-- ===== src/Network/EndToEnd.antt =====
-- What the client returns, over a network that carries its requests to the service.
use eth_proxy.Prelude.{ℕ, ◌≡◌, ◌≢◌, refl, Bool, true, false, String, List, Option, none, some, ok}
use eth_proxy.Prelude.Int.{ℤ, big_string}
use eth_proxy.Ethereum.{Ethereum, SimpleEthClient, HashesAre32Bytes}
use eth_proxy.Service.Constants.{service_name}
use eth_proxy.Http.Logging.{Access}
use eth_proxy.Api.{health_failures}
use eth_proxy.Api.Answers.{to_status, to_health, to_balance, to_tx, to_tx_receipt, to_send_tx}
use eth_proxy.Client.{
  Client, Outside, Context, value, status, health, balance, transaction_by_hash,
  transaction_receipt, send_transaction,
}
use eth_proxy.Client.Decode.{TxReadBack, ReceiptReadBack, GivenBack}
use eth_proxy.Client.Server.{Returns, passed_on, balance_through_proxy}
use eth_proxy.Client.Reports.{health_result, status_through_proxy, health_through_proxy}
use eth_proxy.Client.Transactions.{
  receipt_result, tx_through_proxy, receipt_through_proxy, send_through_proxy,
}
use eth_proxy.Network.Router.{Documented}
use eth_proxy.Network.Serving.{Running, Served}
use eth_proxy.Network.Asked.{is_alphanumeric}
use eth_proxy.Network.Reach.{Carries, Carries-Reaches}

module _ {Entry S : Type 0} {E : Ethereum} (with_fields : Access → Entry → Entry)
    (cl : SimpleEthClient E S) (version : String) (port : ℤ) (l : Option Entry)
    (sv : Served Entry S) (out : Outside (Running Entry S)) (c : Client) (ctx : Context) where
  -- If the context does not end first, the network carries requests to the service, the router does
  -- what is documented, and go-ethereum prints an address in letters and digits and reads it back, the
  -- client's balance of the address is the decimal print of what the client of the node gives for it;
  -- an error of that client is passed on in its words.
  pub balance_through_service :
      (address : E.Address) (n : Running Entry S) (s' : S) (b : Option ℤ) (e : Option String)
      → ctx.ended ≡ none
      → Documented sv.lookup
      → Carries with_fields cl version port l sv out c ctx
      → E.address_hex address ≢ ""
      → is_alphanumeric (E.address_hex address) ≡ true
      → E.is_hex_address (E.address_hex address) ≡ true
      → E.hex_to_address (E.address_hex address) ≡ address
      → cl.balance_at address none n.world ≡ some ((b, e), s')
      → Returns cl version out
          (λ n. n.world)
          c
          ctx
          (balance out c ctx E address n)
          (passed_on (λ b. record { balance = big_string b }) (b, e))
          s'
  balance_through_service address n s' b e live documented carries nonempty plain hex back called =
      balance_through_proxy cl version out (λ n. n.world) c ctx address n s' b e live
        (Carries-Reaches with_fields cl version port l sv out c ctx to_balance
          (E.address_hex address) n documented carries (nonempty, plain))
        hex back called

  -- If the context does not end first, the network carries requests to the service, the router does
  -- what is documented, `common.HexToHash` gives 32 bytes, and go-ethereum prints the hash in letters and
  -- digits and reads back that print and, if the client of the node gives a transaction without an error,
  -- the print of that transaction, the client's transaction for a hash is the one that the client of the node
  -- gives, with whether it is pending; an error of that client is passed on in its words.
  pub tx_through_service :
      (hash : E.Hash) (n : Running Entry S) (s' : S) (t : Option E.Transaction) (p : Bool)
      (e : Option String)
      → ctx.ended ≡ none
      → Documented sv.lookup
      → Carries with_fields cl version port l sv out c ctx
      → E.hash_hex hash ≢ ""
      → is_alphanumeric (E.hash_hex hash) ≡ true
      → HashesAre32Bytes E
      → E.hex_to_hash (E.hash_hex hash) ≡ hash
      → GivenBack (TxReadBack E) t e
      → cl.transaction_by_hash hash n.world ≡ some (((t, p), e), s')
      → Returns cl version out
          (λ n. n.world)
          c
          ctx
          (transaction_by_hash out c ctx E hash n)
          (passed_on {A = Option E.Transaction × Bool}
            (λ x. record { tx = t; txid = E.hash_hex hash; is_pending = p })
            ((t, p), e))
          s'
  tx_through_service hash n s' t p e live documented carries nonempty plain sized back reads
        called =
      tx_through_proxy cl version out (λ n. n.world) c ctx hash n s' t p e live
        (Carries-Reaches with_fields cl version port l sv out c ctx to_tx (E.hash_hex hash) n
          documented carries (nonempty, plain))
        sized back reads called

  -- If the context does not end first, the network carries requests to the service, the router does
  -- what is documented, `common.HexToHash` gives 32 bytes, and go-ethereum prints the hash in letters and
  -- digits and reads back that print and, if the client of the node gives a receipt without an error, the
  -- print of that receipt, the client's receipt for a hash is the one that the client of the node gives;
  -- none is the error "not found", and an error of that client is passed on in its words.
  pub receipt_through_service :
      (hash : E.Hash) (n : Running Entry S) (s' : S) (r : Option E.Receipt) (e : Option String)
      → ctx.ended ≡ none
      → Documented sv.lookup
      → Carries with_fields cl version port l sv out c ctx
      → E.hash_hex hash ≢ ""
      → is_alphanumeric (E.hash_hex hash) ≡ true
      → HashesAre32Bytes E
      → E.hex_to_hash (E.hash_hex hash) ≡ hash
      → GivenBack (ReceiptReadBack E) r e
      → cl.transaction_receipt hash n.world ≡ some ((r, e), s')
      → Returns cl version out
          (λ n. n.world)
          c
          ctx
          (transaction_receipt out c ctx E hash n)
          (receipt_result cl version out (λ n. n.world) c ctx r e)
          s'
  receipt_through_service hash n s' r e live documented carries nonempty plain sized back reads
        called =
      receipt_through_proxy cl version out (λ n. n.world) c ctx hash n s' r e live
        (Carries-Reaches with_fields cl version port l sv out c ctx to_tx_receipt (E.hash_hex hash)
          n documented carries (nonempty, plain))
        sized back reads called

  -- If the context does not end first, the network carries requests to the service, and the router does
  -- what is documented, a transaction whose bytes go-ethereum prints in letters and digits, and reads
  -- back, is sent by the client of the node, and the client returns its hash; an error of the client of
  -- the node is passed on in its words.
  pub send_through_service :
      (t : E.Transaction) (n : Running Entry S) (s' : S) (bytes : List ℕ) (e : Option String)
      → ctx.ended ≡ none
      → Documented sv.lookup
      → Carries with_fields cl version port l sv out c ctx
      → E.hex_encode bytes ≢ ""
      → is_alphanumeric (E.hex_encode bytes) ≡ true
      → E.marshal_binary t ≡ ok bytes
      → E.hex_decode (E.hex_encode bytes) ≡ ok bytes
      → E.unmarshal_binary bytes ≡ ok t
      → cl.send_transaction t n.world ≡ some ((tt, e), s')
      → Returns cl version out
          (λ n. n.world)
          c
          ctx
          (send_transaction out c ctx E t n)
          (passed_on {A = Unit {0}}
            (λ _. record { tx = none; txid = E.hash_hex (E.tx_hash t); is_pending = false })
            (tt, e))
          s'
  send_through_service t n s' bytes e live documented carries nonempty plain marshalled decoded
        parsed called =
      send_through_proxy cl version out (λ n. n.world) c ctx t n s' bytes e live
        (Carries-Reaches with_fields cl version port l sv out c ctx to_send_tx (E.hex_encode bytes)
          n documented carries (nonempty, plain))
        marshalled decoded parsed called

  -- If the context does not end first, the network carries requests to the service, and the router does
  -- what is documented, the client returns the service's health report where it holds no failure; where
  -- it holds one, an error with an empty text.
  pub health_through_service :
      (n : Running Entry S) (s' : S) (b : ℕ) (e : Option String)
      → ctx.ended ≡ none
      → Documented sv.lookup
      → Carries with_fields cl version port l sv out c ctx
      → cl.block_number n.world ≡ some ((b, e), s')
      → Returns cl version out
          (λ n. n.world)
          c
          ctx
          (health out c ctx n)
          (health_result cl version out (λ n. n.world) c ctx (health_failures e))
          s'
  health_through_service n s' b e live documented carries called =
      health_through_proxy cl version out (λ n. n.world) c ctx n s' b e live
        (Carries-Reaches with_fields cl version port l sv out c ctx to_health "" n documented
          carries refl)
        called

  -- If the context does not end first, the network carries requests to the service, and the router does
  -- what is documented, the client's status names the service and its version.
  pub status_through_service :
      (n : Running Entry S)
      → ctx.ended ≡ none
      → Documented sv.lookup
      → Carries with_fields cl version port l sv out c ctx
      → Returns cl version out
          (λ n. n.world)
          c
          ctx
          (status out c ctx n)
          (value (record { message = "OK"; version = version; service = service_name }))
          n.world
  status_through_service n live documented carries =
      status_through_proxy cl version out (λ n. n.world) c ctx n live
        (Carries-Reaches with_fields cl version port l sv out c ctx to_status "" n documented
          carries refl)
