-- ===== src/Network/Reach.antt =====
-- A client whose network carries its requests to a service that serves, and the responses back.
use eth_proxy.Prelude.{
  ◌≡◌, refl, Bool, true, ◌&&◌, ◌||◌, String, ◌^^◌, Option, some, ok, ◌==◌, arith,
}
use Prim.Native.Char.{code}
use text.Mathlib.TextLemmas.{nil-append, cons-append}
use eth_proxy.Prelude.Int.{ℤ}
use eth_proxy.Ethereum.{Ethereum, SimpleEthClient}
use eth_proxy.Http.Logging.{Access}
use eth_proxy.Api.Answers.{
  Endpoint, to_status, to_health, to_balance, to_tx, to_tx_receipt, to_send_tx,
}
use eth_proxy.Client.{Client, Outside, Context, HttpRequest}
use eth_proxy.Client.Server.{Reaches}
use eth_proxy.Service.Routes.{prefix_of}
use eth_proxy.Network.Router.{Documented}
use eth_proxy.Network.Serving.{Running, Response, Served, serve_http}
use eth_proxy.Network.Asked.{is_word_code, is_alphanumeric, Fits}
use eth_proxy.Network.Methods.{is_valid_method, method_of-valid}
use eth_proxy.Network.Calls.{registered, request_for, after_reply, serve_http-answer}

-- A path of letters, digits and slashes, which stands in a URL as it is.
unfoldable pub is_plain_path : String → Bool
is_plain_path String.[] = true
is_plain_path (String.◌∷◌ c s) = (is_word_code (code c) || (code c == b'/')) && is_plain_path s

alphanumeric_plain : (v : String) → is_alphanumeric v ≡ true → is_plain_path v ≡ true
unfolding is_plain_path is_alphanumeric
alphanumeric_plain String.[] h = refl
alphanumeric_plain (String.◌∷◌ d v) h = ground (arith, alphanumeric_plain v)

is_plain_path-append :
    (p v : String)
    → is_plain_path p ≡ true
    → is_alphanumeric v ≡ true
    → is_plain_path (p ^^ v) ≡ true
unfolding is_plain_path
is_plain_path-append String.[] v h k = rw nil-append (alphanumeric_plain v k)
is_plain_path-append (String.◌∷◌ c p) v h k =
    rw cons-append (ground (arith, is_plain_path-append p v))

alphanumeric : (e : Endpoint) (v : String) → Fits e v → is_alphanumeric v ≡ true
unfolding is_alphanumeric
alphanumeric to_status v h = rw h refl
alphanumeric to_health v h = rw h refl
alphanumeric to_balance v h = h.1
alphanumeric to_tx v h = h.1
alphanumeric to_tx_receipt v h = h.1
alphanumeric to_send_tx v h = h.1

plain_prefix : (e : Endpoint) → is_plain_path (prefix_of e) ≡ true
unfolding is_plain_path
plain_prefix to_status = refl
plain_prefix to_health = refl
plain_prefix to_balance = refl
plain_prefix to_tx = refl
plain_prefix to_tx_receipt = refl
plain_prefix to_send_tx = refl

-- The path of a request for an endpoint.
pub plain_request : (e : Endpoint) (v : String) → Fits e v → is_plain_path (prefix_of e ^^ v) ≡ true
plain_request e v fits =
    is_plain_path-append (prefix_of e) v (plain_prefix e) (alphanumeric e v fits)

module _ {Entry S : Type 0} {E : Ethereum} (with_fields : Access → Entry → Entry)
    (cl : SimpleEthClient E S) (version : String) (port : ℤ) (l : Option Entry)
    (sv : Served Entry S) (out : Outside (Running Entry S)) (c : Client) (ctx : Context) where
  -- A request with a valid method, whose URL is a plain path behind the client's base URL, comes to the
  -- service with that method and that path, and the response of the service comes back.
  abbrev pub Carries : Type 0
  Carries =
      (req : HttpRequest) (path : String) (n m : Running Entry S) (r : Response)
      → is_valid_method req.method ≡ true
      → req.url ≡ c.base_url ^^ path
      → is_plain_path path ≡ true
      → serve_http sv (registered with_fields cl version port l)
          (record { method = req.method; path = path }) n
        ≡ some (r, m)
      → out.round_trip ctx req n ≡ (ok r, m)

  -- Over such a network, a router that does what is documented gives every request of the client to
  -- the handler of its endpoint, with the last segment as its parameter, and the client gets the status
  -- and the document of what the handler answers.
  pub Carries-Reaches :
      (e : Endpoint) (v : String) (n : Running Entry S)
      → Documented sv.lookup
      → Carries
      → Fits e v
      → Reaches cl version out (λ n. n.world) c ctx e v n
  Carries-Reaches e v n documented carries fits h s' a given = (
    after_reply with_fields (sv.elapsed (request_for e v) n) e v a s' n,
    carries _ (prefix_of e ^^ v) n _ _ (method_of-valid e) refl (plain_request e v fits)
        (serve_http-answer with_fields cl version port l sv documented e v n a s' fits given),
    refl,
  )
