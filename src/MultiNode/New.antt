-- ===== src/MultiNode/New.antt =====
-- `NewMultiNodeClient`. The order in which Go ranges over a map is a parameter.
pub mod Errors
pub mod Labels
use eth_proxy.Prelude.{
  ℕ, suc, ◌+◌, ◌≡◌, refl, ap, ◌∙◌, String, ◌^^◌, List, [], ◌∷◌, ◌++◌, some, Result, ok, err, Run,
  pure, ◌>>=◌, >>=-eq-some, length, append_assoc, append-nil, arith,
}
use mathlib.Core.List.{Perm}
use eth_proxy.Prelude.Assoc.{put}
use eth_proxy.Prelude.Text.{split}
use eth_proxy.Prelude.Decimal.{format}
use eth_proxy.Ethereum.{Ethereum, SimpleEthClient}
use eth_proxy.MultiNode.{Item}

-- A range over the map takes each of its entries once, in any order.
pub record MapRange : Type 0 where
  pub order : List (String × String) → List (String × String)
  pub every : (entries : List (String × String)) → Perm (order entries) entries

-- `errs[url] = err`.
abbrev pub put_error : String → String → List (String × String) → List (String × String)
put_error url e errs = put url e errs

-- The loop that builds the message of an error.
unfoldable pub describe : String → List (String × String) → String
describe message [] = message
describe message ((url, e) ∷ errs) =
    describe (message ^^ " url='" ^^ url ^^ "' err='" ^^ e ^^ "'") errs

module _ {E : Ethereum} {W : Type 0}
    (constructor : String → Run W (Result (SimpleEthClient E W))) where
  -- The loop over the urls, with the nodes and the errors so far.
  unfoldable pub connect :
      List String
      → List (Item E W)
      → List (String × String)
      → Run W (List (Item E W) × List (String × String))
  connect [] nodes errs = pure (nodes, errs)
  connect (url ∷ urls) nodes errs = do
    n ← constructor url
    elim n [
      | err e ↦ connect urls nodes (put_error url e errs)
      | ok client ↦
          connect urls (nodes ++ record { id = format (length nodes); client = client } ∷ []) errs
    ]

module _ (range : MapRange) where
  unfoldable pub made :
      {E : Ethereum} {W : Type 0}
      → List (Item E W) × List (String × String)
      → Result (List (Item E W))
  unfolding describe
  made ([], errs) = err (describe "cannot connect to any nodes" (range.order errs))
  made (x ∷ xs, errs) = ok (x ∷ xs)

  -- The nodes of a new client, or an error.
  unfoldable pub new_multi_node_client :
      {E : Ethereum} {W : Type 0}
      → String
      → (String → Run W (Result (SimpleEthClient E W)))
      → Run W (Result (List (Item E W)))
  unfolding connect made split
  new_multi_node_client possible_urls constructor =
      connect constructor (split possible_urls b',') [] [] >>= λ found. pure (made found)

-- The urls that cannot be connected to, with their errors, as a map.
abbrev pub errors_of :
    {E : Ethereum} {W : Type 0}
    → List String
    → List (Result (SimpleEthClient E W))
    → List (String × String)
    → List (String × String)
errors_of [] rs errs = errs
errors_of (url ∷ urls) (err e ∷ rs) errs = errors_of urls rs (put_error url e errs)
errors_of (url ∷ urls) (ok c ∷ rs) errs = errors_of urls rs errs
errors_of (url ∷ urls) [] errs = errs

abbrev pub connected :
    {E : Ethereum} {W : Type 0} → List (Result (SimpleEthClient E W)) → List (SimpleEthClient E W)
connected [] = []
connected (err e ∷ rs) = connected rs
connected (ok c ∷ rs) = c ∷ connected rs

-- Clients with the labels `k`, `k + 1` and so on.
abbrev pub label : {E : Ethereum} {W : Type 0} → ℕ → List (SimpleEthClient E W) → List (Item E W)
label k [] = []
label k (c ∷ cs) = record { id = format k; client = c } ∷ label (k + 1) cs

length-label :
    {E : Ethereum} {W : Type 0} (k : ℕ) (cs : List (SimpleEthClient E W))
    → length (label k cs) ≡ length cs
length-label k [] = refl
length-label k (c ∷ cs) = ap suc (length-label (k + 1) cs)

label-append :
    {E : Ethereum} {W : Type 0} (k : ℕ) (cs : List (SimpleEthClient E W)) (c : SimpleEthClient E W)
    → label k (cs ++ c ∷ []) ≡ label k cs ++ record { id = format (k + length cs); client = c } ∷ []
label-append k [] c = let here : k + 0 ≡ k = omega arith in rw here
label-append k (d ∷ cs) c =
    let next : k + suc (length cs) ≡ (k + 1) + length cs = omega arith in
    rw (next, label-append (k + 1) cs c)

module _ {E : Ethereum} {W : Type 0}
    (constructor : String → Run W (Result (SimpleEthClient E W))) where
  -- Every url is dialled once, in order.
  unfoldable pub dial : List String → Run W (List (Result (SimpleEthClient E W)))
  dial [] = pure []
  dial (url ∷ urls) = do r ← constructor url; rs ← dial urls; pure (r ∷ rs)

  dial-cons :
      (url : String) (urls : List String) (w : W) (rs : List (Result (SimpleEthClient E W))) (v : W)
      → dial (url ∷ urls) w ≡ some (rs, v)
      → (r : Result (SimpleEthClient E W)) × (u : W) × (rs' : List (Result (SimpleEthClient E W)))
        × (constructor url w ≡ some (r, u))
        × (dial urls u ≡ some (rs', v))
        × (rs ≡ r ∷ rs')
  unfolding dial
  dial-cons url urls w rs v e =
      let (r, u, made_here, later) =
        >>=-eq-some (constructor url) (λ r. dial urls >>= λ rs. pure (r ∷ rs)) w e in
      let (rs', t, rest, ends) = >>=-eq-some (dial urls) (λ rs. pure (r ∷ rs)) u later in
      (r, u, rs', made_here, ground arith, ground arith)

  pub connect_ok :
      (url : String) (urls : List String) (cs : List (SimpleEthClient E W))
      (errs : List (String × String)) (c : SimpleEthClient E W) (w u : W)
      → constructor url w ≡ some (ok c, u)
      → connect constructor (url ∷ urls) (label 0 cs) errs w
        ≡ connect constructor urls (label 0 (cs ++ c ∷ [])) errs u
  connect_ok url urls cs errs c w u here =
      let place : 0 + length cs ≡ length (label 0 cs) = omega (arith, length-label 0 cs) in
      rw (label-append 0 cs c, place) (unfold connect in ground arith)

  -- One url, with what the later ones give.
  connect_round :
      (url : String) (urls : List String) (cs : List (SimpleEthClient E W))
      (errs : List (String × String)) (r : Result (SimpleEthClient E W))
      (rs : List (Result (SimpleEthClient E W))) (w u v : W)
      → constructor url w ≡ some (r, u)
      → ((cs' : List (SimpleEthClient E W)) (errs' : List (String × String))
          → connect constructor urls (label 0 cs') errs' u
            ≡ some ((label 0 (cs' ++ connected rs), errors_of urls rs errs'), v))
      → connect constructor (url ∷ urls) (label 0 cs) errs w
        ≡ some ((label 0 (cs ++ connected (r ∷ rs)), errors_of (url ∷ urls) (r ∷ rs) errs), v)
  connect_round url urls cs errs (err e) rs w u v here later =
      unfold connect in ground (arith, later cs (put_error url e errs))
  connect_round url urls cs errs (ok c) rs w u v here later =
      connect_ok url urls cs errs c w u here ∙ later (cs ++ c ∷ []) errs ∙ rw append_assoc

  connect-dial :
      (urls : List String) (cs : List (SimpleEthClient E W)) (errs : List (String × String)) (w : W)
      (rs : List (Result (SimpleEthClient E W))) (v : W)
      → dial urls w ≡ some (rs, v)
      → connect constructor urls (label 0 cs) errs w
        ≡ some ((label 0 (cs ++ connected rs), errors_of urls rs errs), v)
  connect-dial [] cs errs w rs v e = unfold dial connect in ground (arith, append-nil cs)
  connect-dial (url ∷ urls) cs errs w rs v e =
      let (r, u, rs', here, rest, whole) = dial-cons url urls w rs v e in
      rw whole (
        connect_round url urls cs errs r rs' w u v here
          (λ cs' errs'. connect-dial urls cs' errs' u rs' v rest))

module _ (range : MapRange) where
  -- The answer to what the urls gave.
  abbrev pub choose :
      {E : Ethereum} {W : Type 0}
      → List (SimpleEthClient E W)
      → List (String × String)
      → Result (List (Item E W))
  choose [] errs = err (describe "cannot connect to any nodes" (range.order errs))
  choose (c ∷ cs) errs = ok (label 0 (c ∷ cs))

  pub made-choose :
      {E : Ethereum} {W : Type 0} (cs : List (SimpleEthClient E W)) (errs : List (String × String))
      → made range (label 0 cs, errs) ≡ choose cs errs
  unfolding made
  made-choose [] errs = refl
  made-choose (c ∷ cs) errs = refl

  pub new_lem :
      {E : Ethereum} {W : Type 0} (possible_urls : String)
      (constructor : String → Run W (Result (SimpleEthClient E W))) (w : W)
      → new_multi_node_client range possible_urls constructor w
        ≡ (connect constructor (split possible_urls b',') [] [] >>= λ found.
              pure (made range found))
            w
  unfolding new_multi_node_client
  new_lem possible_urls constructor w = refl

  -- What is made of the outcomes of all the urls.
  pub new_multi_node_client-choose :
      {E : Ethereum} {W : Type 0} (possible_urls : String)
      (constructor : String → Run W (Result (SimpleEthClient E W))) (w : W)
      (rs : List (Result (SimpleEthClient E W))) (v : W)
      → dial constructor (split possible_urls b',') w ≡ some (rs, v)
      → new_multi_node_client range possible_urls constructor w
        ≡ some (choose (connected rs) (errors_of (split possible_urls b',') rs []), v)
  new_multi_node_client-choose possible_urls constructor w rs v e =
      let all_dialled = connect-dial constructor (split possible_urls b',') [] [] w rs v e in
      new_lem possible_urls constructor w
      ∙ rw (all_dialled, ◌>>=◌) (rw (made-choose (connected rs)))
