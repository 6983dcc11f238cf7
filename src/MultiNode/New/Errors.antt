-- ===== src/MultiNode/New/Errors.antt =====
-- `NewMultiNodeClient`: what a new client has, and what the error says if there is none.
use eth_proxy.Prelude.{◌≡◌, String, ◌^^◌, List, [], ◌∷◌, Result, ok, err}
use mathlib.Core.List.{Perm}
use eth_proxy.Prelude.Assoc.{lookup, latest}
use eth_proxy.Ethereum.{Ethereum, SimpleEthClient}
use eth_proxy.MultiNode.{Item}
use eth_proxy.MultiNode.New.{label}

-- The text about some urls with their errors.
abbrev pub clauses : List (String × String) → String
clauses [] = ""
clauses ((url, e) ∷ errs) = " url='" ^^ url ^^ "' err='" ^^ e ^^ "'" ^^ clauses errs

-- The text of an error names each entry of a map once, in any order; the map holds, under each url,
-- the error of its last failure, and nothing under what has not failed.
pub record Tells (fs : List (String × String)) (message : String) : Type 0 where
  pub named : List (String × String)
  pub entries : List (String × String)
  pub text : message ≡ "cannot connect to any nodes" ^^ clauses named
  pub each : Perm named entries
  pub last_error : (url : String) → lookup url entries ≡ latest url fs

module _ {E : Ethereum} {W : Type 0} where
  -- The urls that could not be connected to, in the order in which they were dialled, with the errors.
  abbrev pub failures : List String → List (Result (SimpleEthClient E W)) → List (String × String)
  failures (url ∷ urls) (err e ∷ rs) = (url, e) ∷ failures urls rs
  failures (url ∷ urls) (ok c ∷ rs) = failures urls rs
  failures _ _ = []

  -- A client with the nodes that could be connected to, or an error about the urls.
  abbrev pub Made :
      List (SimpleEthClient E W) → List (String × String) → Result (List (Item E W)) → Type 0
  Made [] fs r = (message : String) × (r ≡ err message) × Tells fs message
  Made (c ∷ cs) fs r = r ≡ ok (label 0 (c ∷ cs))
