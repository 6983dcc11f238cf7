-- ===== src/MultiNode/Invariant.antt =====
-- What holds of the list of nodes from its making on: it is not empty, and its labels are distinct.
use eth_proxy.Prelude.{
  ℕ, ◌+◌, ◌<◌, ◌≡◌, ◌≢◌, sym, String, List, [], ◌∷◌, map, Result, some, ok, Run, arith,
}
use mathlib.Core.Logic.Or
use mathlib.Core.HLevel.{⊥_prop}
use mathlib.Core.List.{Perm, Mem, Nodup, Nodup-cons, Nodup-nil, not-mem-nil, mem-cons}
use mathlib.Core.List.Perm
use eth_proxy.Prelude.Decimal.{format, format_injective}
use eth_proxy.Ethereum.{Ethereum, SimpleEthClient}
use eth_proxy.MultiNode.{Item, MultiNodeClient}
use eth_proxy.MultiNode.Calls.{Calls, Calls-Reordered}
use eth_proxy.MultiNode.New.{label, MapRange, new_multi_node_client}
use eth_proxy.MultiNode.New.Labels.{new_multi_node_client-label}

abbrev pub ids : {E : Ethereum} {W : Type 0} → List (Item E W) → List String
ids = map (λ x. x.id)

pub record IsValid {E : Ethereum} {W : Type 0} (nodes : List (Item E W)) : Type 0 where
  pub some_node : nodes ≢ []
  pub distinct : Nodup (ids nodes)

label-fresh :
    {E : Ethereum} {W : Type 0} (k n : ℕ) (cs : List (SimpleEthClient E W))
    → k < n
    → ¬ Mem (format k) (ids (label n cs))
label-fresh k n [] h m = not-mem-nil m
label-fresh k n (c ∷ cs) h m =
    Or.elim ⊥_prop (mem-cons.0 m) (λ e. let same = format_injective k n e in absurd (omega arith))
      (label-fresh k (n + 1) cs (omega arith))

label-Nodup :
    {E : Ethereum} {W : Type 0} (k : ℕ) (cs : List (SimpleEthClient E W)) → Nodup (ids (label k cs))
label-Nodup k [] = Nodup-nil
label-Nodup k (c ∷ cs) =
    Nodup-cons.1 (label-fresh k (k + 1) cs (omega arith), label-Nodup (k + 1) cs)

module _ {E : Ethereum} {W : Type 0} where
  IsValid-perm : {ns ms : List (Item E W)} → Perm ns ms → IsValid ms → IsValid ns
  IsValid-perm {ns} {ms} p v = record {
    some_node = λ e. v.some_node (sym (Perm.nil-eq (rw e at p)));
    distinct = Perm.nodup (Perm.symm (Perm.map (λ x. x.id) p)) v.distinct;
  }

  label-IsValid :
      (c : SimpleEthClient E W) (cs : List (SimpleEthClient E W)) → IsValid (label 0 (c ∷ cs))
  label-IsValid c cs = record { some_node = cc; distinct = label-Nodup 0 (c ∷ cs) }

  -- From the time that `NewMultiNodeClient` has made it, through any calls in any order and whatever
  -- the nodes answer, a client holds the nodes that were made, reordered: at least one, under labels
  -- that differ.
  pub Calls-IsValid :
      (range : MapRange) (possible_urls : String)
      (constructor : String → Run W (Result (SimpleEthClient E W))) (v w : W)
      (nodes : List (Item E W)) (m : MultiNodeClient E W)
      → new_multi_node_client range possible_urls constructor v ≡ some (ok nodes, w)
      → Calls (record { nodes = nodes; world = w }) m
      → IsValid m.nodes × Perm m.nodes nodes
  Calls-IsValid range possible_urls constructor v w nodes m made calls =
      let (c, cs, labelled) =
        new_multi_node_client-label range possible_urls constructor v w nodes made in
      let same = Calls-Reordered calls in
      (IsValid-perm same (rw labelled (label-IsValid c cs)), same)
