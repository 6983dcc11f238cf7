-- ===== src/MultiNode/Kept.antt =====
-- A client whose nodes do not panic does not panic, and keeps its nodes.
use eth_proxy.Prelude.{
  ◌≡◌, ◌≢◌, refl, sym, String, List, [], ◌∷◌, ◌++◌, Option, some, Run, ◌>>=◌, All,
}
use mathlib.Core.List.{Perm}
use mathlib.Core.List.Perm
use eth_proxy.Ethereum.{Ethereum, SimpleEthClient}
use eth_proxy.Api.Kept.{Stays, Keeps}
use eth_proxy.MultiNode.{
  Item, MultiNodeClient, multi_call, multi_node_client, balance_at, transaction_by_hash,
  transaction_receipt, send_transaction,
}
use eth_proxy.MultiNode.Priority.{bump}
use eth_proxy.MultiNode.Failover.{Outcome, answered, exhausted, Returns, multi_call-Outcome}
use eth_proxy.MultiNode.Reorder.{multi_call-Reordered}
use eth_proxy.MultiNode.Replies.{Reply, poll}
use eth_proxy.MultiNode.Verdicts.{block_number-Agrees}
use eth_proxy.MultiNode.Concurrent.{
  Job, zero_of, call_of, balance_job, tx_job, receipt_job, send_job,
}
use eth_proxy.MultiNode.Concurrent.Nodes.{Returning, AllReturn}

module _ {E : Ethereum} {W : Type 0} where
  bump-All :
      (P : Item E W → Type 0) (pre : List (Item E W)) (x : Item E W) (post : List (Item E W))
      → All P (pre ++ x ∷ post)
      → All P (bump pre x post)
  bump-All P [] x post h = h
  bump-All P (p ∷ []) x post (hp, (hx, h)) = (hx, (hp, h))
  bump-All P (p ∷ q ∷ pre) x post (hp, h) = (hp, bump-All P (q ∷ pre) x post h)

  Outcome-All :
      {A : Type 0} (call : SimpleEthClient E W → Run W (A × Option String)) (P : Item E W → Type 0)
      (before r : A × Option String) (m m' : MultiNodeClient E W)
      → Outcome call before m r m'
      → All P m.nodes
      → All P m'.nodes
  Outcome-All call P before _ m _ (answered failing post x last v u a split fails answers) h =
      bump-All P failing x post (rw split at h)
  Outcome-All call P before _ m _ (exhausted fails) h = h

  Returns-of :
      (j : Job E) (xs : List (Item E W)) → All (λ x. Returning x.client) xs → Returns (call_of j) xs
  Returns-of j [] h = tt
  Returns-of j (x ∷ xs) (returning, h) = (returning.calls j, Returns-of j xs h)

  poll_returns :
      (xs : List (Item E W)) (w : W)
      → All (λ x. Returning x.client) xs
      → (rs : List Reply) × (v : W) × (poll xs w ≡ some (rs, v))
  unfolding poll
  poll_returns [] w h = ([], w, refl)
  poll_returns (x ∷ xs) w (returning, h) =
      let ((r, u), replied) = returning.block_number w in
      let (rs, v, polled) = poll_returns xs u h in
      (r ∷ rs, v, rw (replied, ◌>>=◌) (rw (polled, ◌>>=◌) refl))

  -- The nodes are `nodes`, in some order, of which there is one, and none panics.
  pub record Holds (nodes : List (Item E W)) (m : MultiNodeClient E W) : Type 0 where
    pub same : Perm m.nodes nodes
    pub some_node : m.nodes ≢ []
    pub returning : AllReturn m

  module _ (nodes : List (Item E W)) where
    multi_call-Holds :
        (j : Job E) (m : MultiNodeClient E W)
        → Holds nodes m
        → Stays (Holds nodes) (multi_call (call_of j) (zero_of j)) m
    multi_call-Holds j m h =
        let (r, m', called, outcome) =
          multi_call-Outcome (call_of j) (zero_of j) m (Returns-of j m.nodes h.returning) in
        let reordered = multi_call-Reordered (call_of j) (zero_of j) m m' r called in
        (
          r,
          m',
          called,
          record {
            same = Perm.trans reordered h.same;
            some_node = λ e. h.some_node (sym (Perm.nil-eq (rw e at reordered)));
            returning =
                Outcome-All (call_of j) (λ x. Returning x.client) _ r m m' outcome h.returning;
          },
        )

    -- Whatever the nodes answer, a client whose nodes do not panic does not panic either, and keeps
    -- them.
    pub multi_node_client-Keeps : Keeps (Holds nodes) multi_node_client
    unfolding balance_at transaction_by_hash transaction_receipt send_transaction
    multi_node_client-Keeps = record {
      block_number = λ m h.
          let (rs, v, polled) = poll_returns m.nodes m.world h.returning in
          let (r, reported, agrees) = block_number-Agrees m rs v h.some_node polled in
          (
            r,
            record m { world = v },
            reported,
            record { same = h.same; some_node = h.some_node; returning = h.returning },
          );
      balance_at = λ a n m h. multi_call-Holds (balance_job a n) m h;
      transaction_by_hash = λ hash m h. multi_call-Holds (tx_job hash) m h;
      transaction_receipt = λ hash m h. multi_call-Holds (receipt_job hash) m h;
      send_transaction = λ t m h. multi_call-Holds (send_job t) m h;
    }
