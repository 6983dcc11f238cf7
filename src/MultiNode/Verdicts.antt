-- ===== src/MultiNode/Verdicts.antt =====
-- `BlockNumber` on the heights of its nodes: what it accepts, and what it says of the rest.
use eth_proxy.Prelude.{
  ℕ, suc, ◌+◌, ◌-◌, ◌*◌, ◌≤◌, ◌<◌, ◌≡◌, ◌≢◌, ◌↔◌, refl, sym, ap, ◌∙◌, String, ◌^^◌, List, [], ◌∷◌,
  Option, none, some, All, length, arith,
}
use mathlib.Core.Path.{subst}
use eth_proxy.Prelude.Text.{closed}
use eth_proxy.Prelude.Decimal.{format}
use eth_proxy.Ethereum.{Ethereum}
use eth_proxy.MultiNode.{Item, MultiNodeClient, block_number, block_diff, abs_diff}
use eth_proxy.MultiNode.Replies.{Reply, poll, heights_of, report}
use eth_proxy.MultiNode.Heights.{block_number-report, poll-cons}
use eth_proxy.MultiNode.Agreement.{
  Agrees, report-Agrees, report_spread, abs_diff_self, climb, top, report-climb,
  report_blames_failed_node,
}

length-heights_of :
    (previous : Option ℕ) (rs : List Reply)
    → Agrees previous rs
    → length (heights_of rs) ≡ length rs
length-heights_of previous [] h = refl
length-heights_of previous ((b, some e) ∷ rs) h = absurd h
length-heights_of none ((b, none) ∷ rs) h = ap suc (length-heights_of (some b) rs h)
length-heights_of (some s) ((b, none) ∷ rs) (near, h) = ap suc (length-heights_of (some b) rs h)

spread :
    (n b : ℕ) (rs : List Reply)
    → length rs ≡ n
    → (report rs).1 ≡ none
    → (report rs).0 ≡ b
    → All (λ h. abs_diff h b ≤ 3 * (n - 1)) (heights_of rs) × (length (heights_of rs) ≡ n)
spread n b [] size good first = (tt, size)
spread n b ((s, some e) ∷ rs) size good first = absurd ((report-Agrees ((s, some e) ∷ rs)).0 good)
spread n b ((s, none) ∷ rs) size good first =
    let (start, near) = report_spread s rs good in
    let same : s ≡ b = sym start ∙ first in
    let steps : length rs ≡ n - 1 = omega (arith, size) in
    let own : abs_diff s b ≡ 0 = subst (λ x. abs_diff s x ≡ 0) same (abs_diff_self s) in
    let others = subst (λ x. All (λ h. abs_diff h x ≤ 3 * length rs) (heights_of rs)) same near in
    (
      (omega arith, subst (λ k. All (λ h. abs_diff h b ≤ 3 * k) (heights_of rs)) steps others),
      ap suc (length-heights_of (some s) rs ((report-Agrees ((s, none) ∷ rs)).0 good)) ∙ size,
    )

module _ {E : Ethereum} {W : Type 0} where
  length-poll :
      (xs : List (Item E W)) (w : W) (rs : List Reply) (v : W)
      → poll xs w ≡ some (rs, v)
      → length rs ≡ length xs
  length-poll [] w rs v asked = unfold poll in ground arith
  length-poll (x ∷ xs) w rs v asked =
      let (b, e, u, rs', answer, rest, whole) = poll-cons x xs w rs v asked in
      rw whole (ap suc (length-poll xs u rs' v rest))

  -- Over at least one node, none of which panics, `BlockNumber` returns, and gives no error exactly if
  -- every node answers with none and each height is within `blockDiff` of the one before it.
  pub block_number-Agrees :
      (m : MultiNodeClient E W) (rs : List Reply) (v : W)
      → m.nodes ≢ []
      → poll m.nodes m.world ≡ some (rs, v)
      → (r : Reply) × (block_number m ≡ some (r, record m { world = v }))
        × ((r.1 ≡ none) ↔ Agrees none rs)
  block_number-Agrees m rs v some_node asked =
      (report rs, block_number-report m rs v some_node asked, report-Agrees rs)

  -- Over at least one node, where `BlockNumber` gives no error and `rs` are the nodes' replies,
  -- every node has given a height, and each height is within three blocks for each further node of
  -- the one that is returned.
  pub block_number_spread :
      (m m' : MultiNodeClient E W) (b : ℕ) (rs : List Reply) (v : W)
      → m.nodes ≢ []
      → poll m.nodes m.world ≡ some (rs, v)
      → block_number m ≡ some ((b, none), m')
      → All (λ h. abs_diff h b ≤ 3 * (length m.nodes - 1)) (heights_of rs)
        × (length (heights_of rs) ≡ length m.nodes)
  block_number_spread m m' b rs v some_node asked told =
      let both = sym (block_number-report m rs v some_node asked) ∙ told in
      let given : report rs ≡ (b, none) = ground arith in
      spread (length m.nodes) b rs (length-poll m.nodes m.world rs v asked) (ap (λ r. r.1) given)
        (ap (λ r. r.0) given)

  -- The limit binds neighbours alone: if the nodes' replies are a height and `n` further ones, each
  -- three blocks ahead of the one before it, `BlockNumber` gives no error, and the last node is `3
  -- * n` blocks ahead of the height that is returned, however large `n` is.
  pub block_number-climb :
      (m : MultiNodeClient E W) (b n : ℕ) (v : W)
      → m.nodes ≢ []
      → poll m.nodes m.world ≡ some ((b, none) ∷ climb b n, v)
      → (block_number m ≡ some ((b, none), record m { world = v }))
        × (top b (climb b n) ≡ b + 3 * n)
  block_number-climb m b n v some_node asked =
      let (good, last) = report-climb b n in
      (
        block_number-report m ((b, none) ∷ climb b n) v some_node asked
            ∙ ap (λ r. some (r, record m { world = v })) good,
        last,
      )

  -- Of three nodes, the second fails and the heights of the others are more than `blockDiff` apart:
  -- the message about the two heights gives that of node 0 to node 1, which failed.
  pub block_number_blames_failed_node :
      (m : MultiNodeClient E W) (s b : ℕ) (e : String) (v : W)
      → m.nodes ≢ []
      → poll m.nodes m.world ≡ some ((s, none) ∷ (0, some e) ∷ (b, none) ∷ [], v)
      → block_diff < abs_diff b s
      → block_number m
        ≡ some (
          (
            0,
            some (
                closed "|" (
                  ("node " ^^ "1" ^^ " err: " ^^ e)
                  ∷ ("nodes "
                      ^^ "2"
                      ^^ " (height="
                      ^^ format b
                      ^^ ") and "
                      ^^ "1"
                      ^^ " (height="
                      ^^ format s
                      ^^ ") are reporting different chain tips")
                  ∷ [])),
          ),
          record m { world = v },
        )
  block_number_blames_failed_node m s b e v some_node asked far =
      block_number-report m ((s, none) ∷ (0, some e) ∷ (b, none) ∷ []) v some_node asked
      ∙ ap (λ r. some (r, record m { world = v })) (report_blames_failed_node s b e far)
