-- ===== src/MultiNode/Heights.antt =====
-- `BlockNumber`: the loop against the list of the nodes' answers.

use eth_proxy.Prelude.{
  ℕ, suc, ◌+◌, ◌≡◌, ◌≢◌, refl, ◌∙◌, sym, String, ◌^^◌, List, [], ◌∷◌, ◌++◌, Option, none, some,
  pure, ◌>>=◌, >>=-eq-some, length, length-append, get_elem?, get_elem?-append_length, append_assoc,
  append-nil, arith, eq_iff,
}
use text.Mathlib.TextLemmas.{
  append-eq-nil_iff, append_assoc as text_append_assoc, append-nil as text_append-nil, nil-append,
}
use eth_proxy.Prelude.Text.{closed}
use eth_proxy.Ethereum.{Ethereum}
use eth_proxy.MultiNode.{
  Item, MultiNodeClient, node_error, tip_report, ask_heights, verdict, block_number,
}
use eth_proxy.MultiNode.Replies.{
  Reply, poll, messages, heights_of, first_height, summary, report, Last, tip_text, tip_report_lem,
  closed-messages,
}

module _ {E : Ethereum} {W : Type 0} where
  pub ask_heights_fail :
      (k i : ℕ) (hs : List ℕ) (text : String) (m : MultiNodeClient E W) (x : Item E W) (b : ℕ)
      (e : String) (v : W)
      → get_elem? m.nodes i ≡ some x
      → x.client.block_number m.world ≡ some ((b, some e), v)
      → ask_heights (suc k) i hs text m
        ≡ ask_heights k (i + 1) hs (text ^^ (node_error i e ^^ "|")) (record m { world = v })
  unfolding ask_heights
  ask_heights_fail k i hs text m x b e v found failed = ground arith

  pub ask_heights_answer :
      (k i : ℕ) (hs : List ℕ) (text : String) (m : MultiNodeClient E W) (x : Item E W) (b : ℕ)
      (v : W) (more : String)
      → get_elem? m.nodes i ≡ some x
      → x.client.block_number m.world ≡ some ((b, none), v)
      → tip_report i (hs ++ b ∷ []) ≡ some more
      → ask_heights (suc k) i hs text m
        ≡ ask_heights k (i + 1) (hs ++ b ∷ []) (text ^^ more) (record m { world = v })
  ask_heights_answer k i hs text m x b v more found answered told =
      unfold ask_heights in ground arith

  -- One round, with what the later rounds give.
  ask_heights_round :
      (nodes : List (Item E W)) (k i : ℕ) (hs : List ℕ) (previous : Option ℕ) (text : String)
      (x : Item E W) (b : ℕ) (e : Option String) (rs : List Reply) (w u v : W)
      → get_elem? nodes i ≡ some x
      → x.client.block_number w ≡ some ((b, e), u)
      → Last previous hs
      → ((hs' : List ℕ) (previous' : Option ℕ) (text' : String)
          → Last previous' hs'
          → ask_heights k (i + 1) hs' text' (record { nodes = nodes; world = u })
            ≡ some (
              (hs' ++ heights_of rs, text' ^^ closed "|" (messages (i + 1) previous' rs)),
              record { nodes = nodes; world = v },
            ))
      → ask_heights (suc k) i hs text (record { nodes = nodes; world = w })
        ≡ some (
          (hs ++ heights_of ((b, e) ∷ rs), text ^^ closed "|" (messages i previous ((b, e) ∷ rs))),
          record { nodes = nodes; world = v },
        )
  ask_heights_round nodes k i hs previous text x b (some m) rs w u v found answer last later =
      ask_heights_fail k i hs text _ x b m u found answer
      ∙ later hs previous (text ^^ (node_error i m ^^ "|")) last
      ∙ unfold messages in rw (text_append_assoc text _ _)
  ask_heights_round nodes k i hs previous text x b none rs w u v found answer last later =
      ask_heights_answer k i hs text _ x b u (tip_text i previous b) found answer
        (tip_report_lem i previous hs b last)
      ∙ later (hs ++ b ∷ []) (some b) (text ^^ tip_text i previous b) (hs, refl)
      ∙ rw (text_append_assoc, closed-messages i previous b rs, append_assoc)

  poll_none :
      (i : ℕ) (hs : List ℕ) (previous : Option ℕ) (text : String) (rs : List Reply)
      (m : MultiNodeClient E W) (v : W)
      → poll {E = E} [] m.world ≡ some (rs, v)
      → ask_heights 0 i hs text m
        ≡ some (
          (hs ++ heights_of rs, text ^^ closed "|" (messages i previous rs)),
          record m { world = v },
        )
  unfolding poll ask_heights messages
  poll_none i hs previous text rs m v asked = ground (arith, append-nil hs, text_append-nil text)

  -- The parts of a poll that returns.
  pub poll-cons :
      (x : Item E W) (xs : List (Item E W)) (w : W) (rs : List Reply) (v : W)
      → poll (x ∷ xs) w ≡ some (rs, v)
      → (b : ℕ) × (e : Option String) × (u : W) × (rs' : List Reply) × (x.client.block_number w
          ≡ some ((b, e), u))
        × (poll xs u ≡ some (rs', v))
        × (rs ≡ (b, e) ∷ rs')
  unfolding poll
  poll-cons x xs w rs v asked =
      let (r, u, answer, later) =
        >>=-eq-some x.client.block_number (λ reply. poll xs >>= λ replies. pure (reply ∷ replies)) w
          asked in
      let (rs', t, rest, ends) = >>=-eq-some (poll xs) (λ replies. pure (r ∷ replies)) u later in
      (r.0, r.1, u, rs', answer, ground arith, ground arith)

  ask_heights_polled :
      (nodes : List (Item E W)) (k i : ℕ) (hs : List ℕ) (previous : Option ℕ) (text : String)
      (x : Item E W) (xs : List (Item E W)) (rs : List Reply) (w v : W)
      → get_elem? nodes i ≡ some x
      → poll (x ∷ xs) w ≡ some (rs, v)
      → Last previous hs
      → ((hs' : List ℕ) (previous' : Option ℕ) (text' : String) (rs' : List Reply) (u : W)
          → poll xs u ≡ some (rs', v)
          → Last previous' hs'
          → ask_heights k (i + 1) hs' text' (record { nodes = nodes; world = u })
            ≡ some (
              (hs' ++ heights_of rs', text' ^^ closed "|" (messages (i + 1) previous' rs')),
              record { nodes = nodes; world = v },
            ))
      → ask_heights (suc k) i hs text (record { nodes = nodes; world = w })
        ≡ some (
          (hs ++ heights_of rs, text ^^ closed "|" (messages i previous rs)),
          record { nodes = nodes; world = v },
        )
  ask_heights_polled nodes k i hs previous text x xs rs w v found asked last later =
      let (b, e, u, rs', answer, rest, whole) = poll-cons x xs w rs v asked in
      rw whole (
        ask_heights_round nodes k i hs previous text x b e rs' w u v found answer last
          λ hs' previous' text' last'. later hs' previous' text' rs' u rest last')

  ask_heights-poll :
      (nodes pre xs : List (Item E W)) (i : ℕ) (hs : List ℕ) (previous : Option ℕ) (text : String)
      (rs : List Reply) (w v : W)
      → poll xs w ≡ some (rs, v)
      → nodes ≡ pre ++ xs
      → i ≡ length pre
      → Last previous hs
      → ask_heights (length xs) i hs text (record { nodes = nodes; world = w })
        ≡ some (
          (hs ++ heights_of rs, text ^^ closed "|" (messages i previous rs)),
          record { nodes = nodes; world = v },
        )
  ask_heights-poll nodes pre [] i hs previous text rs w v asked split at last =
      poll_none i hs previous text rs (record { nodes = nodes; world = w }) v asked
  ask_heights-poll nodes pre (x ∷ xs) i hs previous text rs w v asked split at last =
      ask_heights_polled nodes (length xs) i hs previous text x xs rs w v
        (rw (split, at) (get_elem?-append_length pre x xs)) asked last
        (λ hs' previous' text' rs' u e last'.
          ask_heights-poll nodes (pre ++ x ∷ []) xs (i + 1) hs' previous' text' rs' u v e
            (split ∙ sym (append_assoc pre (x ∷ []) xs)) (omega (arith, length-append pre (x ∷ [])))
            last')

closed-ne-empty : (p : String) (ps : List String) → closed "|" (p ∷ ps) ≢ ""
closed-ne-empty p ps e =
    let inner = (append-eq-nil_iff.0 e).0 in absurd (bar_ne_empty (append-eq-nil_iff.0 inner).1)
  where
    bar_ne_empty : ◌≢◌ {A = String} "|" ""
    bar_ne_empty = ground (arith, eq_iff "|" "")

first_height_lem :
    (rs : List Reply)
    → rs ≢ []
    → messages 0 none rs ≡ []
    → get_elem? (heights_of rs) 0 ≡ some (first_height rs)
unfolding messages
first_height_lem [] h e = absurd (h refl)
first_height_lem ((b, none) ∷ rs) h e = refl
first_height_lem ((b, some m) ∷ rs) h e = cc

verdict_lem :
    {E : Ethereum} {W : Type 0} (rs : List Reply) (m : MultiNodeClient E W) (text : String)
    (ms : List String)
    → rs ≢ []
    → messages 0 none rs ≡ ms
    → text ≡ closed "|" ms
    → verdict (heights_of rs, text) m ≡ some (summary ms (first_height rs), m)
verdict_lem rs m text [] h e t =
    unfold verdict in ground (arith, first_height_lem rs h e, eq_iff text "")
verdict_lem rs m text (p ∷ ps) h e t =
    unfold verdict in ground (arith, closed-ne-empty p ps, eq_iff text "")

poll-ne-nil :
    {E : Ethereum} {W : Type 0} (xs : List (Item E W)) (w : W) (rs : List Reply) (v : W)
    → xs ≢ []
    → poll xs w ≡ some (rs, v)
    → rs ≢ []
poll-ne-nil [] w rs v h e = absurd (h refl)
poll-ne-nil (x ∷ xs) w rs v h e =
    let (b, m, u, rs', answer, rest, whole) = poll-cons x xs w rs v e in rw whole cc

pub block_number_lem :
    {E : Ethereum} {W : Type 0} (m : MultiNodeClient E W)
    → block_number m ≡ (ask_heights (length m.nodes) 0 [] "" >>= verdict) m
unfolding block_number
block_number_lem m = refl

block_number_of :
    {E : Ethereum} {W : Type 0} (m m' : MultiNodeClient E W) (a : List ℕ × String)
    → ask_heights (length m.nodes) 0 [] "" m ≡ some (a, m')
    → block_number m ≡ verdict a m'
block_number_of m m' a e = block_number_lem m ∙ rw (e, ◌>>=◌)

-- If no node panics, `BlockNumber` asks each node once, in order, and answers by `report`: with the
-- messages about them, each with a bar behind it, or with the first height if there is none. There is
-- at least one node, so the heights hold a first one; the list of nodes stays as it is.
pub block_number-report :
    {E : Ethereum} {W : Type 0} (m : MultiNodeClient E W) (rs : List Reply) (v : W)
    → m.nodes ≢ []
    → poll m.nodes m.world ≡ some (rs, v)
    → block_number m ≡ some (report rs, record m { world = v })
unfolding report
block_number-report m rs v h asked =
    let whole =
      ask_heights-poll m.nodes [] m.nodes 0 [] none "" rs m.world v asked refl refl refl in
    let told =
      verdict_lem rs (record m { world = v }) ("" ^^ closed "|" (messages 0 none rs))
        (messages 0 none rs) (poll-ne-nil m.nodes m.world rs v h asked) refl (nil-append _) in
    block_number_of m _ _ whole ∙ told
