-- ===== src/MultiNode/Replies.antt =====
-- `BlockNumber`, by the list of the nodes' answers: what is said of each, and the answer to all.

use eth_proxy.Prelude.{
  ℕ, suc, ◌+◌, ◌-◌, ◌≡◌, refl, true, String, ◌^^◌, List, [], ◌∷◌, ◌++◌, Option, none, some, Run,
  pure, ◌>>=◌, length, length-append, get_elem?, get_elem?-append_length, append_assoc, arith, ltb,
  if◌then◌else◌, Bool-cases, inl, inr,
}
use text.Mathlib.TextLemmas.{nil-append}
use eth_proxy.Prelude.Text.{closed}
use eth_proxy.Ethereum.{Ethereum}
use eth_proxy.MultiNode.{Item, block_diff, abs_diff, node_error, tips_differ, tip_report}

abbrev pub Reply : Type 0
Reply = ℕ × Option String

-- Every node of a list is asked once, in order.
unfoldable pub poll : {E : Ethereum} {W : Type 0} → List (Item E W) → Run W (List Reply)
poll [] = pure []
poll (x ∷ xs) = do reply ← x.client.block_number; replies ← poll xs; pure (reply ∷ replies)

-- What is said of the replies from position `i` on, where `previous` is the last height before: a
-- node that fails, and a height too far from the one before it.
unfoldable pub messages : ℕ → Option ℕ → List Reply → List String
messages i previous [] = []
messages i previous ((b, some e) ∷ rs) = node_error i e ∷ messages (i + 1) previous rs
messages i none ((b, none) ∷ rs) = messages (i + 1) (some b) rs
messages i (some s) ((b, none) ∷ rs) =
    let later = messages (i + 1) (some b) rs in
    if ltb block_diff (abs_diff b s) then tips_differ i b s ∷ later else later

abbrev pub heights_of : List Reply → List ℕ
heights_of [] = []
heights_of ((b, some e) ∷ rs) = heights_of rs
heights_of ((b, none) ∷ rs) = b ∷ heights_of rs

abbrev pub first_height : List Reply → ℕ
first_height [] = 0
first_height ((b, e) ∷ rs) = b

-- The answer to the replies: the messages, each with "|" behind it, or the first height.
abbrev pub summary : List String → ℕ → Reply
summary [] first = (first, none)
summary (m ∷ ms) first = (0, some (closed "|" (m ∷ ms)))

unfoldable pub report : List Reply → Reply
report rs = summary (messages 0 none rs) (first_height rs)

-- The last height of a list, `none` if there is none.
abbrev pub Last : Option ℕ → List ℕ → Type 0
Last none hs = hs ≡ []
Last (some s) hs = (before : List ℕ) × (hs ≡ before ++ s ∷ [])

abbrev pub tip_text : ℕ → Option ℕ → ℕ → String
tip_text i none b = ""
tip_text i (some s) b = if ltb block_diff (abs_diff b s) then tips_differ i b s ^^ "|" else ""

get_elem?-append_suc :
    (hs : List ℕ) (s b : ℕ) → get_elem? (hs ++ s ∷ b ∷ []) (suc (length hs)) ≡ some b
get_elem?-append_suc [] s b = refl
get_elem?-append_suc (h ∷ hs) s b = get_elem?-append_suc hs s b

tip_report_two :
    (i : ℕ) (hs : List ℕ) (s b : ℕ) → tip_report i (hs ++ s ∷ b ∷ []) ≡ some (tip_text i (some s) b)
unfolding tip_report
tip_report_two i hs s b =
    let l = hs ++ s ∷ b ∷ [] in
    let size : length l ≡ length hs + 2 = length-append hs (s ∷ b ∷ []) in
    let several : ltb 1 (length l) ≡ true = ground arith in
    let last : length l - 1 ≡ suc (length hs) = omega arith in
    let before : length l - 2 ≡ length hs = omega arith in
    ground (arith, get_elem?-append_suc hs s b, get_elem?-append_length hs s (b ∷ []))

pub tip_report_lem :
    (i : ℕ) (previous : Option ℕ) (hs : List ℕ) (b : ℕ)
    → Last previous hs
    → tip_report i (hs ++ b ∷ []) ≡ some (tip_text i previous b)
tip_report_lem i none hs b e = rw e (unfold tip_report in refl)
tip_report_lem i (some s) hs b (before, e) = rw (e, append_assoc) (tip_report_two i before s b)

-- What one reply adds.
pub closed-messages :
    (i : ℕ) (previous : Option ℕ) (b : ℕ) (rs : List Reply)
    → tip_text i previous b ^^ closed "|" (messages (i + 1) (some b) rs)
      ≡ closed "|" (messages i previous ((b, none) ∷ rs))
closed-messages i none b rs = unfold messages in nil-append _
closed-messages i (some s) b rs =
    unfold messages in
    elim (Bool-cases (ltb block_diff (abs_diff b s))) [
      | inl far ↦ rw (far, if◌then◌else◌)
      | inr near ↦ rw (near, if◌then◌else◌) (nil-append _)
    ]
