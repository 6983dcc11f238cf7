-- ===== src/MultiNode/Agreement.antt =====
-- What `BlockNumber` accepts: replies of which each height is near the one before it.
use eth_proxy.Prelude.{
  ℕ, zero, suc, ◌+◌, ◌*◌, ◌≤◌, ◌<◌, ◌≡◌, ◌↔◌, refl, String, List, [], ◌∷◌, Option, none, some, All,
  length, arith, ◌^^◌, true, ltb, sym, inl, inr, Bool-cases, if◌then◌else◌,
}
use eth_proxy.Prelude.Words.{word, sub64, sub64_of_le}
use eth_proxy.Prelude.Text.{closed}
use eth_proxy.Prelude.Decimal.{format}
use eth_proxy.MultiNode.{block_diff, abs_diff}
use eth_proxy.MultiNode.Replies.{Reply, messages, heights_of, report}

-- Every node answers, and no two heights next to one another differ by more than the limit.
abbrev pub Agrees : Option ℕ → List Reply → Type 0
Agrees previous [] = Unit
Agrees previous ((b, some e) ∷ rs) = ⊥
Agrees none ((b, none) ∷ rs) = Agrees (some b) rs
Agrees (some s) ((b, none) ∷ rs) = (abs_diff b s ≤ block_diff) × Agrees (some b) rs

messages-of_Agrees :
    (i : ℕ) (previous : Option ℕ) (rs : List Reply)
    → Agrees previous rs
    → messages i previous rs ≡ []
unfolding messages
messages-of_Agrees i previous [] h = refl
messages-of_Agrees i previous ((b, some e) ∷ rs) h = absurd h
messages-of_Agrees i none ((b, none) ∷ rs) h = messages-of_Agrees (i + 1) (some b) rs h
messages-of_Agrees i (some s) ((b, none) ∷ rs) (near, h) =
    ground (arith, messages-of_Agrees (i + 1) (some b) rs h)

Agrees-of_messages :
    (i : ℕ) (previous : Option ℕ) (rs : List Reply)
    → messages i previous rs ≡ []
    → Agrees previous rs
unfolding messages
Agrees-of_messages i previous [] h = tt
Agrees-of_messages i previous ((b, some e) ∷ rs) h = cc
Agrees-of_messages i none ((b, none) ∷ rs) h = Agrees-of_messages (i + 1) (some b) rs h
Agrees-of_messages i (some s) ((b, none) ∷ rs) h =
    (ground arith, Agrees-of_messages (i + 1) (some b) rs (ground arith))

-- `BlockNumber` gives no error exactly if every node answers with none and each height is within
-- `blockDiff` of the one before it.
pub report-Agrees : (rs : List Reply) → ((report rs).1 ≡ none) ↔ Agrees none rs
unfolding report
report-Agrees rs = (
  λ e. Agrees-of_messages 0 none rs (ground arith),
  λ h. ground (arith, messages-of_Agrees 0 none rs h),
)

abs_diff_trans : (a b c k : ℕ) → abs_diff b a ≤ 3 → abs_diff c b ≤ k → abs_diff c a ≤ k + 3
unfolding abs_diff
abs_diff_trans a b c k p q = ground arith

-- Each of the heights is within `k` of `s`.
abbrev Within : ℕ → ℕ → List ℕ → Type 0
Within k s = All (λ h. abs_diff h s ≤ k)

Within-shift : (k a b : ℕ) (hs : List ℕ) → abs_diff b a ≤ 3 → Within k b hs → Within (k + 3) a hs
Within-shift k a b [] near h = tt
Within-shift k a b (c ∷ hs) near (p, h) =
    (abs_diff_trans a b c k near p, Within-shift k a b hs near h)

Within-mono : (k l s : ℕ) (hs : List ℕ) → k ≤ l → Within k s hs → Within l s hs
Within-mono k l s [] le h = tt
Within-mono k l s (c ∷ hs) le (p, h) = (omega arith, Within-mono k l s hs le h)

pub abs_diff_self : (s : ℕ) → abs_diff s s ≡ 0
unfolding abs_diff
abs_diff_self s = ground arith

Agrees-Within :
    (s : ℕ) (rs : List Reply) → Agrees (some s) rs → Within (3 * length rs) s (heights_of rs)
Agrees-Within s [] h = tt
Agrees-Within s ((b, some e) ∷ rs) h = absurd h
Agrees-Within s ((b, none) ∷ rs) (near, h) =
    let later = Within-shift (3 * length rs) s b (heights_of rs) near (Agrees-Within b rs h) in
    (omega arith, Within-mono _ _ s (heights_of rs) (omega arith) later)

-- Where `BlockNumber` gives no error, every height is within three blocks for each further node of
-- the height that it returns.
pub report_spread :
    (b : ℕ) (rs : List Reply)
    → (report ((b, none) ∷ rs)).1 ≡ none
    → ((report ((b, none) ∷ rs)).0 ≡ b) × All (λ h. abs_diff h b ≤ 3 * length rs) (heights_of rs)
report_spread b rs e =
    let h = (report-Agrees ((b, none) ∷ rs)).0 e in
    (
      unfold report in ground (arith, messages-of_Agrees 0 none ((b, none) ∷ rs) h),
      Agrees-Within b rs h,
    )

-- `n` further nodes, each three blocks ahead of the one before it.
abbrev pub climb : ℕ → ℕ → List Reply
climb b zero = []
climb b (suc n) = (b + 3, none) ∷ climb (b + 3) n

climb-Agrees : (b n : ℕ) → Agrees (some b) (climb b n)
climb-Agrees b zero = tt
climb-Agrees b (suc n) = (unfold abs_diff in ground arith, climb-Agrees (b + 3) n)

-- The last height of a poll that follows the height `s`.
abbrev pub top : ℕ → List Reply → ℕ
top s [] = s
top s ((b, e) ∷ rs) = top b rs

top-climb : (b n : ℕ) → top b (climb b n) ≡ b + 3 * n
top-climb b zero = omega arith
top-climb b (suc n) = omega (arith, top-climb (b + 3) n)

-- The limit binds neighbours alone: `n` further nodes may climb to `3 * n` blocks above the first one
-- with no error, however large `n` is.
pub report-climb :
    (b n : ℕ) → (report ((b, none) ∷ climb b n) ≡ (b, none)) × (top b (climb b n) ≡ b + 3 * n)
report-climb b n = (
  unfold report in
      ground (arith, messages-of_Agrees 0 none ((b, none) ∷ climb b n) (climb-Agrees b n)),
  top-climb b n,
)

-- The message about two heights names the position before the second of them. If the node there
-- failed, the height that the message gives it is that of an earlier node: here of node 0.
pub report_blames_failed_node :
    (s b : ℕ) (e : String)
    → block_diff < abs_diff b s
    → report ((s, none) ∷ (0, some e) ∷ (b, none) ∷ []) ≡ (
      0,
      some (
          closed "|" (
            ("node " ^^ "1" ^^ " err: " ^^ e)
            ∷ ("nodes "
                ^^ "2"
                ^^ " (height="
                ^^ format b
                ^^ ") and "
                ^^ "1"
                ^^ " (height="
                ^^ format s
                ^^ ") are reporting different chain tips")
            ∷ [])),
    )
report_blames_failed_node s b e far =
    let one : format 1 ≡ "1" = unfold format in refl in
    let two : format 2 ≡ "2" = unfold format in refl in
    let far_apart : ltb block_diff (abs_diff b s) ≡ true = ground arith in
    rw (← one, ← two) (unfold report messages in rw (far_apart, messages))

-- The difference of two `uint64` is that of Go's subtraction, in both branches, and nothing wraps.
pub abs_diff-sub64 :
    (a b : ℕ)
    → a < word
    → b < word
    → (abs_diff a b ≡ (if ltb b a then sub64 a b else sub64 b a)) × (abs_diff a b < word)
unfolding abs_diff
abs_diff-sub64 a b h k = elim (Bool-cases (ltb b a)) [
  | inl more ↦
      let below : b ≤ a = ground arith in
      (rw more (sym (sub64_of_le a b h below)), rw more (omega arith))
  | inr less ↦
      let below : a ≤ b = ground arith in
      (rw less (sym (sub64_of_le b a k below)), rw less (omega arith))
]
