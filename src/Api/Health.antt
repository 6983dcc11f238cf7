-- ===== src/Api/Health.antt =====
-- `/health` over several nodes: the failures are what `BlockNumber` found.
use Prim.Native.Char.{char}
use eth_proxy.Prelude.{
  ℕ, suc, ◌+◌, ◌-◌, ◌≡◌, ◌≢◌, refl, ap, ◌∙◌, String, ◌^^◌, List, [], ◌∷◌, Option, none, some, ok,
  ◌>>=◌, ltb, length, drop_last, All, if◌then◌else◌, arith, Bool-cases, inl, inr,
}
use eth_proxy.Prelude.Text.{
  split, closed, Lacks, append-Lacks, split-closed, count, count-append, length-split,
}
use eth_proxy.Prelude.Decimal.{format, format-Lacks}
use eth_proxy.Ethereum.{Ethereum}
use eth_proxy.Service.Constants.{service_name}
use eth_proxy.MultiNode.{
  MultiNodeClient, multi_node_client, block_number, node_error, tips_differ, block_diff, abs_diff,
}
use eth_proxy.MultiNode.Replies.{Reply as NodeReply, poll, messages, report, summary, first_height}
use eth_proxy.MultiNode.Heights.{block_number-report}
use eth_proxy.Http.{conn_writer}
use eth_proxy.Http.Delivery.{success, deliver-fresh, fresh, json_header}
use eth_proxy.Api.{Params, health_failures, health_json}
use eth_proxy.Api.Answers.{to_health, answer, serve, serve-answer}

abbrev bar : ℕ
bar = b'|'

-- No error of a node holds a bar.
abbrev pub Plain : List NodeReply → Type 0
Plain [] = Unit
Plain ((b, none) ∷ rs) = Plain rs
Plain ((b, some e) ∷ rs) = Lacks bar e × Plain rs

format_plain : (n : ℕ) → Lacks bar (format n)
format_plain n = format-Lacks bar n (omega arith)

literal : (s t : String) → Lacks bar s → Lacks bar t → Lacks bar (s ^^ t)
literal s t = append-Lacks bar s t

node_error-Lacks : (i : ℕ) (e : String) → Lacks bar e → Lacks bar (node_error i e)
node_error-Lacks i e h =
    literal _ _ (omega arith) (literal _ _ (format_plain i) (literal _ _ (omega arith) h))

tips_differ-Lacks : (i f s : ℕ) → Lacks bar (tips_differ i f s)
tips_differ-Lacks i f s = literal _ _ (omega arith) (
    literal _ _ (format_plain i) (
      literal _ _ (omega arith) (
        literal _ _ (format_plain f) (
          literal _ _ (omega arith) (
            literal _ _ (format_plain (i - 1))
              (literal _ _ (omega arith) (literal _ _ (format_plain s) (omega arith))))))))

messages_more :
    (i : ℕ) (previous : Option ℕ) (b : ℕ) (e : String) (rs : List NodeReply)
    → Lacks bar (node_error i e)
    → All (Lacks bar) (messages (i + 1) previous rs)
    → All (Lacks bar) (messages i previous ((b, some e) ∷ rs))
unfolding messages
messages_more i previous b e rs h hs = (h, hs)

messages_first :
    (i b : ℕ) (rs : List NodeReply)
    → All (Lacks bar) (messages (i + 1) (some b) rs)
    → All (Lacks bar) (messages i none ((b, none) ∷ rs))
unfolding messages
messages_first i b rs hs = hs

messages_next :
    (i s b : ℕ) (rs : List NodeReply)
    → Lacks bar (tips_differ i b s)
    → All (Lacks bar) (messages (i + 1) (some b) rs)
    → All (Lacks bar) (messages i (some s) ((b, none) ∷ rs))
unfolding messages
messages_next i s b rs h hs = elim (Bool-cases (ltb block_diff (abs_diff b s))) [
  | inl far ↦ rw (far, if◌then◌else◌) (h, hs)
  | inr near ↦ rw (near, if◌then◌else◌) hs
]

failures_split :
    (ms : List String) → All (Lacks bar) ms → drop_last (split (closed "|" ms) bar) ≡ ms
failures_split ms h = split-closed (char 124 tt) ms h

health_of :
    {E : Ethereum} {W : Type 0} (version : String) (p : Params) (m : MultiNodeClient E W)
    (r : NodeReply) (m' : MultiNodeClient E W)
    → block_number m ≡ some (r, m')
    → answer multi_node_client version to_health p m
      ≡ some (
        success (if ltb 0 (length (health_failures r.1)) then 503 else 200) (
            ok (
              health_json (record {
                version = version;
                service = service_name;
                failures = health_failures r.1;
              }))),
        m',
      )
health_of version p m r m' e = unfold answer in rw (e, ◌>>=◌)

messages-Lacks :
    (i : ℕ) (previous : Option ℕ) (rs : List NodeReply)
    → Plain rs
    → All (Lacks bar) (messages i previous rs)
messages-Lacks i previous [] h = unfold messages in tt
messages-Lacks i previous ((b, some e) ∷ rs) (h, hs) =
    messages_more i previous b e rs (node_error-Lacks i e h) (messages-Lacks (i + 1) previous rs hs)
messages-Lacks i none ((b, none) ∷ rs) h =
    messages_first i b rs (messages-Lacks (i + 1) (some b) rs h)
messages-Lacks i (some s) ((b, none) ∷ rs) h =
    messages_next i s b rs (tips_differ-Lacks i b s) (messages-Lacks (i + 1) (some b) rs h)

unfold_failures :
    (ms : List String)
    → health_failures (some (closed "|" ms)) ≡ drop_last (split (closed "|" ms) bar)
unfolding health_failures
unfold_failures ms = refl

failures-closed :
    (ms : List String) (first : ℕ) → All (Lacks bar) ms → health_failures (summary ms first).1 ≡ ms
failures-closed [] first h = unfold health_failures in refl
failures-closed (m ∷ ms) first h = unfold_failures (m ∷ ms) ∙ failures_split (m ∷ ms) h

answer-messages :
    {E : Ethereum} {W : Type 0} (version : String) (p : Params) (m : MultiNodeClient E W)
    (rs : List NodeReply) (v : W)
    → m.nodes ≢ []
    → poll m.nodes m.world ≡ some (rs, v)
    → Plain rs
    → answer multi_node_client version to_health p m
      ≡ some (
        success (if ltb 0 (length (messages 0 none rs)) then 503 else 200) (
            ok (
              health_json (record {
                version = version;
                service = service_name;
                failures = messages 0 none rs;
              }))),
        record m { world = v },
      )
answer-messages version p m rs v h asked plain =
    health_of version p m (report rs) (record m { world = v }) (block_number-report m rs v h asked)
    ∙ unfold report in
      rw (failures-closed (messages 0 none rs) (first_height rs) (messages-Lacks 0 none rs plain))

-- If no node's error holds a bar, `/health` over at least one node asks every node once, in order, and
-- sends one response, on a connection that takes it: its failures are just the messages about the nodes
-- and their heights, and its status is 503 if there is one and 200 if there is none.
pub health-messages :
    {E : Ethereum} {W : Type 0} (version : String) (p : Params) (m : MultiNodeClient E W)
    (rs : List NodeReply) (v : W) (faults : List (Option String))
    → m.nodes ≢ []
    → poll m.nodes m.world ≡ some (rs, v)
    → Plain rs
    → serve multi_node_client version to_health p (fresh (none ∷ faults)) m
      ≡ some (
        record {
          header = json_header;
          sent = some (if ltb 0 (length (messages 0 none rs)) then 503 else 200, json_header);
          body =
              health_json (record {
                version = version;
                service = service_name;
                failures = messages 0 none rs;
              })
              ∷ [];
          faults = faults;
        },
        record m { world = v },
      )
health-messages version p m rs v faults h asked plain =
    serve-answer multi_node_client version to_health p (fresh (none ∷ faults)) m
    ∙ rw (answer-messages version p m rs v h asked plain, ◌>>=◌) (rw (deliver-fresh _ faults))

-- The failures that one message becomes: one, and one more for each bar in it.
abbrev pub pieces : List String → ℕ
pieces [] = 0
pieces (m ∷ ms) = suc (count bar m) + pieces ms

count-bar : count bar "|" ≡ 1
unfolding count
count-bar = refl

count-closed : (ms : List String) → count bar (closed "|" ms) ≡ pieces ms
count-closed [] = unfold count in refl
count-closed (m ∷ ms) =
    let ends = count-append bar (m ^^ "|") (closed "|" ms) in
    let joins = count-append bar m "|" in omega (arith, ends, joins, count-bar, count-closed ms)

length-drop_last : (xs : List String) → length (drop_last xs) ≡ length xs - 1
length-drop_last [] = refl
length-drop_last (x ∷ []) = refl
length-drop_last (x ∷ y ∷ xs) = omega (arith, length-drop_last (y ∷ xs))

-- The failures that `/health` reads off the text of at least one message are as many as the
-- messages and the bars within them: an error that holds a bar counts as several.
pub length-health_failures :
    (m : String) (ms : List String)
    → length (health_failures (summary (m ∷ ms) 0).1) ≡ pieces (m ∷ ms)
length-health_failures m ms =
    ap length (unfold_failures (m ∷ ms))
    ∙ omega (
      arith,
      length-drop_last (split (closed "|" (m ∷ ms)) bar),
      length-split (closed "|" (m ∷ ms)) bar,
      count-closed (m ∷ ms),
    )
