-- ===== src/MultiNode/Failover.antt =====
-- The loop that the proxied methods share: which node answers, and where it stands afterwards.
use eth_proxy.Prelude.{
  ℕ, suc, ◌+◌, ◌≡◌, refl, ap, ◌∙◌, sym, String, List, [], ◌∷◌, ◌++◌, Option, none, some, Run,
  length, length-append, get_elem?, get_elem?-append_length, append_assoc, append-nil, arith, All,
}
use native.Mathlib.Nat.{zero-add}
use eth_proxy.Ethereum.{Ethereum, SimpleEthClient}
use eth_proxy.MultiNode.{Item, MultiNodeClient, try_nodes, multi_call}
use eth_proxy.MultiNode.Priority.{bump, increase_node_priority-bump}

module _ {E : Ethereum} {W : Type 0} {A : Type 0}
    (call : SimpleEthClient E W → Run W (A × Option String)) where
  -- The nodes of a list fail one after the other, from the world `w` to the last index; `answer` is
  -- what the last of them gave, and `before` if there is none.
  pub data Fails : A × Option String → List (Item E W) → W → A × Option String → W → Type 0 where
    done : {answer : A × Option String} {w : W} → Fails answer [] w answer w
    more :
        {before answer : A × Option String} {x : Item E W} {xs : List (Item E W)} {w v u : W}
        {a : A} {e : String}
        → call x.client w ≡ some ((a, some e), v)
        → Fails (a, some e) xs v answer u
        → Fails before (x ∷ xs) w answer u

  -- One round, at a node that fails.
  try_nodes_fail :
      (k i : ℕ) (before : A × Option String) (m : MultiNodeClient E W) (x : Item E W) (a : A)
      (e : String) (v : W)
      → get_elem? m.nodes i ≡ some x
      → call x.client m.world ≡ some ((a, some e), v)
      → try_nodes call (suc k) i before m
        ≡ try_nodes call k (i + 1) (a, some e) (record m { world = v })
  unfolding try_nodes
  try_nodes_fail k i before m x a e v found failed = ground arith

  -- One round, at a node that answers.
  try_nodes_answer :
      (k : ℕ) (pre : List (Item E W)) (x : Item E W) (post : List (Item E W))
      (before : A × Option String) (w v : W) (a : A)
      → call x.client w ≡ some ((a, none), v)
      → try_nodes call (suc k) (length pre) before (record { nodes = pre ++ x ∷ post; world = w })
        ≡ some ((a, none), record { nodes = bump pre x post; world = v })
  unfolding try_nodes
  try_nodes_answer k pre x post before w v a answered =
      ground (arith, get_elem?-append_length pre x post, increase_node_priority-bump pre x post v)

  try_nodes_over :
      (i : ℕ) (last : A × Option String) (m : MultiNodeClient E W)
      → try_nodes call 0 i last m ≡ some (last, m)
  unfolding try_nodes
  try_nodes_over i last m = refl

  try_nodes-Fails :
      (nodes pre failing rest : List (Item E W)) (i k : ℕ) {before answer : A × Option String}
      {w v : W}
      → Fails before failing w answer v
      → nodes ≡ pre ++ (failing ++ rest)
      → i ≡ length pre
      → try_nodes call (length failing + k) i before (record { nodes = nodes; world = w })
        ≡ try_nodes call k (i + length failing) answer (record { nodes = nodes; world = v })
  try_nodes-Fails nodes pre failing rest i k {before} done split at =
      let start : 0 + k ≡ k = omega arith in let here : i + 0 ≡ i = omega arith in rw (start, here)
  try_nodes-Fails nodes pre failing rest i k {before} {w} (more {x} {xs} {v} {a} {e} failed later)
        split at =
      let found : get_elem? nodes i ≡ some x =
        rw (split, at) (get_elem?-append_length pre x (xs ++ rest)) in
      let rounds : suc (length xs) + k ≡ suc (length xs + k) = omega arith in
      let next : i + suc (length xs) ≡ (i + 1) + length xs = omega arith in
      rw (rounds, next)
        (try_nodes_fail (length xs + k) i before _ x a e v found failed
          ∙ try_nodes-Fails nodes (pre ++ x ∷ []) xs rest (i + 1) k later
              (split ∙ sym (append_assoc pre (x ∷ []) (xs ++ rest)))
              (omega (arith, length-append pre (x ∷ []))))

  -- What one call may do to a client: the nodes before `x` fail in order, `x` answers, and it moves
  -- up one place; or every node fails in order, and the list stays as it is.
  pub data Outcome (before : A × Option String) (m : MultiNodeClient E W)
      : A × Option String → MultiNodeClient E W → Type 0 where
    answered :
        (failing post : List (Item E W)) (x : Item E W) (last : A × Option String) (v u : W) (a : A)
        → m.nodes ≡ failing ++ x ∷ post
        → Fails before failing m.world last v
        → call x.client v ≡ some ((a, none), u)
        → Outcome before m (a, none) (record { nodes = bump failing x post; world = u })
    exhausted :
        {answer : A × Option String} {v : W}
        → Fails before m.nodes m.world answer v
        → Outcome before m answer (record m { world = v })

  -- No node's client panics.
  abbrev pub Returns : List (Item E W) → Type 0
  Returns = All (λ x. (w : W) → (r : (A × Option String) × W) × (call x.client w ≡ some r))

  -- The first node of a list that answers, if one does.
  data Scan (before : A × Option String) (xs : List (Item E W)) (w : W) : Type 0 where
    hit :
        (failing post : List (Item E W)) (x : Item E W) (last : A × Option String) (v u : W) (a : A)
        → xs ≡ failing ++ x ∷ post
        → Fails before failing w last v
        → call x.client v ≡ some ((a, none), u)
        → Scan before xs w
    miss : (answer : A × Option String) (v : W) → Fails before xs w answer v → Scan before xs w

  Scan-cons :
      {before : A × Option String} {x : Item E W} {xs : List (Item E W)} {w v : W} {a : A}
      {e : String}
      → call x.client w ≡ some ((a, some e), v)
      → Scan (a, some e) xs v
      → Scan before (x ∷ xs) w
  Scan-cons {x} failed (hit failing post y last v u b split fails answers) =
      hit (x ∷ failing) post y last v u b (ap (λ l. x ∷ l) split) (more failed fails) answers
  Scan-cons failed (miss answer v fails) = miss answer v (more failed fails)

  scan : (before : A × Option String) (xs : List (Item E W)) (w : W) → Returns xs → Scan before xs w
  scan before [] w h = miss before w done
  scan before (x ∷ xs) w (returns, h) = go (returns w) (λ a e v. scan (a, some e) xs v h)
    where
      go :
          (r : (A × Option String) × W) × (call x.client w ≡ some r)
          → ((a : A) (e : String) (v : W) → Scan (a, some e) xs v)
          → Scan before (x ∷ xs) w
      go (((a, none), u), e) later = hit [] xs x before w u a refl done e
      go (((a, some m), v), e) later = Scan-cons e (later a m v)

  pub multi_call-try_nodes :
      (zero_value : A) (m : MultiNodeClient E W)
      → multi_call call zero_value m ≡ try_nodes call (length m.nodes) 0 (zero_value, none) m
  unfolding multi_call
  multi_call-try_nodes zero_value m = refl

  pub multi_call_hit :
      (zero_value : A) (m : MultiNodeClient E W) (failing post : List (Item E W)) (x : Item E W)
      (last : A × Option String) (v u : W) (a : A)
      → m.nodes ≡ failing ++ x ∷ post
      → Fails (zero_value, none) failing m.world last v
      → call x.client v ≡ some ((a, none), u)
      → multi_call call zero_value m
        ≡ some ((a, none), record { nodes = bump failing x post; world = u })
  multi_call_hit zero_value m failing post x last v u a split fails answers =
      let n = length failing in
      let rounds : length m.nodes ≡ n + suc (length post) =
        rw split (length-append failing (x ∷ post)) in
      multi_call-try_nodes zero_value m
      ∙ rw rounds (
          try_nodes-Fails m.nodes [] failing (x ∷ post) 0 (suc (length post)) fails split refl
          ∙ rw (zero-add, split) (try_nodes_answer (length post) failing x post last v u a answers))

  multi_call_miss :
      (zero_value : A) (m : MultiNodeClient E W) (answer : A × Option String) (v : W)
      → Fails (zero_value, none) m.nodes m.world answer v
      → multi_call call zero_value m ≡ some (answer, record m { world = v })
  multi_call_miss zero_value m answer v fails =
      let rounds : length m.nodes ≡ length m.nodes + 0 = omega arith in
      let whole = sym (append-nil m.nodes) in
      multi_call-try_nodes zero_value m
      ∙ ap (λ k. try_nodes call k 0 (zero_value, none) m) rounds
      ∙ try_nodes-Fails m.nodes [] m.nodes [] 0 0 fails whole refl
      ∙ try_nodes_over (0 + length m.nodes) answer (record m { world = v })

  -- If no node's client panics, a call returns, and does one of the two things that `Outcome`
  -- names: the nodes are called in order up to the first that answers without an error, whose
  -- answer is returned, and which moves one place up; if there is none, the last node's answer and
  -- error are returned, and the list stays as it is.
  pub multi_call-Outcome :
      (zero_value : A) (m : MultiNodeClient E W)
      → Returns m.nodes
      → (r : A × Option String) × (m' : MultiNodeClient E W) × (multi_call call zero_value m
          ≡ some (r, m'))
        × Outcome (zero_value, none) m r m'
  multi_call-Outcome zero_value m h = go (scan (zero_value, none) m.nodes m.world h)
    where
      go :
          Scan (zero_value, none) m.nodes m.world
          → (r : A × Option String) × (m' : MultiNodeClient E W) × (multi_call call zero_value m
              ≡ some (r, m'))
            × Outcome (zero_value, none) m r m'
      go (hit failing post x last v u a split fails answers) = (
        (a, none),
        record { nodes = bump failing x post; world = u },
        multi_call_hit zero_value m failing post x last v u a split fails answers,
        answered failing post x last v u a split fails answers,
      )
      go (miss answer v fails) = (
        answer,
        record m { world = v },
        multi_call_miss zero_value m answer v fails,
        exhausted fails,
      )
