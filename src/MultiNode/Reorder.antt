-- ===== src/MultiNode/Reorder.antt =====
-- Every method leaves the same nodes in the list, in some order, whatever the nodes answer.
use eth_proxy.Prelude.{
  ℕ, zero, suc, ◌+◌, ◌≡◌, sym, ◌∙◌, String, List, [], ◌∷◌, ◌++◌, Option, none, some, Run, pure,
  ◌>>=◌, >>=-eq-some, length, get_elem?, set, arith, Option-cases, Bool-cases, inl, inr, str_eq,
}
use mathlib.Core.List.{Perm}
use mathlib.Core.List.Perm
use mathlib.Core.Option.{some-injective}
use eth_proxy.Ethereum.{Ethereum, SimpleEthClient}
use eth_proxy.MultiNode.{
  Item, MultiNodeClient, swap_up, increase_node_priority, try_nodes, multi_call, ask_heights,
  tip_report, verdict, block_number,
}
use eth_proxy.MultiNode.Priority.{increase_at}
use eth_proxy.MultiNode.Heights.{ask_heights_fail, ask_heights_answer, block_number_lem}
use eth_proxy.MultiNode.Failover.{multi_call-try_nodes}

module _ {ℓ} {A : Type ℓ} where
  swap-perm :
      (xs : List A) (n : ℕ) (a b : A)
      → get_elem? xs n ≡ some a
      → get_elem? xs (suc n) ≡ some b
      → Perm (set (set xs n b) (suc n) a) xs
  swap-perm [] n a b p q = cc
  swap-perm (x ∷ []) zero a b p q = cc
  swap-perm (x ∷ y ∷ xs) zero a b p q =
      rw (← some-injective x a p, ← some-injective y b q) (Perm.swap x y xs)
  swap-perm (x ∷ xs) (suc n) a b p q = Perm.cons x (swap-perm xs n a b p q)

module _ {E : Ethereum} {W : Type 0} where
  -- The list holds the same nodes, in some order.
  abbrev pub Reordered : MultiNodeClient E W → MultiNodeClient E W → Type 0
  Reordered m' m = Perm m'.nodes m.nodes

  swap_up-Reordered :
      (n : ℕ) (x : Item E W) (m m' : MultiNodeClient E W) (t : Unit {0})
      → get_elem? m.nodes (suc n) ≡ some x
      → swap_up (suc n) x m ≡ some (t, m')
      → Reordered m' m
  swap_up-Reordered n x m m' t found done = elim (Option-cases (get_elem? m.nodes n)) [
    | inl missing ↦ absurd (unfold swap_up in ground arith)
    | inr (p, before) ↦
        let same : m'.nodes ≡ set (set m.nodes n x) (suc n) p = unfold swap_up in ground arith in
        rw same (swap-perm m.nodes n p x before found)
  ]

  pub increase-Reordered :
      (position : ℕ) (id : String) (m m' : MultiNodeClient E W) (t : Unit {0})
      → increase_node_priority position id m ≡ some (t, m')
      → Reordered m' m
  increase-Reordered zero id m m' t done =
      let same : m'.nodes ≡ m.nodes = unfold increase_node_priority in ground arith in
      rw same (Perm.refl _)
  increase-Reordered (suc n) id m m' t done = elim (Option-cases (get_elem? m.nodes (suc n))) [
    | inl missing ↦ absurd (unfold increase_node_priority in ground arith)
    | inr (x, found) ↦ elim (Bool-cases (str_eq x.id id)) [
      | inl same_id ↦
          swap_up-Reordered n x m m' t found (sym (increase_at n x id m found same_id) ∙ done)
      | inr other ↦
          let same : m'.nodes ≡ m.nodes = unfold increase_node_priority in ground arith in
          rw same (Perm.refl _)
    ]
  ]

  module _ {A : Type 0} (call : SimpleEthClient E W → Run W (A × Option String)) where
    try_nodes_round :
        (rounds i : ℕ) (last : A × Option String) (m m' : MultiNodeClient E W)
        (r : A × Option String) (x : Item E W) (a : A) (e : Option String) (w : W)
        → get_elem? m.nodes i ≡ some x
        → call x.client m.world ≡ some ((a, e), w)
        → ((last' : A × Option String)
            → try_nodes call rounds (i + 1) last' (record m { world = w }) ≡ some (r, m')
            → Reordered m' m)
        → try_nodes call (suc rounds) i last m ≡ some (r, m')
        → Reordered m' m
    try_nodes_round rounds i last m m' r x a (some f) w found answer later done =
        later (a, some f) (unfold try_nodes in ground arith)
    try_nodes_round rounds i last m m' r x a none w found answer later done =
        let raised : (increase_node_priority i x.id >>= λ _. pure (a, none))
              (record m { world = w })
            ≡ some (r, m') =
          unfold try_nodes in ground arith in
        let (t, m'', moved, ends) =
          >>=-eq-some (increase_node_priority i x.id) (λ _. pure (a, none)) (record m { world = w })
            raised in
        let same : m'' ≡ m' = ground arith in
        rw (← same) (increase-Reordered i x.id (record m { world = w }) m'' t moved)

    try_nodes-Reordered :
        (rounds i : ℕ) (last : A × Option String) (m m' : MultiNodeClient E W)
        (r : A × Option String)
        → try_nodes call rounds i last m ≡ some (r, m')
        → Reordered m' m
    try_nodes-Reordered zero i last m m' r e =
        let same : m'.nodes ≡ m.nodes = unfold try_nodes in ground arith in rw same (Perm.refl _)
    try_nodes-Reordered (suc rounds) i last m m' r e = elim (Option-cases (get_elem? m.nodes i)) [
      | inl missing ↦ absurd (unfold try_nodes in ground arith)
      | inr (x, found) ↦ elim (Option-cases (call x.client m.world)) [
        | inl panics ↦ absurd (unfold try_nodes in ground arith)
        | inr (((a, f), w), answer) ↦
            try_nodes_round rounds i last m m' r x a f w found answer
              (λ last' later.
                try_nodes-Reordered rounds (i + 1) last' (record m { world = w }) m' r later)
              e
      ]
    ]

    pub multi_call-Reordered :
        (zero_value : A) (m m' : MultiNodeClient E W) (r : A × Option String)
        → multi_call call zero_value m ≡ some (r, m')
        → Reordered m' m
    multi_call-Reordered zero_value m m' r e =
        try_nodes-Reordered (length m.nodes) 0 (zero_value, none) m m' r
          (sym (multi_call-try_nodes call zero_value m) ∙ e)

  ask_heights_round :
      (rounds i : ℕ) (hs : List ℕ) (text : String) (m m' : MultiNodeClient E W)
      (r : List ℕ × String) (x : Item E W) (b : ℕ) (e : Option String) (w : W)
      → get_elem? m.nodes i ≡ some x
      → x.client.block_number m.world ≡ some ((b, e), w)
      → ((hs' : List ℕ) (text' : String)
          → ask_heights rounds (i + 1) hs' text' (record m { world = w }) ≡ some (r, m')
          → m'.nodes ≡ m.nodes)
      → ask_heights (suc rounds) i hs text m ≡ some (r, m')
      → m'.nodes ≡ m.nodes
  ask_heights_round rounds i hs text m m' r x b (some f) w found answer later done =
      later hs _ (sym (ask_heights_fail rounds i hs text m x b f w found answer) ∙ done)
  ask_heights_round rounds i hs text m m' r x b none w found answer later done =
      elim (Option-cases (tip_report i (hs ++ b ∷ []))) [
        | inl outside ↦ absurd (unfold ask_heights in ground arith)
        | inr (more, told) ↦
            later (hs ++ b ∷ []) _
              (sym (ask_heights_answer rounds i hs text m x b w more found answer told) ∙ done)
      ]

  ask_heights-nodes :
      (rounds i : ℕ) (hs : List ℕ) (text : String) (m m' : MultiNodeClient E W)
      (r : List ℕ × String)
      → ask_heights rounds i hs text m ≡ some (r, m')
      → m'.nodes ≡ m.nodes
  ask_heights-nodes zero i hs text m m' r e = unfold ask_heights in ground arith
  ask_heights-nodes (suc rounds) i hs text m m' r e = elim (Option-cases (get_elem? m.nodes i)) [
    | inl missing ↦ absurd (unfold ask_heights in ground arith)
    | inr (x, found) ↦ elim (Option-cases (x.client.block_number m.world)) [
      | inl panics ↦ absurd (unfold ask_heights in ground arith)
      | inr (((b, f), w), answer) ↦
          ask_heights_round rounds i hs text m m' r x b f w found answer
            (λ hs' text' later.
              ask_heights-nodes rounds (i + 1) hs' text' (record m { world = w }) m' r later)
            e
    ]
  ]

  verdict-nodes :
      (a : List ℕ × String) (m m' : MultiNodeClient E W) (r : ℕ × Option String)
      → verdict a m ≡ some (r, m')
      → m'.nodes ≡ m.nodes
  unfolding verdict
  verdict-nodes (hs, text) m m' r e = ground arith

  pub block_number-nodes :
      (m m' : MultiNodeClient E W) (r : ℕ × Option String)
      → block_number m ≡ some (r, m')
      → m'.nodes ≡ m.nodes
  block_number-nodes m m' r e =
      let (a, m'', asked, told) =
        >>=-eq-some (ask_heights (length m.nodes) 0 [] "") verdict m
          (sym (block_number_lem m) ∙ e) in
      verdict-nodes a m'' m' r told ∙ ask_heights-nodes (length m.nodes) 0 [] "" m m'' a asked
