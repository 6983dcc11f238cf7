-- ===== src/MultiNode/Concurrent/Safety.antt =====
-- However the steps of calls are mixed, no index is out of range.
use eth_proxy.Prelude.{
  ℕ, zero, suc, ◌+◌, ◌<◌, ◌≡◌, ◌≢◌, ◌⊎◌, inl, inr, refl, sym, false, String, ◌^^◌, List, [], ◌∷◌,
  ◌++◌, none, some, length, length-append, get_elem?, ltb, arith, Option-cases, Bool-cases, All,
  eq_iff,
}
use mathlib.Core.List.{Perm}
use mathlib.Core.List.Perm
use text.Mathlib.TextLemmas.{append-eq-nil_iff}
use eth_proxy.Prelude.Positions.{get_elem?_in_range, snoc_cases, snoc-ne-nil, All_at, All-set}
use eth_proxy.Ethereum.{Ethereum}
use eth_proxy.MultiNode.{
  MultiNodeClient, increase_node_priority, node_error, tip_report, verdict, swap_up,
}
use eth_proxy.MultiNode.Replies.{tip_report_lem}
use eth_proxy.MultiNode.Concurrent.{
  Thread, looping, raising, finished, asking, reported, step, System, Step, by_thread, Steps,
  no_step, then_step, Started, job_started, block_number_started,
}
use eth_proxy.MultiNode.Concurrent.Progress.{step-Reordered, length-perm}
use eth_proxy.MultiNode.Concurrent.Nodes.{Returning, AllReturn, Steps-AllReturn}

-- A call that is about to raise a node has its position in range; a loop over the heights that has
-- made a round has a height or an error.
abbrev InRange : {E : Ethereum} → ℕ → Thread E → Type 0
InRange n (raising j i id a) = i < n
InRange n (asking i heights err_str) = (i ≡ 0) ⊎ ((heights ≢ []) ⊎ (err_str ≢ ""))
InRange n _ = Unit

bar-ne-empty : (s t : String) → s ^^ (t ^^ "|") ≢ ""
bar-ne-empty s t e = absurd (one (append-eq-nil_iff.0 (append-eq-nil_iff.0 e).1).1)
  where
    one : ◌≢◌ {A = String} "|" ""
    one = ground (arith, eq_iff "|" "")

-- There are heights to compare once one has been appended.
tip_report-ne-none : (i : ℕ) (hs : List ℕ) (b : ℕ) → tip_report i (hs ++ b ∷ []) ≢ none
tip_report-ne-none i hs b e = elim (snoc_cases hs) [
  | inl nothing ↦ let told = tip_report_lem i none hs b nothing in absurd (cc)
  | inr (before, s, whole) ↦
      let told = tip_report_lem i (some s) hs b (before, whole) in absurd (cc)
]

Started-InRange :
    {E : Ethereum} (n : ℕ) (ts : List (Thread E)) → All Started ts → All (InRange n) ts
Started-InRange n [] h = tt
Started-InRange n (t ∷ ts) (b, h) = (begins t b, Started-InRange n ts h)
  where
    begins : {E : Ethereum} (t : Thread E) → Started t → InRange n t
    begins _ (job_started j) = tt
    begins _ block_number_started = inl refl

module _ {E : Ethereum} {W : Type 0} where
  step-InRange :
      (t t' : Thread E) (m m' : MultiNodeClient E W)
      → InRange (length m.nodes) t
      → step t m ≡ some (t', m')
      → InRange (length m'.nodes) t'
  step-InRange (looping j i last) t' m m' h e = unfold step in ground arith
  step-InRange (raising j i id a) t' m m' h e = unfold step in ground arith
  step-InRange (finished j r) t' m m' h e = unfold step in ground arith
  step-InRange (asking i hs err_str) t' m m' h e = elim (Option-cases (get_elem? m.nodes i)) [
    | inl missing ↦ unfold step in ground arith
    | inr (x, found) ↦ elim (Option-cases (x.client.block_number m.world)) [
      | inl panics ↦ unfold step in ground arith
      | inr (((b, none), w), answered) ↦ unfold step in ground (arith, snoc-ne-nil hs b)
      | inr (((b, some f), w), failed) ↦
          unfold step in ground (arith, bar-ne-empty err_str (node_error i f))
    ]
  ]
  step-InRange (reported r) t' m m' h e = unfold step in ground arith

  -- The step of a call that keeps its positions in range does not panic.
  raise-ne-none :
      (i : ℕ) (id : String) (m : MultiNodeClient E W)
      → i < length m.nodes
      → increase_node_priority i id m ≢ none
  raise-ne-none zero id m h = unfold increase_node_priority in ground arith
  raise-ne-none (suc i) id m h =
      let (x, found) = get_elem?_in_range m.nodes (suc i) h in
      let (p, before) = get_elem?_in_range m.nodes i (omega arith) in
      unfold increase_node_priority swap_up in ground arith

  verdict-ne-none :
      (hs : List ℕ) (err_str : String) (m : MultiNodeClient E W)
      → (hs ≢ []) ⊎ (err_str ≢ "")
      → verdict (hs, err_str) m ≢ none
  unfolding verdict
  verdict-ne-none [] err_str m (inl h) = absurd (h refl)
  verdict-ne-none (b ∷ hs) err_str m (inl h) = ground arith
  verdict-ne-none hs err_str m (inr h) = ground (arith, eq_iff err_str "")

  late :
      (i : ℕ) (hs : List ℕ) (err_str : String) (m : MultiNodeClient E W)
      → m.nodes ≢ []
      → (i ≡ 0) ⊎ ((hs ≢ []) ⊎ (err_str ≢ ""))
      → ltb i (length m.nodes) ≡ false
      → (hs ≢ []) ⊎ (err_str ≢ "")
  late i hs err_str m some_node (inr h) beyond = h
  late i hs err_str m some_node (inl first) beyond = elim (snoc_cases m.nodes) [
    | inl nothing ↦ absurd (some_node nothing)
    | inr (before, x, whole) ↦
        let size : length m.nodes ≡ length before + 1 = rw whole (length-append before (x ∷ [])) in
        absurd (ground arith)
  ]

  step-ne-none :
      (t : Thread E) (m : MultiNodeClient E W)
      → m.nodes ≢ []
      → AllReturn m
      → InRange (length m.nodes) t
      → step t m ≢ none
  step-ne-none (looping j i last) m some_node returns h =
      elim (Option-cases (get_elem? m.nodes i)) [
        | inl missing ↦ elim (Bool-cases (ltb i (length m.nodes))) [
          | inl below ↦ let (x, found) = get_elem?_in_range m.nodes i (ground arith) in cc
          | inr beyond ↦ unfold step in ground arith
        ]
        | inr (x, found) ↦
            let ((r, w), called) =
              (All_at (λ x. Returning x.client) m.nodes i x returns found).calls j m.world in
            unfold step in ground arith
      ]
  step-ne-none (raising j i id a) m some_node returns h =
      let raised = raise-ne-none i id m h in unfold step in ground arith
  step-ne-none (finished j r) m some_node returns h = unfold step in cc
  step-ne-none (asking i hs err_str) m some_node returns h =
      elim (Bool-cases (ltb i (length m.nodes))) [
        | inl below ↦
            let (x, found) = get_elem?_in_range m.nodes i (ground arith) in
            let ((r, w), called) =
              (All_at (λ x. Returning x.client) m.nodes i x returns found).block_number m.world in
            let told = tip_report-ne-none i hs r.0 in unfold step in ground arith
        | inr beyond ↦
            let told = verdict-ne-none hs err_str m (late i hs err_str m some_node h beyond) in
            unfold step in ground arith
      ]
  step-ne-none (reported r) m some_node returns h = unfold step in cc

  abbrev AllInRange : System E W → Type 0
  AllInRange s = All (InRange (length s.client.nodes)) s.threads

  Step-InRange :
      (s s' : System E W)
      → AllInRange s
      → Step s s'
      → AllInRange s' × Perm s'.client.nodes s.client.nodes
  Step-InRange s s' h (by_thread k t t' m' found busy e) =
      let n = length s.client.nodes in
      let same = step-Reordered t t' s.client m' e in
      let after = step-InRange t t' s.client m' (All_at (InRange n) s.threads k t h found) e in
      (
        rw (length-perm same)
            (All-set (InRange n) s.threads k t' h (rw (← length-perm same) after)),
        same,
      )

  Steps-InRange :
      (s s' : System E W) (n : ℕ)
      → AllInRange s
      → Steps s n s'
      → AllInRange s' × Perm s'.client.nodes s.client.nodes
  Steps-InRange s s' zero h no_step = (h, Perm.refl _)
  Steps-InRange s s'' (suc n) h (then_step {s'} steps one) =
      let (before, same) = Steps-InRange s s' n h steps in
      let (after, same') = Step-InRange s' s'' before one in (after, Perm.trans same' same)

  -- Calls that start over at least one node, none of which panics, never panic, however their steps are
  -- mixed: after any number of steps every call can make its next one, and the list holds the nodes
  -- that it held at the start, in some order.
  pub Steps-never_panics :
      (s s' : System E W) (n k : ℕ) (t : Thread E)
      → s.client.nodes ≢ []
      → AllReturn s.client
      → All Started s.threads
      → Steps s n s'
      → get_elem? s'.threads k ≡ some t
      → Perm s'.client.nodes s.client.nodes
        × ((r : Thread E × MultiNodeClient E W) × (step t s'.client ≡ some r))
  Steps-never_panics s s' n k t some_node returns started steps found =
      let (h, same) =
        Steps-InRange s s' n (Started-InRange (length s.client.nodes) s.threads started) steps in
      let left : s'.client.nodes ≢ [] = λ e. some_node (sym (Perm.nil-eq (rw e at same))) in
      let still = Steps-AllReturn s s' n returns steps in
      let here = All_at (InRange (length s'.client.nodes)) s'.threads k t h found in
      (
        same,
        elim (Option-cases (step t s'.client)) [
          | inl stuck ↦ absurd (step-ne-none t s'.client left still here stuck)
          | inr (r, e) ↦ (r, e)
        ],
      )
