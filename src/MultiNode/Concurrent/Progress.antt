-- ===== src/MultiNode/Concurrent/Progress.antt =====
-- Every mixture of steps ends.
use eth_proxy.Prelude.{
  ℕ, zero, suc, ◌+◌, ◌-◌, ◌<◌, ◌≤◌, ◌≡◌, refl, ap, sym, ◌∙◌, false, List, [], ◌∷◌, none, some, pure,
  ◌>>=◌, length, get_elem?, set, arith, >>=-eq-some,
}
use mathlib.Core.List.{Perm, foldr}
use native.Mathlib.Nat.{ℕ_set}
use mathlib.Core.List.Perm
use eth_proxy.Ethereum.{Ethereum}
use eth_proxy.MultiNode.{MultiNodeClient, increase_node_priority}
use eth_proxy.MultiNode.Reorder.{increase-Reordered, Reordered}
use eth_proxy.MultiNode.Concurrent.{
  Thread, looping, raising, finished, asking, reported, is_done, step, System, Step, by_thread,
  Steps, no_step, then_step,
}

length-foldr : {A : Type 0} (xs : List A) → foldr (λ _ n. suc n) 0 xs ≡ length xs
length-foldr [] = refl
length-foldr (x ∷ xs) = ap suc (length-foldr xs)

pub length-perm : {A : Type 0} {xs ys : List A} → Perm xs ys → length xs ≡ length ys
length-perm {xs} {ys} p =
    sym (length-foldr xs) ∙ Perm.foldr-eq ℕ_set (λ _ n. suc n) (λ a b n. refl) p 0 ∙ length-foldr ys

-- The steps that a call has left, at most, where there are `n` nodes.
abbrev pub left : {E : Ethereum} → ℕ → Thread E → ℕ
left n (looping j i last) = (n - i) + 2
left n (raising j i id a) = 1
left n (finished j r) = 0
left n (asking i heights err_str) = (n - i) + 1
left n (reported r) = 0

abbrev pub total_left : {E : Ethereum} → ℕ → List (Thread E) → ℕ
total_left n [] = 0
total_left n (t ∷ ts) = left n t + total_left n ts

total_left-set :
    {E : Ethereum} (n k : ℕ) (ts : List (Thread E)) (t t' : Thread E)
    → get_elem? ts k ≡ some t
    → left n t' < left n t
    → total_left n (set ts k t') < total_left n ts
total_left-set n k [] t t' found less = cc
total_left-set n zero (u ∷ ts) t t' found less =
    let same : u ≡ t = ground arith in let there : left n u ≡ left n t = rw same refl in omega arith
total_left-set n (suc k) (u ∷ ts) t t' found less =
    omega (arith, total_left-set n k ts t t' found less)

module _ {E : Ethereum} {W : Type 0} where
  -- A step of a call leaves the same nodes in the list, in some order.
  pub step-Reordered :
      (t t' : Thread E) (m m' : MultiNodeClient E W) → step t m ≡ some (t', m') → Reordered m' m
  step-Reordered (raising j i id a) t' m m' e =
      let whole : (increase_node_priority i id >>= λ _. pure (finished j (a, none))) m
          ≡ some (t', m') =
        unfold step in e in
      let (u, m'', raised, ends) =
        >>=-eq-some (increase_node_priority i id) (λ _. pure (finished j (a, none))) m whole in
      let same : m'' ≡ m' = ground arith in rw (← same) (increase-Reordered i id m m'' u raised)
  step-Reordered (finished j r) t' m m' e =
      let same : m'.nodes ≡ m.nodes = unfold step in ground arith in rw same (Perm.refl _)
  step-Reordered (reported r) t' m m' e =
      let same : m'.nodes ≡ m.nodes = unfold step in ground arith in rw same (Perm.refl _)
  step-Reordered (looping j i last) t' m m' e =
      let same : m'.nodes ≡ m.nodes = unfold step in ground arith in rw same (Perm.refl _)
  step-Reordered (asking i heights err_str) t' m m' e =
      let same : m'.nodes ≡ m.nodes = unfold step in ground arith in rw same (Perm.refl _)

  step-left :
      (t t' : Thread E) (m m' : MultiNodeClient E W)
      → is_done t ≡ false
      → step t m ≡ some (t', m')
      → left (length m.nodes) t' < left (length m.nodes) t
  unfolding step
  step-left (looping j i last) t' m m' busy e = ground arith
  step-left (raising j i id a) t' m m' busy e = ground arith
  step-left (finished j r) t' m m' busy e = cc
  step-left (asking i heights err_str) t' m m' busy e = ground arith
  step-left (reported r) t' m m' busy e = cc

  step-length :
      (t t' : Thread E) (m m' : MultiNodeClient E W)
      → step t m ≡ some (t', m')
      → length m'.nodes ≡ length m.nodes
  step-length t t' m m' e = length-perm (step-Reordered t t' m m' e)

  Step-total_left :
      (s s' : System E W)
      → Step s s'
      → (length s'.client.nodes ≡ length s.client.nodes)
        × (total_left (length s.client.nodes) s'.threads
            < total_left (length s.client.nodes) s.threads)
  Step-total_left s s' (by_thread k t t' m' found busy e) = (
    step-length t t' s.client m' e,
    total_left-set (length s.client.nodes) k s.threads t t' found
        (step-left t t' s.client m' busy e),
  )

  -- However the steps of the calls are mixed, the list keeps its length, and there are at most as
  -- many steps as the calls have left at the start: for a call at its start, two more than there
  -- are nodes, or one more if it is one of `BlockNumber`.
  pub Steps-total_left :
      (s s' : System E W) (n : ℕ)
      → Steps s n s'
      → (length s'.client.nodes ≡ length s.client.nodes)
        × (n + total_left (length s.client.nodes) s'.threads
            ≤ total_left (length s.client.nodes) s.threads)
  Steps-total_left s s' zero no_step = (refl, omega arith)
  Steps-total_left s s'' (suc n) (then_step {s'} steps one) =
      let (same, less) = Steps-total_left s s' n steps in
      let (same', less') = Step-total_left s' s'' one in
      let size = length s.client.nodes in
      let less'' : total_left size s''.threads < total_left size s'.threads = rw (← same) less' in
      (same' ∙ same, omega arith)
