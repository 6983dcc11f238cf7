-- ===== src/MultiNode/Priority.antt =====
-- `increaseNodePriority` on a node that is where it was.
use eth_proxy.Prelude.{
  ℕ, suc, ◌-◌, ◌≡◌, refl, ap, ◌∙◌, true, String, List, [], ◌∷◌, ◌++◌, some, length, get_elem?, set,
  get_elem?-append_length, str_eq, arith,
}
use mathlib.Core.List.{Perm}
use mathlib.Core.List.Perm
use text.Mathlib.TextPositions.{eq_refl}
use eth_proxy.Ethereum.{Ethereum}
use eth_proxy.MultiNode.{Item, MultiNodeClient, swap_up, increase_node_priority}

-- The element `x` behind `pre` and before `post`, one place up.
abbrev pub bump {ℓ} : {A : Type ℓ} → List A → A → List A → List A
bump [] x post = x ∷ post
bump (p ∷ []) x post = x ∷ p ∷ post
bump (p ∷ q ∷ pre) x post = p ∷ bump (q ∷ pre) x post

module _ {ℓ} {A : Type ℓ} where
  pub bump-perm : (pre : List A) (x : A) (post : List A) → Perm (bump pre x post) (pre ++ x ∷ post)
  bump-perm [] x post = Perm.refl _
  bump-perm (p ∷ []) x post = Perm.swap p x post
  bump-perm (p ∷ q ∷ pre) x post = Perm.cons p (bump-perm (q ∷ pre) x post)

  -- The element before `x`, where there is one.
  last_of : A → List A → A
  last_of p [] = p
  last_of p (q ∷ pre) = last_of q pre

  get_elem?-last_of :
      (p : A) (pre ys : List A) → get_elem? (p ∷ pre ++ ys) (length pre) ≡ some (last_of p pre)
  unfolding last_of
  get_elem?-last_of p [] ys = refl
  get_elem?-last_of p (q ∷ pre) ys = get_elem?-last_of q pre ys

  set-bump :
      (p : A) (pre : List A) (x : A) (post : List A)
      → set (set (p ∷ pre ++ x ∷ post) (length pre) x) (suc (length pre)) (last_of p pre)
        ≡ bump (p ∷ pre) x post
  unfolding last_of
  set-bump p [] x post = refl
  set-bump p (q ∷ pre) x post = ap (λ l. p ∷ l) (set-bump q pre x post)

module _ {E : Ethereum} {W : Type 0} where
  swap_up-bump :
      (p : Item E W) (pre : List (Item E W)) (x : Item E W) (post : List (Item E W)) (w : W)
      → swap_up (suc (length pre)) x (record { nodes = p ∷ pre ++ x ∷ post; world = w })
        ≡ some (tt, record { nodes = bump (p ∷ pre) x post; world = w })
  unfolding swap_up
  swap_up-bump p pre x post w =
      let before : suc (length pre) - 1 ≡ length pre = omega arith in
      rw (before, get_elem?-last_of p pre (x ∷ post), swap_up) (rw (before, set-bump p pre x post))

  pub increase_at :
      (n : ℕ) (x : Item E W) (id : String) (m : MultiNodeClient E W)
      → get_elem? m.nodes (suc n) ≡ some x
      → str_eq x.id id ≡ true
      → increase_node_priority (suc n) id m ≡ swap_up (suc n) x m
  increase_at n x id m found same = unfold increase_node_priority in ground arith

  -- A node that still stands behind `pre` is moved up one place, and nothing else moves.
  pub increase_node_priority-bump :
      (pre : List (Item E W)) (x : Item E W) (post : List (Item E W)) (w : W)
      → increase_node_priority (length pre) x.id (record { nodes = pre ++ x ∷ post; world = w })
        ≡ some (tt, record { nodes = bump pre x post; world = w })
  increase_node_priority-bump [] x post w = unfold increase_node_priority in refl
  increase_node_priority-bump (p ∷ pre) x post w =
      increase_at (length pre) x x.id _ (get_elem?-append_length pre x post) (eq_refl x.id)
      ∙ swap_up-bump p pre x post w
