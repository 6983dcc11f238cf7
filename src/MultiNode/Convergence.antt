-- ===== src/MultiNode/Convergence.antt =====
-- Failing nodes sink: a node that answers reaches the front, one place for each call.
use eth_proxy.Prelude.{
  ℕ, zero, suc, ◌+◌, ◌≡◌, refl, ap, ◌∙◌, String, List, [], ◌∷◌, ◌++◌, Option, none, some, Run, pure,
  ◌>>=◌, length, length-append, append_assoc, arith, All, inl, inr,
}
use eth_proxy.Prelude.Positions.{snoc_cases, All-front}
use eth_proxy.Ethereum.{Ethereum, SimpleEthClient}
use eth_proxy.MultiNode.{Item, MultiNodeClient, multi_call}
use eth_proxy.MultiNode.Priority.{bump}
use eth_proxy.MultiNode.Failover.{Fails, done, more, multi_call_hit}

bump-snoc :
    {A : Type 0} (pre : List A) (y x : A) (post : List A)
    → bump (pre ++ y ∷ []) x post ≡ pre ++ x ∷ y ∷ post
bump-snoc [] y x post = refl
bump-snoc (p ∷ []) y x post = refl
bump-snoc (p ∷ q ∷ pre) y x post = ap (λ l. p ∷ l) (bump-snoc (q ∷ pre) y x post)

module _ {E : Ethereum} {W : Type 0} {A : Type 0}
    (call : SimpleEthClient E W → Run W (A × Option String)) (zero_value : A) where
  -- Whenever it is called, a node fails, and whenever it is called, a node answers.
  abbrev pub Down : Item E W → Type 0
  Down x = (w : W) → (a : A) × (e : String) × (v : W) × (call x.client w ≡ some ((a, some e), v))

  abbrev pub Up : Item E W → Type 0
  Up x = (w : W) → (a : A) × (v : W) × (call x.client w ≡ some ((a, none), v))

  -- The client after a number of calls, one after the other.
  unfoldable pub after_calls : ℕ → Run (MultiNodeClient E W) (Unit {0})
  unfolding multi_call
  after_calls zero = pure tt
  after_calls (suc n) = multi_call call zero_value >>= λ _. after_calls n

  after_calls-step :
      (n : ℕ) (m m' : MultiNodeClient E W) (r : A × Option String)
      → multi_call call zero_value m ≡ some (r, m')
      → after_calls (suc n) m ≡ after_calls n m'
  after_calls-step n m m' r e = unfold after_calls in rw (e, ◌>>=◌)

  All-fail :
      (before : A × Option String) (xs : List (Item E W)) (w : W)
      → All Down xs
      → (last : A × Option String) × (v : W) × Fails call before xs w last v
  All-fail before [] w h = (before, w, done)
  All-fail before (x ∷ xs) w (down, h) =
      let (a, e, v, failed) = down w in
      let (last, u, fails) = All-fail (a, some e) xs v h in (last, u, more failed fails)

  one_call :
      (failing post : List (Item E W)) (x : Item E W) (w : W)
      → All Down failing
      → Up x
      → (r : A × Option String) × (u : W) × (multi_call call zero_value
            (record { nodes = failing ++ x ∷ post; world = w })
          ≡ some (r, record { nodes = bump failing x post; world = u }))
  one_call failing post x w h up =
      let (last, v, fails) = All-fail (zero_value, none) failing w h in
      let (a, u, answers) = up v in
      (
        (a, none),
        u,
        multi_call_hit call zero_value (record { nodes = failing ++ x ∷ post; world = w }) failing
            post x last v u a refl fails answers,
      )

  round :
      (n : ℕ) (front post : List (Item E W)) (y x : Item E W) (w : W)
      → All Down (front ++ y ∷ [])
      → Up x
      → ((u : W)
          → (v : W) × (after_calls n (record { nodes = front ++ x ∷ y ∷ post; world = u })
              ≡ some (tt, record { nodes = x ∷ front ++ y ∷ post; world = v })))
      → (v : W) × (after_calls (suc n) (record { nodes = (front ++ y ∷ []) ++ x ∷ post; world = w })
          ≡ some (tt, record { nodes = x ∷ (front ++ y ∷ []) ++ post; world = v }))
  round n front post y x w h up later =
      let (r, u, called) = one_call (front ++ y ∷ []) post x w h up in
      let (v, rest) = later u in
      (v, after_calls-step n _ _ r called ∙ rw (bump-snoc front y x post, append_assoc) rest)

  converges :
      (n : ℕ) (failing post : List (Item E W)) (x : Item E W) (w : W)
      → length failing ≡ n
      → All Down failing
      → Up x
      → (u : W) × (after_calls n (record { nodes = failing ++ x ∷ post; world = w })
          ≡ some (tt, record { nodes = x ∷ failing ++ post; world = u }))
  converges zero [] post x w size h up = (w, unfold after_calls in refl)
  converges zero (y ∷ failing) post x w size h up = absurd (omega arith)
  converges (suc n) failing post x w size h up = elim (snoc_cases failing) [
    | inl nothing ↦ absurd (let none_left : length failing ≡ 0 = rw nothing refl in omega arith)
    | inr (front, y, whole) ↦
        let fails : All Down (front ++ y ∷ []) = rw (← whole) h in
        let fewer : length failing ≡ length front + 1 = rw whole (length-append front (y ∷ [])) in
        rw whole (
          round n front post y x w fails up λ u.
            converges n front (y ∷ post) x u (omega arith) (All-front Down front (y ∷ []) fails) up)
  ]

  -- If the nodes before one fail whenever they are called, and that one answers whenever it is called,
  -- then as many calls as there are nodes before it bring it to the front of the list, and leave the
  -- others in their order.
  pub multi_call_converges :
      (failing post : List (Item E W)) (x : Item E W) (w : W)
      → All Down failing
      → Up x
      → (u : W) × (after_calls (length failing) (record { nodes = failing ++ x ∷ post; world = w })
          ≡ some (tt, record { nodes = x ∷ failing ++ post; world = u }))
  multi_call_converges failing post x w h up = converges (length failing) failing post x w refl h up
